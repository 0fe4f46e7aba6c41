-- ===== src/Console/Pictures.antt =====
-- A write to a cell and a scroll of the screen, on the video memory and on the picture.
use os_p.Base.{
  ℕ, suc, ◌+◌, ◌-◌, ◌*◌, ◌%◌, ◌<◌, ◌≡◌, inl, inr, ltb, leb, ◌==◌, ◌&&◌, if◌then◌else◌, arith,
  Bool-cases,
}
use os_p.Console.{Console, put_cell, copy_loop, scrollup, space}
use os_p.Console.Scroll.{copy_loop-copies, blank_loop-blanks}
use os_p.Console.Display.{Picture, put, scrolled, Holds}

pub put-Holds :
    (m : ℕ → ℕ) (p : Picture) (row col ch color : ℕ)
    → Holds m p
    → row < 25
    → col < 80
    → Holds (put_cell m (row * 80 + col) ch color) (put row col ch color p)
put-Holds m p row col ch color h a b = record {
  glyphs = λ r k x y. ground (arith, h.glyphs r k x y);
  colors = λ r k x y. ground (arith, h.colors r k x y);
}

pub scrollup_mem :
    (c : Console) (x : ℕ)
    → (scrollup c).mem x ≡ (
        if leb 3840 x && ltb x 4000
        then (if (x - 3840) % 2 == 0 then space else c.term_color)
        else if ltb x 3840
        then c.mem (x + 160)
        else c.mem x)
unfolding scrollup
scrollup_mem c x = ground (
  arith,
  blank_loop-blanks 80 3840 c.term_color (copy_loop 1920 0 c.mem) x,
  copy_loop-copies 1920 0 c.mem x,
)

pub scrollup-Holds :
    (c : Console) (p : Picture) → Holds c.mem p → Holds (scrollup c).mem (scrolled c.term_color p)
scrollup-Holds c p h = record { glyphs = glyphs_lem; colors = colors_lem }
  where
    glyphs_lem :
        (r k : ℕ)
        → r < 25
        → k < 80
        → (scrollup c).mem (2 * (r * 80 + k)) ≡ (if ltb r 24 then p.glyph (suc r) k else space)
    glyphs_lem r k x y = elim (Bool-cases (ltb r 24)) [
      | inl e ↦
          let at : 2 * (r * 80 + k) + 160 ≡ 2 * (suc r * 80 + k) = omega arith in
          let g : c.mem (2 * (suc r * 80 + k)) ≡ p.glyph (suc r) k =
            h.glyphs (suc r) k (ground (arith, e)) y in
          rw (e, scrollup_mem c (2 * (r * 80 + k))) (ground (arith, at, g, e))
      | inr e ↦ rw (e, scrollup_mem c (2 * (r * 80 + k))) (ground (arith, e, x, y))
    ]

    colors_lem :
        (r k : ℕ)
        → r < 25
        → k < 80
        → (scrollup c).mem (2 * (r * 80 + k) + 1)
          ≡ (if ltb r 24 then p.color (suc r) k else c.term_color)
    colors_lem r k x y = elim (Bool-cases (ltb r 24)) [
      | inl e ↦
          let at : 2 * (r * 80 + k) + 1 + 160 ≡ 2 * (suc r * 80 + k) + 1 = omega arith in
          let g : c.mem (2 * (suc r * 80 + k) + 1) ≡ p.color (suc r) k =
            h.colors (suc r) k (ground (arith, e)) y in
          rw (e, scrollup_mem c (2 * (r * 80 + k) + 1)) (ground (arith, at, g, e))
      | inr e ↦ rw (e, scrollup_mem c (2 * (r * 80 + k) + 1)) (ground (arith, e, x, y))
    ]
