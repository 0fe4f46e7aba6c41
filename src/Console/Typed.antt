-- ===== src/Console/Typed.antt =====
-- The code of `putbyte` and `putbytes` shows what the display says.
use os_p.Base.{
  ℕ, zero, suc, ◌+◌, ◌-◌, ◌*◌, ◌/◌, ◌%◌, ◌≤◌, ◌<◌, ◌≡◌, inl, inr, refl, ◌∙◌, sym, Bool, true, false,
  not, ltb, ◌==◌, if◌then◌else◌, arith, some, Bool-cases, subst,
}
use os_p.Base.Int.{ℤ, pos_part}
use os_p.Console.{
  Console, put_cell, scrollup, space, newline, carriage_return, backspace, move_cursor, line_feed,
  erase, put_char, print, show_at, set_hardware_cursor, putbyte, putbytes_loop, putbytes,
}
use os_p.Console.Pictures.{put-Holds, scrollup_mem, scrollup-Holds}
use os_p.Console.Display.{
  Picture, Display, put, scrolled, next_row, erased, written, type_char, type_text, Holds, Shows,
}

module _ (m : ℕ → ℕ) (hidden : Bool) (color : ℕ) where
  -- The picture is replaced and the cursor moved.
  placed :
      (c e : Console) (d : Display) (p : Picture) (row col : ℕ)
      → Shows m hidden color c d
      → Holds e.mem p
      → e.logical_cursor ≡ row * 80 + col
      → row < 25
      → col < 80
      → e.term_color ≡ c.term_color
      → e.is_hidden ≡ c.is_hidden
      → ((x : ℕ) → 4000 ≤ x → e.mem x ≡ c.mem x)
      → Shows m hidden color e (record { picture = p; row = row; col = col })
  placed c e d p row col h g at a b q r o = record {
    holds = g;
    cursor = at;
    row_lt = a;
    col_lt = b;
    color_kept = q ∙ h.color_kept;
    hidden_kept = r ∙ h.hidden_kept;
    outside = λ x y. o x y ∙ h.outside x y;
  }

  scroll_outside : (c : Console) (x : ℕ) → 4000 ≤ x → (scrollup c).mem x ≡ c.mem x
  scroll_outside c x y = rw (scrollup_mem c x) (ground (arith, y))

  row_of : (c : Console) (d : Display) → Shows m hidden color c d → c.logical_cursor / 80 ≡ d.row
  row_of c d h = omega (arith, h.cursor, h.col_lt)

  col_of : (c : Console) (d : Display) → Shows m hidden color c d → c.logical_cursor % 80 ≡ d.col
  col_of c d h = omega (arith, h.cursor, h.col_lt)

  scrolls :
      (c : Console) (d : Display)
      → Shows m hidden color c d
      → d.row ≡ 24
      → Shows m hidden color
          (move_cursor (c.logical_cursor / 80 * 80 + 0) (scrollup c))
          (record { picture = scrolled color d.picture; row = 24; col = 0 })
  unfolding scrollup
  scrolls c d h l =
      let r : c.logical_cursor / 80 ≡ d.row = row_of c d h in
      let g : Holds (scrollup c).mem (scrolled c.term_color d.picture) =
        scrollup-Holds c d.picture h.holds in
      placed c (move_cursor (c.logical_cursor / 80 * 80 + 0) (scrollup c)) d
        (scrolled color d.picture) 24 0 h
        (subst (λ (z : ℕ). Holds (scrollup c).mem (scrolled z d.picture)) h.color_kept g)
        (omega (arith, r, l)) (omega arith) (omega arith) refl refl (scroll_outside c)

  line_feed-Shows :
      (c : Console) (d : Display)
      → Shows m hidden color c d
      → Shows m hidden color (line_feed c) (next_row color d)
  unfolding line_feed
  line_feed-Shows c d h =
      let r : c.logical_cursor / 80 ≡ d.row = row_of c d h in
      elim (Bool-cases (d.row == 24)) [
        | inl e ↦
            let t : (c.logical_cursor / 80 == 25 - 1) ≡ true = ground (arith, e, r) in
            rw (t, e) (scrolls c d h (ground (arith, e)))
        | inr e ↦
            let t : (c.logical_cursor / 80 == 25 - 1) ≡ false = ground (arith, e, r) in
            rw (t, e)
              (placed c (move_cursor ((c.logical_cursor / 80 + 1) * 80 + 0) c) d d.picture
                (d.row + 1) 0 h h.holds (omega (arith, r)) (ground (arith, e, h.row_lt))
                (omega arith) refl refl (λ x y. refl))
      ]

  line_start-Shows :
      (c : Console) (d : Display)
      → Shows m hidden color c d
      → Shows m hidden color (move_cursor (c.logical_cursor / 80 * 80 + 0) c) (record d { col = 0 })
  line_start-Shows c d h =
      placed c (move_cursor (c.logical_cursor / 80 * 80 + 0) c) d d.picture d.row 0 h h.holds
        (omega (arith, row_of c d h)) h.row_lt (omega arith) refl refl (λ x y. refl)

  put_here :
      (c : Console) (d : Display) (offset row col ch : ℕ)
      → Shows m hidden color c d
      → offset ≡ row * 80 + col
      → row < 25
      → col < 80
      → Holds (put_cell c.mem offset ch c.term_color) (put row col ch color d.picture)
  put_here c d offset row col ch h e a b =
      let g : Holds (put_cell c.mem (row * 80 + col) ch c.term_color)
          (put row col ch c.term_color d.picture) =
        put-Holds c.mem d.picture row col ch c.term_color h.holds a b in
      let g2 : Holds (put_cell c.mem offset ch c.term_color)
          (put row col ch c.term_color d.picture) =
        subst
          (λ (z : ℕ).
            Holds (put_cell c.mem z ch c.term_color) (put row col ch c.term_color d.picture))
          (sym e) g in
      subst (λ (z : ℕ). Holds (put_cell c.mem offset ch c.term_color) (put row col ch z d.picture))
        h.color_kept g2

  put_outside :
      (c : Console) (offset ch x : ℕ)
      → offset < 2000
      → 4000 ≤ x
      → put_cell c.mem offset ch c.term_color x ≡ c.mem x
  put_outside c offset ch x a b = ground (arith, a, b)

  erase-Shows :
      (c : Console) (d : Display)
      → Shows m hidden color c d
      → Shows m hidden color (erase c) (erased color d)
  unfolding erase
  erase-Shows c d h =
      let k : c.logical_cursor % 80 ≡ d.col = col_of c d h in
      elim (Bool-cases (ltb 0 d.col)) [
        | inl e ↦
            let t : ltb 0 (c.logical_cursor % 80) ≡ true = ground (arith, e, k) in
            let at : c.logical_cursor - 1 ≡ d.row * 80 + (d.col - 1) =
              ground (arith, e, h.cursor) in
            let b : d.col - 1 < 80 = omega (arith, h.col_lt) in
            rw (t, e)
              (placed c
                (record c {
                  logical_cursor = c.logical_cursor - 1;
                  mem = put_cell c.mem (c.logical_cursor - 1) space c.term_color;
                })
                d (put d.row (d.col - 1) space color d.picture) d.row (d.col - 1) h
                (put_here c d (c.logical_cursor - 1) d.row (d.col - 1) space h at h.row_lt b) at
                h.row_lt b refl refl
                (λ x y.
                  put_outside c (c.logical_cursor - 1) space x (omega (arith, at, b, h.row_lt)) y))
        | inr e ↦ rw (k, e) h
      ]

  put_char-Shows :
      (ch : ℕ) (c : Console) (d : Display)
      → Shows m hidden color c d
      → Shows m hidden color (put_char ch c) (written ch color d)
  unfolding put_char
  put_char-Shows ch c d h =
      let offset = c.logical_cursor in
      let after : Console = record c { mem = put_cell c.mem offset ch c.term_color } in
      let shown = put d.row d.col ch color d.picture in
      let lt : offset < 2000 = omega (arith, h.cursor, h.row_lt, h.col_lt) in
      let put_it : Shows m hidden color after
          (record { picture = shown; row = d.row; col = d.col }) =
        placed c after d shown d.row d.col h
          (put_here c d offset d.row d.col ch h h.cursor h.row_lt h.col_lt) h.cursor h.row_lt
          h.col_lt refl refl (λ x y. put_outside c offset ch x lt y) in
      elim (Bool-cases (d.col == 79)) [
        | inl e ↦ elim (Bool-cases (d.row == 24)) [
          | inl f ↦
              let t : (offset == 25 * 80 - 1) ≡ true = ground (arith, e, f, h.cursor) in
              rw (t, e, f)
                (scrolls after (record { picture = shown; row = d.row; col = d.col }) put_it
                  (ground (arith, f)))
          | inr f ↦
              let t : (offset == 25 * 80 - 1) ≡ false =
                ground (arith, f, h.cursor, h.row_lt, h.col_lt) in
              rw (t, e, f)
                (placed after (move_cursor (offset + 1) after)
                  (record { picture = shown; row = d.row; col = d.col }) shown (d.row + 1) 0 put_it
                  put_it.holds (ground (arith, e, h.cursor)) (ground (arith, f, h.row_lt))
                  (omega arith) refl refl (λ x y. refl))
        ]
        | inr e ↦
            let t : (offset == 25 * 80 - 1) ≡ false =
              ground (arith, e, h.cursor, h.row_lt, h.col_lt) in
            rw (t, e)
              (placed after (move_cursor (offset + 1) after)
                (record { picture = shown; row = d.row; col = d.col }) shown d.row (d.col + 1)
                put_it put_it.holds (omega (arith, h.cursor)) h.row_lt (ground (arith, e, h.col_lt))
                refl refl (λ x y. refl))
      ]

  show_at-Shows :
      (c : Console) (d : Display) → Shows m hidden color c d → Shows m hidden color (show_at c) d
  unfolding show_at set_hardware_cursor
  show_at-Shows c d h =
      elim c.is_hidden
        as (λ b.
          Shows m hidden color (if not b then set_hardware_cursor c.logical_cursor c else c) d) [
            | true ↦ h
            | false ↦ record {
              holds = h.holds;
              cursor = h.cursor;
              row_lt = h.row_lt;
              col_lt = h.col_lt;
              color_kept = h.color_kept;
              hidden_kept = h.hidden_kept;
              outside = h.outside;
            }
          ]

  putbyte-Shows :
      (ch : ℕ) (c : Console) (d : Display)
      → Shows m hidden color c d
      → Shows m hidden color (putbyte ch c) (type_char ch color d)
  unfolding putbyte print type_char
  putbyte-Shows ch c d h = show_at-Shows (print ch c) (type_char ch color d) shown
    where
      shown : Shows m hidden color (print ch c) (type_char ch color d)
      shown = elim (Bool-cases (ch == newline)) [
        | inl e ↦ rw (e) (line_feed-Shows c d h)
        | inr e ↦ elim (Bool-cases (ch == carriage_return)) [
          | inl f ↦ rw (e, f) (line_start-Shows c d h)
          | inr f ↦ elim (Bool-cases (ch == backspace)) [
            | inl g ↦ rw (e, f, g) (erase-Shows c d h)
            | inr g ↦ rw (e, f, g) (put_char-Shows ch c d h)
          ]
        ]
      ]

  text-Shows :
      (n i : ℕ) (s : ℕ → ℕ) (c : Console) (d : Display)
      → Shows m hidden color c d
      → Shows m hidden color (putbytes_loop n i s c) (type_text n i s color d)
  unfolding putbytes_loop type_text
  text-Shows zero i s c d h = h
  text-Shows (suc n) i s c d h =
      text-Shows n (i + 1) s (putbyte (s i) c) (type_char (s i) color d) (putbyte-Shows (s i) c d h)

-- If the video memory shows a display of 25 rows of 80 columns with the cursor on it, then after
-- putbytes of any bytes it shows the display with those bytes typed one after another: newline,
-- carriage return and backspace move the cursor, a row that is full goes on in the next, and past
-- the last row all rows move up by one. No byte outside the video memory changes, and neither do
-- the current color and whether the cursor is hidden.
pub putbytes-Shows :
    (s : ℕ → ℕ) (len : ℤ) (c : Console) (d : Display)
    → Shows c.mem c.is_hidden c.term_color c d
    → Shows c.mem c.is_hidden c.term_color
        (putbytes (some s) len c)
        (type_text (pos_part len) 0 s c.term_color d)
unfolding putbytes
putbytes-Shows s len c d h = text-Shows c.mem c.is_hidden c.term_color (pos_part len) 0 s c d h
