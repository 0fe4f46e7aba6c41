-- ===== src/Console/Display.antt =====
-- The screen as a user sees it, by rows and columns, and what `putbytes` shows on it.
use os_p.Base.{ℕ, zero, suc, ◌+◌, ◌-◌, ◌*◌, ◌≤◌, ◌<◌, ◌≡◌, Bool, ltb, ◌==◌, ◌&&◌, if◌then◌else◌}
use os_p.Console.{Console, space, newline, carriage_return, backspace}

pub record Picture : Type 0 where
  pub glyph : ℕ → ℕ → ℕ
  pub color : ℕ → ℕ → ℕ

pub record Display : Type 0 where
  pub picture : Picture
  pub row : ℕ
  pub col : ℕ

abbrev pub put : ℕ → ℕ → ℕ → ℕ → Picture → Picture
put row col ch color p = record {
  glyph = λ r k. if r == row && k == col then ch else p.glyph r k;
  color = λ r k. if r == row && k == col then color else p.color r k;
}

-- Each row moves up by one, and the last becomes blank.
abbrev pub scrolled : ℕ → Picture → Picture
scrolled color p = record {
  glyph = λ r k. if ltb r 24 then p.glyph (suc r) k else space;
  color = λ r k. if ltb r 24 then p.color (suc r) k else color;
}

-- To the start of the next row; on the last row the screen scrolls.
abbrev pub next_row : ℕ → Display → Display
next_row color d =
    if d.row == 24
    then record { picture = scrolled color d.picture; row = 24; col = 0 }
    else record { picture = d.picture; row = d.row + 1; col = 0 }

abbrev pub erased : ℕ → Display → Display
erased color d =
    if ltb 0 d.col
    then record {
      picture = put d.row (d.col - 1) space color d.picture;
      row = d.row;
      col = d.col - 1;
    }
    else d

abbrev pub written : ℕ → ℕ → Display → Display
written ch color d =
    let shown = put d.row d.col ch color d.picture in
    if d.col == 79
    then next_row color (record d { picture = shown })
    else record { picture = shown; row = d.row; col = d.col + 1 }

unfoldable pub type_char : ℕ → ℕ → Display → Display
type_char ch color d =
    if ch == newline
    then next_row color d
    else if ch == carriage_return
    then record d { col = 0 }
    else if ch == backspace
    then erased color d
    else written ch color d

unfoldable pub type_text : (n i : ℕ) → (ℕ → ℕ) → ℕ → Display → Display
type_text zero i s color d = d
type_text (suc n) i s color d = type_text n (i + 1) s color (type_char (s i) color d)

-- The video memory holds the picture.
pub record Holds (m : ℕ → ℕ) (p : Picture) : Type 0 where
  pub glyphs : (r k : ℕ) → r < 25 → k < 80 → m (2 * (r * 80 + k)) ≡ p.glyph r k
  pub colors : (r k : ℕ) → r < 25 → k < 80 → m (2 * (r * 80 + k) + 1) ≡ p.color r k

-- The console shows the display; only video memory differs from `m`.
pub record Shows (m : ℕ → ℕ) (hidden : Bool) (color : ℕ) (c : Console) (d : Display) : Type 0 where
  pub holds : Holds c.mem d.picture
  pub cursor : c.logical_cursor ≡ d.row * 80 + d.col
  pub row_lt : d.row < 25
  pub col_lt : d.col < 80
  pub color_kept : c.term_color ≡ color
  pub hidden_kept : c.is_hidden ≡ hidden
  pub outside : (x : ℕ) → 4000 ≤ x → c.mem x ≡ m x
