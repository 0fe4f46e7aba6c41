-- ===== src/Console/Cursor.antt =====
-- The cursor and single characters: where calls of the driver leave the cursor and its hardware registers,
-- and what is read back.
use os_p.Base.{
  ℕ, zero, suc, ◌+◌, ◌*◌, ◌/◌, ◌%◌, ◌≤◌, ◌<◌, ◌≡◌, ◌⊎◌, inl, inr, refl, true, false, not, ◌&&◌,
  List, [], ◌∷◌, Option, none, some, ltb, if◌then◌else◌, arith, Bool-cases,
}
use os_p.Base.Int.{ℤ, pos, negsuc, pos_part, eqb_ℤ}
use os_p.Console.{
  Console, scrollup, move_cursor, line_feed, erase, put_char, print, show_at, set_hardware_cursor,
  putbyte, putbytes_loop, putbytes, draw_char, get_char, set_term_color, set_cursor, get_cursor,
  hide_cursor, show_cursor, clear_console, init_console_driver, check_row, check_col, check_color,
}

-- A call of the driver.
pub data Call : Type 0 where
  put_bytes : Option (ℕ → ℕ) → ℤ → Call
  draw : ℤ → ℤ → ℕ → ℤ → Call
  use_color : ℤ → Call
  go_to : ℤ → ℤ → Call
  hide : Call
  reveal : Call
  clear : Call

pub run_call : Call → Console → Console
run_call (put_bytes s len) c = putbytes s len c
run_call (draw row col ch color) c = draw_char row col ch color c
run_call (use_color color) c = (set_term_color color c).1
run_call (go_to row col) c = (set_cursor row col c).1
run_call hide c = hide_cursor c
run_call reveal c = show_cursor c
run_call clear c = clear_console c

pub run_calls : List Call → Console → Console
run_calls [] c = c
run_calls (x ∷ xs) c = run_calls xs (run_call x c)

-- The cursor is on the screen, and the hardware cursor with it, unless it is hidden.
pub record Synced (c : Console) : Type 0 where
  pub cursor_lt : c.logical_cursor < 2000
  pub shown : c.is_hidden ≡ false → c.crtc_msb * 256 + c.crtc_lsb ≡ c.logical_cursor
  pub hidden : c.is_hidden ≡ true → 2000 ≤ c.crtc_msb * 256 + c.crtc_lsb

-- What a change without the ports keeps.
record Keeps (c e : Console) : Type 0 where
  cursor_lt : e.logical_cursor < 2000
  same_hidden : e.is_hidden ≡ c.is_hidden
  same_lsb : e.crtc_lsb ≡ c.crtc_lsb
  same_msb : e.crtc_msb ≡ c.crtc_msb

print-Keeps : (ch : ℕ) (c : Console) → c.logical_cursor < 2000 → Keeps c (print ch c)
unfolding print line_feed scrollup erase put_char
print-Keeps ch c h = record {
  cursor_lt = ground (arith, h);
  same_hidden = ground arith;
  same_lsb = ground arith;
  same_msb = ground arith;
}

show_at-Synced : (c e : Console) → Synced c → Keeps c e → Synced (show_at e)
unfolding show_at set_hardware_cursor
show_at-Synced c e h k = record {
  cursor_lt = ground (arith, k.cursor_lt);
  shown = λ z. ground (arith, z, k.cursor_lt);
  hidden = λ z. ground (arith, z, k.same_hidden, k.same_lsb, k.same_msb, h.hidden);
}

putbytes_loop-Synced :
    (n i : ℕ) (s : ℕ → ℕ) (c : Console) → Synced c → Synced (putbytes_loop n i s c)
unfolding putbytes_loop putbyte
putbytes_loop-Synced zero i s c h = h
putbytes_loop-Synced (suc n) i s c h =
    putbytes_loop-Synced n (i + 1) s (putbyte (s i) c)
      (show_at-Synced c (print (s i) c) h (print-Keeps (s i) c h.cursor_lt))

same-Synced :
    (c e : Console) → Synced c → Keeps c e → e.logical_cursor ≡ c.logical_cursor → Synced e
same-Synced c e h k p = record {
  cursor_lt = k.cursor_lt;
  shown = λ z. ground (arith, h.shown, z, k.same_hidden, k.same_lsb, k.same_msb, p);
  hidden = λ z. ground (arith, h.hidden, z, k.same_hidden, k.same_lsb, k.same_msb);
}

set_cursor-Synced : (row col : ℤ) (c : Console) → Synced c → Synced (set_cursor row col c).1
unfolding set_cursor
set_cursor-Synced (negsuc n) col c h = h
set_cursor-Synced (pos r) (negsuc n) c h = elim (Bool-cases (ltb r 25)) [
  | inl e ↦ rw e h
  | inr e ↦ rw e h
]
set_cursor-Synced (pos r) (pos k) c h = elim (Bool-cases (ltb r 25 && ltb k 80)) [
  | inl e ↦ rw e (
      show_at-Synced c (move_cursor (r * 80 + k) c) h (record {
        cursor_lt = ground (arith, e);
        same_hidden = refl;
        same_lsb = refl;
        same_msb = refl;
      }))
  | inr e ↦ rw e h
]

run_call-Synced : (x : Call) (c : Console) → Synced c → Synced (run_call x c)
unfolding run_call putbytes draw_char set_term_color hide_cursor show_cursor clear_console
    set_hardware_cursor
run_call-Synced (put_bytes none len) c h = h
run_call-Synced (put_bytes (some s) len) c h = putbytes_loop-Synced (pos_part len) 0 s c h
run_call-Synced (draw row col ch color) c h =
    elim (Bool-cases (check_row row && check_col col && check_color color)) [
      | inl e ↦ rw e (record { cursor_lt = h.cursor_lt; shown = h.shown; hidden = h.hidden })
      | inr e ↦ rw e h
    ]
run_call-Synced (use_color color) c h =
    elim (check_color color)
      as (λ b.
        let r : ℤ × Console =
          if not b then (negsuc 0, c) else (pos 0, record c { term_color = pos_part color }) in
        Synced (r.1)) [
          | true ↦ record { cursor_lt = h.cursor_lt; shown = h.shown; hidden = h.hidden }
          | false ↦ h
        ]
run_call-Synced (go_to row col) c h = set_cursor-Synced row col c h
run_call-Synced hide c h = record {
  cursor_lt = h.cursor_lt;
  shown = λ z. absurd (true≢false z);
  hidden = λ z. omega arith;
}
  where
    true≢false : true ≡ false → ⊥
    true≢false z = cc
run_call-Synced reveal c h = record {
  cursor_lt = h.cursor_lt;
  shown = λ z. omega (arith, h.cursor_lt);
  hidden = λ z. absurd (false≢true z);
}
  where
    false≢true : false ≡ true → ⊥
    false≢true z = cc
run_call-Synced clear c h = record {
  cursor_lt = ground arith;
  shown = λ z. ground (arith, z);
  hidden = λ z. ground (arith, z, h.hidden);
}

all_calls-Synced : (xs : List Call) (c : Console) → Synced c → Synced (run_calls xs c)
unfolding run_calls
all_calls-Synced [] c h = h
all_calls-Synced (x ∷ xs) c h = all_calls-Synced xs (run_call x c) (run_call-Synced x c h)

-- From a start with the hardware cursor on the screen, after any sequence of calls of the driver
-- with any arguments the logical cursor is on the screen, the registers of the hardware cursor
-- hold it if it is shown, and they hold a position off the screen if it is hidden.
pub run_calls-Synced :
    (xs : List Call) (m : ℕ → ℕ) (lsb msb : ℕ)
    → lsb < 256
    → msb * 256 + lsb < 2000
    → Synced (run_calls xs (init_console_driver m lsb msb))
unfolding init_console_driver
run_calls-Synced xs m lsb msb a b =
    all_calls-Synced xs (init_console_driver m lsb msb)
      (record { cursor_lt = b; shown = λ z. refl; hidden = λ z. ground (arith, z) })

-- set_cursor either returns 0 and get_cursor then gives the row and the column that it was called
-- with, or it returns a negative number, changes nothing, and the row or the column is not on the
-- screen.
pub get_cursor-set_cursor :
    (row col : ℤ) (c : Console)
    → (((set_cursor row col c).0 ≡ pos 0) × (get_cursor (set_cursor row col c).1 ≡ (row, col)))
      ⊎ ((set_cursor row col c ≡ (negsuc 0, c)) × (check_row row && check_col col ≡ false))
unfolding set_cursor get_cursor show_at set_hardware_cursor
get_cursor-set_cursor (negsuc n) col c = inr (refl, refl)
get_cursor-set_cursor (pos r) (negsuc n) c = elim (Bool-cases (ltb r 25)) [
  | inl e ↦ rw e (inr (refl, refl))
  | inr e ↦ rw e (inr (refl, refl))
]
get_cursor-set_cursor (pos r) (pos k) c = elim (Bool-cases (ltb r 25 && ltb k 80)) [
  | inl e ↦
      let a : (r * 80 + k) / 80 ≡ r = ground (arith, e) in
      let b : (r * 80 + k) % 80 ≡ k = ground (arith, e) in rw e (inl (refl, ground (arith, a, b)))
  | inr e ↦ rw e (inr (refl, refl))
]

-- What is drawn on the screen in a valid color is read back at its place, and nothing else changes.
get_char-draw_char :
    (row col : ℤ) (r k ch : ℕ) (color : ℤ) (c : Console)
    → get_char row col (draw_char (pos r) (pos k) ch color c) ≡ (
        if eqb_ℤ row (pos r) && eqb_ℤ col (pos k) && ltb r 25 && ltb k 80 && check_color color
        then ch % 256
        else get_char row col c)
unfolding get_char draw_char
get_char-draw_char row col r k ch color c = ground arith
