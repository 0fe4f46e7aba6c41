-- ===== src/Console/Tests.antt =====
-- A screen with one character, and concrete calls.
use os_p.Base.{ℕ, zero, suc, ◌%◌, refl, false, [], ◌∷◌, some, ◌==◌, if◌then◌else◌, arith}
use os_p.Base.Int.{pos}
use os_p.Console.{Console, init_console_driver, putbytes, newline}
use os_p.Console.Display.{Display, Shows, type_text}
use os_p.Console.Typed.{putbytes-Shows}
use os_p.Console.Cursor.{put_bytes, go_to, hide, reveal, run_calls, Synced, run_calls-Synced}

-- Every cell holds `A` in the color 7.
abbrev letters : ℕ → ℕ
letters x = if x % 2 == 0 then 65 else 7

abbrev screen : Console
screen = record {
  mem = letters;
  term_color = 7;
  logical_cursor = 1999;
  is_hidden = false;
  crtc_lsb = 207;
  crtc_msb = 7;
}

abbrev full : Display
full = record { picture = record { glyph = λ r k. 65; color = λ r k. 7 }; row = 24; col = 79 }

-- `B` and a newline.
abbrev text : ℕ → ℕ
text zero = 66
text (suc n) = newline

screen-Shows : Shows letters false 7 screen full
screen-Shows = record {
  holds = record { glyphs = λ r k a b. ground arith; colors = λ r k a b. ground arith };
  cursor = refl;
  row_lt = omega arith;
  col_lt = omega arith;
  color_kept = refl;
  hidden_kept = refl;
  outside = λ x h. refl;
}

putbytes-Shows_example :
    Shows letters false 7 (putbytes (some text) (pos 2) screen) (type_text 2 0 text 7 full)
putbytes-Shows_example = putbytes-Shows text (pos 2) screen full screen-Shows

run_calls-Synced_example : Synced (
    run_calls
      (go_to (pos 24) (pos 79) ∷ put_bytes (some text) (pos 2) ∷ hide ∷ reveal ∷ [])
      (init_console_driver letters 0 0))
run_calls-Synced_example =
    run_calls-Synced (go_to (pos 24) (pos 79) ∷ put_bytes (some text) (pos 2) ∷ hide ∷ reveal ∷ [])
      letters 0 0 (omega arith) (omega arith)
