-- ===== src/Console/Requests.antt =====
-- kern/smp_syscall_consoleio.c: the requests of worker cores for the console on the manager core, without
-- readline(). The reply goes back to the core of the request; the lock `print_lock` makes each one step.
use os_p.Base.{ℕ, Bool, ◌/◌, ◌%◌, ◌≡◌, refl, ap, Option, some, arith}
use os_p.Base.Int.{ℤ, pos, pos_part}
use os_p.Console.{Console, putbytes, set_cursor, get_cursor, set_term_color}
use os_p.Console.Display.{Display, Shows, type_text}
use os_p.Console.Typed.{putbytes-Shows}

pub data Reply : Type 0 where
  response : ℤ → Reply
  cursor_pos_response : ℤ → ℤ → Reply

pub smp_syscall_get_cursor_pos : Console → Reply × Console
smp_syscall_get_cursor_pos c = (cursor_pos_response (get_cursor c).0 (get_cursor c).1, c)

pub smp_syscall_print : ℤ → Option (ℕ → ℕ) → Console → Reply × Console
smp_syscall_print len buf c = (response (pos 0), putbytes buf len c)

pub smp_syscall_set_cursor_pos : ℤ → ℤ → Console → Reply × Console
smp_syscall_set_cursor_pos row col c = (response (set_cursor row col c).0, (set_cursor row col c).1)

pub smp_syscall_set_term_color : ℤ → Console → Reply × Console
smp_syscall_set_term_color color c =
    (response (set_term_color color c).0, (set_term_color color c).1)

cursor-Shows :
    (m : ℕ → ℕ) (h : Bool) (k : ℕ) (c : Console) (d : Display)
    → Shows m h k c d
    → get_cursor c ≡ (pos d.row, pos d.col)
unfolding get_cursor
cursor-Shows m h k c d s =
    let r : c.logical_cursor / 80 ≡ d.row = omega (arith, s.cursor, s.col_lt) in
    let l : c.logical_cursor % 80 ≡ d.col = omega (arith, s.cursor, s.col_lt) in rw (r, l) refl

-- The position that is told after a print is where the display has its cursor.
get_cursor_pos-print :
    (s : ℕ → ℕ) (len : ℤ) (c : Console) (d : Display)
    → Shows c.mem c.is_hidden c.term_color c d
    → (smp_syscall_get_cursor_pos (smp_syscall_print len (some s) c).1).0
      ≡ cursor_pos_response
          (pos (type_text (pos_part len) 0 s c.term_color d).row)
          (pos (type_text (pos_part len) 0 s c.term_color d).col)
unfolding smp_syscall_get_cursor_pos smp_syscall_print
get_cursor_pos-print s len c d h =
    ap (λ (p : ℤ × ℤ). cursor_pos_response p.0 p.1)
      (cursor-Shows c.mem c.is_hidden c.term_color (putbytes (some s) len c)
        (type_text (pos_part len) 0 s c.term_color d) (putbytes-Shows s len c d h))
