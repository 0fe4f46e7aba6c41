-- ===== src/Readline/Tests.antt =====
-- A decoder whose scancodes are the characters, and those from 128 up releases of keys.
use os_p.Base.{ℕ, zero, suc, ◌+◌, refl, Bool, true, [], ◌∷◌, none, some, ltb, arith}
use os_p.Console.{init_console_driver, newline}
use os_p.Readline.{Keyboard, Msg, Reader, smp_syscall_readline, keyboard_interrupt_handler}
use os_p.Readline.Ring.{Ring}
use os_p.Readline.Line.{edit, Editing}
use os_p.Readline.Serve.{Served, Returns}
use os_p.Readline.Requests.{smp_syscall_readline-Served}
use os_p.Readline.Interrupt.{keyboard_interrupt_handler-Served}
use os_p.Readline.Queued.{Only, interrupts, interrupts-Only}

abbrev process_scancode : ℕ → ℕ → ℕ × ℕ
process_scancode s code = (s + 1, code)

abbrev kh_hasdata : ℕ → Bool
kh_hasdata a = true

abbrev kh_ismake : ℕ → Bool
kh_ismake a = ltb a 128

abbrev kh_getchar : ℕ → ℕ
kh_getchar a = a

-- `A`, its release and a newline wait in the ring.
abbrev codes : ℕ → ℕ
codes zero = 65
codes (suc zero) = 193
codes (suc (suc n)) = newline

abbrev keys : Keyboard ℕ
keys = record { keybuf = codes; front = 3; rear = 0; decoder = 0 }

keys-Ring : Ring keys (65 ∷ 193 ∷ newline ∷ [])
keys-Ring = record {
  rear_lt = omega arith;
  front_at = omega arith;
  fits = omega arith;
  codes = (refl, (refl, (refl, tt)));
}

abbrev msg : Msg
msg = record { req_thr = 1; req_cpu = 2; len = 5; kernel_buf = 1000; result = none }

abbrev reader : Reader ℕ
reader = record {
  keys = keys;
  console = init_console_driver (λ x. 0) 0 0;
  read_waiting_thr = none;
  reading_count = 0;
  reading_length = 0;
  reading_buf = 0;
  mem = λ x. 0;
  readline_queue = [];
  msgs = λ m. msg;
  my_msg = λ t. 7;
  sent = [];
}

smp_syscall_readline-Served_example :
    Returns
      (Served reader 7
        (edit process_scancode kh_hasdata kh_ismake kh_getchar 5 [] 0 (65 ∷ 193 ∷ newline ∷ [])))
      (smp_syscall_readline process_scancode kh_hasdata kh_ismake kh_getchar 4 7 reader)
smp_syscall_readline-Served_example =
    smp_syscall_readline-Served process_scancode kh_hasdata kh_ismake kh_getchar 4 reader 7
      (65 ∷ 193 ∷ newline ∷ []) refl keys-Ring (omega arith)

-- The thread 1 has typed `A` and waits.
abbrev waiting : Reader ℕ
waiting = record reader {
  keys = record { keybuf = codes; front = 2; rear = 2; decoder = 0 };
  read_waiting_thr = some 1;
  reading_count = 1;
  reading_length = 5;
  reading_buf = 1000;
  mem = λ x. 65;
}

waiting-Editing : Editing waiting 7 (65 ∷ []) []
waiting-Editing = record {
  count = refl;
  length_at = refl;
  buf_at = refl;
  fits = omega arith;
  written = (refl, tt);
  ring = record { rear_lt = omega arith; front_at = omega arith; fits = omega arith; codes = tt };
}

keyboard_interrupt_handler-Served_example :
    Served waiting 7
      (edit process_scancode kh_hasdata kh_ismake kh_getchar 5 (65 ∷ []) 0 (newline ∷ []))
      (keyboard_interrupt_handler process_scancode kh_hasdata kh_ismake kh_getchar newline waiting)
keyboard_interrupt_handler-Served_example =
    keyboard_interrupt_handler-Served process_scancode kh_hasdata kh_ismake kh_getchar waiting 7
      (65 ∷ []) newline waiting-Editing (omega arith) refl refl refl

-- The message 8 is queued behind the message 7.
abbrev queued : Reader ℕ
queued = record waiting { readline_queue = 8 ∷ [] }

interrupts-Only_example :
    Only
      (7, 2)
      []
      (interrupts process_scancode kh_hasdata kh_ismake kh_getchar
        (newline ∷ 66 ∷ newline ∷ [])
        queued).sent
interrupts-Only_example =
    interrupts-Only process_scancode kh_hasdata kh_ismake kh_getchar (newline ∷ 66 ∷ newline ∷ [])
      queued 7 refl refl
