-- ===== src/Readline.antt =====
-- kern/keyboard_driver.c and the readline() requests of kern/smp_syscall_consoleio.c on the manager core.
-- The decoder of scancodes is the course library's: it is a parameter with a state of its own.
pub mod Ring
pub mod Line
pub mod Serve
pub mod Requests
pub mod Deliver
pub mod Interrupt
pub mod Queued
mod Tests
use os_p.Base.{
  ℕ, zero, suc, ◌+◌, ◌-◌, ◌%◌, ◌≡◌, Bool, true, false, not, ◌&&◌, ◌||◌, List, [], ◌∷◌, ◌++◌, Option,
  none, some, ltb, ◌==◌, if◌then◌else◌,
}
use os_p.Console.{Console, store, putbyte, backspace, newline}

abbrev pub key_buf_size : ℕ
key_buf_size = 256

-- The ring of scancodes between `rear` and `front`, and the state of the decoder.
pub record Keyboard (K : Type 0) : Type 0 where
  pub keybuf : ℕ → ℕ
  pub front : ℕ
  pub rear : ℕ
  pub decoder : K

pub init_keyboard_driver : {K : Type 0} → (ℕ → ℕ) → K → Keyboard K
init_keyboard_driver buf s = record { keybuf = buf; front = 0; rear = 0; decoder = s }

-- A request, with the result once it is answered; a length is not negative.
pub record Msg : Type 0 where
  pub req_thr : ℕ
  pub req_cpu : ℕ
  pub len : ℕ
  pub kernel_buf : ℕ
  pub result : Option ℕ

-- Messages and threads are addresses; `sent` has the messages that went out, the last one first.
pub record Reader (K : Type 0) : Type 0 where
  pub keys : Keyboard K
  pub console : Console
  pub read_waiting_thr : Option ℕ
  pub reading_count : ℕ
  pub reading_length : ℕ
  pub reading_buf : ℕ
  pub mem : ℕ → ℕ
  pub readline_queue : List ℕ
  pub msgs : ℕ → Msg
  pub my_msg : ℕ → ℕ
  pub sent : List (ℕ × ℕ)

abbrev pub put_msg : (ℕ → Msg) → ℕ → Msg → ℕ → Msg
put_msg ms m v n = if n == m then v else ms n

-- The first part of the interrupt handler: a scancode that does not fit is dropped.
pub put_scancode : {K : Type 0} → ℕ → Keyboard K → Keyboard K
put_scancode code k =
    if not ((k.front + 1) % key_buf_size == k.rear)
    then record k { keybuf = store k.keybuf k.front code; front = (k.front + 1) % key_buf_size }
    else k

pub has_read_waiting_thr : {K : Type 0} → Reader K → Bool
has_read_waiting_thr st = elim st.read_waiting_thr [ none ↦ false | some thr ↦ true ]

-- The echo of a character, and the character in the buffer of the line.
pub take_char : {K : Type 0} → ℕ → Reader K → Reader K
take_char ch st = record st {
  console =
      if not (ch == backspace && st.reading_count == 0) then putbyte ch st.console else st.console;
  reading_count =
      if ch == backspace
      then (if st.reading_count == 0 then 0 else st.reading_count - 1)
      else st.reading_count + 1;
  mem = if ch == backspace then st.mem else store st.mem (st.reading_buf + st.reading_count) ch;
}

abbrev pub answer : {K : Type 0} → ℕ → Reader K → Reader K
answer m st = record st {
  msgs = put_msg st.msgs m (record (st.msgs m) { result = some st.reading_count });
}

abbrev pub manager_send : {K : Type 0} → ℕ → Reader K → Reader K
manager_send m st = record st { sent = (m, (st.msgs m).req_cpu) ∷ st.sent }

-- The next request is served from here on, but it is the thread of `msg` that waits.
pub serve_from : {K : Type 0} → List ℕ → ℕ → Reader K → Reader K
serve_from [] msg st = record st { read_waiting_thr = none }
serve_from (next_msg ∷ rest) msg st = record st {
  readline_queue = rest;
  reading_count = 0;
  reading_length = (st.msgs next_msg).len;
  reading_buf = (st.msgs next_msg).kernel_buf;
  read_waiting_thr = some ((st.msgs msg).req_thr);
}

pub resume_reading_thr : {K : Type 0} → ℕ → ℕ → Reader K → Option ℕ × Reader K
resume_reading_thr thr ch st =
    let taken = take_char ch st in
    let msg = taken.my_msg thr in
    if taken.reading_count == taken.reading_length || ch == newline
    then (some thr, serve_from taken.readline_queue msg (answer msg taken))
    else (none, taken)

module _ {K A : Type 0} (process_scancode : K → ℕ → K × A) (kh_hasdata kh_ismake : A → Bool)
    (kh_getchar : A → ℕ) where
  -- The character of a scancode, if it has one.
  pub char_of : A → Option ℕ
  char_of a = if kh_hasdata a && kh_ismake a then some (kh_getchar a) else none

  -- A round of the loop of `readchar`.
  pub next_code : Keyboard K → Option ℕ × Keyboard K
  next_code k =
      let r = process_scancode k.decoder (k.keybuf k.rear) in
      (char_of r.1, record k { rear = (k.rear + 1) % key_buf_size; decoder = r.0 })

  -- The fuel counts scancodes; -1 is `none`.
  pub readchar : ℕ → Keyboard K → Option ℕ × Keyboard K
  readchar zero k = (none, k)
  readchar (suc fuel) k = elim (k.front == k.rear) [
    | true ↦ (none, k)
    | false ↦ elim (next_code k).0 [
      | some ch ↦ (some ch, (next_code k).1)
      | none ↦ readchar fuel (next_code k).1
    ]
  ]

  abbrev pub finish : ℕ → Reader K → Reader K
  finish m st = manager_send m (answer m st)

  -- The loop of `smp_syscall_readline`; the fuel counts characters.
  pub read_loop : ℕ → ℕ → Reader K → Option (Reader K)
  read_loop zero m st = none
  read_loop (suc fuel) m st = elim (ltb st.reading_count st.reading_length) [
    | false ↦ some (finish m st)
    | true ↦ elim (readchar key_buf_size st.keys).0 [
      | none ↦ some (record st {
        keys = (readchar key_buf_size st.keys).1;
        read_waiting_thr = some ((st.msgs m).req_thr);
      })
      | some ch ↦ elim (ch == newline) [
        | true ↦
            some (finish m (take_char ch (record st { keys = (readchar key_buf_size st.keys).1 })))
        | false ↦
            read_loop fuel m (take_char ch (record st { keys = (readchar key_buf_size st.keys).1 }))
      ]
    ]
  ]

  pub smp_syscall_readline : ℕ → ℕ → Reader K → Option (Reader K)
  smp_syscall_readline fuel m st =
      if has_read_waiting_thr st
      then some (record st { readline_queue = st.readline_queue ++ (m ∷ []) })
      else read_loop fuel m (record st {
        reading_count = 0;
        reading_length = (st.msgs m).len;
        reading_buf = (st.msgs m).kernel_buf;
      })

  -- The thread that is handed back is sent its message.
  abbrev pub send_back : Option ℕ × Reader K → Reader K
  send_back (none, st) = st
  send_back (some thr, st) = manager_send (st.my_msg thr) st

  pub got_char : Option ℕ → ℕ → Reader K → Reader K
  got_char none thr st = st
  got_char (some ch) thr st = send_back (resume_reading_thr thr ch st)

  -- The second part of the interrupt handler, for the thread that waits.
  pub deliver : Option ℕ → Reader K → Reader K
  deliver none st = st
  deliver (some thr) st =
      let r = readchar key_buf_size st.keys in got_char r.0 thr (record st { keys = r.1 })

  pub keyboard_interrupt_handler : ℕ → Reader K → Reader K
  keyboard_interrupt_handler code st =
      deliver st.read_waiting_thr (record st { keys = put_scancode code st.keys })
