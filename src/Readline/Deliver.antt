-- ===== src/Readline/Deliver.antt =====
-- The cases of the keyboard interrupt for a thread that waits.
use os_p.Base.{
  ℕ, ◌+◌, ◌%◌, ◌≡◌, inl, inr, refl, ap, ◌∙◌, Bool, true, false, ◌||◌, List, [], Option, none, some,
  ◌==◌, Bool-cases,
}
use os_p.Console.{newline}
use os_p.Readline.{
  Keyboard, Reader, take_char, readchar, finish, answer, resume_reading_thr, serve_from, got_char,
  deliver, send_back, keyboard_interrupt_handler, put_scancode,
}

take_char-my_msg :
    {K : Type 0} → (st : Reader K) (thr ch : ℕ) → (take_char ch st).my_msg thr ≡ st.my_msg thr
unfolding take_char
take_char-my_msg st thr ch = refl

take_char-readline_queue :
    {K : Type 0} → (st : Reader K) (ch : ℕ) → (take_char ch st).readline_queue ≡ st.readline_queue
unfolding take_char
take_char-readline_queue st ch = refl

pub put_scancode-decoder :
    {K : Type 0} → (code : ℕ) (k : Keyboard K) → (put_scancode code k).decoder ≡ k.decoder
unfolding put_scancode
put_scancode-decoder code k = elim (Bool-cases ((k.front + 1) % 256 == k.rear)) [
  | inl e ↦ rw (put_scancode, e) refl
  | inr e ↦ rw (put_scancode, e) refl
]

module _ {K A : Type 0} (process_scancode : K → ℕ → K × A) (kh_hasdata kh_ismake : A → Bool)
    (kh_getchar : A → ℕ) where
  abbrev pub ended : ℕ → Reader K → Reader K
  ended m st =
      finish process_scancode kh_hasdata kh_ismake kh_getchar m
        (record st { read_waiting_thr = none })

  -- The answer of a completed line with no request behind it.
  last_answer :
      (st : Reader K) (thr m : ℕ)
      → st.my_msg thr ≡ m
      → st.readline_queue ≡ []
      → send_back process_scancode kh_hasdata kh_ismake kh_getchar
          (some thr, serve_from st.readline_queue (st.my_msg thr) (answer (st.my_msg thr) st))
        ≡ ended m st
  unfolding serve_from
  last_answer st thr m e q =
      ap
        (λ (z : List ℕ).
          send_back process_scancode kh_hasdata kh_ismake kh_getchar
            (some thr, serve_from z (st.my_msg thr) (answer (st.my_msg thr) st)))
        q
      ∙ ap (λ (x : ℕ). ended x st) e

  abbrev pub stored : ℕ → Reader K → Reader K
  stored code b = record b { keys = put_scancode code b.keys }

  abbrev pub read_one : ℕ → Reader K → Option ℕ × Keyboard K
  read_one code b =
      readchar process_scancode kh_hasdata kh_ismake kh_getchar 256 (put_scancode code b.keys)

  abbrev pub read : ℕ → Reader K → Reader K
  read code b = record b { keys = (read_one code b).1 }

  abbrev pub handler : ℕ → Reader K → Reader K
  handler = keyboard_interrupt_handler process_scancode kh_hasdata kh_ismake kh_getchar

  pub handler-got_char :
      (code thr : ℕ) (b : Reader K) (o : Option ℕ)
      → b.read_waiting_thr ≡ some thr
      → (read_one code b).0 ≡ o
      → handler code b
        ≡ got_char process_scancode kh_hasdata kh_ismake kh_getchar o thr (read code b)
  unfolding keyboard_interrupt_handler deliver
  handler-got_char code thr b o w e =
      ap
        (λ (z : Option ℕ).
          deliver process_scancode kh_hasdata kh_ismake kh_getchar z (stored code b))
        w
      ∙ ap
          (λ (z : Option ℕ).
            got_char process_scancode kh_hasdata kh_ismake kh_getchar z thr (read code b))
          e

  pub got_char-completes :
      (thr m ch : ℕ) (b : Reader K)
      → b.my_msg thr ≡ m
      → b.readline_queue ≡ []
      → ((take_char ch b).reading_count == (take_char ch b).reading_length || ch == newline) ≡ true
      → got_char process_scancode kh_hasdata kh_ismake kh_getchar (some ch) thr b
        ≡ ended m (take_char ch b)
  unfolding got_char resume_reading_thr
  got_char-completes thr m ch b e q t =
      rw (resume_reading_thr, t)
        (last_answer (take_char ch b) thr m (take_char-my_msg b thr ch ∙ e)
          (take_char-readline_queue b ch ∙ q))

  pub got_char-waits :
      (thr ch : ℕ) (b : Reader K)
      → ((take_char ch b).reading_count == (take_char ch b).reading_length || ch == newline) ≡ false
      → got_char process_scancode kh_hasdata kh_ismake kh_getchar (some ch) thr b ≡ take_char ch b
  unfolding got_char resume_reading_thr
  got_char-waits thr ch b t = rw (resume_reading_thr, t) refl
