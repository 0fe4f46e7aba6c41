-- ===== src/Readline/Queued.antt =====
-- Requests that queue behind the one that is served: who is answered while scancodes come in.
use os_p.Base.{
  ℕ, ◌≡◌, ◌⊎◌, inl, inr, refl, sym, ap, ◌∙◌, Bool, true, false, ◌||◌, List, [], ◌∷◌, Option, none,
  some, ◌==◌, if◌then◌else◌, arith, subst,
}
use os_p.Console.{newline}
use os_p.Readline.{
  Keyboard, Reader, take_char, readchar, answer, manager_send, put_msg, resume_reading_thr,
  serve_from, got_char, deliver, send_back, keyboard_interrupt_handler, put_scancode,
}

-- Only `e` was sent after `base`.
pub data Only {ℓ} {A : Type ℓ} (e : A) (base : List A) : List A → Type ℓ where
  no_more : Only e base base
  once_more : {es : List A} → Only e base es → Only e base (e ∷ es)

-- Nobody waits, or the thread of the request `m`.
record Stuck {K : Type 0} (b : Reader K) (m : ℕ) (st : Reader K) : Type 0 where
  waits : (st.read_waiting_thr ≡ none) ⊎ (st.read_waiting_thr ≡ some ((b.msgs m).req_thr))
  thr : (st.msgs m).req_thr ≡ (b.msgs m).req_thr
  cpu : (st.msgs m).req_cpu ≡ (b.msgs m).req_cpu
  my_msg : st.my_msg ≡ b.my_msg
  only : Only (m, (b.msgs m).req_cpu) b.sent st.sent

keys-Stuck :
    {K : Type 0}
    → (b st : Reader K) (m : ℕ) (k : Keyboard K) → Stuck b m st
    → Stuck b m (record st { keys = k })
keys-Stuck b st m k h = record {
  waits = h.waits;
  thr = h.thr;
  cpu = h.cpu;
  my_msg = h.my_msg;
  only = h.only;
}

take_char-Stuck :
    {K : Type 0} → (b st : Reader K) (m ch : ℕ) → Stuck b m st → Stuck b m (take_char ch st)
unfolding take_char
take_char-Stuck b st m ch h = record {
  waits = h.waits;
  thr = h.thr;
  cpu = h.cpu;
  my_msg = h.my_msg;
  only = h.only;
}

-- The answer to `m` is sent, and its thread waits again if a request is queued.
serve-Stuck :
    {K : Type 0}
    → (b st : Reader K) (m : ℕ) (queue : List ℕ) → Stuck b m st
    → Stuck b m (manager_send m (serve_from queue m (answer m st)))
unfolding serve_from
serve-Stuck b st m [] h = record {
  waits = inl refl;
  thr = ground (arith, h.thr);
  cpu = ground (arith, h.cpu);
  my_msg = h.my_msg;
  only = sent_more st b m h;
}
  where
    sent_more :
        {K : Type 0}
        → (st b : Reader K) (m : ℕ) → Stuck b m st
        → Only
            (m, (b.msgs m).req_cpu)
            b.sent
            ((
              m,
              (put_msg st.msgs m (record (st.msgs m) { result = some st.reading_count }) m).req_cpu,
            )
              ∷ st.sent)
    sent_more st b m h =
        let e : (put_msg st.msgs m (record (st.msgs m) { result = some st.reading_count })
              m).req_cpu
            ≡ (b.msgs m).req_cpu =
          ground (arith, h.cpu) in
        subst (λ (z : ℕ). Only (m, (b.msgs m).req_cpu) b.sent ((m, z) ∷ st.sent)) (sym e)
          (once_more h.only)
serve-Stuck b st m (next_msg ∷ rest) h = record {
  waits = inr (ap some again);
  thr = ground (arith, h.thr);
  cpu = ground (arith, h.cpu);
  my_msg = h.my_msg;
  only =
      subst (λ (z : ℕ). Only (m, (b.msgs m).req_cpu) b.sent ((m, z) ∷ st.sent)) (sym same_cpu)
        (once_more h.only);
}
  where
    again :
        (put_msg st.msgs m (record (st.msgs m) { result = some st.reading_count }) m).req_thr
        ≡ (b.msgs m).req_thr
    again = ground (arith, h.thr)

    same_cpu :
        (put_msg st.msgs m (record (st.msgs m) { result = some st.reading_count }) m).req_cpu
        ≡ (b.msgs m).req_cpu
    same_cpu = ground (arith, h.cpu)

serve_from-my_msg :
    {K : Type 0}
    → (queue : List ℕ) (n : ℕ) (s : Reader K) → (serve_from queue n s).my_msg ≡ s.my_msg
unfolding serve_from
serve_from-my_msg [] n s = refl
serve_from-my_msg (x ∷ queue) n s = refl

module _ {K A : Type 0} (process_scancode : K → ℕ → K × A) (kh_hasdata kh_ismake : A → Bool)
    (kh_getchar : A → ℕ) where
  answered-Stuck :
      (b s : Reader K) (m thr : ℕ)
      → Stuck b m s
      → s.my_msg thr ≡ m
      → Stuck b m (
          send_back process_scancode kh_hasdata kh_ismake kh_getchar
            (some thr, serve_from s.readline_queue (s.my_msg thr) (answer (s.my_msg thr) s)))
  answered-Stuck b s m thr h e =
      let served : ℕ → Reader K = λ n. serve_from s.readline_queue n (answer n s) in
      let same : (served (s.my_msg thr)).my_msg thr ≡ m =
        ap (λ (g : ℕ → ℕ). g thr)
          (serve_from-my_msg s.readline_queue (s.my_msg thr) (answer (s.my_msg thr) s))
        ∙ e in
      subst (λ (z : ℕ). Stuck b m (manager_send z (served (s.my_msg thr)))) (sym same)
        (subst (λ (n : ℕ). Stuck b m (manager_send m (served n))) (sym e)
          (serve-Stuck b s m s.readline_queue h))

  got_char-Stuck :
      (b st : Reader K) (m : ℕ) (o : Option ℕ)
      → b.my_msg (b.msgs m).req_thr ≡ m
      → Stuck b m st
      → Stuck b m
          (got_char process_scancode kh_hasdata kh_ismake kh_getchar o (b.msgs m).req_thr st)
  unfolding got_char resume_reading_thr
  got_char-Stuck b st m none e h = h
  got_char-Stuck b st m (some ch) e h =
      let t : Stuck b m (take_char ch st) = take_char-Stuck b st m ch h in
      let mine : (take_char ch st).my_msg (b.msgs m).req_thr ≡ m =
        ap (λ (g : ℕ → ℕ). g (b.msgs m).req_thr) t.my_msg ∙ e in
      elim ((take_char ch st).reading_count == (take_char ch st).reading_length || ch == newline)
        as (λ z. Stuck b m (
          send_back process_scancode kh_hasdata kh_ismake kh_getchar (
            if z
            then (
              some ((b.msgs m).req_thr),
              serve_from (take_char ch st).readline_queue
                  ((take_char ch st).my_msg (b.msgs m).req_thr)
                  (answer ((take_char ch st).my_msg (b.msgs m).req_thr) (take_char ch st)),
            )
            else (none, take_char ch st)))) [
              | true ↦ answered-Stuck b (take_char ch st) m (b.msgs m).req_thr t mine
              | false ↦ t
            ]

  deliver-Stuck :
      (b st : Reader K) (m : ℕ) (o : Option ℕ)
      → b.my_msg (b.msgs m).req_thr ≡ m
      → (o ≡ none) ⊎ (o ≡ some ((b.msgs m).req_thr))
      → Stuck b m st
      → Stuck b m (deliver process_scancode kh_hasdata kh_ismake kh_getchar o st)
  unfolding deliver
  deliver-Stuck b st m o e (inl n) h =
      subst
        (λ (z : Option ℕ).
          Stuck b m (deliver process_scancode kh_hasdata kh_ismake kh_getchar z st))
        (sym n) h
  deliver-Stuck b st m o e (inr n) h =
      let r = readchar process_scancode kh_hasdata kh_ismake kh_getchar 256 st.keys in
      subst
        (λ (z : Option ℕ).
          Stuck b m (deliver process_scancode kh_hasdata kh_ismake kh_getchar z st))
        (sym n) (got_char-Stuck b (record st { keys = r.1 }) m r.0 e (keys-Stuck b st m r.1 h))

  -- One interrupt for each scancode.
  unfoldable pub interrupts : List ℕ → Reader K → Reader K
  interrupts [] st = st
  interrupts (code ∷ codes) st =
      interrupts codes
        (keyboard_interrupt_handler process_scancode kh_hasdata kh_ismake kh_getchar code st)

  interrupts-Stuck :
      (codes : List ℕ) (b st : Reader K) (m : ℕ)
      → b.my_msg (b.msgs m).req_thr ≡ m
      → Stuck b m st
      → Stuck b m (interrupts codes st)
  unfolding interrupts keyboard_interrupt_handler
  interrupts-Stuck [] b st m e h = h
  interrupts-Stuck (code ∷ codes) b st m e h =
      interrupts-Stuck codes b
        (keyboard_interrupt_handler process_scancode kh_hasdata kh_ismake kh_getchar code st) m e
        (deliver-Stuck b (record st { keys = put_scancode code st.keys }) m st.read_waiting_thr e
          h.waits (keys-Stuck b st m (put_scancode code st.keys) h))

  -- If the thread of a request waits for input and the request is the message of that thread, then
  -- whatever requests are queued behind it and whatever scancodes come in, the keyboard interrupts
  -- send no message but the one of that request, so that a queued request is not answered by them.
  pub interrupts-Only :
      (codes : List ℕ) (b : Reader K) (m : ℕ)
      → b.read_waiting_thr ≡ some ((b.msgs m).req_thr)
      → b.my_msg (b.msgs m).req_thr ≡ m
      → Only (m, (b.msgs m).req_cpu) b.sent (interrupts codes b).sent
  interrupts-Only codes b m w e =
      let h : Stuck b m (interrupts codes b) =
        interrupts-Stuck codes b b m e
          (record { waits = inr w; thr = refl; cpu = refl; my_msg = refl; only = no_more }) in
      h.only
