-- ===== src/Readline/Serve.antt =====
-- What readline() and the keyboard interrupt do for the thread that is being served.
use os_p.Base.{
  ℕ, zero, suc, ◌≤◌, ◌<◌, ◌≡◌, inl, inr, refl, sym, ap, ◌∙◌, Bool, true, false, List, [], ◌∷◌,
  Option, none, some, ltb, ◌==◌, length, arith, Bool-cases, Option-cases, subst,
}
use os_p.Console.{newline}
use os_p.Readline.{Keyboard, Reader, Msg, take_char, readchar, read_loop, finish}
use os_p.Readline.Ring.{Ring, Next, Reads, first_char, readchar-Reads}
use os_p.Readline.Line.{
  Written, type_key, Outcome, pending, complete, edit, edit-full, edit-pending, edit-keyed, Editing,
  take_char-Editing,
}

-- The request `m` waits for more of its line.
pub record Waiting {K : Type 0} (b : Reader K) (m : ℕ) (l : List ℕ) (s : K) (st : Reader K)
    : Type 0 where
  pub editing : Editing st m l []
  pub short : length l < (b.msgs m).len
  pub decoder : st.keys.decoder ≡ s
  pub waits : st.read_waiting_thr ≡ some ((b.msgs m).req_thr)
  pub same_msgs : st.msgs ≡ b.msgs
  pub same_sent : st.sent ≡ b.sent
  pub same_queue : st.readline_queue ≡ b.readline_queue

-- The request `m` is answered with its line, once, and nobody waits.
pub record Answered {K : Type 0} (b : Reader K) (m : ℕ) (l : List ℕ) (s : K) (rest : List ℕ)
    (st : Reader K) : Type 0 where
  pub result : (st.msgs m).result ≡ some (length l)
  pub sent : st.sent ≡ (m, (b.msgs m).req_cpu) ∷ b.sent
  pub written : Written st.mem (b.msgs m).kernel_buf l
  pub fits : length l ≤ (b.msgs m).len
  pub ring : Ring st.keys rest
  pub decoder : st.keys.decoder ≡ s
  pub nobody : st.read_waiting_thr ≡ none
  pub same_queue : st.readline_queue ≡ b.readline_queue

abbrev pub Served : {K : Type 0} → Reader K → ℕ → Outcome K → Reader K → Type 0
Served b m (pending l s) st = Waiting b m l s st
Served b m (complete l s rest) st = Answered b m l s rest st

abbrev pub Returns : {K : Type 0} → (Reader K → Type 0) → Option (Reader K) → Type 0
Returns P none = ⊥
Returns P (some st) = P st

-- The fields that an edit leaves alone.
pub record Same {K : Type 0} (b st : Reader K) : Type 0 where
  pub msgs : st.msgs ≡ b.msgs
  pub sent : st.sent ≡ b.sent
  pub queue : st.readline_queue ≡ b.readline_queue
  pub my_msg : st.my_msg ≡ b.my_msg

pub take_char-Same :
    {K : Type 0} → (b st : Reader K) (ch : ℕ) → Same b st → Same b (take_char ch st)
unfolding take_char
take_char-Same b st ch h = record {
  msgs = h.msgs;
  sent = h.sent;
  queue = h.queue;
  my_msg = h.my_msg;
}

take_char-keys : {K : Type 0} → (st : Reader K) (ch : ℕ) → (take_char ch st).keys ≡ st.keys
unfolding take_char
take_char-keys st ch = refl

take_char-waiting :
    {K : Type 0}
    → (st : Reader K) (ch : ℕ) → (take_char ch st).read_waiting_thr ≡ st.read_waiting_thr
unfolding take_char
take_char-waiting st ch = refl

-- The ring after a read.
pub reread :
    {K : Type 0}
    → (st : Reader K) (m : ℕ) (l xs ys : List ℕ) (k : Keyboard K) → Editing st m l xs
    → Ring k ys
    → Editing (record st { keys = k }) m l ys
reread st m l xs ys k h r = record {
  count = h.count;
  length_at = h.length_at;
  buf_at = h.buf_at;
  fits = h.fits;
  written = h.written;
  ring = r;
}

module _ {K A : Type 0} (process_scancode : K → ℕ → K × A) (kh_hasdata kh_ismake : A → Bool)
    (kh_getchar : A → ℕ) where
  pub finish-Answered :
      (b st : Reader K) (m : ℕ) (l xs : List ℕ)
      → Same b st
      → st.read_waiting_thr ≡ none
      → Editing st m l xs
      → Answered b m l st.keys.decoder xs
          (finish process_scancode kh_hasdata kh_ismake kh_getchar m st)
  finish-Answered b st m l xs f w h =
      let ms : st.msgs ≡ b.msgs = f.msgs in
      record {
        result = ground (arith, h.count);
        sent = ground (arith, f.sent, ap (λ (g : ℕ → Msg). (g m).req_cpu) ms);
        written =
            subst (λ (z : ℕ). Written st.mem z l)
              (h.buf_at ∙ ap (λ (g : ℕ → Msg). (g m).kernel_buf) ms) h.written;
        fits = omega (arith, h.fits, ap (λ (g : ℕ → Msg). (g m).len) ms);
        ring = h.ring;
        decoder = refl;
        nobody = w;
        same_queue = f.queue;
      }

  abbrev pub edits : ℕ → List ℕ → K → List ℕ → Outcome K
  edits = edit process_scancode kh_hasdata kh_ismake kh_getchar

  abbrev pub loop : ℕ → ℕ → Reader K → Option (Reader K)
  loop = read_loop process_scancode kh_hasdata kh_ismake kh_getchar

  abbrev pub key : Reader K → Option ℕ × Keyboard K
  key st = readchar process_scancode kh_hasdata kh_ismake kh_getchar 256 st.keys

  abbrev pub first : K → List ℕ → Next K
  first = first_char process_scancode kh_hasdata kh_ismake kh_getchar

  abbrev pub after_key : Reader K → Reader K
  after_key st = record st { keys = (key st).1 }

  loop-full :
      (fuel m : ℕ) (st : Reader K)
      → ltb st.reading_count st.reading_length ≡ false
      → loop (suc fuel) m st ≡ some (finish process_scancode kh_hasdata kh_ismake kh_getchar m st)
  unfolding read_loop
  loop-full fuel m st t = rw (read_loop, t) refl

  loop-empty :
      (fuel m : ℕ) (st : Reader K)
      → ltb st.reading_count st.reading_length ≡ true
      → (key st).0 ≡ none
      → loop (suc fuel) m st
        ≡ some (record (after_key st) { read_waiting_thr = some ((st.msgs m).req_thr) })
  unfolding read_loop
  loop-empty fuel m st t e = rw (read_loop, t, e) refl

  loop-newline :
      (fuel m : ℕ) (st : Reader K) (ch : ℕ)
      → ltb st.reading_count st.reading_length ≡ true
      → (key st).0 ≡ some ch
      → (ch == newline) ≡ true
      → loop (suc fuel) m st
        ≡ some (
            finish process_scancode kh_hasdata kh_ismake kh_getchar m (take_char ch (after_key st)))
  unfolding read_loop
  loop-newline fuel m st ch t e n = rw (read_loop, t, e, n) refl

  loop-char :
      (fuel m : ℕ) (st : Reader K) (ch : ℕ)
      → ltb st.reading_count st.reading_length ≡ true
      → (key st).0 ≡ some ch
      → (ch == newline) ≡ false
      → loop (suc fuel) m st ≡ loop fuel m (take_char ch (after_key st))
  unfolding read_loop
  loop-char fuel m st ch t e n = rw (read_loop, t, e, n) refl

  pub read_key :
      (st : Reader K) (m : ℕ) (l xs : List ℕ)
      → Editing st m l xs
      → Reads (key st) (first st.keys.decoder xs)
  read_key st m l xs h =
      let fits : length xs < 256 = h.ring.fits in
      readchar-Reads process_scancode kh_hasdata kh_ismake kh_getchar xs 256 st.keys h.ring
        (omega (arith, fits))

  pub typed-Editing :
      (st : Reader K) (m ch : ℕ) (l xs : List ℕ)
      → Editing st m l xs
      → length l < (st.msgs m).len
      → Editing (take_char ch (after_key st)) m (type_key ch l) (first st.keys.decoder xs).rest
  typed-Editing st m ch l xs h a =
      let n = first st.keys.decoder xs in
      let r : Reads (key st) n = read_key st m l xs h in
      take_char-Editing (after_key st) m ch l n.rest (reread st m l xs n.rest (key st).1 h r.ring) a

  pub loop-Served :
      (fuel : ℕ) (b st : Reader K) (m : ℕ) (l xs : List ℕ)
      → Same b st
      → st.read_waiting_thr ≡ none
      → Editing st m l xs
      → length xs < fuel
      → Returns (Served b m (edits (b.msgs m).len l st.keys.decoder xs)) (loop fuel m st)
  unfolding take_char
  loop-Served zero b st m l xs f w h a = absurd (omega (arith, a))
  loop-Served (suc fuel) b st m l xs f w h a =
      let s = st.keys.decoder in
      let len = (b.msgs m).len in
      let n = first s xs in
      let r : Reads (key st) n = read_key st m l xs h in
      let room : st.reading_length ≡ len = h.length_at ∙ ap (λ (g : ℕ → Msg). (g m).len) f.msgs in
      elim (Bool-cases (ltb st.reading_count st.reading_length)) [
        | inr t ↦
            let t2 : ltb (length l) len ≡ false = ground (arith, t, h.count, room) in
            rw
              (
                loop-full fuel m st t,
                edit-full process_scancode kh_hasdata kh_ismake kh_getchar len l s xs t2,
              )
              (finish-Answered b st m l xs f w h)
        | inl t ↦
            let t2 : ltb (length l) len ≡ true = ground (arith, t, h.count, room) in
            let short : length l < (st.msgs m).len = ground (arith, t, h.count, h.length_at) in
            elim (Option-cases (key st).0) [
              | inl e ↦
                  let p =
                    edit-pending process_scancode kh_hasdata kh_ismake kh_getchar len l s xs t2
                      (sym r.same_char ∙ e) in
                  let again : Editing (after_key st) m l [] =
                    reread st m l xs [] (key st).1 h
                      (subst (λ (z : List ℕ). Ring (key st).1 z) p.1 r.ring) in
                  rw (loop-empty fuel m st t e, p.0)
                    (record {
                      editing = record {
                        count = again.count;
                        length_at = again.length_at;
                        buf_at = again.buf_at;
                        fits = again.fits;
                        written = again.written;
                        ring = again.ring;
                      };
                      short = ground (arith, t2);
                      decoder = r.same_decoder;
                      waits = ap (λ (g : ℕ → Msg). some ((g m).req_thr)) f.msgs;
                      same_msgs = f.msgs;
                      same_sent = f.sent;
                      same_queue = f.queue;
                    })
              | inr (ch, e) ↦
                  let p =
                    edit-keyed process_scancode kh_hasdata kh_ismake kh_getchar len l s xs ch t2
                      (sym r.same_char ∙ e) in
                  let typed : Editing (take_char ch (after_key st)) m (type_key ch l) n.rest =
                    typed-Editing st m ch l xs h short in
                  let same : Same b (take_char ch (after_key st)) =
                    take_char-Same b (after_key st) ch (record {
                      msgs = f.msgs;
                      sent = f.sent;
                      queue = f.queue;
                      my_msg = f.my_msg;
                    }) in
                  elim (Bool-cases (ch == newline)) [
                    | inl q ↦
                        let done : Answered b m (type_key ch l) (key st).1.decoder n.rest (
                            finish process_scancode kh_hasdata kh_ismake kh_getchar m
                              (take_char ch (after_key st))) =
                          finish-Answered b (take_char ch (after_key st)) m (type_key ch l) n.rest
                            same w typed in
                        rw (loop-newline fuel m st ch t e q, p.0, q, ← r.same_decoder) done
                    | inr q ↦
                        let more : Returns
                            (Served b m (edits len (type_key ch l) (key st).1.decoder n.rest))
                            (loop fuel m (take_char ch (after_key st))) =
                          loop-Served fuel b (take_char ch (after_key st)) m (type_key ch l) n.rest
                            same w typed (omega (arith, p.1, a)) in
                        rw (loop-char fuel m st ch t e q, p.0, q, ← r.same_decoder) more
                  ]
            ]
      ]
