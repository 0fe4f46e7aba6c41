-- ===== src/Readline/Interrupt.antt =====
-- A scancode that comes in while a request waits.
use os_p.Base.{
  ℕ, ◌≤◌, ◌<◌, ◌≡◌, ◌⊎◌, inl, inr, refl, sym, ap, ◌∙◌, Bool, true, false, ◌||◌, List, [], ◌∷◌,
  Option, none, some, ltb, ◌==◌, length, arith, Bool-cases, Option-cases, subst,
}
use os_p.Console.{newline}
use os_p.Readline.{
  Keyboard, Reader, Msg, take_char, readchar, finish, got_char, keyboard_interrupt_handler,
  put_scancode,
}
use os_p.Readline.Ring.{Ring, Next, Reads, first_char, put_scancode-Ring}
use os_p.Readline.Line.{
  type_key, Outcome, pending, complete, edit, edit-full, edit-pending, edit-keyed, keyed, Editing,
}
use os_p.Readline.Serve.{
  Waiting, Answered, Served, Same, take_char-Same, reread, finish-Answered, typed-Editing, read_key,
}
use os_p.Readline.Deliver.{
  handler-got_char, got_char-completes, got_char-waits, put_scancode-decoder,
}

module _ {K A : Type 0} (process_scancode : K → ℕ → K × A) (kh_hasdata kh_ismake : A → Bool)
    (kh_getchar : A → ℕ) where
  abbrev ended : ℕ → Reader K → Reader K
  ended m st =
      finish process_scancode kh_hasdata kh_ismake kh_getchar m
        (record st { read_waiting_thr = none })

  abbrev stored : ℕ → Reader K → Reader K
  stored code b = record b { keys = put_scancode code b.keys }

  abbrev read_one : ℕ → Reader K → Option ℕ × Keyboard K
  read_one code b =
      readchar process_scancode kh_hasdata kh_ismake kh_getchar 256 (put_scancode code b.keys)

  abbrev read : ℕ → Reader K → Reader K
  read code b = record b { keys = (read_one code b).1 }

  abbrev handler : ℕ → Reader K → Reader K
  handler = keyboard_interrupt_handler process_scancode kh_hasdata kh_ismake kh_getchar

  abbrev edits : ℕ → List ℕ → K → List ℕ → Outcome K
  edits = edit process_scancode kh_hasdata kh_ismake kh_getchar

  abbrev first : K → List ℕ → Next K
  first = first_char process_scancode kh_hasdata kh_ismake kh_getchar

  -- What a character makes of the line when no scancode is left.
  keyed-complete :
      (len ch : ℕ) (l : List ℕ) (n : Next K)
      → n.rest ≡ []
      → (ltb (length (type_key ch l)) len ≡ false) ⊎ ((ch == newline) ≡ true)
      → keyed process_scancode kh_hasdata kh_ismake kh_getchar len l ch n
        ≡ complete (type_key ch l) n.decoder []
  keyed-complete len ch l n r c = elim (Bool-cases (ch == newline)) [
    | inl e ↦ rw (e, r) refl
    | inr e ↦
        rw (e, r)
          (edit-full process_scancode kh_hasdata kh_ismake kh_getchar len (type_key ch l) n.decoder
            [] (full c e))
  ]
    where
      full :
          (ltb (length (type_key ch l)) len ≡ false) ⊎ ((ch == newline) ≡ true)
          → (ch == newline) ≡ false
          → ltb (length (type_key ch l)) len ≡ false
      full (inl f) e = f
      full (inr f) e = cc

  keyed-pending :
      (len ch : ℕ) (l : List ℕ) (n : Next K)
      → n.rest ≡ []
      → ltb (length (type_key ch l)) len ≡ true
      → (ch == newline) ≡ false
      → keyed process_scancode kh_hasdata kh_ismake kh_getchar len l ch n
        ≡ pending (type_key ch l) n.decoder
  unfolding edit
  keyed-pending len ch l n r t e = rw (e, r, edit, t) refl

  module _ (b : Reader K) (m : ℕ) (l : List ℕ) (code : ℕ) (h : Editing b m l [])
      (a : length l < (b.msgs m).len) (w : b.read_waiting_thr ≡ some ((b.msgs m).req_thr))
      (e : b.my_msg (b.msgs m).req_thr ≡ m) (q : b.readline_queue ≡ []) where
    came_in : Editing (stored code b) m l (code ∷ [])
    came_in =
        reread b m l [] (code ∷ []) (put_scancode code b.keys) h
          (put_scancode-Ring b.keys [] code h.ring)

    abbrev line_char : Next K
    line_char = first (put_scancode code b.keys).decoder (code ∷ [])

    one_read : Reads (read_one code b) line_char
    one_read =
        read_key process_scancode kh_hasdata kh_ismake kh_getchar (stored code b) m l (code ∷ [])
          came_in

    -- A scancode without a character.
    no_char :
        (read_one code b).0 ≡ none
        → Served b m
            (edits (b.msgs m).len l (put_scancode code b.keys).decoder (code ∷ []))
            (handler code b)
    unfolding got_char
    no_char c =
        let p =
          edit-pending process_scancode kh_hasdata kh_ismake kh_getchar (b.msgs m).len l
            (put_scancode code b.keys).decoder (code ∷ []) (ground (arith, a))
            (sym one_read.same_char ∙ c) in
        rw
          (
            handler-got_char process_scancode kh_hasdata kh_ismake kh_getchar code
                (b.msgs m).req_thr b none w c,
            p.0,
          )
          (record {
            editing =
                reread b m l [] [] (read_one code b).1 h
                  (subst (λ (z : List ℕ). Ring (read_one code b).1 z) p.1 one_read.ring);
            short = a;
            decoder = one_read.same_decoder;
            waits = w;
            same_msgs = refl;
            same_sent = refl;
            same_queue = refl;
          })

    abbrev typed : ℕ → Reader K
    typed ch = take_char ch (read code b)

    typed-Same : (ch : ℕ) → Same b (typed ch)
    typed-Same ch =
        take_char-Same b (read code b) ch
          (record { msgs = refl; sent = refl; queue = refl; my_msg = refl })

    none_left : (ch : ℕ) → (read_one code b).0 ≡ some ch → line_char.rest ≡ []
    none_left ch c =
        let p =
          edit-keyed process_scancode kh_hasdata kh_ismake kh_getchar (b.msgs m).len l
            (put_scancode code b.keys).decoder (code ∷ []) ch (ground (arith, a))
            (sym one_read.same_char ∙ c) in
        short_nil line_char.rest (p.1)
      where
        short_nil : (xs : List ℕ) → length xs < 1 → xs ≡ []
        short_nil [] s = refl
        short_nil (x ∷ xs) s = absurd (omega (arith, s))

    typed_line : (ch : ℕ) → (read_one code b).0 ≡ some ch → Editing (typed ch) m (type_key ch l) []
    typed_line ch c =
        subst (λ (z : List ℕ). Editing (typed ch) m (type_key ch l) z) (none_left ch c)
          (typed-Editing process_scancode kh_hasdata kh_ismake kh_getchar (stored code b) m ch l
            (code ∷ []) came_in a)

    typed-decoder : (ch : ℕ) → (typed ch).keys.decoder ≡ line_char.decoder
    unfolding take_char
    typed-decoder ch = one_read.same_decoder

    typed-waits : (ch : ℕ) → (typed ch).read_waiting_thr ≡ some ((b.msgs m).req_thr)
    unfolding take_char
    typed-waits ch = w

    -- The line stays short: the request waits on.
    char-Waiting :
        (ch : ℕ)
        → (read_one code b).0 ≡ some ch
        → ltb (length (type_key ch l)) (b.msgs m).len ≡ true
        → Waiting b m (type_key ch l) line_char.decoder (typed ch)
    char-Waiting ch c t =
        let f : Same b (typed ch) = typed-Same ch in
        record {
          editing = typed_line ch c;
          short = ground (arith, t);
          decoder = typed-decoder ch;
          waits = typed-waits ch;
          same_msgs = f.msgs;
          same_sent = f.sent;
          same_queue = f.queue;
        }

    char-Answered :
        (ch : ℕ)
        → (read_one code b).0 ≡ some ch
        → Answered b m (type_key ch l) line_char.decoder [] (ended m (typed ch))
    char-Answered ch c =
        let f : Same b (typed ch) = typed-Same ch in
        let g : Editing (typed ch) m (type_key ch l) [] = typed_line ch c in
        subst (λ (z : K). Answered b m (type_key ch l) z [] (ended m (typed ch))) (typed-decoder ch)
          (finish-Answered process_scancode kh_hasdata kh_ismake kh_getchar b
            (record (typed ch) { read_waiting_thr = none }) m (type_key ch l) []
            (record { msgs = f.msgs; sent = f.sent; queue = f.queue; my_msg = f.my_msg }) refl
            (record {
              count = g.count;
              length_at = g.length_at;
              buf_at = g.buf_at;
              fits = g.fits;
              written = g.written;
              ring = g.ring;
            }))

    abbrev completes : ℕ → Bool
    completes ch = (typed ch).reading_count == (typed ch).reading_length || ch == newline

    room : (ch : ℕ) → (typed ch).reading_length ≡ (b.msgs m).len
    unfolding take_char
    room ch = h.length_at

    -- The code's test for the end of a line.
    completes-full :
        (ch : ℕ)
        → (read_one code b).0 ≡ some ch
        → completes ch ≡ true
        → (ltb (length (type_key ch l)) (b.msgs m).len ≡ false) ⊎ ((ch == newline) ≡ true)
    completes-full ch c t =
        let g : Editing (typed ch) m (type_key ch l) [] = typed_line ch c in
        ground (arith, t, g.count, room ch)

    completes-short :
        (ch : ℕ)
        → (read_one code b).0 ≡ some ch
        → completes ch ≡ false
        → (ltb (length (type_key ch l)) (b.msgs m).len ≡ true) × ((ch == newline) ≡ false)
    completes-short ch c t =
        let g : Editing (typed ch) m (type_key ch l) [] = typed_line ch c in
        let f : Same b (typed ch) = typed-Same ch in
        let fits : length (type_key ch l) ≤ (b.msgs m).len =
          omega (arith, g.fits, ap (λ (z : ℕ → Msg). (z m).len) f.msgs) in
        (ground (arith, t, g.count, room ch, fits), ground (arith, t))

    with_char :
        (ch : ℕ)
        → (read_one code b).0 ≡ some ch
        → Served b m
            (edits (b.msgs m).len l (put_scancode code b.keys).decoder (code ∷ []))
            (handler code b)
    with_char ch c =
        let p =
          edit-keyed process_scancode kh_hasdata kh_ismake kh_getchar (b.msgs m).len l
            (put_scancode code b.keys).decoder (code ∷ []) ch (ground (arith, a))
            (sym one_read.same_char ∙ c) in
        let g =
          handler-got_char process_scancode kh_hasdata kh_ismake kh_getchar code (b.msgs m).req_thr
            b (some ch) w c in
        elim (Bool-cases (completes ch)) [
          | inl t ↦
              rw
                (
                  g,
                  got_char-completes process_scancode kh_hasdata kh_ismake kh_getchar
                      (b.msgs m).req_thr m ch (read code b) e q t,
                  p.0,
                  keyed-complete (b.msgs m).len ch l line_char (none_left ch c)
                      (completes-full ch c t),
                )
                (char-Answered ch c)
          | inr t ↦
              let u = completes-short ch c t in
              rw
                (
                  g,
                  got_char-waits process_scancode kh_hasdata kh_ismake kh_getchar (b.msgs m).req_thr
                      ch (read code b) t,
                  p.0,
                  keyed-pending (b.msgs m).len ch l line_char (none_left ch c) (u.0) (u.1),
                )
                (char-Waiting ch c (u.0))
        ]

  -- If the thread of a request waits with a line that is not full, the request is the message of
  -- that thread, the ring is empty and no request is queued, then the keyboard interrupt for a
  -- scancode does with the line what smp_syscall_readline does with it for a scancode that it
  -- finds in the ring: it edits the line, and either answers the request once or leaves its thread
  -- waiting.
  pub keyboard_interrupt_handler-Served :
      (b : Reader K) (m : ℕ) (l : List ℕ) (code : ℕ)
      → Editing b m l []
      → length l < (b.msgs m).len
      → b.read_waiting_thr ≡ some ((b.msgs m).req_thr)
      → b.my_msg (b.msgs m).req_thr ≡ m
      → b.readline_queue ≡ []
      → Served b m
          (edit process_scancode kh_hasdata kh_ismake kh_getchar
            (b.msgs m).len
            l
            b.keys.decoder
            (code ∷ []))
          (keyboard_interrupt_handler process_scancode kh_hasdata kh_ismake kh_getchar code b)
  keyboard_interrupt_handler-Served b m l code h a w e q =
      subst (λ (z : K). Served b m (edits (b.msgs m).len l z (code ∷ [])) (handler code b))
        (put_scancode-decoder code b.keys)
        (elim (Option-cases (read_one code b).0) [
          | inl c ↦ no_char b m l code h a w e q c
          | inr (ch, c) ↦ with_char b m l code h a w e q ch c
        ])
