-- ===== src/Readline/Line.antt =====
-- A line as it is edited, and the reads of the ring that edit it.
use os_p.Base.{
  ℕ, ◌+◌, ◌-◌, ◌≤◌, ◌<◌, ◌≡◌, ◌⊎◌, inl, inr, refl, sym, ap, ◌∙◌, Bool, true, false, List, [], ◌∷◌,
  Option, none, some, ltb, ◌==◌, if◌then◌else◌, length, arith, Bool-cases, Option-cases, subst,
}
use os_p.Console.{store, backspace, newline}
use os_p.Readline.{Reader, take_char, char_of}
use os_p.Readline.Ring.{Ring, Next, first_char, first_char-found, first_char-passed}

-- A buffer holds a line, whose last character stands first.
abbrev pub Written : (ℕ → ℕ) → ℕ → List ℕ → Type 0
Written mem buf [] = Unit {0}
Written mem buf (c ∷ l) = (mem (buf + length l) ≡ c) × Written mem buf l

abbrev pub tail : List ℕ → List ℕ
tail [] = []
tail (c ∷ l) = l

abbrev pub type_key : ℕ → List ℕ → List ℕ
type_key ch l = if ch == backspace then tail l else ch ∷ l

-- What a line becomes: it waits for more, or it is complete and leaves scancodes.
pub data Outcome (K : Type 0) : Type 0 where
  pending : List ℕ → K → Outcome K
  complete : List ℕ → K → List ℕ → Outcome K

module _ {K A : Type 0} (process_scancode : K → ℕ → K × A) (kh_hasdata kh_ismake : A → Bool)
    (kh_getchar : A → ℕ) where
  abbrev char : A → Option ℕ
  char = char_of process_scancode kh_hasdata kh_ismake kh_getchar

  -- A line of at most `len` characters, edited by the characters of scancodes up to a newline.
  unfoldable pub edit : ℕ → List ℕ → K → List ℕ → Outcome K
  edit len l s [] = if ltb (length l) len then pending l s else complete l s []
  edit len l s (x ∷ xs) = elim (ltb (length l) len) [
    | false ↦ complete l s (x ∷ xs)
    | true ↦ elim (char (process_scancode s x).1) [
      | none ↦ edit len l (process_scancode s x).0 xs
      | some ch ↦ elim (ch == newline) [
        | true ↦ complete (type_key ch l) (process_scancode s x).0 xs
        | false ↦ edit len (type_key ch l) (process_scancode s x).0 xs
      ]
    ]
  ]

  abbrev first : K → List ℕ → Next K
  first = first_char process_scancode kh_hasdata kh_ismake kh_getchar

  pub edit-full :
      (len : ℕ) (l : List ℕ) (s : K) (xs : List ℕ)
      → ltb (length l) len ≡ false
      → edit len l s xs ≡ complete l s xs
  unfolding edit
  edit-full len l s [] t = rw (edit, t) refl
  edit-full len l s (x ∷ xs) t = rw (edit, t) refl

  edit-passed :
      (len : ℕ) (l : List ℕ) (s : K) (x : ℕ) (xs : List ℕ)
      → ltb (length l) len ≡ true
      → char (process_scancode s x).1 ≡ none
      → edit len l s (x ∷ xs) ≡ edit len l (process_scancode s x).0 xs
  unfolding edit
  edit-passed len l s x xs t e = rw (edit, t, e) refl

  -- Without a character the line waits, and all scancodes are read.
  pub edit-pending :
      (len : ℕ) (l : List ℕ) (s : K) (xs : List ℕ)
      → ltb (length l) len ≡ true
      → (first s xs).code_char ≡ none
      → (edit len l s xs ≡ pending l (first s xs).decoder) × ((first s xs).rest ≡ [])
  unfolding first_char edit
  edit-pending len l s [] t e = (rw (edit, t) refl, refl)
  edit-pending len l s (x ∷ xs) t e = elim (Option-cases (char (process_scancode s x).1)) [
    | inl f ↦
        let p = first_char-passed process_scancode kh_hasdata kh_ismake kh_getchar s x xs f in
        let ih =
          edit-pending len l (process_scancode s x).0 xs t
            (sym (ap (λ (n : Next K). n.code_char) p) ∙ e) in
        rw (p, edit-passed len l s x xs t f) ih
    | inr (ch, f) ↦
        let p = first_char-found process_scancode kh_hasdata kh_ismake kh_getchar s x xs ch f in
        absurd (found ch (sym (ap (λ (n : Next K). n.code_char) p) ∙ e))
  ]
    where
      found : (ch : ℕ) → some ch ≡ none → ⊥
      found ch e = cc

  -- The line that a character leaves.
  abbrev pub keyed : ℕ → List ℕ → ℕ → Next K → Outcome K
  keyed len l ch n =
      if ch == newline
      then complete (type_key ch l) n.decoder n.rest
      else edit len (type_key ch l) n.decoder n.rest

  pub edit-keyed :
      (len : ℕ) (l : List ℕ) (s : K) (xs : List ℕ) (ch : ℕ)
      → ltb (length l) len ≡ true
      → (first s xs).code_char ≡ some ch
      → (edit len l s xs ≡ keyed len l ch (first s xs)) × (length (first s xs).rest < length xs)
  unfolding first_char edit
  edit-keyed len l s [] ch t e = absurd (not_found e)
    where
      not_found : none ≡ some ch → ⊥
      not_found e = cc
  edit-keyed len l s (x ∷ xs) ch t e = elim (Option-cases (char (process_scancode s x).1)) [
    | inl f ↦
        let p = first_char-passed process_scancode kh_hasdata kh_ismake kh_getchar s x xs f in
        let ih =
          edit-keyed len l (process_scancode s x).0 xs ch t
            (sym (ap (λ (n : Next K). n.code_char) p) ∙ e) in
        rw (p, edit-passed len l s x xs t f) (ih.0, omega (arith, ih.1))
    | inr (c, f) ↦
        let p = first_char-found process_scancode kh_hasdata kh_ismake kh_getchar s x xs c f in
        let q : c ≡ ch = same c (sym (ap (λ (n : Next K). n.code_char) p) ∙ e) in
        rw p (go c q f (Bool-cases (c == newline)), omega arith)
  ]
    where
      same : (c : ℕ) → some c ≡ some ch → c ≡ ch
      same c e = cc

      go :
          (c : ℕ)
          → c ≡ ch
          → char (process_scancode s x).1 ≡ some c
          → ((c == newline) ≡ true) ⊎ ((c == newline) ≡ false)
          → edit len l s (x ∷ xs)
            ≡ keyed len l ch
                (record { code_char = some c; decoder = (process_scancode s x).0; rest = xs })
      go c q f (inl e) = rw (← q, edit, t, f, e) refl
      go c q f (inr e) = rw (← q, edit, t, f, e) refl

Written-store :
    (mem : ℕ → ℕ) (buf n v : ℕ) (l : List ℕ)
    → length l ≤ n
    → Written mem buf l
    → Written (store mem (buf + n) v) buf l
Written-store mem buf n v [] a w = tt
Written-store mem buf n v (c ∷ l) a w =
    (ground (arith, w.0, a), Written-store mem buf n v l (omega (arith, a)) (w.1))

-- The request `m` is being served: its line so far, and the scancodes in the ring.
pub record Editing {K : Type 0} (st : Reader K) (m : ℕ) (l xs : List ℕ) : Type 0 where
  pub count : st.reading_count ≡ length l
  pub length_at : st.reading_length ≡ (st.msgs m).len
  pub buf_at : st.reading_buf ≡ (st.msgs m).kernel_buf
  pub fits : length l ≤ (st.msgs m).len
  pub written : Written st.mem st.reading_buf l
  pub ring : Ring st.keys xs

pub take_char-Editing :
    {K : Type 0}
    → (st : Reader K) (m ch : ℕ) (l xs : List ℕ) → Editing st m l xs
    → length l < (st.msgs m).len
    → Editing (take_char ch st) m (type_key ch l) xs
unfolding take_char
take_char-Editing st m ch l xs h a = elim (Bool-cases (ch == backspace)) [
  | inl e ↦
      rw (take_char, e)
        (record {
          count = shorter l h.count;
          length_at = h.length_at;
          buf_at = h.buf_at;
          fits = short l (omega (arith, a));
          written = front l h.written;
          ring = h.ring;
        })
  | inr e ↦
      rw (take_char, e)
        (record {
          count = omega (arith, h.count);
          length_at = h.length_at;
          buf_at = h.buf_at;
          fits = omega (arith, a);
          written = (
            ground (arith, h.count),
            subst (λ (z : ℕ). Written (store st.mem (st.reading_buf + z) ch) st.reading_buf l)
                (sym h.count)
                (Written-store st.mem st.reading_buf (length l) ch l (omega arith) h.written),
          );
          ring = h.ring;
        })
]
  where
    shorter :
        (l : List ℕ)
        → st.reading_count ≡ length l
        → (if st.reading_count == 0 then 0 else st.reading_count - 1) ≡ length (tail l)
    shorter [] e = ground (arith, e)
    shorter (c ∷ l) e = ground (arith, e)

    short : (l : List ℕ) → length l ≤ (st.msgs m).len → length (tail l) ≤ (st.msgs m).len
    short [] e = omega arith
    short (c ∷ l) e = omega (arith, e)

    front : (l : List ℕ) → Written st.mem st.reading_buf l → Written st.mem st.reading_buf (tail l)
    front [] w = tt
    front (c ∷ l) w = w.1
