-- ===== src/Readline/Ring.antt =====
-- The keyboard's ring as a queue of scancodes: what the interrupt handler adds and `readchar` takes.
use os_p.Base.{
  ℕ, zero, suc, ◌+◌, ◌%◌, ◌≤◌, ◌<◌, ◌≡◌, inl, inr, refl, ap, ◌∙◌, Bool, true, false, List, [], ◌∷◌,
  ◌++◌, Option, none, some, ◌==◌, if◌then◌else◌, length, arith, Bool-cases, Option-cases, subst,
}
use os_p.Console.{store}
use os_p.Readline.{Keyboard, put_scancode, char_of, next_code, readchar}

-- The slots from `r` on hold the scancodes, the oldest first.
abbrev pub Codes : (ℕ → ℕ) → ℕ → List ℕ → Type 0
Codes buf r [] = Unit {0}
Codes buf r (x ∷ xs) = (buf r ≡ x) × Codes buf ((r + 1) % 256) xs

pub record Ring {K : Type 0} (k : Keyboard K) (xs : List ℕ) : Type 0 where
  pub rear_lt : k.rear < 256
  pub front_at : k.front ≡ (k.rear + length xs) % 256
  pub fits : length xs < 256
  pub codes : Codes k.keybuf k.rear xs

-- A write behind the last scancode.
Codes-store :
    (buf : ℕ → ℕ) (r : ℕ) (xs : List ℕ) (f code : ℕ)
    → r < 256
    → f ≡ (r + length xs) % 256
    → length xs < 256
    → Codes buf r xs
    → Codes (store buf f code) r (xs ++ (code ∷ []))
Codes-store buf r [] f code a e b c = (ground (arith, a, e), tt)
Codes-store buf r (x ∷ xs) f code a e b c = (
  ground (arith, a, e, b, c.0),
  Codes-store buf ((r + 1) % 256) xs f code (omega arith) (omega (arith, e)) (omega (arith, b))
      (c.1),
)

-- What the ring holds after a scancode comes in.
abbrev pub held : ℕ → List ℕ → List ℕ
held code xs = if length xs == 255 then xs else xs ++ (code ∷ [])

length-snoc : (xs : List ℕ) (x : ℕ) → length (xs ++ (x ∷ [])) ≡ suc (length xs)
length-snoc [] x = refl
length-snoc (y ∷ xs) x = ap suc (length-snoc xs x)

pub put_scancode-Ring :
    {K : Type 0}
    → (k : Keyboard K) (xs : List ℕ) (code : ℕ) → Ring k xs
    → Ring (put_scancode code k) (held code xs)
unfolding put_scancode
put_scancode-Ring k xs code h = elim (Bool-cases (length xs == 255)) [
  | inl e ↦
      let t : ((k.front + 1) % 256 == k.rear) ≡ true = ground (arith, e, h.front_at, h.rear_lt) in
      rw (t, e) h
  | inr e ↦
      let t : ((k.front + 1) % 256 == k.rear) ≡ false =
        ground (arith, e, h.front_at, h.rear_lt, h.fits) in
      rw (t, e)
        (record {
          rear_lt = h.rear_lt;
          front_at = omega (arith, h.front_at, length-snoc xs code);
          fits = ground (arith, length-snoc xs code, e, h.fits);
          codes = Codes-store k.keybuf k.rear xs k.front code h.rear_lt h.front_at h.fits h.codes;
        })
]

-- A character, the decoder and the scancodes after it.
pub record Next (K : Type 0) : Type 0 where
  pub code_char : Option ℕ
  pub decoder : K
  pub rest : List ℕ

-- A read of the ring agrees with a read of the list.
pub record Reads {K : Type 0} (r : Option ℕ × Keyboard K) (n : Next K) : Type 0 where
  pub same_char : r.0 ≡ n.code_char
  pub same_decoder : r.1.decoder ≡ n.decoder
  pub ring : Ring r.1 n.rest

module _ {K A : Type 0} (process_scancode : K → ℕ → K × A) (kh_hasdata kh_ismake : A → Bool)
    (kh_getchar : A → ℕ) where
  abbrev char : A → Option ℕ
  char = char_of process_scancode kh_hasdata kh_ismake kh_getchar

  -- The first character of a list of scancodes.
  unfoldable pub first_char : K → List ℕ → Next K
  first_char s [] = record { code_char = none; decoder = s; rest = [] }
  first_char s (x ∷ xs) = elim (char (process_scancode s x).1) [
    | some ch ↦ record { code_char = some ch; decoder = (process_scancode s x).0; rest = xs }
    | none ↦ first_char (process_scancode s x).0 xs
  ]

  readchar-empty :
      (fuel : ℕ) (k : Keyboard K)
      → Ring k []
      → readchar process_scancode kh_hasdata kh_ismake kh_getchar fuel k ≡ (none, k)
  unfolding readchar
  readchar-empty zero k h = refl
  readchar-empty (suc fuel) k h =
      let t : (k.front == k.rear) ≡ true = ground (arith, h.front_at, h.rear_lt) in
      rw (readchar, t) refl

  abbrev next : Keyboard K → Option ℕ × Keyboard K
  next = next_code process_scancode kh_hasdata kh_ismake kh_getchar

  abbrev read : ℕ → Keyboard K → Option ℕ × Keyboard K
  read = readchar process_scancode kh_hasdata kh_ismake kh_getchar

  readchar-found :
      (fuel : ℕ) (k : Keyboard K) (ch : ℕ)
      → (k.front == k.rear) ≡ false
      → (next k).0 ≡ some ch
      → read (suc fuel) k ≡ (some ch, (next k).1)
  unfolding readchar
  readchar-found fuel k ch t e = rw (readchar, t, e) refl

  readchar-passed :
      (fuel : ℕ) (k : Keyboard K)
      → (k.front == k.rear) ≡ false
      → (next k).0 ≡ none
      → read (suc fuel) k ≡ read fuel (next k).1
  unfolding readchar
  readchar-passed fuel k t e = rw (readchar, t, e) refl

  pub first_char-found :
      (s : K) (x : ℕ) (xs : List ℕ) (ch : ℕ)
      → char (process_scancode s x).1 ≡ some ch
      → first_char s (x ∷ xs)
        ≡ record { code_char = some ch; decoder = (process_scancode s x).0; rest = xs }
  unfolding first_char
  first_char-found s x xs ch e = rw (first_char, e) refl

  pub first_char-passed :
      (s : K) (x : ℕ) (xs : List ℕ)
      → char (process_scancode s x).1 ≡ none
      → first_char s (x ∷ xs) ≡ first_char (process_scancode s x).0 xs
  unfolding first_char
  first_char-passed s x xs e = rw (first_char, e) refl

  next-Ring : (k : Keyboard K) (x : ℕ) (xs : List ℕ) → Ring k (x ∷ xs) → Ring (next k).1 xs
  unfolding next_code
  next-Ring k x xs h = record {
    rear_lt = omega arith;
    front_at = omega (arith, h.front_at);
    fits = omega (arith, h.fits);
    codes = h.codes.1;
  }

  next-decoder :
      (k : Keyboard K) (x : ℕ) (xs : List ℕ)
      → Ring k (x ∷ xs)
      → (next k).1.decoder ≡ (process_scancode k.decoder x).0
  unfolding next_code
  next-decoder k x xs h = ap (λ (y : ℕ). (process_scancode k.decoder y).0) (h.codes.0)

  next-char :
      (k : Keyboard K) (x : ℕ) (xs : List ℕ)
      → Ring k (x ∷ xs)
      → (next k).0 ≡ char (process_scancode k.decoder x).1
  unfolding next_code
  next-char k x xs h = ap (λ (y : ℕ). char (process_scancode k.decoder y).1) (h.codes.0)

  -- If the ring holds a list of scancodes and the fuel is at least its length, readchar returns
  -- the first character of the list, with the decoder and the ring left at the scancodes behind
  -- it, or -1 and an empty ring if no scancode of the list gives a character.
  pub readchar-Reads :
      (xs : List ℕ) (fuel : ℕ) (k : Keyboard K)
      → Ring k xs
      → length xs ≤ fuel
      → Reads (read fuel k) (first_char k.decoder xs)
  unfolding first_char
  readchar-Reads [] fuel k h a =
      rw (readchar-empty fuel k h) (record { same_char = refl; same_decoder = refl; ring = h })
  readchar-Reads (x ∷ xs) zero k h a = absurd (omega (arith, a))
  readchar-Reads (x ∷ xs) (suc fuel) k h a =
      let t : (k.front == k.rear) ≡ false = ground (arith, h.front_at, h.rear_lt, h.fits) in
      let c : (next k).0 ≡ char (process_scancode k.decoder x).1 = next-char k x xs h in
      let d : (next k).1.decoder ≡ (process_scancode k.decoder x).0 = next-decoder k x xs h in
      elim (Option-cases (char (process_scancode k.decoder x).1)) [
        | inl e ↦
            let ih : Reads (read fuel (next k).1) (first_char (process_scancode k.decoder x).0 xs) =
              subst (λ (z : K). Reads (read fuel (next k).1) (first_char z xs)) d
                (readchar-Reads xs fuel (next k).1 (next-Ring k x xs h) (omega (arith, a))) in
            rw (readchar-passed fuel k t (c ∙ e), first_char-passed k.decoder x xs e) ih
        | inr (ch, e) ↦
            rw (readchar-found fuel k ch t (c ∙ e), first_char-found k.decoder x xs ch e)
              (record { same_char = refl; same_decoder = d; ring = next-Ring k x xs h })
      ]
