-- ===== src/Arraytcb/Insert.antt =====
-- A new thread gets a free slot, and a slot that is given back is the next one used.
use os_p.Base.{
  ℕ, suc, ◌+◌, ◌≤◌, ◌<◌, ◌≡◌, ◌≢◌, ◌⊎◌, inl, inr, refl, sym, ap, ◌∙◌, Bool, true, false, ◌&&◌, List,
  [], ◌∷◌, none, some, ltb, ◌==◌, arith, Bool-cases,
}
use os_p.Base.Int.{ℤ, pos}
use os_p.Base.Threads.{count, one}
use os_p.Arraytcb.{
  Tcb, Arraytcb, write, is_null, double_array, new_thread, insert_block, arraytcb_insert_thread,
  arraytcb_delete_thread,
}
use os_p.Arraytcb.Slots.{
  IsValid, Placed, Fails, double_array-slots, append_thread-Placed, full_slots,
}

one-true : (c d : Bool) (n : ℕ) → suc n ≡ one (c && d) → (n ≡ 0) × (c ≡ true) × (d ≡ true)
one-true true true n e = (omega (arith, e), refl, refl)
one-true true false n e = absurd (omega (arith, e))
one-true false d n e = absurd (omega (arith, e))

double_array-cursize : (a : Arraytcb) → (double_array a).cursize ≡ a.cursize
unfolding double_array
double_array-cursize a = refl

double_array-avail_list : (a : Arraytcb) → (double_array a).avail_list ≡ a.avail_list
unfolding double_array
double_array-avail_list a = refl

double_array_room :
    (a : Arraytcb)
    → IsValid a
    → (a.cursize == a.maxsize) ≡ true
    → a.cursize < (double_array a).maxsize
unfolding double_array
double_array_room a h e = ground (arith, e, h.positive)

module _ (a : Arraytcb) (h : IsValid a) (t : Tcb) where
  -- The first free slot is used.
  reuse-Placed :
      (calloc : Bool) (index : ℕ) (rest : List ℕ)
      → a.avail_list ≡ index ∷ rest
      → Placed a t index (insert_block (index ∷ rest) calloc t a)
  unfolding insert_block count
  reuse-Placed calloc index rest e = record {
    index = refl;
    was_free = free.2;
    in_array = ground (arith, free.1);
    stored = ground arith;
    others = λ j d. ground (arith, d);
    valid = record {
      positive = h.positive;
      size_le = h.size_le;
      beyond = λ i x. ground (arith, h.beyond i x, x, free.1);
      avail = λ i. slots i;
    };
    unlocked = refl;
  }
    where
      counted :
          (i : ℕ)
          → one (index == i) + count (λ (j : ℕ). j == i) rest
            ≡ one (ltb i a.cursize && is_null (a.slots i))
      counted i = sym (ap (λ (z : List ℕ). count (λ (j : ℕ). j == i) z) e) ∙ h.avail i

      same : (index == index) ≡ true
      same = ground arith

      free :
          (count (λ (j : ℕ). j == index) rest ≡ 0)
          × (ltb index a.cursize ≡ true)
          × (is_null (a.slots index) ≡ true)
      free =
          one-true (ltb index a.cursize) (is_null (a.slots index))
            (count (λ (j : ℕ). j == index) rest) (omega (arith, counted index, ap one same))

      slots :
          (i : ℕ)
          → count (λ (j : ℕ). j == i) rest
            ≡ one (ltb i a.cursize && is_null (write a.slots index (some t) i))
      slots i = elim (Bool-cases (i == index)) [
        | inl f ↦
            let s : i ≡ index = ground (arith, f) in
            let z : count (λ (j : ℕ). j == i) rest ≡ 0 =
              ap (λ (x : ℕ). count (λ (j : ℕ). j == x) rest) s ∙ free.0 in
            rw f (ground (arith, z))
        | inr f ↦
            let s : (index == i) ≡ false = ground (arith, f) in
            rw f (omega (arith, counted i, ap one s))
      ]

  append_case :
      (calloc : Bool)
      → a.avail_list ≡ []
      → ((i : ℕ) × Placed a t i (insert_block [] calloc t a))
        ⊎ Fails a calloc (insert_block [] calloc t a)
  unfolding insert_block
  append_case calloc n = elim (Bool-cases (a.cursize == a.maxsize)) [
    | inr e ↦
        rw (insert_block, e)
          (inl (
            a.cursize,
            append_thread-Placed a a t h n (λ i. refl) refl refl (ground (arith, e, h.size_le)),
          ))
    | inl e ↦ go calloc e
  ]
    where
      go :
          (c : Bool)
          → (a.cursize == a.maxsize) ≡ true
          → ((i : ℕ) × Placed a t i (insert_block [] c t a)) ⊎ Fails a c (insert_block [] c t a)
      go true e =
          rw (insert_block, e)
            (inl (
              a.cursize,
              append_thread-Placed a (double_array a) t h n (double_array-slots a h)
                  (double_array-cursize a) (double_array-avail_list a) (double_array_room a h e),
            ))
      go false e =
          rw (insert_block, e)
            (inr (record {
              index = refl;
              same = refl;
              full = λ i x. full_slots a h n i (ground (arith, x, e));
              no_memory = refl;
              locked = refl;
            }))

  block-Placed :
      (calloc : Bool) (avail : List ℕ)
      → a.avail_list ≡ avail
      → ((i : ℕ) × Placed a t i (insert_block avail calloc t a))
        ⊎ Fails a calloc (insert_block avail calloc t a)
  block-Placed calloc [] e = append_case calloc e
  block-Placed calloc (index ∷ rest) e = inl (index, reuse-Placed calloc index rest e)

-- On a valid array arraytcb_insert_thread, when it has a block for the new thread, either puts it
-- in a slot that was free, returns its index, leaves every other slot and releases the mutex; or
-- it returns -1 with the array unchanged, every slot in use, no memory for a larger array, and the
-- mutex still locked. The array stays valid: its list has each free slot below cursize once and no
-- other.
pub arraytcb_insert_thread-Placed :
    (a : Arraytcb) (calloc : Bool) (ktid tid : ℕ)
    → IsValid a
    → ((i : ℕ) × Placed a (new_thread ktid tid) i (arraytcb_insert_thread true calloc ktid tid a))
      ⊎ Fails a calloc (arraytcb_insert_thread true calloc ktid tid a)
unfolding arraytcb_insert_thread
arraytcb_insert_thread-Placed a calloc ktid tid h =
    block-Placed a h (new_thread ktid tid) calloc a.avail_list refl

-- The slot is free, and the others are as before.
pub record Freed (a : Arraytcb) (i : ℕ) (r : ℤ × Arraytcb) : Type 0 where
  pub result : r.0 ≡ pos 0
  pub freed : is_null (r.1.slots i) ≡ true
  pub others : (j : ℕ) → j ≢ i → r.1.slots j ≡ a.slots j
  pub valid : IsValid r.1
  pub next :
      (calloc : Bool) (ktid tid : ℕ)
      → (arraytcb_insert_thread true calloc ktid tid r.1).index ≡ pos i

-- On a valid array arraytcb_delete_thread of a slot in use returns 0, frees that slot and no other
-- and keeps the array valid, and the next arraytcb_insert_thread that has a block for its thread
-- returns that slot, whether memory for a larger array is left or not.
pub arraytcb_delete_thread-Freed :
    (a : Arraytcb) (i : ℕ)
    → IsValid a
    → is_null (a.slots i) ≡ false
    → Freed a i (arraytcb_delete_thread i a)
unfolding arraytcb_delete_thread arraytcb_insert_thread insert_block count
arraytcb_delete_thread-Freed a i h u =
    rw (arraytcb_delete_thread, u)
      (record {
        result = refl;
        freed = ground arith;
        others = λ j d. ground (arith, d);
        valid = record {
          positive = h.positive;
          size_le = h.size_le;
          beyond = λ j x. beyond j x;
          avail = λ j. avail j;
        };
        next = λ calloc ktid tid. refl;
      })
  where
    below : (ltb i a.cursize) ≡ true
    below = elim (Bool-cases (ltb i a.cursize)) [
      | inl e ↦ e
      | inr e ↦ absurd (clash (h.beyond i (ground (arith, e))))
    ]
      where
        clash : is_null (a.slots i) ≡ true → ⊥
        clash e = cc

    beyond : (j : ℕ) → a.cursize ≤ j → is_null (write a.slots i none j) ≡ true
    beyond j x = ground (arith, h.beyond j x)

    avail :
        (j : ℕ)
        → one (i == j) + count (λ (k : ℕ). k == j) a.avail_list
          ≡ one (ltb j a.cursize && is_null (write a.slots i none j))
    avail j = elim (Bool-cases (j == i)) [
      | inl e ↦
          let s : j ≡ i = ground (arith, e) in
          let f : (i == j) ≡ true = ground (arith, e) in
          let v : one (ltb j a.cursize && is_null (a.slots j)) ≡ 0 =
            ap (λ (x : ℕ). one (ltb x a.cursize && is_null (a.slots x))) s ∙ rw (below, u) refl in
          let b : ltb j a.cursize ≡ true = ap (λ (x : ℕ). ltb x a.cursize) s ∙ below in
          rw (e, b) (omega (arith, h.avail j, v, ap one f))
      | inr e ↦
          let f : (i == j) ≡ false = ground (arith, e) in rw e (omega (arith, h.avail j, ap one f))
    ]
