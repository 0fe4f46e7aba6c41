-- ===== src/Arraytcb/Slots.antt =====
-- Which slots are free, and which slot a new thread gets.
use os_p.Base.{
  ℕ, zero, suc, ◌+◌, ◌≤◌, ◌<◌, ◌≡◌, ◌≢◌, inl, inr, refl, sym, ap, ◌∙◌, Bool, true, false, ◌&&◌,
  List, [], Option, none, some, ltb, ◌==◌, if◌then◌else◌, arith, Bool-cases,
}
use os_p.Base.Int.{pos, negsuc}
use os_p.Base.Threads.{count, one}
use os_p.Arraytcb.{
  arraytcb_get_thread, Tcb, Arraytcb, write, is_null, copy_slots, double_array, Insertion,
  append_thread,
}

-- The list has each free slot below `cursize` once and no other.
pub record IsValid (a : Arraytcb) : Type 0 where
  pub positive : 0 < a.maxsize
  pub size_le : a.cursize ≤ a.maxsize
  pub beyond : (i : ℕ) → a.cursize ≤ i → is_null (a.slots i) ≡ true
  pub avail :
      (i : ℕ)
      → count (λ (j : ℕ). j == i) a.avail_list ≡ one (ltb i a.cursize && is_null (a.slots i))

-- The thread is in a slot that was free, and the other slots are as before.
pub record Placed (a : Arraytcb) (t : Tcb) (i : ℕ) (r : Insertion) : Type 0 where
  pub index : r.index ≡ pos i
  pub was_free : is_null (a.slots i) ≡ true
  pub in_array : i < r.array.cursize
  pub stored : r.array.slots i ≡ some t
  pub others : (j : ℕ) → j ≢ i → r.array.slots j ≡ a.slots j
  pub valid : IsValid r.array
  pub unlocked : r.locked ≡ false

-- All slots are in use and the array cannot be doubled: the mutex stays locked.
pub record Fails (a : Arraytcb) (calloc : Bool) (r : Insertion) : Type 0 where
  pub index : r.index ≡ negsuc 0
  pub same : r.array ≡ a
  pub full : (i : ℕ) → i < a.maxsize → is_null (a.slots i) ≡ false
  pub no_memory : calloc ≡ false
  pub locked : r.locked ≡ true

copy_slots-copies :
    (n : ℕ) (old : ℕ → Option Tcb) (i : ℕ) → copy_slots n old i ≡ (if ltb i n then old i else none)
unfolding copy_slots
copy_slots-copies zero old i = ground arith
copy_slots-copies (suc n) old i = ground (arith, copy_slots-copies n old i)

null-none : (o : Option Tcb) → is_null o ≡ true → o ≡ none
null-none none e = refl
null-none (some t) e = cc

pub double_array-slots : (a : Arraytcb) → IsValid a → (i : ℕ) → (double_array a).slots i ≡ a.slots i
unfolding double_array
double_array-slots a h i = elim (Bool-cases (ltb i a.cursize)) [
  | inl e ↦ copy_slots-copies a.cursize a.slots i ∙ (rw e refl)
  | inr e ↦
      copy_slots-copies a.cursize a.slots i
      ∙ (rw e (sym (null-none (a.slots i) (h.beyond i (ground (arith, e))))))
]

-- A new slot at the end, with room for it and none free before.
pub append_thread-Placed :
    (a b : Arraytcb) (t : Tcb)
    → IsValid a
    → a.avail_list ≡ []
    → ((i : ℕ) → b.slots i ≡ a.slots i)
    → b.cursize ≡ a.cursize
    → b.avail_list ≡ a.avail_list
    → a.cursize < b.maxsize
    → Placed a t a.cursize (append_thread t b)
append_thread-Placed a b t h n s c l m = record {
  index = ap pos c;
  was_free = h.beyond a.cursize (omega arith);
  in_array = omega (arith, c);
  stored = ground (arith, c);
  others = λ j d. ground (arith, c, d, s j);
  valid = record {
    positive = omega (arith, m);
    size_le = omega (arith, m, c);
    beyond = λ i x. beyond i x;
    avail = λ i. avail i;
  };
  unlocked = refl;
}
  where
    beyond : (i : ℕ) → b.cursize + 1 ≤ i → is_null (write b.slots b.cursize (some t) i) ≡ true
    beyond i x =
        let z : is_null (b.slots i) ≡ true = rw (s i) (h.beyond i (omega (arith, x, c))) in
        ground (arith, x, z)

    avail :
        (i : ℕ)
        → count (λ (j : ℕ). j == i) b.avail_list
          ≡ one (ltb i (b.cursize + 1) && is_null (write b.slots b.cursize (some t) i))
    avail i =
        let v : count (λ (j : ℕ). j == i) b.avail_list
            ≡ one (ltb i a.cursize && is_null (a.slots i)) =
          ap (λ (z : List ℕ). count (λ (j : ℕ). j == i) z) l ∙ h.avail i in
        let z : is_null (b.slots i) ≡ is_null (a.slots i) = ap is_null (s i) in
        elim (Bool-cases (i == b.cursize)) [
          | inl e ↦ rw e (ground (arith, v, z, c, e))
          | inr e ↦ rw e (ground (arith, v, z, c, e))
        ]

pub full_slots :
    (a : Arraytcb)
    → IsValid a
    → a.avail_list ≡ []
    → (i : ℕ) → i < a.cursize
    → is_null (a.slots i) ≡ false
unfolding count
full_slots a h n i x =
    let v : 0 ≡ one (ltb i a.cursize && is_null (a.slots i)) =
      sym (ap (λ (z : List ℕ). count (λ (j : ℕ). j == i) z) n) ∙ h.avail i in
    ground (arith, v, x)

pub arraytcb_get_thread_below :
    (a : Arraytcb) (i : ℕ) → i < a.cursize → arraytcb_get_thread (pos i) a ≡ a.slots i
unfolding arraytcb_get_thread
arraytcb_get_thread_below a i h = ground (arith, h)
