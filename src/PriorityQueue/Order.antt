-- ===== src/PriorityQueue/Order.antt =====
-- Insertion into a queue that is in order.
use os_p.Base.{true, false, List, [], ◌∷◌, ◌++◌, ◌≡◌, refl, sym, ap, inl, inr, Bool-cases, subst}
use os_p.Base.Int.{ℤ, pos, ltb_ℤ}
use os_p.PriorityQueue.{PriQueue, insert, pri_queue_enqueue}

module _ {ℓ} {A : Type ℓ} where
  abbrev pub All : (A → Type 0) → List A → Type 0
  All P [] = Unit {0}
  All P (x ∷ xs) = P x × All P xs

  pub All-append : (P : A → Type 0) (xs ys : List A) → All P xs → All P ys → All P (xs ++ ys)
  All-append P [] ys a b = b
  All-append P (x ∷ xs) ys a b = (a.0, All-append P xs ys a.1 b)

  -- `node` comes behind `other`.
  abbrev pub After : (A → A → ℤ) → A → A → Type 0
  After compare node other = ltb_ℤ (pos 0) (compare node other) ≡ true

  abbrev pub NotAfter : (A → A → ℤ) → A → A → Type 0
  NotAfter compare node other = ltb_ℤ (pos 0) (compare node other) ≡ false

  -- Each entry is behind no entry that follows it.
  abbrev pub Ordered : (A → A → ℤ) → List A → Type 0
  Ordered compare [] = Unit {0}
  Ordered compare (x ∷ xs) = All (NotAfter compare x) xs × Ordered compare xs

  -- `NotAfter` is an order in which two entries never come behind each other.
  pub record IsOrder (compare : A → A → ℤ) : Type ℓ where
    pub total : (x y : A) → After compare x y → NotAfter compare y x
    pub trans : (x y z : A) → NotAfter compare x y → NotAfter compare y z → NotAfter compare x z

module _ {ℓ} {A : Type ℓ} (compare : A → A → ℤ) (node : A) where
  -- Where the entry goes: behind exactly those that it comes behind.
  abbrev pub Inserted : List A → List A → Type ℓ
  Inserted q r =
      (before : List A) × (after : List A) × (q ≡ before ++ after)
      × (r ≡ before ++ (node ∷ after))
      × All (After compare node) before
      × All (NotAfter compare node) after

module _ {ℓ} {A : Type ℓ} (compare : A → A → ℤ) (node : A) (order : IsOrder compare) where
  All-trans :
      (x : A) (q : List A)
      → NotAfter compare node x
      → All (NotAfter compare x) q
      → All (NotAfter compare node) q
  All-trans x [] h a = tt
  All-trans x (y ∷ q) h a = (order.trans node x y h a.0, All-trans x q h a.1)

  insert-Inserted :
      (q : List A) → Ordered compare q → Inserted compare node q (insert compare node q)
  unfolding insert
  insert-Inserted [] o = ([], [], refl, refl, tt, tt)
  insert-Inserted (x ∷ q) o = elim (Bool-cases (ltb_ℤ (pos 0) (compare node x))) [
    | inl h ↦
        let (before, after, e, f, a, b) = insert-Inserted q o.1 in
        rw h (x ∷ before, after, ap (λ z. x ∷ z) e, ap (λ z. x ∷ z) f, (h, a), b)
    | inr h ↦ rw h ([], x ∷ q, refl, refl, tt, (h, All-trans x q h o.0))
  ]

  Ordered-insert :
      (before after : List A)
      → Ordered compare (before ++ after)
      → All (After compare node) before
      → All (NotAfter compare node) after
      → Ordered compare (before ++ (node ∷ after))
  Ordered-insert [] after o a b = (b, o)
  Ordered-insert (x ∷ before) after o a b = (join before o.0, Ordered-insert before after o.1 a.1 b)
    where
      join :
          (l : List A)
          → All (NotAfter compare x) (l ++ after)
          → All (NotAfter compare x) (l ++ (node ∷ after))
      join [] h = (order.total node x a.0, h)
      join (y ∷ l) h = (h.0, join l h.1)

-- For a comparison that is an order, an enqueue into a priority queue in order keeps it in order:
-- the new entry stands behind exactly those that it comes behind, and no other entry moves.
pub pri_queue_enqueue-Inserted {ℓ} :
    {A : Type ℓ}
    → (queue : PriQueue A) (node : A) → IsOrder queue.compare
    → Ordered queue.compare queue.head
    → Inserted queue.compare node queue.head (pri_queue_enqueue queue node).head
      × Ordered queue.compare (pri_queue_enqueue queue node).head
unfolding pri_queue_enqueue
pri_queue_enqueue-Inserted queue node order o =
    let w = insert-Inserted queue.compare node order queue.head o in
    let (before, after, e, f, a, b) = w in
    (
      w,
      subst (Ordered queue.compare) (sym f) (
          Ordered-insert queue.compare node order before after (subst (Ordered queue.compare) e o) a
            b),
    )
