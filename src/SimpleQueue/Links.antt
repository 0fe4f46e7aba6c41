-- ===== src/SimpleQueue/Links.antt =====
-- The chain of links from one node to another, forwards and backwards.
use os_p.Base.{ℕ, ◌≡◌, ◌≢◌, refl, ◌∙◌, ◌⊎◌, inl, inr, List, [], ◌∷◌}
use os_p.SimpleQueue.{Memory, Deque}

abbrev pub NotIn : ℕ → List ℕ → Type 0
NotIn a [] = Unit {0}
NotIn a (x ∷ xs) = (a ≢ x) × NotIn a xs

abbrev pub Distinct : List ℕ → Type 0
Distinct [] = Unit {0}
Distinct (x ∷ xs) = NotIn x xs × Distinct xs

-- From `a` the links lead over the nodes of the list, in order, to `b`, and back again.
abbrev pub Linked : Memory → ℕ → List ℕ → ℕ → Type 0
Linked m a [] b = ((m a).next ≡ b) × ((m b).prev ≡ a)
Linked m a (x ∷ xs) b = ((m a).next ≡ x) × ((m x).prev ≡ a) × Linked m x xs b

-- Two memories with the same links at the nodes of the chain.
pub Linked-same :
    (m n : Memory) (a : ℕ) (xs : List ℕ) (b : ℕ)
    → ((y : ℕ) → (y ≡ a) ⊎ (¬ NotIn y xs) → (n y).next ≡ (m y).next)
    → ((y : ℕ) → (y ≡ b) ⊎ (¬ NotIn y xs) → (n y).prev ≡ (m y).prev)
    → Linked m a xs b
    → Linked n a xs b
Linked-same m n a [] b p q (e, f) = (p a (inl refl) ∙ e, q b (inl refl) ∙ f)
Linked-same m n a (x ∷ xs) b p q (e, f, l) = (
  p a (inl refl) ∙ e,
  q x (inr (λ h. h.0 refl)) ∙ f,
  Linked-same m n x xs b (λ y c. p y (inr (later y c))) (λ y c. q y (weaken y c)) l,
)
  where
    later : (y : ℕ) → (y ≡ x) ⊎ (¬ NotIn y xs) → ¬ NotIn y (x ∷ xs)
    later y (inl e) h = h.0 e
    later y (inr n) h = n h.1

    weaken : (y : ℕ) → (y ≡ b) ⊎ (¬ NotIn y xs) → (y ≡ b) ⊎ (¬ NotIn y (x ∷ xs))
    weaken y (inl e) = inl e
    weaken y (inr n) = inr (λ h. n h.1)

-- The node before the end is the start or one of the list.
pub last_ne :
    (m : Memory) (y a : ℕ) (xs : List ℕ) (b : ℕ)
    → Linked m a xs b
    → y ≢ a
    → NotIn y xs
    → y ≢ (m b).prev
last_ne m y a [] b (e, f) h n = λ q. h (q ∙ f)
last_ne m y a (x ∷ xs) b (e, f, l) h n = last_ne m y x xs b l n.0 n.1

-- A queue in memory holds the nodes of the list, the oldest first.
pub record Holds (m : Memory) (q : Deque) (xs : List ℕ) : Type 0 where
  pub links : Linked m q.head xs q.tail
  pub apart : Distinct (q.head ∷ xs)
  pub tail_apart : NotIn q.tail (q.head ∷ xs)
