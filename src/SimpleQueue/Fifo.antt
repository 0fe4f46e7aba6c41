-- ===== src/SimpleQueue/Fifo.antt =====
-- What a queue promises: a list of nodes, the oldest first.
use os_p.Base.{ℕ, List, [], ◌∷◌, ◌++◌, Option, none, some, Bool, true, false, ◌==◌, if◌then◌else◌}

module _ {ℓ} {A : Type ℓ} where
  unfoldable pub enqueue : List A → A → List A
  enqueue q a = q ++ (a ∷ [])

  unfoldable pub dequeue : List A → Option (A × List A)
  dequeue [] = none
  dequeue (a ∷ q) = some (a, q)

abbrev pub is_empty : List ℕ → Bool
is_empty [] = true
is_empty (a ∷ q) = false

-- The first entry with the key, and the queue without the first entry that has it.
unfoldable pub find_key : (ℕ → ℕ) → ℕ → List ℕ → Option ℕ
find_key key tid [] = none
find_key key tid (a ∷ q) = if key a == tid then some a else find_key key tid q

unfoldable pub drop_key : (ℕ → ℕ) → ℕ → List ℕ → List ℕ
drop_key key tid [] = []
drop_key key tid (a ∷ q) = if key a == tid then q else a ∷ drop_key key tid q
