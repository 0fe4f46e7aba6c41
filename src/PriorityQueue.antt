-- ===== src/PriorityQueue.antt =====
-- kern/priority_queue.c: the queue kept in the order of a comparison function. The nodes are the
-- callers', linked one way from `head`; the list holds their data fields, nearest first.
pub mod Order
use os_p.Base.{Bool, true, false, List, [], ◌∷◌, Option, none, some, if◌then◌else◌}
use os_p.Base.Int.{ℤ, pos, ltb_ℤ}

pub record PriQueue {ℓ} (A : Type ℓ) : Type ℓ where
  pub head : List A
  pub compare : A → A → ℤ

module _ {ℓ} {A : Type ℓ} where
  unfoldable pub pri_queue_init : (A → A → ℤ) → PriQueue A
  pri_queue_init compare = record { head = []; compare = compare }

  -- The loop of `pri_queue_enqueue`, with the links that follow it.
  unfoldable pub insert : (A → A → ℤ) → A → List A → List A
  insert compare node [] = node ∷ []
  insert compare node (next ∷ rest) =
      if ltb_ℤ (pos 0) (compare node next)
      then next ∷ insert compare node rest
      else node ∷ next ∷ rest

  unfoldable pub pri_queue_enqueue : PriQueue A → A → PriQueue A
  pri_queue_enqueue queue node = record queue { head = insert queue.compare node queue.head }

  unfoldable pub pri_queue_dequeue : PriQueue A → Option A × PriQueue A
  pri_queue_dequeue queue = elim queue.head [
    | [] ↦ (none, queue)
    | rv ∷ rest ↦ (some rv, record queue { head = rest })
  ]

  unfoldable pub pri_queue_get_first : PriQueue A → Option A
  pri_queue_get_first queue = elim queue.head [ [] ↦ none | first ∷ rest ↦ some first ]
