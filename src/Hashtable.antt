-- ===== src/Hashtable.antt =====
-- kern/hashtable.c: a hash table with separate chaining. A chain is the list of the nodes behind
-- its head in the array, nearest first. The hash function and `malloc` are the caller's.
pub mod Lookup
mod Tests
use os_p.Base.{
  ℕ, zero, suc, Bool, true, false, List, [], ◌∷◌, Option, none, some, ◌==◌, if◌then◌else◌, get_or,
  set, replicate,
}

module _ {ℓ} {V : Type ℓ} where
  -- The loop of `hashtable_get` over the nodes of one chain.
  unfoldable pub find : ℕ → List (ℕ × V) → Option V
  find key [] = none
  find key ((k, v) ∷ rest) = if k == key then some v else find key rest

  -- The chain that the loop of `hashtable_remove` leaves: the first node with the key is unlinked.
  pub unlink : ℕ → List (ℕ × V) → List (ℕ × V)
  unlink key [] = []
  unlink key ((k, v) ∷ rest) = if k == key then rest else (k, v) ∷ unlink key rest

pub record Hashtable {ℓ} (V : Type ℓ) : Type ℓ where
  pub array : List (List (ℕ × V))
  pub size : ℕ
  pub func : ℕ → ℕ

module _ {ℓ} {V : Type ℓ} where
  abbrev pub chain : Hashtable V → ℕ → List (ℕ × V)
  chain t index = get_or t.array index []

  abbrev pub set_chain : Hashtable V → ℕ → List (ℕ × V) → Hashtable V
  set_chain t index c = record t { array = set t.array index c }

  -- `true` says that `malloc` succeeds; `none` is the return value -1.
  unfoldable pub hashtable_init : Bool → ℕ → (ℕ → ℕ) → Option (Hashtable V)
  hashtable_init true size func =
      some (record { array = replicate size []; size = size; func = func })
  hashtable_init false size func = none

  unfoldable pub hashtable_put : Bool → Hashtable V → ℕ → V → Option (Hashtable V)
  hashtable_put true t key value =
      some (set_chain t (t.func key) ((key, value) ∷ chain t (t.func key)))
  hashtable_put false t key value = none

  -- `some` is a result with `*is_find` set, `none` one with it cleared.
  unfoldable pub hashtable_get : Hashtable V → ℕ → Option V
  hashtable_get t key = find key (chain t (t.func key))

  pub hashtable_remove : Hashtable V → ℕ → Option V × Hashtable V
  hashtable_remove t key = (
    find key (chain t (t.func key)),
    set_chain t (t.func key) (unlink key (chain t (t.func key))),
  )
