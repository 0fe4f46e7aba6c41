-- ===== src/Hashtable/Tests.antt =====
-- The theorems on the hash table at a concrete table: two slots, a colliding pair of keys.
use os_p.Base.{ℕ, ◌≡◌, ◌%◌, refl, true, [], ◌∷◌, none, some, arith, ◌==◌, if◌then◌else◌}
use os_p.Hashtable.{Hashtable, find, hashtable_init, hashtable_put, hashtable_get, hashtable_remove}
use os_p.Hashtable.Lookup.{
  IsValid, hashtable_init-IsValid, hashtable_put-IsValid, hashtable_get-remove,
}

abbrev slot : ℕ → ℕ
slot key = key % 2

abbrev cleared : Hashtable ℕ
cleared = record { array = [] ∷ [] ∷ []; size = 2; func = slot }

abbrev one_key : Hashtable ℕ
one_key = record { array = [] ∷ ((3, 30) ∷ []) ∷ []; size = 2; func = slot }

abbrev two_keys : Hashtable ℕ
two_keys = record { array = [] ∷ ((5, 50) ∷ (3, 30) ∷ []) ∷ []; size = 2; func = slot }

init_test : hashtable_init {V = ℕ} true 2 slot ≡ some cleared
unfolding hashtable_init
init_test = refl

put_test : hashtable_put true cleared 3 30 ≡ some one_key
unfolding hashtable_put
put_test = refl

put_again : hashtable_put true one_key 5 50 ≡ some two_keys
unfolding hashtable_put
put_again = refl

one_key-misses : hashtable_get one_key 5 ≡ none
unfolding hashtable_get find
one_key-misses = refl

cleared-IsValid : IsValid cleared
cleared-IsValid = (hashtable_init-IsValid cleared 2 slot init_test (λ k. omega arith)).0

one_key-IsValid : IsValid one_key
unfolding hashtable_get find
one_key-IsValid = hashtable_put-IsValid cleared one_key 3 30 cleared-IsValid put_test refl

hashtable_get-remove_example :
    ((hashtable_remove one_key 3).0 ≡ hashtable_get one_key 3)
    × ((j : ℕ)
        → hashtable_get (hashtable_remove one_key 3).1 j
          ≡ (if 3 == j then none else hashtable_get one_key j))
hashtable_get-remove_example = hashtable_get-remove one_key 3 one_key-IsValid
