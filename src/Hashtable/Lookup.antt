-- ===== src/Hashtable/Lookup.antt =====
-- The table as a map from keys to their values, newest first.
use os_p.Base.{
  ℕ, ◌<◌, ◌≡◌, ◌≢◌, refl, sym, ap, ◌∙◌, ◌⊎◌, inl, inr, true, false, List, [], ◌∷◌, none, some, ◌==◌,
  if◌then◌else◌, get_or, set, replicate, length, length-set, length-replicate, get_or-set_self,
  get_or-set_ne, get_or-replicate, eq_cases, ==_iff, ==_false, Bool-cases, subst, bool_clash,
}
use os_p.Hashtable.{
  Hashtable, find, unlink, chain, set_chain, hashtable_init, hashtable_put, hashtable_get,
  hashtable_remove,
}

module _ {ℓ} {V : Type ℓ} where
  -- A chain holds no key twice.
  abbrev pub Distinct : List (ℕ × V) → Type ℓ
  Distinct [] = Unit {ℓ}
  Distinct ((k, v) ∷ rest) = (find k rest ≡ none) × Distinct rest

  -- The hash function stays inside the array, and no key is in the table twice.
  pub record IsValid (t : Hashtable V) : Type ℓ where
    pub in_array : length t.array ≡ t.size
    pub hashed : (key : ℕ) → t.func key < t.size
    pub distinct : (i : ℕ) → Distinct (chain t i)

  find-unlink_ne : (k j : ℕ) (c : List (ℕ × V)) → k ≢ j → find j (unlink k c) ≡ find j c
  unfolding find unlink
  find-unlink_ne k j [] h = refl
  find-unlink_ne k j ((i, v) ∷ rest) h = elim (Bool-cases (i == k)) [
    | inl e ↦ let ik = (==_iff i k).0 e in rw e (rw (==_false i j (λ q. h (sym ik ∙ q))))
    | inr n ↦ rw n (rw (find-unlink_ne k j rest h))
  ]

  find-unlink_self : (k : ℕ) (c : List (ℕ × V)) → Distinct c → find k (unlink k c) ≡ none
  unfolding find unlink
  find-unlink_self k [] d = refl
  find-unlink_self k ((i, v) ∷ rest) d = elim (Bool-cases (i == k)) [
    | inl e ↦ rw e (subst (λ x. find x rest ≡ none) ((==_iff i k).0 e) d.0)
    | inr n ↦ rw n (rw n (find-unlink_self k rest d.1))
  ]

  unlink-Distinct : (k : ℕ) (c : List (ℕ × V)) → Distinct c → Distinct (unlink k c)
  unfolding unlink
  unlink-Distinct k [] d = d
  unlink-Distinct k ((i, v) ∷ rest) d = elim (Bool-cases (i == k)) [
    | inl e ↦ rw e d.1
    | inr n ↦ rw n (
      find-unlink_ne k i rest (λ q. bool_clash (sym n ∙ (==_iff i k).1 (sym q))) ∙ d.0,
      unlink-Distinct k rest d.1,
    )
  ]

  -- A chain of a table with one chain replaced.
  chain-set :
      (t : Hashtable V) (i j : ℕ) (c : List (ℕ × V))
      → i < length t.array
      → chain (set_chain t i c) j ≡ (if i == j then c else chain t j)
  chain-set t i j c h = elim (eq_cases i j) [
    | inl e ↦
        rw ((==_iff i j).1 e)
          (subst (λ x. get_or (set t.array i c) x [] ≡ c) e (get_or-set_self t.array i c [] h))
    | inr n ↦ rw (==_false i j n) (get_or-set_ne t.array i j c [] n)
  ]

module _ {ℓ} {V : Type ℓ} (t : Hashtable V) (size : ℕ) (func : ℕ → ℕ) where
  -- A table that hashtable_init makes for a hash function into its size is valid, and no lookup in
  -- it finds anything.
  pub hashtable_init-IsValid :
      hashtable_init true size func ≡ some t
      → ((key : ℕ) → func key < size)
      → IsValid t × ((key : ℕ) → hashtable_get t key ≡ none)
  unfolding hashtable_init hashtable_get find
  hashtable_init-IsValid e h =
      subst (λ u. IsValid u × ((key : ℕ) → hashtable_get u key ≡ none)) made
        (
          record {
            in_array = length-replicate size [];
            hashed = h;
            distinct = λ i. rw (get_or-replicate size i nothing) tt;
          },
          λ key. rw (get_or-replicate size (func key) nothing),
        )
    where
      nothing : List (ℕ × V)
      nothing = []

      made : record { array = replicate size []; size = size; func = func } ≡ t
      made = cc

module _ {ℓ} {V : Type ℓ} (t u : Hashtable V) (key : ℕ) (value : V) (valid : IsValid t)
    (put : hashtable_put true t key value ≡ some u) where
  index_lt : t.func key < length t.array
  index_lt = rw valid.in_array (valid.hashed key)

  put_is : set_chain t (t.func key) ((key, value) ∷ chain t (t.func key)) ≡ u
  unfolding hashtable_put
  put_is = cc

  chain-put :
      (i : ℕ)
      → chain u i ≡ (if t.func key == i then (key, value) ∷ chain t (t.func key) else chain t i)
  chain-put i = rw (← put_is) (chain-set t (t.func key) i _ index_lt)

  func-put : u.func ≡ t.func
  func-put = sym (ap (λ x. x.func) put_is)

  -- After a put that succeeds on a valid table, a lookup finds the new value at its key and any
  -- other key as before.
  pub hashtable_get-put :
      (j : ℕ) → hashtable_get u j ≡ (if key == j then some value else hashtable_get t j)
  unfolding hashtable_get find
  hashtable_get-put j =
      rw (func-put, chain-put (t.func j))
        (cases j (eq_cases key j) (Bool-cases (t.func key == t.func j)))
    where
      cases :
          (j : ℕ)
          → (key ≡ j) ⊎ (key ≢ j)
          → ((t.func key == t.func j) ≡ true) ⊎ ((t.func key == t.func j) ≡ false)
          → find j (
              if t.func key == t.func j
              then (key, value) ∷ chain t (t.func key)
              else chain t (t.func j))
            ≡ (if key == j then some value else find j (chain t (t.func j)))
      cases j (inl e) _ = rw ((==_iff (t.func key) (t.func j)).1 (ap t.func e), (==_iff key j).1 e)
      cases j (inr n) (inl e) = rw e (
          rw (==_false key j n)
            (ap (λ i. find j (chain t i)) ((==_iff (t.func key) (t.func j)).0 e)))
      cases j (inr n) (inr d) = rw (d, ==_false key j n)

  -- A put of a key that is not in a valid table keeps the table valid: hashes inside the array, no
  -- key twice.
  pub hashtable_put-IsValid : hashtable_get t key ≡ none → IsValid u
  unfolding hashtable_get
  hashtable_put-IsValid fresh = record {
    in_array =
        ap (λ x. length x.array) (sym put_is)
        ∙ length-set t.array (t.func key) _
        ∙ valid.in_array
        ∙ ap (λ x. x.size) put_is;
    hashed = λ k. rw (← put_is) (valid.hashed k);
    distinct = λ i. rw (chain-put i) (chains i (Bool-cases (t.func key == i)));
  }
    where
      chains :
          (i : ℕ)
          → ((t.func key == i) ≡ true) ⊎ ((t.func key == i) ≡ false)
          → Distinct (if t.func key == i then (key, value) ∷ chain t (t.func key) else chain t i)
      chains i (inl e) = rw e (fresh, valid.distinct (t.func key))
      chains i (inr e) = rw e (valid.distinct i)

module _ {ℓ} {V : Type ℓ} (t : Hashtable V) (key : ℕ) (valid : IsValid t) where
  chain-remove :
      (i : ℕ)
      → chain (hashtable_remove t key).1 i
        ≡ (if t.func key == i then unlink key (chain t (t.func key)) else chain t i)
  unfolding hashtable_remove
  chain-remove i = chain-set t (t.func key) i _ (rw valid.in_array (valid.hashed key))

  -- On a valid table hashtable_remove returns what a lookup finds; afterwards the key is gone and
  -- any other key is found as before.
  pub hashtable_get-remove :
      ((hashtable_remove t key).0 ≡ hashtable_get t key)
      × ((j : ℕ)
          → hashtable_get (hashtable_remove t key).1 j
            ≡ (if key == j then none else hashtable_get t j))
  unfolding hashtable_get hashtable_remove
  hashtable_get-remove = (
    refl,
    λ j.
        rw (chain-remove (t.func j))
          (cases j (eq_cases key j) (Bool-cases (t.func key == t.func j))),
  )
    where
      cases :
          (j : ℕ)
          → (key ≡ j) ⊎ (key ≢ j)
          → ((t.func key == t.func j) ≡ true) ⊎ ((t.func key == t.func j) ≡ false)
          → find j (
              if t.func key == t.func j
              then unlink key (chain t (t.func key))
              else chain t (t.func j))
            ≡ (if key == j then none else find j (chain t (t.func j)))
      cases j (inl e) _ =
          rw ((==_iff (t.func key) (t.func j)).1 (ap t.func e), (==_iff key j).1 e)
            (subst (λ x. find x (unlink key (chain t (t.func key))) ≡ none) e
              (find-unlink_self key (chain t (t.func key)) (valid.distinct (t.func key))))
      cases j (inr n) (inl e) = rw e (
          rw (==_false key j n) (
            find-unlink_ne key j (chain t (t.func key)) n
            ∙ ap (λ i. find j (chain t i)) ((==_iff (t.func key) (t.func j)).0 e)))
      cases j (inr n) (inr d) = rw (d, ==_false key j n)

  -- A removal keeps a valid table valid.
  pub hashtable_remove-IsValid : IsValid (hashtable_remove t key).1
  unfolding hashtable_remove
  hashtable_remove-IsValid = record {
    in_array = length-set t.array (t.func key) _ ∙ valid.in_array;
    hashed = valid.hashed;
    distinct = λ i.
        rw
          (chain-set t (t.func key) i (unlink key (chain t (t.func key)))
            (rw valid.in_array (valid.hashed key)))
          (chains i (Bool-cases (t.func key == i)));
  }
    where
      chains :
          (i : ℕ)
          → ((t.func key == i) ≡ true) ⊎ ((t.func key == i) ≡ false)
          → Distinct (if t.func key == i then unlink key (chain t (t.func key)) else chain t i)
      chains i (inl e) =
          rw e (unlink-Distinct key (chain t (t.func key)) (valid.distinct (t.func key)))
      chains i (inr e) = rw e (valid.distinct i)
