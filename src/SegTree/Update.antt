-- ===== src/SegTree/Update.antt =====
-- `update_tree`: after a leaf has changed, the walk from its parent up makes the tree consistent.
use os_p.Base.{
  ℕ, zero, suc, ◌+◌, ◌*◌, ◌/◌, ◌≤◌, ◌<◌, ◌≡◌, ◌≢◌, refl, ◌⊎◌, inl, inr, sym, ◌∙◌, arith, length,
  eq_cases, length-set, get_or-set_self, get_or-set_ne, ==_false,
}
use mathlib.Core.Path.{ap₂}
use os_p.SegTree.{SegTree, node, set_node, node_value, pick, refresh, update_loop}
use os_p.SegTree.Range.{Consistent, width}

update_loop-zero : (f : ℕ) (s : SegTree) → update_loop f s 0 ≡ s
unfolding update_loop
update_loop-zero zero s = refl
update_loop-zero (suc f) s = refl

update_loop-pos :
    (f j : ℕ) (s : SegTree) → 1 ≤ j → update_loop (suc f) s j ≡ update_loop f (refresh s j) (j / 2)
unfolding update_loop
update_loop-pos f zero s h = elim h [ ]
update_loop-pos f (suc j) s h = rw (==_false (suc j) 0 (omega arith), update_loop)

-- What a walk from an inner node leaves alone.
pub record SameLeaves (s t : SegTree) : Type 0 where
  pub same_max : t.max_num ≡ s.max_num
  pub same_size : t.size ≡ s.size
  pub same_length : length t.tree ≡ length s.tree
  pub same_leaf : (k : ℕ) → s.size ≤ k → node t k ≡ node s k

SameLeaves-refl : (s : SegTree) → SameLeaves s s
SameLeaves-refl s = record {
  same_max = refl;
  same_size = refl;
  same_length = refl;
  same_leaf = λ k h. refl;
}

SameLeaves-trans : (s t u : SegTree) → SameLeaves s t → SameLeaves t u → SameLeaves s u
SameLeaves-trans s t u p q = record {
  same_max = q.same_max ∙ p.same_max;
  same_size = q.same_size ∙ p.same_size;
  same_length = q.same_length ∙ p.same_length;
  same_leaf = λ k h. q.same_leaf k (rw p.same_size h) ∙ p.same_leaf k h;
}

refresh-SameLeaves : (s : SegTree) (j : ℕ) → j < s.size → SameLeaves s (refresh s j)
unfolding refresh
refresh-SameLeaves s j h = record {
  same_max = refl;
  same_size = refl;
  same_length = length-set s.tree j _;
  same_leaf = λ k g. get_or-set_ne s.tree j k _ 0 (omega arith);
}

pub update_loop-SameLeaves :
    (f : ℕ) (s : SegTree) (j : ℕ) → j < s.size → SameLeaves s (update_loop f s j)
unfolding update_loop
update_loop-SameLeaves zero s j h = SameLeaves-refl s
update_loop-SameLeaves (suc f) s zero h = SameLeaves-refl s
update_loop-SameLeaves (suc f) s (suc j) h =
    let once = refresh-SameLeaves s (suc j) h in
    rw (update_loop-pos f (suc j) s (omega arith)) (
      SameLeaves-trans s (refresh s (suc j)) (update_loop f (refresh s (suc j)) (suc j / 2)) once
        (update_loop-SameLeaves f (refresh s (suc j)) (suc j / 2) (omega (arith, once.same_size))))

-- `i` is among the first `f` nodes of the walk from `j` to the root.
abbrev pub OnPath : ℕ → ℕ → ℕ → Type 0
OnPath zero j i = ⊥
OnPath (suc f) j i = (i ≡ j) ⊎ OnPath f (j / 2) i

OnPath-zero : (f i : ℕ) → 1 ≤ i → ¬ OnPath f 0 i
OnPath-zero zero i h p = p
OnPath-zero (suc f) i h (inl e) = absurd (omega arith)
OnPath-zero (suc f) i h (inr p) = OnPath-zero f i h p

-- A node other than the one that changed keeps its value.
pub node_value-set_ne :
    (s : SegTree) (j v k : ℕ) → j ≢ k → node_value (set_node s j v) k ≡ node_value s k
unfolding node_value
node_value-set_ne s j v k h = rw (get_or-set_ne s.tree j k v 0 h)

node_value-refresh : (s : SegTree) (j k : ℕ) → j ≢ k → node_value (refresh s j) k ≡ node_value s k
unfolding refresh
node_value-refresh s j k h = node_value-set_ne s j _ k h

refresh-Consistent-other :
    (s : SegTree) (j i : ℕ)
    → i ≢ j
    → j ≢ i * 2
    → j ≢ i * 2 + 1
    → Consistent s i
    → Consistent (refresh s j) i
unfolding refresh
refresh-Consistent-other s j i a b c e =
    kept
    ∙ e
    ∙ ap₂ pick (sym (node_value-refresh s j (i * 2) b)) (sym (node_value-refresh s j (i * 2 + 1) c))
  where
    kept : node (refresh s j) i ≡ node s i
    kept = get_or-set_ne s.tree j i _ 0 (λ q. a (sym q))

refresh-Consistent-self :
    (s : SegTree) (j : ℕ) → 1 ≤ j → j < length s.tree → Consistent (refresh s j) j
unfolding refresh
refresh-Consistent-self s j p h =
    get_or-set_self s.tree j _ 0 h
    ∙ ap₂ pick (sym (node_value-refresh s j (j * 2) (omega arith)))
        (sym (node_value-refresh s j (j * 2 + 1) (omega arith)))

-- Every inner node is consistent, but for those on the walk from `j` that `f` rounds still reach.
abbrev pub Pending : ℕ → ℕ → SegTree → Type 0
Pending f j s = (i : ℕ) → 1 ≤ i → i < s.size → Consistent s i ⊎ OnPath f j i

-- `j` is a child of `i`, or neither of its children.
pub child_cases : (i j : ℕ) → (i ≡ j / 2) ⊎ ((j ≢ i * 2) × (j ≢ i * 2 + 1))
child_cases i j = elim (eq_cases i (j / 2)) [
  | inl e ↦ inl e
  | inr n ↦ inr (λ a. n (omega arith), λ b. n (omega arith))
]

walk_up : (f j i : ℕ) → 1 ≤ i → j < width (suc f) → i ≡ j / 2 → OnPath f (j / 2) i
unfolding width
walk_up zero j i p h e = absurd (omega arith)
walk_up (suc f) j i p h e = inl e

refresh-Pending :
    (f j : ℕ) (s : SegTree)
    → 1 ≤ j
    → j < s.size
    → j < length s.tree
    → j < width (suc f)
    → Pending (suc f) j s
    → Pending f (j / 2) (refresh s j)
refresh-Pending f j s p q l w todo i a b = elim (eq_cases i j) [
  | inl e ↦ inl (rw e (refresh-Consistent-self s j p l))
  | inr n ↦ elim (todo i a (rw (refresh-SameLeaves s j q).same_size at b)) [
    | inr (inl e) ↦ absurd (n e)
    | inr (inr path) ↦ inr path
    | inl ok ↦ elim (child_cases i j) [
      | inl e ↦ inr (walk_up f j i a w e)
      | inr (x, y) ↦ inl (refresh-Consistent-other s j i n x y ok)
    ]
  ]
]

-- With rounds enough to reach the root the walk leaves every inner node consistent.
pub update_loop-Consistent :
    (f j : ℕ) (s : SegTree)
    → j < s.size
    → s.size ≤ length s.tree
    → j < width f
    → Pending f j s
    → (i : ℕ) → 1 ≤ i
    → i < s.size
    → Consistent (update_loop f s j) i
unfolding update_loop width
update_loop-Consistent zero j s q l w todo i a b = elim (todo i a b) [
  | inl ok ↦ ok
  | inr no_path ↦ absurd no_path
]
update_loop-Consistent (suc f) zero s q l w todo i a b = elim (todo i a b) [
  | inl ok ↦ ok
  | inr path ↦ absurd (OnPath-zero (suc f) i a path)
]
update_loop-Consistent (suc f) (suc j) s q l w todo i a b =
    let same = refresh-SameLeaves s (suc j) q in
    rw (update_loop-pos f (suc j) s (omega arith)) (
      update_loop-Consistent f (suc j / 2) (refresh s (suc j)) (omega (arith, same.same_size))
        (omega (arith, same.same_size, same.same_length)) (omega arith)
        (refresh-Pending f (suc j) s (omega arith) q (omega arith) w todo) i a
        (rw same.same_size b))
