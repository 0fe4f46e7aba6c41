-- ===== src/SegTree/Range.antt =====
-- Ranges of frames: what a node of a consistent tree says of the frames under it.
use os_p.Base.{
  ℕ, zero, suc, ◌+◌, ◌-◌, ◌*◌, ◌/◌, ◌%◌, ◌^◌, ◌≤◌, ◌<◌, ◌≡◌, ◌≢◌, ◌⊎◌, inl, inr, ◌∙◌, arith, length,
  eq_cases, subst,
}
use mathlib.Core.Path.{ap₂}
use os_p.Base.Bits.{get_bit, lowest_bit, lowest_bit-IsLowest, get_bit-zero}
use os_p.SegTree.{SegTree, nan, node, node_value, pick}

-- 1 if the frame is free, 0 if it is allocated.
abbrev pub free_bit : SegTree → ℕ → ℕ
free_bit s f = get_bit (node s (f / 32 + s.size)) (f % 32)

abbrev pub NoneFree : SegTree → ℕ → ℕ → Type 0
NoneFree s lo hi = (f : ℕ) → lo ≤ f → f < hi → free_bit s f ≡ 0

-- `v` is the smallest free frame in `lo ≤ f < hi`, or `nan` if none is free.
abbrev pub Least : SegTree → ℕ → ℕ → ℕ → Type 0
Least s lo hi v =
    ((v ≡ nan) × NoneFree s lo hi) ⊎ ((lo ≤ v) × (v < hi) × (free_bit s v ≡ 1) × NoneFree s lo v)

NoneFree-join :
    (s : SegTree) (lo mid hi : ℕ) → NoneFree s lo mid → NoneFree s mid hi → NoneFree s lo hi
NoneFree-join s lo mid hi l r f ge lt = elim (split f) [
  | inl below ↦ l f ge below
  | inr above ↦ r f above lt
]
  where
    split : (f : ℕ) → (f < mid) ⊎ (mid ≤ f)
    split f = omega arith

Least-pick :
    (s : SegTree) (lo mid hi l r : ℕ)
    → lo ≤ mid
    → mid ≤ hi
    → hi ≤ nan
    → Least s lo mid l
    → Least s mid hi r
    → Least s lo hi (pick l r)
Least-pick s lo mid hi l r a b c (inl (e, none_l)) (inl (e', none_r)) =
    inl (ground arith, NoneFree-join s lo mid hi none_l none_r)
Least-pick s lo mid hi l r a b c (inl (e, none_l)) (inr (ge, lt, on, none_r)) =
    rw e (inr (omega arith, lt, on, NoneFree-join s lo mid r none_l none_r))
Least-pick s lo mid hi l r a b c (inr (ge, lt, on, none_l)) _ =
    let e : pick l r ≡ l = ground arith in rw e (inr (ge, omega arith, on, none_l))

-- 2 ^ h
unfoldable pub width : ℕ → ℕ
width zero = 1
width (suc h) = 2 * width h

pub width-pos : (h : ℕ) → 0 < width h
unfolding width
width-pos zero = omega arith
width-pos (suc h) = omega (arith, width-pos h)

abbrev pub Consistent : SegTree → ℕ → Type 0
Consistent s i = node s i ≡ pick (node_value s (i * 2)) (node_value s (i * 2 + 1))

-- The shape of a tree of `2 ^ height` leaves.
pub record Shape (s : SegTree) (height : ℕ) : Type 0 where
  pub perfect : s.size ≡ width height
  pub two_leaves : 2 ≤ s.size
  pub few_leaves : s.size ≤ 2 ^ 26
  pub in_array : length s.tree ≡ 2 * s.size

-- The invariant: leaves hold 32-bit words, and each inner node the first value of its children.
pub record IsValid (s : SegTree) : Type 0 where
  pub height : ℕ
  pub shape : Shape s height
  pub words : (k : ℕ) → s.size ≤ k → node s k < 2 ^ 32
  pub consistent : (i : ℕ) → 1 ≤ i → i < s.size → Consistent s i

pub node_value-leaf :
    (s : SegTree) (k : ℕ)
    → s.size ≤ k
    → node s k ≢ 0
    → node_value s k ≡ (k - s.size) * 32 + lowest_bit 32 (node s k)
unfolding node_value
node_value-leaf s k h n = ground arith

pub node_value-empty : (s : SegTree) (k : ℕ) → s.size ≤ k → node s k ≡ 0 → node_value s k ≡ nan
unfolding node_value
node_value-empty s k h n = ground arith

pub node_value-inner : (s : SegTree) (k : ℕ) → k < s.size → node_value s k ≡ node s k
unfolding node_value
node_value-inner s k h = ground arith

-- A frame's bit, in the leaf that holds it.
pub free_bit-eq :
    (s : SegTree) (base q : ℕ)
    → q < 32
    → free_bit s (base * 32 + q) ≡ get_bit (node s (s.size + base)) q
free_bit-eq s base q h =
    let leaf : (base * 32 + q) / 32 + s.size ≡ s.size + base = omega arith in
    let bit : (base * 32 + q) % 32 ≡ q = omega arith in ap₂ (λ k p. get_bit (node s k) p) leaf bit

NoneFree-leaf :
    (s : SegTree) (base n : ℕ)
    → n ≤ 32
    → ((q : ℕ) → q < n → get_bit (node s (s.size + base)) q ≡ 0)
    → NoneFree s (base * 32) (base * 32 + n)
NoneFree-leaf s base n h off f ge lt =
    let e : base * 32 + (f - base * 32) ≡ f = omega arith in
    subst (λ g. free_bit s g ≡ 0) e
      (free_bit-eq s base (f - base * 32) (omega arith) ∙ off (f - base * 32) (omega arith))

-- A leaf's value is the smallest free frame among its 32.
leaf-Least :
    (s : SegTree) (base : ℕ)
    → node s (s.size + base) < 2 ^ 32
    → Least s (base * 32) (base * 32 + 32) (node_value s (s.size + base))
leaf-Least s base w = elim (eq_cases (node s (s.size + base)) 0) [
  | inl e ↦ inl (
    node_value-empty s (s.size + base) (omega arith) e,
    NoneFree-leaf s base 32 (omega arith) (λ q h. rw e (get_bit-zero q)),
  )
  | inr n ↦
      let b = lowest_bit 32 (node s (s.size + base)) in
      let (lt, (on, off)) = lowest_bit-IsLowest 32 (node s (s.size + base)) (omega arith) w in
      let e : node_value s (s.size + base) ≡ base * 32 + b =
        node_value-leaf s (s.size + base) (omega arith) n ∙ omega arith in
      rw e (
        inr (
          omega arith,
          omega arith,
          free_bit-eq s base b lt ∙ on,
          NoneFree-leaf s base b (omega arith) off,
        ))
]

pub inner_bounds :
    (i w n base : ℕ)
    → 0 < w
    → 0 < n
    → i * (w + w) ≡ n + base
    → (i + 1) * (w + w) ≤ 2 * n
    → (1 ≤ i) × (i < n)
inner_bounds zero w n base p q e l = absurd (omega arith)
inner_bounds (suc i) w n base p q e l = (omega arith, grind arith)

-- The value of the node `i` at height `h` is the smallest free frame among those under it.
subtree-Least :
    (s : SegTree) (v : IsValid s) (h i base : ℕ)
    → i * width h ≡ s.size + base
    → (i + 1) * width h ≤ 2 * s.size
    → Least s (base * 32) ((base + width h) * 32) (node_value s i)
unfolding width
subtree-Least s v zero i base e l =
    let here : i ≡ s.size + base = omega arith in
    let leaf = leaf-Least s base (v.words (s.size + base) (omega arith)) in
    rw here (subst (λ hi. Least s (base * 32) hi (node_value s (s.size + base))) (omega arith) leaf)
subtree-Least s v (suc h) i base e l =
    let (ge, lt) =
      inner_bounds i (width h) s.size base (width-pos h) (omega arith) (omega arith)
        (omega arith) in
    let left = subtree-Least s v h (i * 2) base (omega arith) (omega (arith, width-pos h)) in
    let right = subtree-Least s v h (i * 2 + 1) (base + width h) (omega arith) (omega arith) in
    let both =
      Least-pick s (base * 32) ((base + width h) * 32) ((base + width h + width h) * 32)
        (node_value s (i * 2)) (node_value s (i * 2 + 1)) (omega arith) (omega arith) (omega arith)
        left right in
    let hi : (base + width h + width h) * 32 ≡ (base + 2 * width h) * 32 = omega arith in
    rw (node_value-inner s i lt ∙ v.consistent i ge lt) (
      subst (λ x. Least s (base * 32) x (pick (node_value s (i * 2)) (node_value s (i * 2 + 1)))) hi
        both)

-- The root stores the smallest free frame of all, or `nan` if every frame is allocated.
pub root-Least : (s : SegTree) → IsValid s → Least s 0 (s.size * 32) (node s 1)
root-Least s v = rw (← node_value-inner s 1 (omega arith)) (
    subst (λ hi. Least s 0 hi (node_value s 1)) (omega arith)
      (subtree-Least s v v.height 1 0 (omega arith) (omega arith)))
