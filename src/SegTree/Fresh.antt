-- ===== src/SegTree/Fresh.antt =====
-- The tree that `init_recursive` leaves satisfies the invariant, and frees the existing frames.
use os_p.Base.{
  ℕ, zero, suc, ◌+◌, ◌-◌, ◌*◌, ◌/◌, ◌%◌, ◌^◌, ◌≤◌, ◌<◌, ◌≡◌, ◌≢◌, refl, ◌⊎◌, inl, inr, ap, sym, ◌∙◌,
  arith, ltb, if◌then◌else◌, get_or_past, eq_cases, dec_lt, dec_le,
}
use mathlib.Core.Path.{ap₂}
use native.Mathlib.Nat.{mul-le-mul_right}
use os_p.Base.Bits.{get_bit, lowest_bit-of_one, ne_zero_of_bit}
use os_p.SegTree.{SegTree, node, node_value, pick, init_recursive}
use os_p.SegTree.Range.{
  Shape, IsValid, Consistent, free_bit, width, width-pos, node_value-leaf, node_value-empty,
  node_value-inner, inner_bounds,
}
use os_p.SegTree.InitLeaf.{init_leaf-lt, init_leaf-bit, init_leaf-eq-zero}
use os_p.SegTree.Init.{Built, first_free, init_recursive-Built, row}

width-add : (a b : ℕ) → width (a + b) ≡ width a * width b
unfolding width
width-add zero b = let e : 0 + b ≡ b = omega arith in ap width e ∙ omega arith
width-add (suc a) b =
    let e : suc a + b ≡ suc (a + b) = omega arith in ap width e ∙ omega (arith, width-add a b)

width_26 : width 26 ≡ 2 ^ 26
unfolding width
width_26 = refl

-- At most 2 ^ 26 leaves make a tree of height 26 at most.
height-le : (h : ℕ) → width h ≤ 2 ^ 26 → h ≤ 26
unfolding width
height-le h l = elim (dec_le h 26) [
  | yes p ↦ p
  | no p ↦
      let e : h ≡ 26 + suc (h - 27) = omega arith in
      let big : width h ≡ 2 ^ 26 * (2 * width (h - 27)) =
        ap width e ∙ width-add 26 (suc (h - 27)) in
      absurd (omega (arith, big, width-pos (h - 27)))
]

module _ (s t : SegTree) (h : ℕ) (shape : Shape s h) (built : Built s h t) where
  open built use {like_max, like_size, like_array, good_leaf, good_inner}

  leaf_value :
      (k : ℕ) → s.size ≤ k → k < 2 * s.size → node_value t k ≡ first_free s.max_num (k - s.size)
  leaf_value k a b = elim (dec_lt ((k - s.size) * 32) s.max_num) [
    | yes p ↦
        let word = good_leaf k a b in
        let bit : get_bit (node t k) 0 ≡ 1 =
          rw word (init_leaf-bit s k 0 (omega arith) ∙ ground arith) in
        node_value-leaf t k (omega (arith, like_size)) (ne_zero_of_bit (node t k) bit)
        ∙ ground (arith, like_size, lowest_bit-of_one 32 (node t k) bit)
    | no p ↦
        node_value-empty t k (omega (arith, like_size))
          (good_leaf k a b ∙ init_leaf-eq-zero s k (omega arith))
        ∙ ground arith
  ]

  -- A node at any height has the first frame under it for its value.
  value :
      (c k base : ℕ)
      → k * width c ≡ s.size + base
      → (k + 1) * width c ≤ 2 * s.size
      → node_value t k ≡ first_free s.max_num base
  unfolding width
  value zero k base e m =
      leaf_value k (omega arith) (omega arith) ∙ ap (first_free s.max_num) (omega arith)
  value (suc c) k base e m =
      let (a, b) =
        inner_bounds k (width c) s.size base (width-pos c) (omega arith) (omega arith)
          (omega arith) in
      node_value-inner t k (omega (arith, like_size)) ∙ good_inner k c base a e m

  inner-Consistent : (i d : ℕ) → 1 ≤ i → d < h → width d ≤ i → i < 2 * width d → Consistent t i
  unfolding width
  inner-Consistent i d a l x y =
      good_inner i c base a here below
      ∙ join
      ∙ ap₂ pick (sym (value c (i * 2) base (omega (arith, here)) (omega (arith, below))))
          (sym (value c (i * 2 + 1) (base + width c) (omega (arith, here)) (omega (arith, below))))
    where
      c : ℕ
      c = h - suc d

      base : ℕ
      base = i * (2 * width c) - s.size

      size_eq : s.size ≡ width d * (2 * width c)
      size_eq =
          let e : h ≡ d + suc c = omega arith in shape.perfect ∙ ap width e ∙ width-add d (suc c)

      low : width d * (2 * width c) ≤ i * (2 * width c)
      low = mul-le-mul_right (2 * width c) x

      high : (i + 1) * (2 * width c) ≤ (2 * width d) * (2 * width c)
      high = mul-le-mul_right (2 * width c) (omega arith)

      here : i * (2 * width c) ≡ s.size + base
      here = omega (arith, size_eq, low)

      below : (i + 1) * (2 * width c) ≤ 2 * s.size
      below = omega (arith, size_eq, high)

      join :
          first_free s.max_num base
          ≡ pick (first_free s.max_num base) (first_free s.max_num (base + width c))
      join = ground arith

  consistent : (i : ℕ) → 1 ≤ i → i < s.size → Consistent t i
  unfolding width
  consistent i a b =
      let (d, l, x, y) = row h i a (omega arith) in
      inner-Consistent i d a (depth d x (eq_cases d h) l) x y
    where
      depth : (d : ℕ) → width d ≤ i → (d ≡ h) ⊎ (d ≢ h) → d ≤ h → d < h
      depth d x (inl e) l = absurd (omega (arith, ap width e))
      depth d x (inr n) l = omega arith

  fresh-IsValid : IsValid t
  fresh-IsValid = record {
    height = h;
    shape = record {
      perfect = like_size ∙ shape.perfect;
      two_leaves = omega arith;
      few_leaves = omega arith;
      in_array = omega arith;
    };
    words = λ k a. word k (omega arith) (dec_lt k (2 * s.size));
    consistent = λ i a b. consistent i a (omega arith);
  }
    where
      word : (k : ℕ) → s.size ≤ k → Dec (k < 2 * s.size) → node t k < 2 ^ 32
      word k a (yes b) = rw (good_leaf k a b) (init_leaf-lt s k)
      word k a (no b) = rw (get_or_past t.tree k 0 (omega arith)) (omega arith)

  free_bit-fresh : (f : ℕ) → f < s.size * 32 → free_bit t f ≡ (if ltb f s.max_num then 1 else 0)
  free_bit-fresh f a =
      let leaf = good_leaf (f / 32 + s.size) (omega arith) (omega arith) in
      let at : (f / 32 + s.size - s.size) * 32 + f % 32 ≡ f = omega arith in
      rw (like_size, leaf, init_leaf-bit s (f / 32 + s.size) (f % 32) (omega arith)) (rw at)

-- On a tree of the right shape, 32 levels of init_recursive from the root build a valid tree in
-- which exactly the frames below max_num are free.
pub init_recursive-IsValid :
    (s : SegTree) (h : ℕ)
    → Shape s h
    → (let t = (init_recursive 32 s 1).1 in
        IsValid t
        × (t.size ≡ s.size)
        × ((f : ℕ) → f < s.size * 32 → free_bit t f ≡ (if ltb f s.max_num then 1 else 0)))
init_recursive-IsValid s h shape =
    let built =
      init_recursive-Built 32 h s (omega (arith, height-le h (omega arith))) shape.perfect
        shape.in_array in
    let t = (init_recursive 32 s 1).1 in
    (fresh-IsValid s t h shape built, built.like_size, free_bit-fresh s t h shape built)
