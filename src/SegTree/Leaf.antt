-- ===== src/SegTree/Leaf.antt =====
-- A write to one leaf, followed by `update_tree` from its parent.
use os_p.Base.{
  ℕ, ◌+◌, ◌*◌, ◌/◌, ◌^◌, ◌≤◌, ◌<◌, ◌≡◌, ◌≢◌, refl, ◌⊎◌, inl, inr, sym, ◌∙◌, arith, eq_cases,
  length-set, get_or-set_self, get_or-set_ne,
}
use mathlib.Core.Path.{ap₂}
use os_p.SegTree.{SegTree, node, set_node, pick, update_loop}
use os_p.SegTree.Range.{Consistent, IsValid, width}
use os_p.SegTree.Update.{
  SameLeaves, Pending, child_cases, node_value-set_ne, update_loop-SameLeaves,
  update_loop-Consistent,
}

-- A word is written to the leaf `k`, and `update_tree` is run from its parent.
abbrev pub write_leaf : SegTree → ℕ → ℕ → SegTree
write_leaf s k w = update_loop 32 (set_node s k w) (k / 2)

-- What a write to one leaf does.
pub record Writes (s t : SegTree) (k w : ℕ) : Type 0 where
  pub valid : IsValid t
  pub same_size : t.size ≡ s.size
  pub same_max : t.max_num ≡ s.max_num
  pub written : node t k ≡ w
  pub others : (i : ℕ) → s.size ≤ i → i ≢ k → node t i ≡ node s i

width_32 : width 32 ≡ 2 ^ 32
unfolding width
width_32 = refl

module _ (s : SegTree) (v : IsValid s) (k w : ℕ) (leaf : s.size ≤ k) (inside : k < 2 * s.size)
    (word : w < 2 ^ 32) where
  pending : Pending 32 (k / 2) (set_node s k w)
  pending i a b = elim (child_cases i k) [
    | inl e ↦ inr (inl e)
    | inr (x, y) ↦ inl (
        get_or-set_ne s.tree k i w 0 (omega arith)
        ∙ v.consistent i a b
        ∙ ap₂ pick (sym (node_value-set_ne s k w (i * 2) x))
            (sym (node_value-set_ne s k w (i * 2 + 1) y)))
  ]

  same : SameLeaves (set_node s k w) (write_leaf s k w)
  same = update_loop-SameLeaves 32 (set_node s k w) (k / 2) (omega arith)

  pub write_leaf-Writes : Writes s (write_leaf s k w) k w
  write_leaf-Writes = record {
    valid = record {
      height = v.height;
      shape = record {
        perfect = same.same_size ∙ v.shape.perfect;
        two_leaves = omega (arith, same.same_size);
        few_leaves = omega (arith, same.same_size);
        in_array =
            same.same_length
            ∙ length-set s.tree k w
            ∙ v.shape.in_array
            ∙ omega (arith, same.same_size);
      };
      words = λ i h. small i (rw same.same_size at h) (eq_cases i k);
      consistent = λ i a b. settled i a (rw same.same_size at b);
    };
    same_size = same.same_size;
    same_max = same.same_max;
    written = there;
    others = elsewhere;
  }
    where
      there : node (write_leaf s k w) k ≡ w
      there = same.same_leaf k leaf ∙ get_or-set_self s.tree k w 0 (omega arith)

      elsewhere : (i : ℕ) → s.size ≤ i → i ≢ k → node (write_leaf s k w) i ≡ node s i
      elsewhere i h n = same.same_leaf i h ∙ get_or-set_ne s.tree k i w 0 (λ e. n (sym e))

      small : (i : ℕ) → s.size ≤ i → (i ≡ k) ⊎ (i ≢ k) → node (write_leaf s k w) i < 2 ^ 32
      small i h (inl e) = rw e (rw there word)
      small i h (inr n) = rw (elsewhere i h n) (v.words i h)

      settled : (i : ℕ) → 1 ≤ i → i < s.size → Consistent (write_leaf s k w) i
      settled =
          update_loop-Consistent 32 (k / 2) (set_node s k w) (omega arith)
            (omega (arith, length-set s.tree k w)) (omega (arith, width_32)) pending
