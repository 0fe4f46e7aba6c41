-- ===== src/SegTree/Init.antt =====
-- `init_recursive` and `init_seg_tree`: the tree that they build is valid.
use os_p.Base.{
  ℕ, zero, suc, ◌+◌, ◌-◌, ◌*◌, ◌≤◌, ◌<◌, ◌≡◌, refl, ◌⊎◌, inl, inr, ap, ◌∙◌, arith, ltb, ◌==◌,
  if◌then◌else◌, length, length-set, get_or-set_self, get_or-set_ne, eq_cases, lt_cases, dec_lt,
}
use mathlib.Core.Path.{ap₂}
use native.Mathlib.Nat.{mul-le-mul_left}
use os_p.SegTree.{SegTree, nan, node, set_node, init_leaf, init_recursive}
use os_p.SegTree.Range.{width, width-pos, inner_bounds}
use os_p.SegTree.InitLeaf.{init_leaf-first}

init_recursive-leaf :
    (f : ℕ) (s : SegTree) (i : ℕ)
    → s.size ≤ i
    → i < 2 * s.size
    → init_recursive (suc f) s i
      ≡ (if init_leaf s i == 0 then nan else (i - s.size) * 32, set_node s i (init_leaf s i))
unfolding init_recursive
init_recursive-leaf f s i a b = ground arith

-- The two halves of the work at an inner node.
abbrev left_done : ℕ → SegTree → ℕ → SegTree
left_done f s i = let r = init_recursive f s (i * 2) in set_node r.1 i r.0

abbrev both_done : ℕ → SegTree → ℕ → SegTree
both_done f s i = (init_recursive f (left_done f s i) (i * 2 + 1)).1

init_recursive-inner :
    (f : ℕ) (s : SegTree) (i : ℕ)
    → i < s.size
    → init_recursive (suc f) s i ≡ (node (both_done f s i) i, both_done f s i)
unfolding init_recursive
init_recursive-inner f s i a = ground arith

-- The first frame under a node whose leaves start at `base`, if it exists.
abbrev pub first_free : ℕ → ℕ → ℕ
first_free max base = if ltb (base * 32) max then base * 32 else nan

width-double : (h d : ℕ) → h < d → 2 * width h ≤ width d
unfolding width
width-double h zero l = absurd (omega arith)
width-double h (suc d) l = elim (dec_lt h d) [
  | yes p ↦ omega (arith, width-double h d p)
  | no p ↦ let e : h ≡ d = omega arith in rw e (omega arith)
]

-- A node stands at one height only.
height-lt :
    (n i h d b : ℕ)
    → 0 < n
    → h < d
    → n ≤ i * width h
    → i * width d ≡ n + b
    → (i + 1) * width d ≤ 2 * n
    → ⊥
height-lt n i h d b p l a e m = omega (arith, mul-le-mul_left i (width-double h d l), width-pos d)

module _ (s : SegTree) where
  -- A tree with the shape of `s`.
  record Like (t : SegTree) : Type 0 where
    max : t.max_num ≡ s.max_num
    size : t.size ≡ s.size
    array : length t.tree ≡ 2 * s.size

  -- The node holds what it is to hold in the end.
  record Good (t : SegTree) (k : ℕ) : Type 0 where
    leaf : s.size ≤ k → node t k ≡ init_leaf s k
    inner :
        (h base : ℕ)
        → k * width (suc h) ≡ s.size + base
        → (k + 1) * width (suc h) ≤ 2 * s.size
        → node t k ≡ first_free s.max_num base

  -- What the call for the node `i` at height `h`, with its leaves from `base` on, has done.
  record Done (t : SegTree) (h i base : ℕ) (r : ℕ × SegTree) : Type 0 where
    like : Like r.1
    value : r.0 ≡ first_free s.max_num base
    kept : (k : ℕ) → Good t k → Good r.1 k
    under : (k d : ℕ) → d ≤ h → i * width d ≤ k → k < (i + 1) * width d → Good r.1 k

  set_node-Like : (t : SegTree) (i v : ℕ) → Like t → Like (set_node t i v)
  set_node-Like t i v like = record {
    max = like.max;
    size = like.size;
    array = length-set t.tree i v ∙ like.array;
  }

  -- Storing the right value in one node spoils no other.
  Good-set :
      (t : SegTree) (i v : ℕ)
      → Like t
      → i < 2 * s.size
      → Good (set_node t i v) i
      → (k : ℕ) → Good t k
      → Good (set_node t i v) k
  Good-set t i v like h new k old = elim (eq_cases i k) [
    | inl e ↦ rw (← e) new
    | inr n ↦ record {
      leaf = λ a. get_or-set_ne t.tree i k v 0 n ∙ old.leaf a;
      inner = λ h b e m. get_or-set_ne t.tree i k v 0 n ∙ old.inner h b e m;
    }
  ]

  init_leaf-Like : (t : SegTree) (k : ℕ) → Like t → init_leaf t k ≡ init_leaf s k
  unfolding init_leaf
  init_leaf-Like t k like = rw (like.max, like.size)

  leaf-Good :
      (t : SegTree) (i : ℕ)
      → Like t
      → 0 < s.size
      → s.size ≤ i
      → i < 2 * s.size
      → Good (set_node t i (init_leaf t i)) i
  unfolding width
  leaf-Good t i like p a b = record {
    leaf = λ _. get_or-set_self t.tree i _ 0 (omega (arith, like.array)) ∙ init_leaf-Like t i like;
    inner = λ h base e m. absurd (
        omega (
          arith,
          (inner_bounds i (width h) s.size base (width-pos h) p (omega arith) (omega arith)).1,
        ));
  }

  leaf-Done :
      (t : SegTree) (f i base : ℕ)
      → Like t
      → 0 < s.size
      → i ≡ s.size + base
      → i < 2 * s.size
      → Done t 0 i base (init_recursive (suc f) t i)
  unfolding width
  leaf-Done t f i base like p e b =
      rw (init_recursive-leaf f t i (omega (arith, like.size)) (omega (arith, like.size))) record {
        like = set_node-Like t i _ like;
        value = init_leaf-first t i ∙ ap₂ first_free like.max (omega (arith, like.size));
        kept = Good-set t i _ like b new;
        under = only;
      }
    where
      new : Good (set_node t i (init_leaf t i)) i
      new = leaf-Good t i like p (omega arith) b

      only :
          (k d : ℕ)
          → d ≤ 0
          → i * width d ≤ k
          → k < (i + 1) * width d
          → Good (set_node t i (init_leaf t i)) k
      only k zero l a c = let q : k ≡ i = omega arith in rw q new
      only k (suc d) l a c = absurd (omega arith)

  module _ (t : SegTree) (f h i base : ℕ) (e : i * width (suc h) ≡ s.size + base)
      (m : (i + 1) * width (suc h) ≤ 2 * s.size) (p : 0 < s.size) where
    -- The value stored at an inner node is right, whichever height it is looked at.
    inner-Good :
        (u : SegTree) → Like u → i < s.size → Good (set_node u i (first_free s.max_num base)) i
    inner-Good u like lt = record {
      leaf = λ a. absurd (omega arith);
      inner = λ h' b' e' m'. at h' b' e' m' (lt_cases h h');
    }
      where
        at :
            (h' b' : ℕ)
            → i * width (suc h') ≡ s.size + b'
            → (i + 1) * width (suc h') ≤ 2 * s.size
            → (h < h') ⊎ (h ≡ h') ⊎ (h' < h)
            → node (set_node u i (first_free s.max_num base)) i ≡ first_free s.max_num b'
        at h' b' e' m' (inl l) =
            absurd (height-lt s.size i (suc h) (suc h') b' p (omega arith) (omega arith) e' m')
        at h' b' e' m' (inr (inl q)) =
            get_or-set_self u.tree i _ 0 (omega (arith, like.array))
            ∙ ap (first_free s.max_num) (same (rw q at e) e')
          where
            same : i * width (suc h') ≡ s.size + base → i * width (suc h') ≡ s.size + b' → base ≡ b'
            same x y = omega arith
        at h' b' e' m' (inr (inr l)) =
            absurd (height-lt s.size i (suc h') (suc h) base p (omega arith) (omega arith) e m)

    module _ (like : Like t) (first : Done t h (i * 2) base (init_recursive f t (i * 2)))
        (second : (u : SegTree)
          → Like u
          → Done u h (i * 2 + 1) (base + width h) (init_recursive f u (i * 2 + 1))) where
      lt : i < s.size
      unfolding width
      lt = (inner_bounds i (width h) s.size base (width-pos h) p (omega arith) (omega arith)).1

      left-Good : Good (left_done f t i) i
      left-Good = rw first.value (inner-Good (init_recursive f t (i * 2)).1 first.like lt)

      left-Like : Like (left_done f t i)
      left-Like = set_node-Like _ i _ first.like

      right :
          Done
            (left_done f t i)
            h
            (i * 2 + 1)
            (base + width h)
            (init_recursive f (left_done f t i) (i * 2 + 1))
      right = second (left_done f t i) left-Like

      through : (k : ℕ) → Good (init_recursive f t (i * 2)).1 k → Good (both_done f t i) k
      through k g = right.kept k (Good-set _ i _ first.like (omega (arith, lt)) left-Good k g)

      covered :
          (k d : ℕ) → d ≤ suc h → i * width d ≤ k → k < (i + 1) * width d → Good (both_done f t i) k
      unfolding width
      covered k zero a b c = let q : k ≡ i = omega arith in rw q (right.kept i left-Good)
      covered k (suc d) a b c = elim (dec_lt k ((i * 2 + 1) * width d)) [
        | yes y ↦ through k (first.under k d (omega arith) (omega arith) y)
        | no y ↦ right.under k d (omega arith) (omega arith) (omega arith)
      ]

      inner-Done : Done t (suc h) i base (init_recursive (suc f) t i)
      inner-Done = rw (init_recursive-inner f t i (omega (arith, like.size, lt))) record {
        like = right.like;
        value = (right.kept i left-Good).inner h base e m;
        kept = λ k g. through k (first.kept k g);
        under = covered;
      }

  -- The call for a node at a height below its fuel.
  init_recursive-Done :
      (f h i base : ℕ) (t : SegTree)
      → h < f
      → Like t
      → 0 < s.size
      → i * width h ≡ s.size + base
      → (i + 1) * width h ≤ 2 * s.size
      → Done t h i base (init_recursive f t i)
  unfolding width
  init_recursive-Done zero h i base t l like p e m = absurd (omega arith)
  init_recursive-Done (suc f) zero i base t l like p e m =
      leaf-Done t f i base like p (omega arith) (omega arith)
  init_recursive-Done (suc f) (suc h) i base t l like p e m =
      inner-Done t f h i base e m p like
        (init_recursive-Done f h (i * 2) base t (omega arith) like p (omega arith) (omega arith))
        (λ u like'.
          init_recursive-Done f h (i * 2 + 1) (base + width h) u (omega arith) like' p (omega arith)
            (omega arith))

module _ (s : SegTree) where
  -- The call for the root has visited every node.
  pub record Built (h : ℕ) (t : SegTree) : Type 0 where
    pub like_max : t.max_num ≡ s.max_num
    pub like_size : t.size ≡ s.size
    pub like_array : length t.tree ≡ 2 * s.size
    pub good_leaf : (k : ℕ) → s.size ≤ k → k < 2 * s.size → node t k ≡ init_leaf s k
    pub good_inner :
        (k c base : ℕ)
        → 1 ≤ k
        → k * width (suc c) ≡ s.size + base
        → (k + 1) * width (suc c) ≤ 2 * s.size
        → node t k ≡ first_free s.max_num base

-- Each node of the tree stands in one of its rows.
pub row :
    (h k : ℕ) → 1 ≤ k → k < 2 * width h → (d : ℕ) × (d ≤ h) × (width d ≤ k) × (k < 2 * width d)
unfolding width
row zero k a b = (0, omega arith, omega arith, omega arith)
row (suc h) k a b = elim (dec_lt k (2 * width h)) [
  | yes p ↦ let (d, x, y, z) = row h k a p in (d, omega arith, y, z)
  | no p ↦ (suc h, omega arith, omega arith, omega arith)
]

pub init_recursive-Built :
    (f h : ℕ) (s : SegTree)
    → h < f
    → s.size ≡ width h
    → length s.tree ≡ 2 * s.size
    → Built s h (init_recursive f s 1).1
unfolding width
init_recursive-Built f h s l e a = record {
  like_max = done.like.max;
  like_size = done.like.size;
  like_array = done.like.array;
  good_leaf = λ k p q. (good k (omega (arith, width-pos h)) (omega arith)).leaf p;
  good_inner = λ k c base p q m.
      (good k p (
          omega (
            arith,
            inner_bounds k (width c) s.size base (width-pos c) (omega (arith, width-pos h))
                (omega arith) (omega arith),
          ))).inner
        c base q m;
}
  where
    like : Like s s
    like = record { max = refl; size = refl; array = a }

    done : Done s s h 1 0 (init_recursive f s 1)
    done =
        init_recursive-Done s f h 1 0 s l like (omega (arith, width-pos h)) (omega arith)
          (omega arith)

    good : (k : ℕ) → 1 ≤ k → k < 2 * width h → Good s (init_recursive f s 1).1 k
    good k p q = let (d, x, y, z) = row h k p q in done.under k d x (omega arith) (omega arith)
