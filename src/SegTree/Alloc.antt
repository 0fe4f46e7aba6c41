-- ===== src/SegTree/Alloc.antt =====
-- `get_next` and `put_back`: a frame is taken or given back, and no other frame changes hands.
use os_p.Base.{
  ℕ, ◌+◌, ◌*◌, ◌/◌, ◌%◌, ◌<◌, ◌≡◌, ◌≢◌, ◌⊎◌, inl, inr, ap, sym, ◌∙◌, arith, eq_cases, ==_false,
  ==_iff, lt_cases,
}
use os_p.Base.Bits.{
  get_bit, set_bit, clear_bit, clear_bit-le, set_bit-lt, get_bit-set_self, get_bit-set_ne,
  get_bit-clear_self, get_bit-clear_ne,
}
use os_p.SegTree.{SegTree, nan, node, get_next, put_back}
use os_p.SegTree.Range.{IsValid, free_bit, NoneFree, root-Least}
use os_p.SegTree.Leaf.{write_leaf, Writes, write_leaf-Writes}

-- One frame's bit becomes `b`; every other frame keeps its bit, and the tree stays valid.
pub record Flips (s t : SegTree) (frame b : ℕ) : Type 0 where
  pub valid : IsValid t
  pub same_size : t.size ≡ s.size
  pub same_max : t.max_num ≡ s.max_num
  pub flipped : free_bit t frame ≡ b
  pub others : (f : ℕ) → f ≢ frame → free_bit t f ≡ free_bit s f

Writes-Flips :
    (s t : SegTree) (frame w b : ℕ)
    → Writes s t (frame / 32 + s.size) w
    → get_bit w (frame % 32) ≡ b
    → ((q : ℕ) → frame % 32 ≢ q → get_bit w q ≡ get_bit (node s (frame / 32 + s.size)) q)
    → Flips s t frame b
Writes-Flips s t frame w b wr on off = record {
  valid = wr.valid;
  same_size = wr.same_size;
  same_max = wr.same_max;
  flipped = rw (wr.same_size, wr.written) on;
  others = λ f n. other f n (eq_cases (f / 32) (frame / 32));
}
  where
    other :
        (f : ℕ)
        → f ≢ frame
        → (f / 32 ≡ frame / 32) ⊎ (f / 32 ≢ frame / 32)
        → free_bit t f ≡ free_bit s f
    other f n (inl e) = rw (wr.same_size, e, wr.written) (off (f % 32) (λ q. n (omega arith)))
    other f n (inr d) =
        rw (wr.same_size, wr.others (f / 32 + s.size) (omega arith) (λ q. d (omega arith)))

-- Giving back a frame of the range of a valid tree makes that frame free, changes no other frame,
-- and keeps the tree valid.
pub put_back-Flips :
    (s : SegTree) (frame : ℕ) → IsValid s → frame < s.size * 32 → Flips s (put_back s frame) frame 1
unfolding put_back
put_back-Flips s frame v h =
    let k = frame / 32 + s.size in
    Writes-Flips s (put_back s frame) frame (set_bit (node s k) (frame % 32)) 1
      (write_leaf-Writes s v k (set_bit (node s k) (frame % 32)) (omega arith) (omega arith)
        (set_bit-lt 32 (frame % 32) (node s k) (omega arith) (v.words k (omega arith))))
      (get_bit-set_self (node s k) (frame % 32)) (get_bit-set_ne (node s k) (frame % 32))

-- What `get_next` gives for a tree, and the tree that it leaves.
abbrev pub Taken : SegTree → ℕ → SegTree → Type 0
Taken s rv t = (rv < s.size * 32) × (free_bit s rv ≡ 1) × NoneFree s 0 rv × Flips s t rv 0

get_next-nan : (s : SegTree) → node s 1 ≡ nan → get_next s ≡ (nan, s)
unfolding get_next
get_next-nan s e = rw ((==_iff (node s 1) nan).1 e)

get_next-taken :
    (s : SegTree)
    → node s 1 ≢ nan
    → get_next s ≡ (
      node s 1,
      write_leaf s
          (node s 1 / 32 + s.size)
          (clear_bit (node s (node s 1 / 32 + s.size)) (node s 1 % 32)),
    )
unfolding get_next
get_next-taken s n = rw (==_false (node s 1) nan n)

-- In a valid tree get_next takes the free frame with the smallest index, changes no other frame
-- and keeps the tree valid; if no frame is free it returns NAN and leaves the tree as it was.
pub get_next-least :
    (s : SegTree)
    → IsValid s
    → ((get_next s ≡ (nan, s)) × NoneFree s 0 (s.size * 32)) ⊎ Taken s (get_next s).0 (get_next s).1
get_next-least s v = elim (root-Least s v) [
  | inl (e, none_free) ↦ inl (get_next-nan s e, none_free)
  | inr (ge, lt, on, below) ↦
      let k = node s 1 / 32 + s.size in
      let w = clear_bit (node s k) (node s 1 % 32) in
      let frame = node s 1 in
      let same_bound : frame ≢ nan = omega (arith, v.shape.few_leaves) in
      let flips =
        Writes-Flips s (write_leaf s k w) frame w 0
          (write_leaf-Writes s v k w (omega arith) (omega arith)
            (omega (arith, clear_bit-le (node s k) (frame % 32), v.words k (omega arith))))
          (get_bit-clear_self (node s k) (frame % 32)) (get_bit-clear_ne (node s k) (frame % 32)) in
      inr (rw (get_next-taken s same_bound) (lt, on, below, flips))
]

-- A frame given back to a valid tree in which no smaller frame is free is the next one that
-- get_next hands out.
pub get_next-put_back :
    (s : SegTree) (frame : ℕ)
    → IsValid s
    → frame < s.size * 32
    → NoneFree s 0 frame
    → (get_next (put_back s frame)).0 ≡ frame
get_next-put_back s frame v h none_below =
    let p = put_back-Flips s frame v h in decide p (get_next-least (put_back s frame) p.valid)
  where
    decide :
        (p : Flips s (put_back s frame) frame 1)
        → ((get_next (put_back s frame) ≡ (nan, put_back s frame))
            × NoneFree (put_back s frame) 0 ((put_back s frame).size * 32))
          ⊎ Taken (put_back s frame) (get_next (put_back s frame)).0 (get_next (put_back s frame)).1
        → (get_next (put_back s frame)).0 ≡ frame
    decide p (inl (e, none_free)) =
        absurd
          (omega (arith, none_free frame (omega arith) (omega (arith, p.same_size)), p.flipped))
    decide p (inr (lt, on, below, flips)) = elim (lt_cases (get_next (put_back s frame)).0 frame) [
      | inl less ↦ absurd (
          omega (
            arith,
            on,
            p.others (get_next (put_back s frame)).0 (omega arith),
            none_below (get_next (put_back s frame)).0 (omega arith) less,
          ))
      | inr (inl e) ↦ e
      | inr (inr more) ↦ absurd (omega (arith, below frame (omega arith) more, p.flipped))
    ]

-- A call that returns a frame took the smallest free one.
pub get_next-Taken :
    (s t : SegTree) (rv : ℕ) → IsValid s → get_next s ≡ (rv, t) → rv ≢ nan → Taken s rv t
get_next-Taken s t rv v e n = elim (get_next-least s v) [
  | inl (e', _) ↦ absurd (n (ap (λ (r : ℕ × SegTree). r.0) (sym e ∙ e')))
  | inr taken ↦ rw e at taken
]

-- Two frames that are handed out one after the other differ: the second has a larger index.
pub get_next_ascends :
    (s t u : SegTree) (a b : ℕ)
    → IsValid s
    → get_next s ≡ (a, t)
    → get_next t ≡ (b, u)
    → a ≢ nan
    → b ≢ nan
    → a < b
get_next_ascends s t u a b v ea eb na nb =
    let (_, _, below, flips) = get_next-Taken s t a v ea na in
    let (_, on, _, _) = get_next-Taken t u b flips.valid eb nb in
    elim (lt_cases a b) [
      | inl less ↦ less
      | inr (inl e) ↦ absurd (omega (arith, on, flips.flipped, ap (free_bit t) e))
      | inr (inr more) ↦
          absurd (omega (arith, on, flips.others b (omega arith), below b (omega arith) more))
    ]

-- Taking a frame from a valid tree and giving it back keeps the tree valid and leaves every frame
-- as free or allocated as it was.
pub put_back-get_next :
    (s t : SegTree) (rv : ℕ)
    → IsValid s
    → get_next s ≡ (rv, t)
    → rv ≢ nan
    → IsValid (put_back t rv) × ((f : ℕ) → free_bit (put_back t rv) f ≡ free_bit s f)
put_back-get_next s t rv v e n =
    let (lt, on, _, taken) = get_next-Taken s t rv v e n in
    let back = put_back-Flips t rv taken.valid (omega (arith, taken.same_size)) in
    (back.valid, λ f. frame f (eq_cases f rv) on taken back)
  where
    frame :
        (f : ℕ)
        → (f ≡ rv) ⊎ (f ≢ rv)
        → free_bit s rv ≡ 1
        → Flips s t rv 0
        → Flips t (put_back t rv) rv 1
        → free_bit (put_back t rv) f ≡ free_bit s f
    frame f (inl q) on taken back =
        ap (free_bit (put_back t rv)) q ∙ back.flipped ∙ sym on ∙ ap (free_bit s) (sym q)
    frame f (inr q) on taken back = back.others f q ∙ taken.others f q
