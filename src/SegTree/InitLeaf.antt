-- ===== src/SegTree/InitLeaf.antt =====
-- What `init_recursive` stores in a leaf: the frames below `max_num` are free.
use os_p.Base.{
  ℕ, zero, suc, ◌+◌, ◌-◌, ◌*◌, ◌^◌, ◌≤◌, ◌<◌, ◌≡◌, refl, inl, inr, arith, ltb, leb, ◌==◌,
  if◌then◌else◌, ◌&&◌, eq_cases,
}
use os_p.Base.Bits.{
  get_bit, set_bit, set_bit-lt, get_bit-set_self, get_bit-set_ne, get_bit-zero, get_bit-ones,
  ne_zero_of_bit,
}
use os_p.SegTree.{SegTree, nan, init_bits, init_leaf}

init_bits-lt :
    (fuel first max i w : ℕ) → i + fuel ≤ 32 → w < 2 ^ 32 → init_bits fuel first max i w < 2 ^ 32
unfolding init_bits
init_bits-lt zero first max i w h l = l
init_bits-lt (suc fuel) first max i w h l =
    ground (arith, init_bits-lt fuel first max (i + 1) (set_bit w i), set_bit-lt 32 i w)

init_bits-bit :
    (fuel first max i w q : ℕ)
    → q < i + fuel
    → get_bit (init_bits fuel first max i w) q
      ≡ (if leb i q && ltb (first + q) max then 1 else get_bit w q)
unfolding init_bits
init_bits-bit zero first max i w q h = ground arith
init_bits-bit (suc fuel) first max i w q h = elim (eq_cases i q) [
  | inl e ↦
      ground (arith, init_bits-bit fuel first max (i + 1) (set_bit w i) q, get_bit-set_self w i)
  | inr n ↦
      ground (arith, init_bits-bit fuel first max (i + 1) (set_bit w i) q, get_bit-set_ne w i q n)
]

module _ (s : SegTree) (index : ℕ) where
  abbrev first : ℕ
  first = (index - s.size) * 32

  pub init_leaf-lt : init_leaf s index < 2 ^ 32
  unfolding init_leaf
  init_leaf-lt = ground (arith, init_bits-lt 32 first s.max_num 0 0)

  -- The bit of the leaf's frame `q` is on exactly if the frame exists.
  pub init_leaf-bit :
      (q : ℕ)
      → q < 32
      → get_bit (init_leaf s index) q ≡ (if ltb (first + q) s.max_num then 1 else 0)
  unfolding init_leaf
  init_leaf-bit q h =
      ground (arith, init_bits-bit 32 first s.max_num 0 0 q, get_bit-zero q, get_bit-ones 32 q)

  init_bits-zero : (fuel f max : ℕ) → max ≤ f → init_bits fuel f max 0 0 ≡ 0
  unfolding init_bits
  init_bits-zero zero f max h = refl
  init_bits-zero (suc fuel) f max h = ground arith

  pub init_leaf-eq-zero : s.max_num ≤ first → init_leaf s index ≡ 0
  unfolding init_leaf
  init_leaf-eq-zero h = ground (arith, init_bits-zero 32 first s.max_num)

-- What the call returns for the leaf.
pub init_leaf-first :
    (s : SegTree) (index : ℕ)
    → (if init_leaf s index == 0 then nan else (index - s.size) * 32)
      ≡ (if ltb ((index - s.size) * 32) s.max_num then (index - s.size) * 32 else nan)
init_leaf-first s index = ground (
  arith,
  init_leaf-eq-zero s index,
  init_leaf-bit s index 0 (omega arith),
  ne_zero_of_bit (init_leaf s index),
)
