-- ===== src/SegTree.antt =====
-- kern/seg_tree.c: the segment tree that finds the free physical frame with the smallest index.
-- One core's tree is modelled, with the two numbers that the cores share. `max_num` is an `int`,
-- so the tree has at most 2 ^ 26 leaves and 2 ^ 31 frames: no index or frame wraps.
pub mod Range
pub mod Update
pub mod Leaf
pub mod Alloc
pub mod InitLeaf
pub mod Init
pub mod Fresh
pub mod Sample
mod Tests
use Prim.Native.Nat.{bit_or}
use os_p.Base.{
  ℕ, zero, suc, ◌+◌, ◌-◌, ◌*◌, ◌/◌, ◌%◌, ◌^◌, Bool, true, false, List, ltb, leb, ◌==◌,
  if◌then◌else◌, get_or, set, replicate,
}
use os_p.Base.Bits.{set_bit, clear_bit, lowest_bit}

-- `NAN`, -1 as a `uint32_t`
abbrev pub nan : ℕ
nan = 0xffff_ffff

pub record SegTree : Type 0 where
  pub max_num : ℕ  -- the number of physical frames
  pub size : ℕ  -- the number of leaf nodes
  pub tree : List ℕ  -- `seg_tree[cur_cpu]`; node 1 is the root, the leaves start at `size`

abbrev smear : ℕ → ℕ → ℕ
smear k value = bit_or value (value / 2 ^ k)

pub get_next_pow2 : ℕ → ℕ
get_next_pow2 value =
    (smear 16 (smear 8 (smear 4 (smear 2 (smear 1 ((value + 2 ^ 32 - 1) % 2 ^ 32))))) + 1) % 2 ^ 32

-- A node of the array; a read past its end gives 0 here.
abbrev pub node : SegTree → ℕ → ℕ
node s i = get_or s.tree i 0

abbrev pub set_node : SegTree → ℕ → ℕ → SegTree
set_node s i v = record s { tree = set s.tree i v }

abbrev pub is_leaf : SegTree → ℕ → Bool
is_leaf s x = leb s.size x

abbrev pub is_valid : SegTree → ℕ → Bool
is_valid s x = ltb x (2 * s.size)

-- The loop that marks the frames of a leaf free while they are below `max_num`; 32 rounds at most.
pub init_bits : ℕ → ℕ → ℕ → ℕ → ℕ → ℕ
init_bits zero first max_num i word = word
init_bits (suc fuel) first max_num i word =
    let rest = init_bits fuel first max_num (i + 1) (set_bit word i) in
    if ltb (first + i) max_num then rest else word

-- What `init_recursive` stores in a leaf.
pub init_leaf : SegTree → ℕ → ℕ
init_leaf s index =
    if leb ((index - s.size + 1) * 32) s.max_num
    then 0xffff_ffff
    else init_bits 32 ((index - s.size) * 32) s.max_num 0 0

-- `fuel` bounds the depth; a node below it is not looked at.
pub init_recursive : ℕ → SegTree → ℕ → ℕ × SegTree
init_recursive zero s index = (nan, s)
init_recursive (suc fuel) s index = elim (is_valid s index) [
  | false ↦ (nan, s)
  | true ↦ elim (is_leaf s index) [
    | false ↦
        let (value, left) = init_recursive fuel s (index * 2) in
        let (_, done) = init_recursive fuel (set_node left index value) (index * 2 + 1) in
        (node done index, done)
    | true ↦
        let word = init_leaf s index in
        (if word == 0 then nan else (index - s.size) * 32, set_node s index word)
  ]
]

-- `size` and the zeroed array of `init_seg_tree`, for core 0 and an allocation that succeeds.
pub empty_tree : ℕ → SegTree
empty_tree num =
    let size = get_next_pow2 num / 32 in
    record { max_num = num; size = size; tree = replicate (2 * size) 0 }

pub init_seg_tree : ℕ → SegTree
init_seg_tree num = let (_, s) = init_recursive 32 (empty_tree num) 1 in s

-- The value that a node has for its parent: a leaf's first free frame, or what a node stores.
unfoldable pub node_value : SegTree → ℕ → ℕ
node_value s i =
    if is_leaf s i
    then (if node s i == 0 then nan else (i - s.size) * 32 + lowest_bit 32 (node s i))
    else node s i

abbrev pub pick : ℕ → ℕ → ℕ
pick left right = if left == nan then right else left

-- A round of the loop of `update_tree`: the node is computed anew from its children.
unfoldable pub refresh : SegTree → ℕ → SegTree
refresh s index = set_node s index (pick (node_value s (index * 2)) (node_value s (index * 2 + 1)))

-- The loop of `update_tree`; the index halves in each round, so 32 rounds are enough.
unfoldable pub update_loop : ℕ → SegTree → ℕ → SegTree
update_loop zero s index = s
update_loop (suc fuel) s index = elim (index == 0) [
  | true ↦ s
  | false ↦ update_loop fuel (refresh s index) (index / 2)
]

abbrev pub update_tree : SegTree → ℕ → SegTree
update_tree s index = update_loop 32 s index

-- Returns the frame, or `nan`, beside the new tree.
unfoldable pub get_next : SegTree → ℕ × SegTree
get_next s =
    let rv = node s 1 in
    let index = rv / 32 + s.size in
    if rv == nan
    then (nan, s)
    else (rv, update_tree (set_node s index (clear_bit (node s index) (rv % 32))) (index / 2))

pub put_back : SegTree → ℕ → SegTree
put_back s frame_index =
    let index = frame_index / 32 + s.size in
    update_tree (set_node s index (set_bit (node s index) (frame_index % 32))) (index / 2)
