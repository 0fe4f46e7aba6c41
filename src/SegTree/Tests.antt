-- ===== src/SegTree/Tests.antt =====
-- Concrete runs of the segment tree, and its theorems at concrete inputs.
use os_p.Base.{ℕ, ◌≡◌, ◌<◌, ◌*◌, refl, [], ◌∷◌, ltb, if◌then◌else◌, arith, ◌⊎◌}
use os_p.Base.Bits.{set_bit, clear_bit, lowest_bit}
use os_p.SegTree.{
  SegTree, nan, get_next_pow2, empty_tree, init_recursive, init_leaf, init_bits, get_next, put_back,
  node_value, refresh, update_loop,
}
use os_p.SegTree.Range.{IsValid, NoneFree, free_bit}
use os_p.SegTree.Alloc.{Flips, Taken, put_back-Flips, get_next-least, get_next-Taken}
use os_p.SegTree.Fresh.{init_recursive-IsValid}
use os_p.SegTree.Sample.{zeroed, zeroed-Shape, fresh, fresh-IsValid, after_one}

pow2_test : get_next_pow2 70 ≡ 128
unfolding get_next_pow2
pow2_test = refl

empty_test : empty_tree 70 ≡ zeroed
unfolding empty_tree get_next_pow2
empty_test = refl

init_test : fresh.tree ≡ 0 ∷ 0 ∷ 0 ∷ 64 ∷ 0xffff_ffff ∷ 0xffff_ffff ∷ 0x3f ∷ 0 ∷ []
unfolding init_recursive init_leaf init_bits set_bit
init_test = refl

abbrev after_two : SegTree
after_two = (get_next after_one).1

first_call : get_next fresh ≡ (0, after_one)
unfolding get_next init_recursive init_leaf
first_call = refl

second_call : get_next after_one ≡ (1, after_two)
unfolding get_next init_recursive init_leaf init_bits set_bit clear_bit update_loop refresh
    node_value lowest_bit
second_call = refl

-- A tree with no frame left.
abbrev exhausted : SegTree
exhausted = record { max_num = 70; size = 2; tree = 0 ∷ 0xffff_ffff ∷ 0 ∷ 0 ∷ [] }

exhausted_test : (get_next exhausted).0 ≡ nan
unfolding get_next
exhausted_test = refl

init_recursive-IsValid_example :
    IsValid fresh
    × (fresh.size ≡ 4)
    × ((f : ℕ) → f < 4 * 32 → free_bit fresh f ≡ (if ltb f 70 then 1 else 0))
init_recursive-IsValid_example = init_recursive-IsValid zeroed 2 zeroed-Shape

put_back-Flips_example : Flips after_one (put_back after_one 0) 0 1
put_back-Flips_example =
    let (_, _, _, taken) =
      get_next-Taken fresh after_one 0 fresh-IsValid first_call (omega arith) in
    put_back-Flips after_one 0 taken.valid (omega (arith, taken.same_size))

get_next-least_example :
    ((get_next fresh ≡ (nan, fresh)) × NoneFree fresh 0 (fresh.size * 32))
    ⊎ Taken fresh (get_next fresh).0 (get_next fresh).1
get_next-least_example = get_next-least fresh fresh-IsValid
