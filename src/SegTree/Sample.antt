-- ===== src/SegTree/Sample.antt =====
-- A segment tree of 70 frames in 4 leaves, before and after its initialisation and after one call.
use os_p.Base.{◌≡◌, refl, [], ◌∷◌, replicate, arith}
use os_p.Base.Bits.{set_bit}
use os_p.SegTree.{SegTree, init_leaf, init_bits, init_recursive, get_next}
use os_p.SegTree.Range.{Shape, IsValid, width}
use os_p.SegTree.Fresh.{init_recursive-IsValid}

abbrev pub zeroed : SegTree
zeroed = record { max_num = 70; size = 4; tree = replicate 8 0 }

pub zeroed-Shape : Shape zeroed 2
unfolding width
zeroed-Shape = record {
  perfect = refl;
  two_leaves = omega arith;
  few_leaves = omega arith;
  in_array = refl;
}

abbrev pub fresh : SegTree
fresh = (init_recursive 32 zeroed 1).1

pub fresh-IsValid : IsValid fresh
fresh-IsValid = (init_recursive-IsValid zeroed 2 zeroed-Shape).0

abbrev pub after_one : SegTree
after_one = (get_next fresh).1

pub fresh-size : fresh.size ≡ 4
fresh-size = (init_recursive-IsValid zeroed 2 zeroed-Shape).1

pub fresh-eq : fresh ≡ record {
  max_num = 70;
  size = 4;
  tree = 0 ∷ 0 ∷ 0 ∷ 64 ∷ 0xffff_ffff ∷ 0xffff_ffff ∷ 63 ∷ 0 ∷ [];
}
unfolding init_recursive init_leaf init_bits set_bit
fresh-eq = refl
