-- ===== src/Base/Threads.antt =====
-- Threads as a list of where each stands, and how many stand at a place.
use Prim.Native.Nat.{ℕ, zero, suc, ◌+◌, ◌≤◌}
use mathlib.Core.Path.{◌≡◌, refl, ap}
use mathlib.Core.Bool.{Bool, true, false}
use mathlib.Core.List.{List, [], ◌∷◌, map}
use mathlib.Core.Option.{none, some}
use native.Mathlib.Omega.{arith}
use os_p.Base.Lists.{get_elem?, set}

abbrev pub one : Bool → ℕ
one true = 1
one false = 0

module _ {ℓ} {A : Type ℓ} where
  unfoldable pub count : (A → Bool) → List A → ℕ
  count is [] = 0
  count is (x ∷ xs) = one (is x) + count is xs

  some-eq : (x u : A) → some x ≡ some u → x ≡ u
  some-eq x u e = cc

  none-some : (u : A) → none ≡ some u → ⊥
  none-some u e = cc

  -- One thread moves.
  pub count-set :
      (is : A → Bool) (xs : List A) (i : ℕ) (u v : A)
      → get_elem? xs i ≡ some u
      → count is (set xs i v) + one (is u) ≡ count is xs + one (is v)
  unfolding count
  count-set is [] i u v e = absurd (none-some u e)
  count-set is (x ∷ xs) zero u v e = omega (arith, ap (λ y. one (is y)) (some-eq x u e))
  count-set is (x ∷ xs) (suc i) u v e = omega (arith, count-set is xs i u v e)

  -- Each thread counts after a change of all as it does for one of two kinds before.
  pub count-map :
      (is a b : A → Bool) (f : A → A)
      → ((x : A) → one (is (f x)) ≡ one (a x) + one (b x))
      → (xs : List A) → count is (map f xs) ≡ count a xs + count b xs
  unfolding count
  count-map is a b f h [] = refl
  count-map is a b f h (x ∷ xs) = omega (arith, h x, count-map is a b f h xs)

  pub count-some :
      (is : A → Bool) (xs : List A) (i : ℕ) (u : A)
      → get_elem? xs i ≡ some u
      → one (is u) ≤ count is xs
  unfolding count
  count-some is [] i u e = absurd (none-some u e)
  count-some is (x ∷ xs) zero u e = omega (arith, ap (λ y. one (is y)) (some-eq x u e))
  count-some is (x ∷ xs) (suc i) u e = omega (arith, count-some is xs i u e)

  pub count-nil : (is : A → Bool) (xs : List A) → ((x : A) → is x ≡ false) → count is xs ≡ 0
  unfolding count
  count-nil is [] h = refl
  count-nil is (x ∷ xs) h = omega (arith, ap one (h x), count-nil is xs h)
