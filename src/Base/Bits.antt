-- ===== src/Base/Bits.antt =====
-- Single bits of a machine word, bit 0 first. A shifted one, `1 << p`, is taken by recursion on `p`.
use Prim.Native.Nat.{ℕ, zero, suc, ◌+◌, ◌-◌, ◌*◌, ◌/◌, ◌%◌, ◌^◌, ◌≤◌, ◌<◌}
use mathlib.Core.Path.{◌≡◌, refl, ap, ◌∙◌}
use mathlib.Core.Logic.{◌≢◌, ◌⊎◌, inl, inr}
use native.Mathlib.Nat.{pow-suc, one-le-pow}
use os_p.Base.Tests.{◌==◌, if◌then◌else◌}
use native.Mathlib.Omega.{arith}

-- (x >> p) & 1
unfoldable pub get_bit : ℕ → ℕ → ℕ
get_bit x zero = x % 2
get_bit x (suc p) = get_bit (x / 2) p

-- x | (1 << p)
unfoldable pub set_bit : ℕ → ℕ → ℕ
set_bit x zero = x / 2 * 2 + 1
set_bit x (suc p) = set_bit (x / 2) p * 2 + x % 2

-- x & ~(1 << p)
unfoldable pub clear_bit : ℕ → ℕ → ℕ
clear_bit x zero = x / 2 * 2
clear_bit x (suc p) = clear_bit (x / 2) p * 2 + x % 2

pub get_bit-le_one : (x p : ℕ) → get_bit x p ≤ 1
unfolding get_bit
get_bit-le_one x zero = omega arith
get_bit-le_one x (suc p) = get_bit-le_one (x / 2) p

half-double : (a x : ℕ) → (a * 2 + x % 2) / 2 ≡ a
half-double a x = omega arith

pub get_bit-set_self : (x p : ℕ) → get_bit (set_bit x p) p ≡ 1
unfolding get_bit set_bit
get_bit-set_self x zero = omega arith
get_bit-set_self x (suc p) =
    ap (λ y. get_bit y p) (half-double (set_bit (x / 2) p) x) ∙ get_bit-set_self (x / 2) p

pub get_bit-set_ne : (x p q : ℕ) → p ≢ q → get_bit (set_bit x p) q ≡ get_bit x q
unfolding get_bit set_bit
get_bit-set_ne x zero zero h = absurd (h refl)
get_bit-set_ne x zero (suc q) h = ap (λ y. get_bit y q) (omega arith)
get_bit-set_ne x (suc p) zero h = omega arith
get_bit-set_ne x (suc p) (suc q) h =
    ap (λ y. get_bit y q) (half-double (set_bit (x / 2) p) x)
    ∙ get_bit-set_ne (x / 2) p q (λ e. h (ap suc e))

pub get_bit-clear_self : (x p : ℕ) → get_bit (clear_bit x p) p ≡ 0
unfolding get_bit clear_bit
get_bit-clear_self x zero = omega arith
get_bit-clear_self x (suc p) =
    ap (λ y. get_bit y p) (half-double (clear_bit (x / 2) p) x) ∙ get_bit-clear_self (x / 2) p

pub get_bit-clear_ne : (x p q : ℕ) → p ≢ q → get_bit (clear_bit x p) q ≡ get_bit x q
unfolding get_bit clear_bit
get_bit-clear_ne x zero zero h = absurd (h refl)
get_bit-clear_ne x zero (suc q) h = ap (λ y. get_bit y q) (omega arith)
get_bit-clear_ne x (suc p) zero h = omega arith
get_bit-clear_ne x (suc p) (suc q) h =
    ap (λ y. get_bit y q) (half-double (clear_bit (x / 2) p) x)
    ∙ get_bit-clear_ne (x / 2) p q (λ e. h (ap suc e))

-- The same two operations by arithmetic: a bit that is off is added, one that is on is taken away.
pub set_bit-eq : (x p : ℕ) → set_bit x p + get_bit x p * 2 ^ p ≡ x + 2 ^ p
unfolding get_bit set_bit
set_bit-eq x zero = omega arith
set_bit-eq x (suc p) = grind (arith, pow-suc 2 p, set_bit-eq (x / 2) p)

pub clear_bit-eq : (x p : ℕ) → clear_bit x p + get_bit x p * 2 ^ p ≡ x
unfolding get_bit clear_bit
clear_bit-eq x zero = omega arith
clear_bit-eq x (suc p) = grind (arith, pow-suc 2 p, clear_bit-eq (x / 2) p)

-- The index of the lowest bit that is on, looking at `n` bits: `n` if there is none.
unfoldable pub lowest_bit : ℕ → ℕ → ℕ
lowest_bit zero x = 0
lowest_bit (suc n) x = if x % 2 == 1 then 0 else suc (lowest_bit n (x / 2))

lowest_bit-odd : (n x : ℕ) → x % 2 ≡ 1 → lowest_bit (suc n) x ≡ 0
unfolding lowest_bit
lowest_bit-odd n x h = ground arith

lowest_bit-even : (n x : ℕ) → x % 2 ≡ 0 → lowest_bit (suc n) x ≡ suc (lowest_bit n (x / 2))
unfolding lowest_bit
lowest_bit-even n x h = ground arith

-- `p` is the lowest bit of `x` that is on.
abbrev pub IsLowest : ℕ → ℕ → Type 0
IsLowest x p = (get_bit x p ≡ 1) × ((q : ℕ) → q < p → get_bit x q ≡ 0)

IsLowest-suc : (x p : ℕ) → x % 2 ≡ 0 → IsLowest (x / 2) p → IsLowest x (suc p)
unfolding get_bit
IsLowest-suc x p e (on, off) = (on, below)
  where
    below : (q : ℕ) → q < suc p → get_bit x q ≡ 0
    below zero h = e
    below (suc q) h = off q (omega arith)

pub lowest_bit-IsLowest :
    (n x : ℕ) → 0 < x → x < 2 ^ n → (lowest_bit n x < n) × IsLowest x (lowest_bit n x)
unfolding get_bit
lowest_bit-IsLowest zero x h k = absurd (omega arith)
lowest_bit-IsLowest (suc n) x h k = elim (parity x) [
  | inl odd ↦ rw (lowest_bit-odd n x odd) (omega arith, (odd, λ q l. absurd (omega arith)))
  | inr even ↦
      let (lt, low) = lowest_bit-IsLowest n (x / 2) (omega arith) (omega (arith, pow-suc 2 n)) in
      rw (lowest_bit-even n x even) (omega arith, IsLowest-suc x (lowest_bit n (x / 2)) even low)
]
  where
    parity : (x : ℕ) → (x % 2 ≡ 1) ⊎ (x % 2 ≡ 0)
    parity x = ground arith

pub get_bit-zero : (p : ℕ) → get_bit 0 p ≡ 0
unfolding get_bit
get_bit-zero zero = refl
get_bit-zero (suc p) = get_bit-zero p

pub clear_bit-le : (x p : ℕ) → clear_bit x p ≤ x
unfolding clear_bit
clear_bit-le x zero = omega arith
clear_bit-le x (suc p) = omega (arith, clear_bit-le (x / 2) p)

pub set_bit-lt : (n p x : ℕ) → p < n → x < 2 ^ n → set_bit x p < 2 ^ n
unfolding set_bit
set_bit-lt zero p x h l = absurd (omega arith)
set_bit-lt (suc n) zero x h l = omega (arith, pow-suc 2 n)
set_bit-lt (suc n) (suc p) x h l =
    omega (arith, pow-suc 2 n, set_bit-lt n p (x / 2) (omega arith) (omega (arith, pow-suc 2 n)))

pub get_bit-ones : (n q : ℕ) → q < n → get_bit (2 ^ n - 1) q ≡ 1
unfolding get_bit
get_bit-ones zero q h = absurd (omega arith)
get_bit-ones (suc n) zero h = omega (arith, pow-suc 2 n, one-le-pow n 2 (omega arith))
get_bit-ones (suc n) (suc q) h =
    let e : (2 ^ suc n - 1) / 2 ≡ 2 ^ n - 1 =
      omega (arith, pow-suc 2 n, one-le-pow n 2 (omega arith)) in
    ap (λ x. get_bit x q) e ∙ get_bit-ones n q (omega arith)

pub lowest_bit-of_one : (n x : ℕ) → get_bit x 0 ≡ 1 → lowest_bit n x ≡ 0
unfolding get_bit lowest_bit
lowest_bit-of_one zero x h = refl
lowest_bit-of_one (suc n) x h = lowest_bit-odd n x h

pub ne_zero_of_bit : (x : ℕ) → get_bit x 0 ≡ 1 → x ≢ 0
unfolding get_bit
ne_zero_of_bit x h e = omega arith
