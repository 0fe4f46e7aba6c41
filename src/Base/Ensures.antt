-- ===== src/Base/Ensures.antt =====
-- What a computation that may fail ensures of its result, along the ways results are made.
use mathlib.Core.Path.{◌≡◌, refl, subst}
use mathlib.Core.Bool.{Bool, true, false}
use mathlib.Core.Option.{Option, none, some}
use mathlib.Core.Logic.{◌≢◌}
use os_p.Base.Tests.{if◌then◌else◌}

module _ {ℓ} {A : Type ℓ} where
  abbrev pub Ensures : (A → Type 0) → Option A → Type ℓ
  Ensures P o = (a : A) → o ≡ some a → P a

  none-ne : (a : A) → none ≢ some a
  none-ne a h = cc

  some-injective : (a b : A) → some a ≡ some b → a ≡ b
  some-injective a b h = cc

  pub Ensures-none : (P : A → Type 0) → Ensures P none
  Ensures-none P a e = absurd (none-ne a e)

  pub Ensures-some : (P : A → Type 0) (a : A) → P a → Ensures P (some a)
  Ensures-some P a h b e = subst P (some-injective a b e) h

  pub Ensures-if :
      (P : A → Type 0) (b : Bool) (x y : Option A)
      → Ensures P x
      → Ensures P y
      → Ensures P (if b then x else y)
  Ensures-if P true x y h k = h
  Ensures-if P false x y h k = k

module _ {ℓ ℓ'} {A : Type ℓ} {B : Type ℓ'} where
  pub Ensures-elim :
      (Q : A → Type 0) (P : B → Type 0) (o : Option A) (f : A → Option B)
      → Ensures Q o
      → ((a : A) → Q a → Ensures P (f a))
      → Ensures P (elim o [ none ↦ none | some a ↦ f a ])
  Ensures-elim Q P none f h k = Ensures-none P
  Ensures-elim Q P (some a) f h k = k a (h a refl)

module _ {ℓ} {A : Type ℓ} where
  pub Ensures-branch :
      (P : A → Type 0) (b : Bool) (x y : Option A)
      → (b ≡ true → Ensures P x)
      → (b ≡ false → Ensures P y)
      → Ensures P (if b then x else y)
  Ensures-branch P true x y h k = h refl
  Ensures-branch P false x y h k = k refl
