-- ===== src/Pm/Usable.antt =====
-- kern/pm.c: how many frames get_frames_raw can still hand out.
use os_p.Base.{
  ℕ, zero, suc, ◌+◌, ◌*◌, ◌<◌, ◌≡◌, ◌≢◌, ◌⊎◌, inl, inr, refl, sym, ap, ◌∙◌, subst, Bool, true,
  false, ◌&&◌, not, ◌==◌, if◌then◌else◌, arith, eq_cases, ==_iff, ==_false,
}
use os_p.Base.Int.{ℤ}
use os_p.Base.Ensures.{Ensures, Ensures-some}
use os_p.SegTree.{SegTree, get_next}
use os_p.SegTree.Range.{NoneFree, free_bit}
use os_p.SegTree.Alloc.{Flips, get_next-least}
use os_p.Pm.{Pm, frame_addr, get_frames_raw}
use os_p.Pm.Frames.{
  IsPlaced, with_frames, IsPlaced-next, raw-frame, raw-lapic, frame_addr-injective,
}

-- For how many indices below the bound a test holds.
unfoldable pub count_where : (ℕ → Bool) → ℕ → ℕ
count_where f zero = 0
count_where f (suc n) = count_where f n + (if f n then 1 else 0)

count_where-eq :
    (f g : ℕ → Bool) (n : ℕ) → ((i : ℕ) → i < n → f i ≡ g i) → count_where f n ≡ count_where g n
unfolding count_where
count_where-eq f g zero h = refl
count_where-eq f g (suc n) h =
    ap (λ x. x + (if f n then 1 else 0)) (count_where-eq f g n (λ i l. h i (omega arith)))
    ∙ ap (λ b. count_where g n + (if b then 1 else 0)) (h n (omega arith))

count_where-none : (f : ℕ → Bool) (n : ℕ) → ((i : ℕ) → i < n → f i ≡ false) → count_where f n ≡ 0
unfolding count_where
count_where-none f zero h = refl
count_where-none f (suc n) h =
    ap (λ x. x + (if f n then 1 else 0)) (count_where-none f n (λ i l. h i (omega arith)))
    ∙ ap (λ b. 0 + (if b then 1 else 0)) (h n (omega arith))

-- One index drops out.
count_where-drop :
    (f g : ℕ → Bool) (n a : ℕ)
    → a < n
    → f a ≡ true
    → g a ≡ false
    → ((i : ℕ) → i ≢ a → g i ≡ f i)
    → count_where g n + 1 ≡ count_where f n
unfolding count_where
count_where-drop f g zero a l on off others = absurd (omega arith)
count_where-drop f g (suc n) a l on off others = elim (eq_cases n a) [
  | inl e ↦
      let on' : f n ≡ true = ap f e ∙ on in
      let off' : g n ≡ false = ap g e ∙ off in
      let same = count_where-eq g f n (λ i k. others i (omega arith)) in
      rw (on', off') (omega (arith, same))
  | inr d ↦
      let rest = count_where-drop f g n a (omega arith) on off others in
      rw (others n d) (omega (arith, rest))
]

-- A free frame other than the local APIC's.
abbrev pub is_usable : Pm → ℕ → Bool
is_usable p i = (free_bit p.frames i == 1) && not (frame_addr p i == p.lapic_base)

abbrev pub usable : Pm → ℕ
usable p = count_where (is_usable p) (p.frames.size * 32)

-- `n` usable frames fewer.
pub record Takes (n : ℕ) (p q : Pm) : Type 0 where
  pub placed : IsPlaced q
  pub total : usable q + n ≡ usable p

not_usable : (p : Pm) (i : ℕ) → free_bit p.frames i ≡ 0 → is_usable p i ≡ false
not_usable p i e = ap (λ b. (b == 1) && not (frame_addr p i == p.lapic_base)) e

lapic_not_usable : (p : Pm) (i : ℕ) → frame_addr p i ≡ p.lapic_base → is_usable p i ≡ false
lapic_not_usable p i e =
    ap (λ b. (free_bit p.frames i == 1) && not b) ((==_iff (frame_addr p i) p.lapic_base).1 e)
    ∙ and_false (free_bit p.frames i == 1)
  where
    and_false : (b : Bool) → (b && false) ≡ false
    and_false true = refl
    and_false false = refl

usable-none : (p : Pm) → NoneFree p.frames 0 (p.frames.size * 32) → usable p ≡ 0
usable-none p none_free =
    count_where-none (is_usable p) (p.frames.size * 32)
      (λ i l. not_usable p i (none_free i (omega arith) l))

module _ (p : Pm) (t : SegTree) (a : ℕ) (placed : IsPlaced p) (inside : a < p.frames.size * 32)
    (flips : Flips p.frames t a 0) where
  same_elsewhere : (i : ℕ) → i ≢ a → is_usable (with_frames p t) i ≡ is_usable p i
  unfolding frame_addr
  same_elsewhere i n = ap (λ b. (b == 1) && not (frame_addr p i == p.lapic_base)) (flips.others i n)

  same_bound : (f : ℕ → Bool) → count_where f (t.size * 32) ≡ count_where f (p.frames.size * 32)
  same_bound f = ap (λ n. count_where f (n * 32)) flips.same_size

  usable-taken :
      free_bit p.frames a ≡ 1 → frame_addr p a ≢ p.lapic_base → Takes 1 p (with_frames p t)
  usable-taken on far = record {
    placed = IsPlaced-next p t a placed flips;
    total =
        ap (λ x. x + 1) (same_bound (is_usable (with_frames p t)))
        ∙ count_where-drop (is_usable p) (is_usable (with_frames p t)) (p.frames.size * 32) a inside
            (rw (on, ==_false (frame_addr p a) p.lapic_base far) refl)
            (not_usable (with_frames p t) a flips.flipped) same_elsewhere;
  }

  usable-skipped : frame_addr p a ≡ p.lapic_base → usable (with_frames p t) ≡ usable p
  unfolding frame_addr
  usable-skipped l =
      same_bound (is_usable (with_frames p t))
      ∙ count_where-eq (is_usable (with_frames p t)) (is_usable p) (p.frames.size * 32) (λ i k.
        elim (eq_cases i a) [
          | inl e ↦
              lapic_not_usable (with_frames p t) i (ap (frame_addr p) e ∙ l)
              ∙ sym (lapic_not_usable p i (ap (frame_addr p) e ∙ l))
          | inr n ↦ same_elsewhere i n
        ])

-- The first frame that the tree gives, if it is not the local APIC's.
first_taken :
    (fuel : ℕ) (p : Pm)
    → IsPlaced p
    → 0 < usable p
    → frame_addr p (get_next p.frames).0 ≢ p.lapic_base
    → Ensures (λ r. Takes 1 p r.1) (get_frames_raw (suc fuel) p)
first_taken fuel p v some_usable far = elim (get_next-least p.frames v.tree) [
  | inl (e, none_free) ↦ absurd (omega (arith, some_usable, usable-none p none_free))
  | inr (lt, on, _, flips) ↦
      subst (Ensures (λ r. Takes 1 p r.1))
        (sym (
          raw-frame fuel p (get_next p.frames).0 refl (omega (arith, lt, v.tree.shape.few_leaves))
            far))
        (Ensures-some (λ r. Takes 1 p r.1)
          (frame_addr p (get_next p.frames).0, with_frames p (get_next p.frames).1)
          (usable-taken p (get_next p.frames).1 (get_next p.frames).0 v lt flips on far))
]

-- After the local APIC's frame has been passed over, the next one is another.
second_taken :
    (p : Pm) (t : SegTree) (a : ℕ)
    → IsPlaced p
    → a < p.frames.size * 32
    → Flips p.frames t a 0
    → 0 < usable p
    → frame_addr p a ≡ p.lapic_base
    → Ensures (λ r. Takes 1 p r.1) (get_frames_raw 1 (with_frames p t))
unfolding frame_addr
second_taken p t a v inside flips some_usable l r e =
    let same = usable-skipped p t a v inside flips l in
    let placed = IsPlaced-next p t a v flips in
    elim (get_next-least t flips.valid) [
      | inl (_, none_free) ↦
          absurd (omega (arith, some_usable, same, usable-none (with_frames p t) none_free))
      | inr (lt, on, _, _) ↦
          let b = (get_next t).0 in
          let lb : b < p.frames.size * 32 = omega (arith, flips.same_size, lt) in
          let ne : b ≢ a =
            (λ (q : b ≡ a). absurd (omega (arith, on, flips.flipped, ap (free_bit t) q))) in
          let far : frame_addr p b ≢ p.lapic_base = (λ (q : frame_addr p b ≡ p.lapic_base).
            ne (frame_addr-injective p b a v lb inside (q ∙ sym l))) in
          let taken =
            first_taken 0 (with_frames p t) placed (omega (arith, some_usable, same)) far r e in
          record { placed = taken.placed; total = taken.total ∙ same }
    ]

-- While a frame is usable, get_frames_raw makes one usable frame fewer.
pub get_frames_raw-Takes :
    (p : Pm) → IsPlaced p → 0 < usable p → Ensures (λ r. Takes 1 p r.1) (get_frames_raw 2 p)
get_frames_raw-Takes p v some_usable = elim (get_next-least p.frames v.tree) [
  | inl (_, none_free) ↦ absurd (omega (arith, some_usable, usable-none p none_free))
  | inr (lt, on, _, flips) ↦
      first lt flips (eq_cases (frame_addr p (get_next p.frames).0) p.lapic_base)
]
  where
    first :
        (get_next p.frames).0 < p.frames.size * 32
        → Flips p.frames (get_next p.frames).1 (get_next p.frames).0 0
        → (frame_addr p (get_next p.frames).0 ≡ p.lapic_base)
          ⊎ (frame_addr p (get_next p.frames).0 ≢ p.lapic_base)
        → Ensures (λ r. Takes 1 p r.1) (get_frames_raw 2 p)
    first lt flips (inr far) = first_taken 1 p v some_usable far
    first lt flips (inl l) =
        subst (Ensures (λ r. Takes 1 p r.1))
          (sym (
            raw-lapic 1 p (get_next p.frames).0 refl (omega (arith, lt, v.tree.shape.few_leaves))
              l))
          (second_taken p (get_next p.frames).1 (get_next p.frames).0 v lt flips some_usable l)

-- The number of reservations has no part in it.
pub Takes-left : (p : Pm) (left : ℤ) → IsPlaced p → Takes 0 p (record p { left = left })
unfolding frame_addr
Takes-left p left v = record {
  placed = record { tree = v.tree; fits = v.fits };
  total = omega arith;
}

pub Takes-refl : (p : Pm) → IsPlaced p → Takes 0 p p
Takes-refl p v = record { placed = v; total = omega arith }

pub Takes-trans : {m n : ℕ} {p q r : Pm} → Takes m p q → Takes n q r → Takes (m + n) p r
Takes-trans h k = record { placed = k.placed; total = omega (arith, h.total, k.total) }
