-- ===== src/Pm/Frames.antt =====
-- Frames handed out and given back by address, and the count of reserved frames.
use os_p.Base.{
  ℕ, suc, ◌+◌, ◌-◌, ◌*◌, ◌%◌, ◌^◌, ◌≤◌, ◌<◌, ◌≡◌, ◌≢◌, refl, ◌⊎◌, inl, inr, true, false, ap, sym,
  ◌∙◌, some, arith, eq_cases, ==_iff, ==_false, dec_le,
}
use os_p.Base.Int.{pos, ◌+ℤ◌, ◌-ℤ◌}
use os_p.SegTree.{SegTree, nan, get_next}
use os_p.SegTree.Range.{IsValid, NoneFree, free_bit}
use os_p.SegTree.Alloc.{Flips, get_next-least, put_back-Flips}
use os_p.Pm.{
  Pm, page_size, user_mem_start, error_not_enough_mem, frame_addr, get_frames_raw, frame_index,
  free_frames_raw, reserve_frames, unreserve_frames,
}

-- The core's frames lie in the 32-bit address space.
pub record IsPlaced (p : Pm) : Type 0 where
  pub tree : IsValid p.frames
  pub fits :
      user_mem_start + p.frames.size * 32 * page_size + p.cur_cpu * p.per_core * page_size ≤ 2 ^ 32

-- No address of a frame wraps, so each is above the kernel's memory and starts a page.
frame_addr-eq :
    (p : Pm) (index : ℕ)
    → IsPlaced p
    → index < p.frames.size * 32
    → frame_addr p index ≡ user_mem_start + index * page_size + p.cur_cpu * p.per_core * page_size
unfolding frame_addr
frame_addr-eq p index v h = omega arith

-- The frame number that free_frames_raw computes from the address of a frame of the range is that
-- frame, with the wrap-around of both 32-bit computations.
pub frame_index-frame_addr :
    (p : Pm) (index : ℕ)
    → IsPlaced p
    → index < p.frames.size * 32
    → frame_index p (frame_addr p index) ≡ index
unfolding frame_index
frame_index-frame_addr p index v h = omega (arith, frame_addr-eq p index v h, v.fits)

pub frame_addr-injective :
    (p : Pm) (i j : ℕ)
    → IsPlaced p
    → i < p.frames.size * 32
    → j < p.frames.size * 32
    → frame_addr p i ≡ frame_addr p j
    → i ≡ j
frame_addr-injective p i j v a b e = omega (arith, frame_addr-eq p i v a, frame_addr-eq p j v b)

abbrev pub with_frames : Pm → SegTree → Pm
with_frames p t = record p { frames = t }

frame_addr-with_frames :
    (p : Pm) (t : SegTree) (i : ℕ) → frame_addr (with_frames p t) i ≡ frame_addr p i
unfolding frame_addr
frame_addr-with_frames p t i = refl

raw-none :
    (f : ℕ) (p : Pm)
    → (get_next p.frames).0 ≡ nan
    → get_frames_raw (suc f) p ≡ some (error_not_enough_mem, with_frames p (get_next p.frames).1)
unfolding get_frames_raw
raw-none f p e = rw ((==_iff (get_next p.frames).0 nan).1 e)

pub raw-frame :
    (f : ℕ) (p : Pm) (a : ℕ)
    → (get_next p.frames).0 ≡ a
    → a ≢ nan
    → frame_addr p a ≢ p.lapic_base
    → get_frames_raw (suc f) p ≡ some (frame_addr p a, with_frames p (get_next p.frames).1)
unfolding get_frames_raw
raw-frame f p a e n l = rw (e, ==_false a nan n, ==_false (frame_addr p a) p.lapic_base l)

pub raw-lapic :
    (f : ℕ) (p : Pm) (a : ℕ)
    → (get_next p.frames).0 ≡ a
    → a ≢ nan
    → frame_addr p a ≡ p.lapic_base
    → get_frames_raw (suc f) p ≡ get_frames_raw f (with_frames p (get_next p.frames).1)
unfolding get_frames_raw
raw-lapic f p a e n l = rw (e, ==_false a nan n, (==_iff (frame_addr p a) p.lapic_base).1 l)

-- `q` is `p` after one of its free frames, not the local APIC's, has been handed out.
abbrev pub Gives : Pm → ℕ → Pm → Type 0
Gives p a q =
    (index : ℕ) × (index < p.frames.size * 32)
    × (a ≡ frame_addr p index)
    × (a ≢ p.lapic_base)
    × (free_bit p.frames index ≡ 1)
    × (free_bit q.frames index ≡ 0)
    × IsPlaced q

-- Every frame but the local APIC's is allocated.
abbrev pub IsFull : Pm → Type 0
IsFull p =
    (index : ℕ)
    → index < p.frames.size * 32
    → frame_addr p index ≢ p.lapic_base
    → free_bit p.frames index ≡ 0

abbrev pub Outcome : Pm → ℕ → Pm → Type 0
Outcome p a q = ((a ≡ error_not_enough_mem) × IsFull p) ⊎ Gives p a q

-- What the first call of `get_next` does to the placement.
pub IsPlaced-next :
    (p : Pm) (t : SegTree) (a : ℕ) → IsPlaced p → Flips p.frames t a 0 → IsPlaced (with_frames p t)
IsPlaced-next p t a v flips = record {
  tree = flips.valid;
  fits = omega (arith, flips.same_size, v.fits);
}

-- The second call, after the local APIC's frame has been passed over.
second_try :
    (p : Pm) (t : SegTree) (a : ℕ)
    → IsPlaced p
    → a < p.frames.size * 32
    → frame_addr p a ≡ p.lapic_base
    → free_bit p.frames a ≡ 1
    → Flips p.frames t a 0
    → (b : ℕ) × (q : Pm) × (get_frames_raw 1 (with_frames p t) ≡ some (b, q)) × Outcome p b q
unfolding frame_addr
second_try p t a v la l on flips = elim (get_next-least t flips.valid) [
  | inl (e, none_free) ↦ (
    error_not_enough_mem,
    with_frames p (get_next t).1,
    raw-none 0 (with_frames p t) (ap (λ (r : ℕ × SegTree). r.0) e),
    inl (refl, λ i h n. other i n h (eq_cases i a) none_free),
  )
  | inr (lt, on', _, flips') ↦
      let b = (get_next t).0 in
      let lb : b < p.frames.size * 32 = omega (arith, flips.same_size, lt) in
      let ne : b ≢ a =
        (λ (e : b ≡ a). absurd (omega (arith, on', flips.flipped, ap (free_bit t) e))) in
      let far : frame_addr p b ≢ p.lapic_base = (λ (e : frame_addr p b ≡ p.lapic_base).
        ne (frame_addr-injective p b a v lb la (e ∙ sym l))) in
      (
        frame_addr p b,
        with_frames p (get_next t).1,
        raw-frame 0 (with_frames p t) b refl (omega (arith, lb, v.tree.shape.few_leaves)) far,
        inr (
          b,
          lb,
          refl,
          far,
          sym (flips.others b ne) ∙ on',
          flips'.flipped,
          IsPlaced-next (with_frames p t) (get_next t).1 b (IsPlaced-next p t a v flips) flips',
        ),
      )
]
  where
    other :
        (i : ℕ)
        → frame_addr p i ≢ p.lapic_base
        → i < p.frames.size * 32
        → (i ≡ a) ⊎ (i ≢ a)
        → NoneFree t 0 (t.size * 32)
        → free_bit p.frames i ≡ 0
    other i n h (inl e) none_free = absurd (n (ap (frame_addr p) e ∙ l))
    other i n h (inr ne) none_free =
        sym (flips.others i ne) ∙ none_free i (omega arith) (omega (arith, flips.same_size))

-- For a core whose frames fit in the address space, two rounds of get_frames_raw are enough: it
-- returns the address of a free frame other than the local APIC's and allocates it, or the error,
-- and the error only if no such frame is free.
pub get_frames_raw-total :
    (p : Pm) → IsPlaced p → (a : ℕ) × (q : Pm) × (get_frames_raw 2 p ≡ some (a, q)) × Outcome p a q
get_frames_raw-total p v = elim (get_next-least p.frames v.tree) [
  | inl (e, none_free) ↦ (
    error_not_enough_mem,
    with_frames p (get_next p.frames).1,
    raw-none 1 p (ap (λ (r : ℕ × SegTree). r.0) e),
    inl (refl, λ i h n. none_free i (omega arith) h),
  )
  | inr (lt, on, _, flips) ↦
      found lt on flips (eq_cases (frame_addr p (get_next p.frames).0) p.lapic_base)
]
  where
    found :
        (get_next p.frames).0 < p.frames.size * 32
        → free_bit p.frames (get_next p.frames).0 ≡ 1
        → Flips p.frames (get_next p.frames).1 (get_next p.frames).0 0
        → (frame_addr p (get_next p.frames).0 ≡ p.lapic_base)
          ⊎ (frame_addr p (get_next p.frames).0 ≢ p.lapic_base)
        → (a : ℕ) × (q : Pm) × (get_frames_raw 2 p ≡ some (a, q)) × Outcome p a q
    found lt on flips (inl l) =
        let (b, q, e, outcome) =
          second_try p (get_next p.frames).1 (get_next p.frames).0 v lt l on flips in
        (
          b,
          q,
          raw-lapic 1 p (get_next p.frames).0 refl (omega (arith, v.tree.shape.few_leaves)) l ∙ e,
          outcome,
        )
    found lt on flips (inr n) = (
      frame_addr p (get_next p.frames).0,
      with_frames p (get_next p.frames).1,
      raw-frame 1 p (get_next p.frames).0 refl (omega (arith, v.tree.shape.few_leaves)) n,
      inr (
        (get_next p.frames).0,
        lt,
        refl,
        n,
        on,
        flips.flipped,
        IsPlaced-next p (get_next p.frames).1 (get_next p.frames).0 v flips,
      ),
    )

-- For a core whose frames fit in the address space, freeing the address of a frame frees that
-- frame and no other.
pub free_frames_raw-Flips :
    (p : Pm) (index : ℕ)
    → IsPlaced p
    → index < p.frames.size * 32
    → Flips p.frames (free_frames_raw p (frame_addr p index)).frames index 1
unfolding free_frames_raw
free_frames_raw-Flips p index v h =
    rw (frame_index-frame_addr p index v h) (put_back-Flips p.frames index v.tree h)

-- An address that is handed out starts a page, and so is none of the negative error codes.
pub frame_addr-IsAligned :
    (p : Pm) (index : ℕ)
    → IsPlaced p
    → index < p.frames.size * 32
    → (frame_addr p index % page_size ≡ 0)
      × (user_mem_start ≤ frame_addr p index)
      × (frame_addr p index ≢ error_not_enough_mem)
frame_addr-IsAligned p index v h = omega (arith, frame_addr-eq p index v h)

-- With n frames left, a reservation of at most n takes exactly them and unreserve_frames restores
-- the manager; a larger one fails and changes nothing.
pub reserve_frames-cases :
    (p : Pm) (n count : ℕ)
    → p.left ≡ pos n
    → ((count ≤ n)
        × (reserve_frames p count ≡ (true, record p { left = pos (n - count) }))
        × (unreserve_frames (reserve_frames p count).1 count ≡ p))
      ⊎ ((n < count) × (reserve_frames p count ≡ (false, p)))
unfolding reserve_frames unreserve_frames ◌-ℤ◌ ◌+ℤ◌
reserve_frames-cases p n count e = elim (dec_le count n) [
  | yes h ↦ inl (h, ground arith, ground arith)
  | no h ↦ inr (omega arith, ground arith)
]
