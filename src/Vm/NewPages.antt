-- ===== src/Vm/NewPages.antt =====
-- new_pages and remove_pages as their callers see them.
use mathlib.Core.Path.{fun_ext}
use os_p.Base.{
  ℕ, ◌+◌, ◌-◌, ◌*◌, ◌%◌, ◌^◌, ◌≤◌, ◌<◌, ◌≡◌, ◌≢◌, inl, inr, refl, sym, ap, ◌∙◌, true, false, ◌&&◌,
  Option, none, some, ltb, leb, ◌==◌, arith, ==_iff, Bool-cases, subst,
}
use os_p.Base.Bits.{get_bit-zero}
use os_p.Base.Int.{ℤ, pos, ltb_ℤ, ◌-ℤ◌, cancel-ℤ}
use os_p.Pm.{Pm, page_size, user_mem_start, reserve_frames}
use os_p.Vm.{
  Pte, region_bits, Space, get_pd_index, page_of, page_highest, page_count, count_loop,
  count_pages_allocated, reserve_and_map, new_region, new_pages, error_malloc_lib, error_overlap,
  error_not_enough,
}
use os_p.Vm.Region.{mapped, IsPage, Unchanged, Vacant}
use os_p.Vm.Count.{Counted, no_memory, overlap, vacant, Covered, count_loop-Counted}
use os_p.Vm.Enter.{region_entry, or_frame-aligned}
use os_p.Vm.Loops.{Rewrites, map_loop-Entered}

-- `n` pages from `base` on, all of them in user space.
pub record IsRegion (base n : ℕ) : Type 0 where
  pub aligned : base % 4096 ≡ 0
  pub some_page : 0 < n
  pub fits : base + n * 4096 ≤ 2 ^ 32
  pub user : user_mem_start ≤ base

abbrev pub last_page : ℕ → ℕ → ℕ
last_page base n = base + n * 4096 - 4096

-- The four ends of new_pages for a region, with the entries that it gives to the pages.
pub data NewPages (entry : ℕ → Pte) (s : Space) (base n : ℕ) : Option (ℤ × Space) → Type 0 where
  malloc_fails :
      {t : Space} → Unchanged (mapped s) s t → NewPages entry s base n (some (error_malloc_lib, t))
  overlaps :
      {t : Space} (p : ℕ)
      → Unchanged (mapped s) s t
      → IsPage p
      → base ≤ p
      → p < base + n * 4096
      → mapped s p ≢ none
      → NewPages entry s base n (some (error_overlap, t))
  short_of_frames :
      {t : Space}
      → Unchanged (mapped s) s t
      → Vacant (mapped s) base (base + n * 4096)
      → (reserve_frames s.pm n).0 ≡ false
      → NewPages entry s base n (some (error_not_enough, t))
  created :
      {t : Space}
      → Vacant (mapped s) base (base + n * 4096)
      → Rewrites (λ p. some (entry p)) base (base + n * 4096) s t
      → reserve_frames s.pm n ≡ (true, t.pm)
      → t.all_zero_frame ≡ s.all_zero_frame
      → NewPages entry s base n (some (pos 0, t))

positive : (n : ℕ) → 0 < n → (ltb_ℤ (pos 0) (pos (n * 4096)) && n * 4096 % page_size == 0) ≡ true
positive n h = ground arith

ends :
    (base n : ℕ)
    → base + n * 4096 ≤ 2 ^ 32
    → user_mem_start ≤ base
    → ltb ((2 ^ 32 - 1 - base + 1) % 2 ^ 32) (n * 4096) ≡ false
ends base n h k = ground arith

above : (base : ℕ) → user_mem_start ≤ base → leb user_mem_start base ≡ true
above base h = ground arith

lowest : (base : ℕ) → base % 4096 ≡ 0 → page_of base ≡ base
lowest base h = omega arith

highest :
    (base n : ℕ)
    → base % 4096 ≡ 0
    → 0 < n
    → base + n * 4096 ≤ 2 ^ 32
    → page_highest base (n * 4096) ≡ last_page base n
highest base n h k l = omega arith

count :
    (base n : ℕ)
    → base % 4096 ≡ 0
    → 0 < n
    → base + n * 4096 ≤ 2 ^ 32
    → page_count base (n * 4096) ≡ n
count base n h k l = omega arith

-- The guards of new_pages let a region through, and new_region counts its pages.
new_pages-eq :
    (base n : ℕ) (s : Space)
    → IsRegion base n
    → new_pages base (pos (n * 4096)) s
      ≡ reserve_and_map true true true base (last_page base n) n (
          count_loop true
            (get_pd_index base)
            (get_pd_index (last_page base n) - get_pd_index base + 1)
            n
            base
            0
            (λ i. 0)
            s)
unfolding new_pages new_region count_pages_allocated
new_pages-eq base n s r =
    guards base n s r
    ∙ ap (λ x. region x (page_highest base (n * 4096)) (page_count base (n * 4096)))
        (lowest base r.aligned)
    ∙ ap (λ x. region base x (page_count base (n * 4096)))
        (highest base n r.aligned r.some_page r.fits)
    ∙ ap (λ x. region base (last_page base n) x) (count base n r.aligned r.some_page r.fits)
  where
    region : ℕ → ℕ → ℕ → Option (ℤ × Space)
    region low high c = reserve_and_map true true true low high c (
        count_loop true (get_pd_index low) (get_pd_index high - get_pd_index low + 1) c low 0
          (λ i. 0) s)

    guards :
        (base n : ℕ) (s : Space)
        → IsRegion base n
        → new_pages base (pos (n * 4096)) s ≡ new_region base (n * 4096) true true true s
    guards base n s r =
        let g1 : (base % page_size == 0) ≡ true = (==_iff (base % page_size) 0).1 r.aligned in
        let g2 : (ltb_ℤ (pos 0) (pos (n * 4096)) && n * 4096 % page_size == 0) ≡ true =
          positive n r.some_page in
        let g3 : ltb ((2 ^ 32 - 1 - base + 1) % 2 ^ 32) (n * 4096) ≡ false =
          ends base n r.fits r.user in
        let g4 : leb user_mem_start base ≡ true = above base r.user in
        rw (new_pages, g1, g2, g3, g4) refl

reserve_frames-none : (p : Pm) (n : ℕ) → (reserve_frames p n).0 ≡ false → (reserve_frames p n).1 ≡ p
unfolding reserve_frames
reserve_frames-none p n h = elim (Bool-cases (ltb_ℤ (p.left -ℤ pos n) (pos 0))) [
  | inl low ↦ rw low (ap (λ l. record p { left = l }) (cancel-ℤ p.left (pos n)))
  | inr ok ↦ absurd (false-ne (sym (rw ok refl) ∙ h))
]
  where
    false-ne : true ≢ false
    false-ne e = cc

-- The entries that the code builds.
abbrev pub entry_of : Space → ℕ → ℕ → ℕ → Pte
entry_of s base n p = region_entry s.all_zero_frame base (last_page base n) p

-- The rest of new_region, when the pages are vacant and have page tables.
reserve_and_map-NewPages :
    (base n : ℕ) (s t : Space)
    → IsRegion base n
    → Unchanged (mapped s) s t
    → Vacant (mapped s) base (base + n * 4096)
    → Covered t base (base + n * 4096)
    → NewPages
        (entry_of s base n)
        s
        base
        n
        (reserve_and_map true true true base (last_page base n) n (pos 0, t))
unfolding reserve_and_map
reserve_and_map-NewPages base n s t r u va co =
    elim (Bool-cases ((reserve_frames t.pm (n - 0)).0)) [
      | inl enough ↦
          let t' = record t { pm = (reserve_frames t.pm (n - 0)).1 } in
          let (w, (run, e)) =
            map_loop-Entered base (last_page base n) n base (base + n * 4096) base t'
              (omega (arith, r.fits, r.some_page)) refl r.aligned r.fits
              (λ p k a b. u.agrees p k ∙ va p k a b) co in
          rw (reserve_and_map, enough, run)
            (created va (moved (reserve_frames t.pm (n - 0)).1 w e.pages)
              (reserved
                ∙ ap (λ b. (b, (reserve_frames t.pm (n - 0)).1)) enough
                ∙ ap (λ x. (true, x)) (sym e.pm))
              (e.all_zero_frame ∙ u.all_zero_frame))
      | inr not_enough ↦
          rw (reserve_and_map, not_enough)
            (short_of_frames
              (record {
                agrees = u.agrees;
                pm = reserve_frames-none t.pm (n - 0) not_enough ∙ u.pm;
                all_zero_frame = u.all_zero_frame;
              })
              va (ap (λ x. x.0) reserved ∙ not_enough))
    ]
  where
    reserved : reserve_frames s.pm n ≡ reserve_frames t.pm (n - 0)
    reserved =
        ap (λ x. reserve_frames x n) (sym u.pm) ∙ ap (λ x. reserve_frames t.pm x) (omega arith)

    moved :
        (q : Pm) (w : Space)
        → Rewrites
            (λ p. some (region_entry t.all_zero_frame base (last_page base n) p))
            base
            (base + n * 4096)
            (record t { pm = q })
            w
        → Rewrites
            (λ p. some (region_entry s.all_zero_frame base (last_page base n) p))
            base
            (base + n * 4096)
            s
            w
    moved q w e = record {
      inside = λ p k a b.
          e.inside p k a b
          ∙ ap (λ z. some (region_entry z base (last_page base n) p)) u.all_zero_frame;
      before = λ p k a. e.before p k a ∙ u.agrees p k;
      after = λ p k a. e.after p k a ∙ u.agrees p k;
    }

pub new_pages-region_entry :
    (base n : ℕ) (s : Space)
    → IsRegion base n
    → NewPages (entry_of s base n) s base n (new_pages base (pos (n * 4096)) s)
unfolding reserve_and_map
new_pages-region_entry base n s r =
    subst (NewPages (entry_of s base n) s base n) (sym (new_pages-eq base n s r)) (
      ends (
        count_loop-Counted (mapped s) base (get_pd_index (last_page base n) - get_pd_index base + 1)
          n base base (λ i. 0) s (omega (arith, r.fits, r.some_page)) r.aligned (omega arith) r.fits
          (λ p k. refl) (λ i h. absurd (omega (arith, get_bit-zero 0, h)))
          (λ p k a b. absurd (omega arith)) (λ p k a b. absurd (omega arith))))
  where
    ends :
        {c : ℤ × Space}
        → Counted (mapped s) s base (base + n * 4096) c
        → NewPages
            (entry_of s base n)
            s
            base
            n
            (reserve_and_map true true true base (last_page base n) n c)
    ends (no_memory u) = malloc_fails u
    ends (overlap p u k a b h) = overlaps p u k a b h
    ends (vacant u va co) = reserve_and_map-NewPages base n s _ r u va co

-- The entry of a page of a region: the shared all-zero frame, present, for the user, not writable,
-- zero-filled on demand, with the marks of the first and the last page.
abbrev pub lazy_entry : Space → ℕ → ℕ → ℕ → Pte
lazy_entry s base n p = record {
  present = true;
  rw = false;
  us = true;
  zfod = true;
  new_pages_start = p == base;
  new_pages_end = p == last_page base n;
  frame = s.all_zero_frame;
}

entry_of-lazy_entry :
    (s : Space) (base n p : ℕ)
    → s.all_zero_frame % 4096 ≡ 0
    → entry_of s base n p ≡ lazy_entry s base n p
entry_of-lazy_entry s base n p h =
    or_frame-aligned s.all_zero_frame (region_bits true true true base (last_page base n) p) h

-- For n > 0 pages of user space that end within 2^32 and an all-zero frame that starts a page,
-- new_pages ends in one of four ways: it returns ERROR_MALLOC_LIB; or ERROR_OVERLAP, and a page of
-- the region was present; or ERROR_NOT_ENOUGH_MEM, and no page was present but n frames cannot be
-- reserved; and in these three every page is mapped as before and the physical memory manager is
-- as before; or it returns 0, no page was present, every page of the region is now present, for
-- the user, not writable, zero-filled on demand and at the all-zero frame, the first page and no
-- other has the mark of the start, and the last and no other that of the end, every other page is
-- as before, and n frames are reserved.
pub new_pages-NewPages :
    (base n : ℕ) (s : Space)
    → IsRegion base n
    → s.all_zero_frame % 4096 ≡ 0
    → NewPages (lazy_entry s base n) s base n (new_pages base (pos (n * 4096)) s)
new_pages-NewPages base n s r h =
    subst (λ (e : ℕ → Pte). NewPages e s base n (new_pages base (pos (n * 4096)) s))
      (fun_ext (λ p. entry_of-lazy_entry s base n p h)) (new_pages-region_entry base n s r)
