-- ===== src/Vm/RoundTrip.antt =====
-- What new_pages rejects, and remove_pages after new_pages.
use os_p.Base.{
  ℕ, zero, suc, ◌+◌, ◌-◌, ◌*◌, ◌/◌, ◌%◌, ◌^◌, ◌≤◌, ◌<◌, ◌≡◌, ◌≢◌, inl, inr, refl, sym, ap, ◌∙◌,
  Bool, true, false, ◌&&◌, Option, none, some, ltb, leb, ◌==◌, if◌then◌else◌, arith, ==_iff, ◌⊎◌,
  Bool-cases, subst, dec_lt,
}
use os_p.Base.Int.{ℤ, pos, negsuc, ltb_ℤ, pos_part, ◌+ℤ◌, ◌-ℤ◌, cancel-ℤ}
use os_p.Pm.{Pm, page_size, user_mem_start, reserve_frames, unreserve_frames}
use os_p.Vm.{Pte, Space, page_of, new_pages, remove_pages}
use os_p.Vm.Region.{mapped, Agrees, Vacant}
use os_p.Vm.Enter.{region_entry}
use os_p.Vm.Loops.{Rewrites}
use os_p.Vm.Remove.{remove_loop-Removed}
use os_p.Vm.NewPages.{
  IsRegion, last_page, NewPages, malloc_fails, overlaps, short_of_frames, created, entry_of,
  new_pages-region_entry,
}

unreserve_frames-reserve :
    (p q : Pm) (n : ℕ) → reserve_frames p n ≡ (true, q) → unreserve_frames q n ≡ p
unfolding reserve_frames unreserve_frames
unreserve_frames-reserve p q n h = elim (Bool-cases (ltb_ℤ (p.left -ℤ pos n) (pos 0))) [
  | inl low ↦ absurd (clash (ap (λ (x : Bool × Pm). x.0) (sym (taken true low) ∙ h)))
  | inr enough ↦
      ap (λ x. unreserve_frames x n)
        (sym (ap (λ (x : Bool × Pm). x.1) (sym (taken false enough) ∙ h)))
      ∙ ap (λ l. record p { left = l }) (cancel-ℤ p.left (pos n))
]
  where
    clash : false ≢ true
    clash e = cc

    taken :
        (b : Bool)
        → ltb_ℤ (p.left -ℤ pos n) (pos 0) ≡ b
        → reserve_frames p n ≡ (
            if b
            then (false, record p { left = p.left -ℤ pos n +ℤ pos n })
            else (true, record p { left = p.left -ℤ pos n }))
    taken b e =
        ap
          (λ c.
            if c
            then (false, record p { left = p.left -ℤ pos n +ℤ pos n })
            else (true, record p { left = p.left -ℤ pos n }))
          e

length_ok :
    (k : ℕ) → (ltb_ℤ (pos 0) (pos k) && k % page_size == 0) ≡ true → (0 < k) × (k % 4096 ≡ 0)
length_ok k h = ground arith

not_less : (a b : ℕ) → ltb a b ≡ false → b ≤ a
not_less a b h = ground arith

above : (base : ℕ) → leb user_mem_start base ≡ true → user_mem_start ≤ base
above base h = ground arith

abbrev returned : ℤ → Space → Option (ℤ × Space)
returned c s = some (c, s)

code-ne : {k : ℕ} {s t : Space} → returned (negsuc k) s ≢ returned (pos 0) t
code-ne h = cc

space-eq : {c : ℤ} {s t : Space} → returned c s ≡ returned c t → s ≡ t
space-eq h = cc

Rewrites-undo :
    {now : ℕ → Option Pte} {q h : ℕ} {s t u : Space}
    → Rewrites now q h s t
    → Rewrites (λ p. none) q h t u
    → Vacant (mapped s) q h
    → Agrees (mapped s) u
Rewrites-undo {now} {q} {h} a b va p k = elim (dec_lt p q) [
  | yes l ↦ b.before p k l ∙ a.before p k l
  | no n ↦ elim (dec_lt p h) [
    | yes l ↦ b.inside p k (omega arith) l ∙ sym (va p k (omega arith) l)
    | no m ↦ b.after p k (omega arith) ∙ a.after p k (omega arith)
  ]
]

-- For every 32-bit base and every length either they name n > 0 pages of user space that start at
-- a page and end within 2^32, or new_pages returns a negative number and changes nothing.
pub new_pages_rejects :
    (base : ℕ) (len : ℤ) (s : Space)
    → base < 2 ^ 32
    → ((n : ℕ) × (IsRegion base n × (len ≡ pos (n * 4096))))
      ⊎ ((k : ℕ) × (new_pages base len s ≡ some (negsuc k, s)))
unfolding new_pages
new_pages_rejects base len s l = elim (Bool-cases (base % page_size == 0)) [
  | inr crooked ↦ inr (6, rw (new_pages, crooked) refl)
  | inl aligned ↦ elim (Bool-cases (ltb_ℤ (pos 0) len && pos_part len % page_size == 0)) [
    | inr bad ↦ inr (14, rw (new_pages, aligned, bad) refl)
    | inl good ↦ elim (Bool-cases (ltb ((2 ^ 32 - 1 - base + 1) % 2 ^ 32) (pos_part len))) [
      | inl long ↦ inr (14, rw (new_pages, aligned, good, long) refl)
      | inr fits ↦ elim (Bool-cases (leb user_mem_start base)) [
        | inr kernel ↦ inr (62, rw (new_pages, aligned, good, fits, kernel) refl)
        | inl user ↦ inl (region base len aligned good fits user)
      ]
    ]
  ]
]
  where
    region :
        (base : ℕ) (len : ℤ)
        → (base % page_size == 0) ≡ true
        → (ltb_ℤ (pos 0) len && pos_part len % page_size == 0) ≡ true
        → ltb ((2 ^ 32 - 1 - base + 1) % 2 ^ 32) (pos_part len) ≡ false
        → leb user_mem_start base ≡ true
        → (n : ℕ) × (IsRegion base n × (len ≡ pos (n * 4096)))
    region base (negsuc k) a g f u = ground arith
    region base (pos k) a g f u =
        let b = (==_iff (base % page_size) 0).0 a in
        let (c, d) = length_ok k g in
        let e = not_less _ k f in
        let i = above base u in
        (
          k / 4096,
          (
            record { aligned = b; some_page = omega arith; fits = omega arith; user = i },
            ap pos (omega arith),
          ),
        )

-- What new_pages has done when it returns 0.
record Entering (s t : Space) (base n : ℕ) : Type 0 where
  vacant : Vacant (mapped s) base (base + n * 4096)
  pages :
      Rewrites
        (λ p. some (region_entry s.all_zero_frame base (last_page base n) p))
        base
        (base + n * 4096)
        s
        t
  reserved : reserve_frames s.pm n ≡ (true, t.pm)

only_created :
    {s t : Space} {base n : ℕ} {o : Option (ℤ × Space)}
    → NewPages (entry_of s base n) s base n o
    → o ≡ some (pos 0, t)
    → Entering s t base n
only_created (malloc_fails u) h = absurd (code-ne h)
only_created (overlaps p u a b c d) h = absurd (code-ne h)
only_created (short_of_frames u v r) h = absurd (code-ne h)
only_created {s} {t} {base} {n} (created va pages reserved zeros) h =
    subst (λ x. Entering s x base n) (space-eq h)
      (record { vacant = va; pages = pages; reserved = reserved })

-- If new_pages returns 0 for a region of n pages and the all-zero frame starts a page, then
-- remove_pages at its base, with fuel for n pages, returns 0, and every page is mapped and the
-- physical memory manager is as before new_pages.
pub remove_pages-new_pages :
    (base n fuel : ℕ) (s t : Space)
    → IsRegion base n
    → s.all_zero_frame % page_size ≡ 0
    → n ≤ fuel
    → new_pages base (pos (n * 4096)) s ≡ some (pos 0, t)
    → (u : Space) × ((remove_pages fuel base t ≡ some (pos 0, u))
        × (Agrees (mapped s) u × (u.pm ≡ s.pm)))
unfolding remove_pages
remove_pages-new_pages base zero fuel s t r z f h = absurd (omega (arith, r.some_page))
remove_pages-new_pages base (suc n) fuel s t r z f h =
    finish (only_created (new_pages-region_entry base (suc n) s r) h)
  where
    finish :
        Entering s t base (suc n)
        → (u : Space) × ((remove_pages fuel base t ≡ some (pos 0, u))
            × (Agrees (mapped s) u × (u.pm ≡ s.pm)))
    finish e =
        let (u, (run, d)) =
          remove_loop-Removed s.all_zero_frame base (last_page base (suc n)) n fuel base
            (base + suc n * 4096) (page_of base) true t (omega (arith, r.fits, r.aligned)) refl
            (omega arith) r.aligned z r.fits (omega arith) (inr refl) e.pages.inside in
        (
          u,
          (
            run,
            (
              Rewrites-undo e.pages d.pages e.vacant,
              d.pm ∙ unreserve_frames-reserve s.pm t.pm (suc n) e.reserved,
            ),
          ),
        )
