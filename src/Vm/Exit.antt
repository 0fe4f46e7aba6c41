-- ===== src/Vm/Exit.antt =====
-- The reservations of a task over fork() and exit.
use os_p.Base.{
  ℕ, zero, suc, ◌+◌, ◌-◌, ◌≡◌, refl, sym, ap, ◌∙◌, Bool, true, false, Option, none, some, ◌==◌,
  if◌then◌else◌,
}
use os_p.Base.Int.{pos, ◌+ℤ◌, add_pos, add_zero}
use os_p.Base.Ensures.{Ensures, Ensures-none, Ensures-some, Ensures-if}
use os_p.SegTree.{nan, get_next}
use os_p.Pm.{
  Pm, get_frames_raw, free_frames_raw, unreserve_frames, frame_addr, error_not_enough_mem,
}
use os_p.Vm.{Pte, Pt, Pd}
use os_p.Vm.Copy.{
  num_pt_kernel, num_entries, count_entries, count_tables, count_pages_user_space, free_entry,
  free_entries, free_tables, free_space,
}

-- A frame handed out leaves the number of reservations.
pub get_frames_raw-left :
    (fuel : ℕ) (p : Pm) → Ensures (λ r. r.1.left ≡ p.left) (get_frames_raw fuel p)
unfolding get_frames_raw
get_frames_raw-left zero p = Ensures-none _
get_frames_raw-left (suc fuel) p =
    let q = record p { frames = (get_next p.frames).1 } in
    Ensures-if _ ((get_next p.frames).0 == nan) _ _ (Ensures-some _ (error_not_enough_mem, q) refl)
      (Ensures-if _ (frame_addr p (get_next p.frames).0 == p.lapic_base) _ _
        (get_frames_raw-left fuel q) (Ensures-some _ (frame_addr p (get_next p.frames).0, q) refl))

-- `n` reservations more.
abbrev pub Gains : ℕ → Pm → Pm → Type 0
Gains n p q = q.left ≡ p.left +ℤ pos n

Gains-trans : (m n : ℕ) (p q r : Pm) → Gains m p q → Gains n q r → Gains (m + n) p r
Gains-trans m n p q r h k = k ∙ ap (λ x. x +ℤ pos n) h ∙ add_pos p.left m n

free_entry-Gains : (e : Pte) (p : Pm) → Gains (if e.present then 1 else 0) p (free_entry true e p)
unfolding free_frames_raw unreserve_frames
free_entry-Gains e p = cases e.present e.zfod
  where
    cases :
        (b z : Bool)
        → Gains (if b then 1 else 0) p (
            let q = if z then p else free_frames_raw p e.frame in
            if b then unreserve_frames q 1 else p)
    cases true true = refl
    cases true false = refl
    cases false z = sym (add_zero p.left)

free_entries-Gains :
    (n : ℕ) (pt : Pt) (p : Pm) → Gains (count_entries n pt) p (free_entries true n pt p)
unfolding count_entries free_entries
free_entries-Gains zero pt p = sym (add_zero p.left)
free_entries-Gains (suc n) pt p =
    let q = free_entries true n pt p in
    Gains-trans (count_entries n pt) (if (pt n).present then 1 else 0) p q
      (free_entry true (pt n) q) (free_entries-Gains n pt p) (free_entry-Gains (pt n) q)

free_tables-Gains :
    (n : ℕ) (pd : Pd) (p : Pm) → Gains (count_tables n pd) p (free_tables true n pd p)
unfolding count_tables free_tables
free_tables-Gains zero pd p = sym (add_zero p.left)
free_tables-Gains (suc n) pd p =
    let q = free_tables true n pd p in
    Gains-trans (count_tables n pd) _ p q (free_tables true (suc n) pd p) (free_tables-Gains n pd p)
      (table (pd (n + num_pt_kernel)) q)
  where
    table :
        (o : Option Pt) (q : Pm)
        → Gains
            (elim o [ none ↦ 0 | some pt ↦ count_entries num_entries pt ])
            q
            (elim o [ none ↦ q | some pt ↦ free_entries true num_entries pt q ])
    table none q = sym (add_zero q.left)
    table (some pt) q = free_entries-Gains num_entries pt q

-- The release of the user space of a task with its reservations raises the number of frames left
-- by exactly the number of pages that count_pages_user_space counts.
pub free_space-Gains :
    (pd : Pd) (p : Pm) → Gains (count_pages_user_space pd) p (free_space pd false true p)
unfolding count_pages_user_space free_space
free_space-Gains pd p = free_tables-Gains (num_entries - num_pt_kernel) pd p
