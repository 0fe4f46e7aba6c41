-- ===== src/Vm/ForkLeak.antt =====
-- kern/vm.c: the frames of copied pages that are zero-filled on demand.
use os_p.Base.{
  ℕ, zero, suc, ◌+◌, ◌-◌, ◌≤◌, ◌<◌, ◌≡◌, refl, sym, ap, ◌∙◌, subst, Bool, true, false, not, Option,
  none, some, if◌then◌else◌, arith,
}
use os_p.Base.Int.{pos, ◌+ℤ◌, ◌-ℤ◌, ltb_ℤ}
use os_p.Base.Ensures.{Ensures, Ensures-none, Ensures-some, Ensures-if, Ensures-branch}
use os_p.Pm.{Pm, reserve_frames, free_frames_raw, unreserve_frames}
use os_p.Pm.Frames.{IsPlaced}
use os_p.Pm.Usable.{usable, Takes, Takes-left}
use os_p.Vm.{Pte, Pt, Pd, Space, error_malloc_lib, error_not_enough}
use os_p.Vm.Copy.{
  num_pt_kernel, num_entries, count_pages_user_space, free_entry, free_entries, free_tables,
  free_space, allocate, Cloning, clone_tables, CloneResult, cloned, clone_error, finish_clone,
  clone_pd,
}
use os_p.Vm.ForkTables.{TableCopy, absent, table, allocate-pm}
use os_p.Vm.ForkExit.{ForkEnds, copied, clone_pd-ForkEnds, allocate-pde}
use os_p.Vm.ForkFrames.{IfComplete, clone_tables-Takes}

-- Every page of the table that is present is marked zero-filled on demand.
pub record IsLazy (pt : Pt) : Type 0 where
  pub lazy : (j : ℕ) → (pt j).present ≡ true → (pt j).zfod ≡ true

-- Every page of user space is.
pub data LazyTable : Option Pt → Type 0 where
  no_table : LazyTable none
  lazy_table : {pt : Pt} → IsLazy pt → LazyTable (some pt)

abbrev pub IsLazyPd : Pd → Type 0
IsLazyPd pd = (i : ℕ) → num_pt_kernel ≤ i → LazyTable (pd i)

-- Only the number of reservations differs.
abbrev OnlyLeft : Pm → Pm → Type 0
OnlyLeft p q = q ≡ record p { left = q.left }

OnlyLeft-trans : (p q r : Pm) → OnlyLeft p q → OnlyLeft q r → OnlyLeft p r
OnlyLeft-trans p q r h k = k ∙ ap (λ (x : Pm). record x { left = r.left }) h

free_entry-OnlyLeft :
    (e : Pte) (p : Pm) → (e.present ≡ true → e.zfod ≡ true) → OnlyLeft p (free_entry true e p)
unfolding unreserve_frames
free_entry-OnlyLeft e p h = cases e.present e.zfod h
  where
    cases :
        (b z : Bool)
        → (b ≡ true → z ≡ true)
        → OnlyLeft p
            (if b then unreserve_frames (if z then p else free_frames_raw p e.frame) 1 else p)
    cases true true h = refl
    cases true false h = absurd (clash (h refl))
      where
        clash : false ≡ true → ⊥
        clash e = cc
    cases false z h = refl

free_entries-OnlyLeft :
    (n : ℕ) (pt : Pt) (p : Pm) → IsLazy pt → OnlyLeft p (free_entries true n pt p)
unfolding free_entries
free_entries-OnlyLeft zero pt p h = refl
free_entries-OnlyLeft (suc n) pt p h =
    OnlyLeft-trans p (free_entries true n pt p) _ (free_entries-OnlyLeft n pt p h)
      (free_entry-OnlyLeft (pt n) (free_entries true n pt p) (h.lazy n))

free_tables-OnlyLeft :
    (n : ℕ) (pd : Pd) (p : Pm)
    → ((i : ℕ) → i < n → LazyTable (pd (i + num_pt_kernel)))
    → OnlyLeft p (free_tables true n pd p)
unfolding free_tables
free_tables-OnlyLeft zero pd p h = refl
free_tables-OnlyLeft (suc n) pd p h =
    OnlyLeft-trans p (free_tables true n pd p) _
      (free_tables-OnlyLeft n pd p (λ i l. h i (omega arith)))
      (one (h n (omega arith)) (free_tables true n pd p))
  where
    one :
        {o : Option Pt}
        → LazyTable o
        → (q : Pm) → OnlyLeft q (elim o [ none ↦ q | some pt ↦ free_entries true num_entries pt q ])
    one no_table q = refl
    one (lazy_table {pt} l) q = free_entries-OnlyLeft num_entries pt q l

-- A copy keeps the marks.
LazyTable-copy : {o o' : Option Pt} → TableCopy o o' → LazyTable o → LazyTable o'
LazyTable-copy absent l = no_table
LazyTable-copy (table c) (lazy_table l) =
    lazy_table (record { lazy = λ j h. c.zfod j (l.lazy j (sym (c.present j) ∙ h)) })

-- The frames that a copy has taken, if it was made.
abbrev IfCopied : ℕ → Pm → CloneResult × Space → Type 0
IfCopied n p (cloned pd, t) = Takes n p t.pm
IfCopied n p (clone_error code, t) = Unit {0}

finish_clone-Takes :
    (n k : ℕ) (p : Pm) (o : Option Cloning)
    → Ensures (IfComplete n p) o
    → Ensures (IfCopied n p) (finish_clone k o)
finish_clone-Takes n k p none done = Ensures-none _
finish_clone-Takes n k p (some c) done =
    Ensures-branch (IfCopied n p) c.complete _ _
      (λ full. Ensures-some (IfCopied n p) (cloned c.pd, c.space) (done c refl full))
      (λ stopped. Ensures-some (IfCopied n p) (clone_error error_malloc_lib, _) tt)

reserve_frames-Takes : (p : Pm) (n : ℕ) → IsPlaced p → Takes 0 p (reserve_frames p n).1
unfolding reserve_frames
reserve_frames-Takes p n v = cases (ltb_ℤ (p.left -ℤ pos n) (pos 0))
  where
    cases :
        (b : Bool)
        → (let r : Bool × Pm =
              if b
              then (false, record p { left = p.left -ℤ pos n +ℤ pos n })
              else (true, record p { left = p.left -ℤ pos n }) in
            Takes 0 p r.1)
    cases true = Takes-left p (p.left -ℤ pos n +ℤ pos n) v
    cases false = Takes-left p (p.left -ℤ pos n) v

-- A copy takes a frame for each present page of user space.
clone_pd-Takes :
    (s : Space)
    → IsPlaced s.pm
    → count_pages_user_space s.pde ≤ usable s.pm
    → Ensures (IfCopied (count_pages_user_space s.pde) s.pm) (clone_pd s)
unfolding clone_pd count_pages_user_space
clone_pd-Takes s v h =
    Ensures-if goal (not reserved.0) _ _ (Ensures-some goal (clone_error error_not_enough, s1) tt) (
      Ensures-if goal (not (allocate s1).0) _ _
        (Ensures-some goal (clone_error error_malloc_lib, buf) tt)
        (Ensures-if goal (not (allocate buf).0) _ _
          (Ensures-some goal (clone_error error_malloc_lib, dir) tt)
          (finish_clone-Takes count count s.pm (clone_tables num_entries dir) (λ c e full.
            let t = clone_tables-Takes num_entries dir begun.placed enough c e full in
            record { placed = t.placed; total = omega (arith, t.total, begun.total, same) }))))
  where
    count : ℕ
    count = count_pages_user_space s.pde

    goal : CloneResult × Space → Type 0
    goal = IfCopied count s.pm

    reserved : Bool × Pm
    reserved = reserve_frames s.pm count

    s1 : Space
    s1 = record s { pm = reserved.1 }

    buf : Space
    buf = (allocate s1).1

    dir : Space
    dir = (allocate buf).1

    begun : Takes 0 s.pm dir.pm
    begun =
        subst (Takes 0 s.pm) (sym (allocate-pm buf ∙ allocate-pm s1))
          (reserve_frames-Takes s.pm count v)

    same : count_pages_user_space dir.pde ≡ count_pages_user_space s.pde
    same = ap count_pages_user_space (allocate-pde buf ∙ allocate-pde s1)

    enough : count_pages_user_space dir.pde ≤ usable dir.pm
    enough = omega (arith, same, begun.total, h)

-- If the frames of the core fit in the address space, every present page of user space is marked
-- zero-filled on demand, at least as many frames other than that of the local APIC are free as
-- there are such pages, and clone_pd returns a copy, then after the release of the copy the number
-- of reservations is as before the copy, but one of these free frames per page is lost.
pub clone_pd_leaks :
    (s t : Space) (pd : Pd)
    → IsPlaced s.pm
    → IsLazyPd s.pde
    → count_pages_user_space s.pde ≤ usable s.pm
    → clone_pd s ≡ some (cloned pd, t)
    → (let after = free_space pd false true t.pm in
        (after.left ≡ s.pm.left) × (usable after + count_pages_user_space s.pde ≡ usable s.pm))
unfolding free_space
clone_pd_leaks s t pd v h enough e = given (clone_pd-ForkEnds s (cloned pd, t) e)
  where
    taken : Takes (count_pages_user_space s.pde) s.pm t.pm
    taken = clone_pd-Takes s v enough (cloned pd, t) e

    given :
        ForkEnds s (cloned pd, t)
        → (let after = free_space pd false true t.pm in
            (after.left ≡ s.pm.left) × (usable after + count_pages_user_space s.pde ≡ usable s.pm))
    given (copied copies same left) =
        let after = free_space pd false true t.pm in
        let only = free_tables-OnlyLeft (num_entries - num_pt_kernel) pd t.pm (λ i l.
          LazyTable-copy (copies (i + num_pt_kernel) (omega arith))
            (h (i + num_pt_kernel) (omega arith))) in
        let kept = Takes-left t.pm after.left taken.placed in
        (
          left,
          ap (λ (p : Pm). usable p + count_pages_user_space s.pde) only
              ∙ omega (arith, kept.total, taken.total),
        )
