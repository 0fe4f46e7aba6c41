-- ===== src/Vm/ForkExit.antt =====
-- fork() followed by the exit of the new task.
use os_p.Base.{
  ◌<◌, subst, ℕ, zero, suc, ◌+◌, ◌-◌, ◌≡◌, refl, sym, ap, ◌∙◌, Bool, true, false, not, List, [],
  ◌∷◌, Option, none, some, if◌then◌else◌, arith, bool_clash,
}
use os_p.Base.Int.{ℤ, pos, ◌+ℤ◌, ◌-ℤ◌, cancel-ℤ, ltb_ℤ}
use os_p.Base.Ensures.{Ensures, Ensures-none, Ensures-some, Ensures-if, Ensures-branch}
use os_p.Pm.{Pm, free_frames_raw, unreserve_frames, reserve_frames}
use os_p.Vm.{Pte, Pt, Pd, Space, error_malloc_lib, error_not_enough}
use os_p.Vm.Copy.{
  num_pt_kernel, num_entries, count_pages_user_space, free_entry, free_entries, free_tables,
  free_space, free_entire_space, Cloning, allocate, clone_tables, finish_clone, cloned, clone_error,
  CloneResult, clone_pd,
}
use os_p.Vm.Exit.{free_space-Gains}
use os_p.Vm.ForkTables.{
  TableCopy, TablesDone, clone_tables-TablesDone, allocate-pm, count_tables-TableCopy,
}

-- How a copy ends for the reservations.
pub data ForkEnds (s : Space) : CloneResult × Space → Type 0 where
  copied :
      {pd : Pd} {t : Space}
      → ((i : ℕ) → i < num_entries → TableCopy (s.pde i) (pd i))
      → count_pages_user_space pd ≡ count_pages_user_space s.pde
      → (free_space pd false true t.pm).left ≡ s.pm.left
      → ForkEnds s (cloned pd, t)
  restored : {code : ℤ} {t : Space} → t.pm.left ≡ s.pm.left → ForkEnds s (clone_error code, t)
  lost :
      {t : Space}
      → t.pm.left +ℤ pos (count_pages_user_space s.pde) ≡ s.pm.left
      → ForkEnds s (clone_error error_malloc_lib, t)

reserve_frames-refused :
    (p : Pm) (n : ℕ) → (reserve_frames p n).0 ≡ false → (reserve_frames p n).1.left ≡ p.left
unfolding reserve_frames
reserve_frames-refused p n = cases (ltb_ℤ (p.left -ℤ pos n) (pos 0))
  where
    cases :
        (b : Bool)
        → (let r : Bool × Pm =
              if b
              then (false, record p { left = p.left -ℤ pos n +ℤ pos n })
              else (true, record p { left = p.left -ℤ pos n }) in
            r.0 ≡ false → r.1.left ≡ p.left)
    cases true h = cancel-ℤ p.left (pos n)
    cases false h = absurd (bool_clash (sym h))

reserve_frames-granted :
    (p : Pm) (n : ℕ) → (reserve_frames p n).0 ≡ true → (reserve_frames p n).1.left +ℤ pos n ≡ p.left
unfolding reserve_frames
reserve_frames-granted p n = cases (ltb_ℤ (p.left -ℤ pos n) (pos 0))
  where
    cases :
        (b : Bool)
        → (let r : Bool × Pm =
              if b
              then (false, record p { left = p.left -ℤ pos n +ℤ pos n })
              else (true, record p { left = p.left -ℤ pos n }) in
            r.0 ≡ true → r.1.left +ℤ pos n ≡ p.left)
    cases true h = absurd (bool_clash h)
    cases false h = cancel-ℤ p.left (pos n)

-- Frames freed without the flag leave the number of reservations.
free_entry-left : (e : Pte) (p : Pm) → (free_entry false e p).left ≡ p.left
unfolding free_frames_raw
free_entry-left e p = cases e.present e.zfod
  where
    cases :
        (b z : Bool) → (if b then (if z then p else free_frames_raw p e.frame) else p).left ≡ p.left
    cases true true = refl
    cases true false = refl
    cases false z = refl

free_entries-left : (n : ℕ) (pt : Pt) (p : Pm) → (free_entries false n pt p).left ≡ p.left
unfolding free_entries
free_entries-left zero pt p = refl
free_entries-left (suc n) pt p =
    free_entry-left (pt n) (free_entries false n pt p) ∙ free_entries-left n pt p

free_tables-left : (n : ℕ) (pd : Pd) (p : Pm) → (free_tables false n pd p).left ≡ p.left
unfolding free_tables
free_tables-left zero pd p = refl
free_tables-left (suc n) pd p =
    table (pd (n + num_pt_kernel)) (free_tables false n pd p) ∙ free_tables-left n pd p
  where
    table :
        (o : Option Pt) (q : Pm)
        → (let r : Pm = elim o [ none ↦ q | some pt ↦ free_entries false num_entries pt q ] in
            r.left)
          ≡ q.left
    table none q = refl
    table (some pt) q = free_entries-left num_entries pt q

free_entire_space-left : (pd : Pd) (p : Pm) → (free_entire_space pd false p).left ≡ p.left
unfolding free_entire_space free_space
free_entire_space-left pd p = free_tables-left (num_entries - num_pt_kernel) pd p

-- The end of the copy, for an address space whose reservation has been made.
finish_clone-ForkEnds :
    (s d : Space) (o : Option Cloning)
    → d.pde ≡ s.pde
    → d.pm.left +ℤ pos (count_pages_user_space s.pde) ≡ s.pm.left
    → Ensures (TablesDone d num_entries) o
    → Ensures (ForkEnds s) (finish_clone (count_pages_user_space s.pde) o)
unfolding count_pages_user_space unreserve_frames
finish_clone-ForkEnds s d none e h done = Ensures-none _
finish_clone-ForkEnds s d (some c) e h done =
    let k = done c refl in
    Ensures-branch (ForkEnds s) c.complete _ _
      (λ full.
        let same : count_pages_user_space c.pd ≡ count_pages_user_space s.pde =
          count_tables-TableCopy (num_entries - num_pt_kernel) d.pde c.pd
            (λ i l. k.below full i (omega arith))
          ∙ ap count_pages_user_space e in
        Ensures-some _ (cloned c.pd, c.space)
          (copied (λ i l. subst (λ x. TableCopy (x i) (c.pd i)) e (k.below full i l)) same
            (free_space-Gains c.pd c.space.pm
              ∙ ap (λ n. c.space.pm.left +ℤ pos n) same
              ∙ ap (λ l. l +ℤ pos (count_pages_user_space s.pde)) k.left
              ∙ h)))
      (λ stopped.
        Ensures-some _
          (
            clone_error error_malloc_lib,
            record c.space {
              pm =
                  unreserve_frames (free_entire_space c.pd false c.space.pm)
                    (count_pages_user_space s.pde);
            },
          )
          (restored (
            ap (λ l. l +ℤ pos (count_pages_user_space s.pde))
              (free_entire_space-left c.pd c.space.pm ∙ k.left)
            ∙ h)))

pub allocate-pde : (s : Space) → (allocate s).1.pde ≡ s.pde
unfolding allocate
allocate-pde s = cases s.mallocs
  where
    cases :
        (ms : List Bool)
        → (let r : Bool × Space = elim ms [
          | [] ↦ (false, s)
          | ok ∷ rest ↦ (ok, record s { mallocs = rest })
        ] in
            r.1.pde)
          ≡ s.pde
    cases [] = refl
    cases (ok ∷ rest) = refl

-- If clone_pd returns a copy, the copy has the page tables and present pages of the original and
-- as many pages of user space as the original, and freeing it makes the number of frames left what
-- it was before the copy. If clone_pd returns an error, that number is what it was before, or the
-- error is ERROR_MALLOC_LIB and the reservation for the copy is lost.
pub clone_pd-ForkEnds : (s : Space) (r : CloneResult × Space) → clone_pd s ≡ some r → ForkEnds s r
unfolding clone_pd
clone_pd-ForkEnds s result =
    Ensures-branch (ForkEnds s) (not reserved.0) _ _
      (λ b.
        Ensures-some _ (clone_error error_not_enough, s1)
          (restored (reserve_frames-refused s.pm count (not_true reserved.0 b))))
      (λ b.
        let kept = reserve_frames-granted s.pm count (not_false reserved.0 b) in
        let kept1 : buf.pm.left +ℤ pos count ≡ s.pm.left =
          ap (λ p. p.left +ℤ pos count) (allocate-pm s1) ∙ kept in
        let kept2 : dir.pm.left +ℤ pos count ≡ s.pm.left =
          ap (λ p. p.left +ℤ pos count) (allocate-pm buf) ∙ kept1 in
        Ensures-if (ForkEnds s) (not (allocate s1).0) _ _
          (Ensures-some _ (clone_error error_malloc_lib, buf) (lost kept1))
          (Ensures-if (ForkEnds s) (not (allocate buf).0) _ _
            (Ensures-some _ (clone_error error_malloc_lib, dir) (lost kept2))
            (finish_clone-ForkEnds s dir (clone_tables num_entries dir)
              (allocate-pde buf ∙ allocate-pde s1) kept2
              (clone_tables-TablesDone num_entries dir))))
      result
  where
    count : ℕ
    count = count_pages_user_space s.pde

    reserved : Bool × Pm
    reserved = reserve_frames s.pm count

    s1 : Space
    s1 = record s { pm = reserved.1 }

    buf : Space
    buf = (allocate s1).1

    dir : Space
    dir = (allocate buf).1

    not_true : (b : Bool) → not b ≡ true → b ≡ false
    not_true false h = refl
    not_true true h = absurd (bool_clash h)

    not_false : (b : Bool) → not b ≡ false → b ≡ true
    not_false true h = refl
    not_false false h = absurd (bool_clash (sym h))
