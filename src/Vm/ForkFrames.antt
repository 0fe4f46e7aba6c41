-- ===== src/Vm/ForkFrames.antt =====
-- kern/vm.c: the frames that the copy of an address space for fork() takes.
use os_p.Base.{
  ℕ, zero, suc, ◌+◌, ◌-◌, ◌≤◌, ◌≡◌, refl, sym, ap, ◌∙◌, subst, Bool, true, false, Option, none,
  some, ltb, if◌then◌else◌, arith, bool_clash,
}
use os_p.Base.Ensures.{Ensures, Ensures-some, Ensures-elim}
use os_p.Pm.{Pm, get_frames_raw}
use os_p.Pm.Frames.{IsPlaced}
use os_p.Pm.Usable.{usable, Takes, get_frames_raw-Takes, Takes-refl, Takes-trans}
use os_p.Vm.{Pt, Pd, Space, or_frame, put_entry}
use os_p.Vm.Copy.{
  num_pt_kernel, num_entries, count_entries, count_tables, clone_entries, Cloning, put_table,
  allocate, clone_table, clone_tables,
}
use os_p.Vm.ForkTables.{allocate-pm}

-- Each present page takes a frame.
pub clone_entries-Takes :
    (n : ℕ) (pt : Pt) (p : Pm)
    → IsPlaced p
    → count_entries n pt ≤ usable p
    → Ensures (λ r. Takes (count_entries n pt) p r.1) (clone_entries n pt p)
unfolding clone_entries count_entries
clone_entries-Takes zero pt p v h = Ensures-some (λ r. Takes 0 p r.1) (pt, p) (Takes-refl p v)
clone_entries-Takes (suc n) pt p v h =
    Ensures-elim (λ r. Takes (count_entries n pt) p r.1)
      (λ r. Takes (count_entries n pt + (if (pt n).present then 1 else 0)) p r.1)
      (clone_entries n pt p) _ (clone_entries-Takes n pt p v (omega arith))
      (λ r t. entry r t (pt n).present h)
  where
    entry :
        (r : Pt × Pm)
        → Takes (count_entries n pt) p r.1
        → (b : Bool) → count_entries n pt + (if b then 1 else 0) ≤ usable p
        → Ensures
            (λ r. Takes (count_entries n pt + (if b then 1 else 0)) p r.1)
            (elim b [
              | false ↦ some r
              | true ↦ elim (get_frames_raw 2 (r.1)) [
                | none ↦ none
                | some g ↦
                    some (put_entry (r.0) n (or_frame (g.0) (record (pt n) { frame = 0 })), g.1)
              ]
            ])
    entry r t false h =
        Ensures-some (λ r. Takes (count_entries n pt + 0) p r.1) r
          (Takes-trans t (Takes-refl r.1 t.placed))
    entry r t true h =
        Ensures-elim (λ g. Takes 1 r.1 g.1) (λ r. Takes (count_entries n pt + 1) p r.1)
          (get_frames_raw 2 r.1) _ (get_frames_raw-Takes r.1 t.placed (omega (arith, t.total, h)))
          (λ g k.
            Ensures-some (λ r. Takes (count_entries n pt + 1) p r.1)
              (put_entry r.0 n (or_frame g.0 (record (pt n) { frame = 0 })), g.1) (Takes-trans t k))

-- The pages of the table at an index of the directory that are copied.
abbrev table_pages : ℕ → Option Pt → ℕ
table_pages i o =
    if ltb i num_pt_kernel
    then 0
    else (elim o [ none ↦ 0 | some pt ↦ count_entries num_entries pt ])

count_tables-suc :
    (i : ℕ) (pd : Pd)
    → count_tables (suc i - num_pt_kernel) pd
      ≡ count_tables (i - num_pt_kernel) pd + table_pages i (pd i)
unfolding count_tables
count_tables-suc zero pd = refl
count_tables-suc (suc zero) pd = refl
count_tables-suc (suc (suc zero)) pd = refl
count_tables-suc (suc (suc (suc zero))) pd = refl
count_tables-suc (suc (suc (suc (suc k)))) pd =
    let i = suc (suc (suc (suc k))) in
    let user : suc i - num_pt_kernel ≡ suc k = omega arith in
    let before : i - num_pt_kernel ≡ k = omega arith in
    let at : k + num_pt_kernel ≡ i = omega arith in
    let not_kernel : ltb i num_pt_kernel ≡ false = ground arith in
    ap (λ n. count_tables n pd) user
    ∙ ap (λ j. count_tables k pd + counted (pd j)) at
    ∙ ap (λ n. count_tables n pd + counted (pd i)) (sym before)
    ∙ ap (λ b. count_tables (i - num_pt_kernel) pd + (if b then 0 else counted (pd i)))
        (sym not_kernel)
  where
    counted : Option Pt → ℕ
    counted o = elim o [ none ↦ 0 | some pt ↦ count_entries num_entries pt ]

count_tables-zero : (pd : Pd) → count_tables (0 - num_pt_kernel) pd ≡ 0
unfolding count_tables
count_tables-zero pd = refl

abbrev pub IfComplete : ℕ → Pm → Cloning → Type 0
IfComplete n p c = c.complete ≡ true → Takes n p c.space.pm

clone_table-Takes :
    (i : ℕ) (pt : Pt) (c : Cloning)
    → IsPlaced c.space.pm
    → c.complete ≡ true
    → table_pages i (some pt) ≤ usable c.space.pm
    → Ensures (IfComplete (table_pages i (some pt)) c.space.pm) (clone_table i pt c)
unfolding clone_table
clone_table-Takes i pt c v full h = by_place (ltb i num_pt_kernel) h
  where
    m : Space
    m = (allocate c.space).1

    pages : ℕ
    pages = count_entries num_entries pt

    table : Bool → Option Cloning
    table b = elim b [
      | false ↦ some (record c { complete = false; space = m })
      | true ↦ elim (clone_entries num_entries pt m.pm) [
        | none ↦ none
        | some r ↦
            some (record {
              complete = true;
              pd = put_table c.pd i (r.0);
              space = record m { pm = r.1 };
            })
      ]
    ]

    user : pages ≤ usable c.space.pm → (b : Bool) → Ensures (IfComplete pages c.space.pm) (table b)
    user h false =
        Ensures-some (IfComplete pages c.space.pm) (record c { complete = false; space = m })
          (λ k. absurd (bool_clash k))
    user h true =
        Ensures-elim (λ r. Takes pages c.space.pm r.1) (IfComplete pages c.space.pm)
          (clone_entries num_entries pt m.pm) _
          (subst (λ q. Ensures (λ r. Takes pages c.space.pm r.1) (clone_entries num_entries pt q))
            (sym (allocate-pm c.space)) (clone_entries-Takes num_entries pt c.space.pm v h))
          (λ r t.
            Ensures-some (IfComplete pages c.space.pm)
              (record { complete = true; pd = put_table c.pd i r.0; space = record m { pm = r.1 } })
              (λ k. t))

    by_place :
        (b : Bool)
        → (if b then 0 else pages) ≤ usable c.space.pm
        → Ensures
            (IfComplete (if b then 0 else pages) c.space.pm)
            (if b then some (record c { pd = put_table c.pd i pt }) else table (allocate c.space).0)
    by_place true h =
        Ensures-some (IfComplete 0 c.space.pm) (record c { pd = put_table c.pd i pt })
          (λ k. Takes-refl c.space.pm v)
    by_place false h = user h (allocate c.space).0

-- The copy of the first `n` tables takes a frame for each present page of user space in them.
pub clone_tables-Takes :
    (n : ℕ) (s : Space)
    → IsPlaced s.pm
    → count_tables (n - num_pt_kernel) s.pde ≤ usable s.pm
    → Ensures (IfComplete (count_tables (n - num_pt_kernel) s.pde) s.pm) (clone_tables n s)
unfolding clone_tables
clone_tables-Takes zero s v h =
    Ensures-some (IfComplete _ s.pm) (record { complete = true; pd = λ i. none; space = s })
      (λ k. subst (λ x. Takes x s.pm s.pm) (sym (count_tables-zero s.pde)) (Takes-refl s.pm v))
clone_tables-Takes (suc n) s v h =
    Ensures-elim (IfComplete (count_tables (n - num_pt_kernel) s.pde) s.pm)
      (IfComplete (count_tables (suc n - num_pt_kernel) s.pde) s.pm) (clone_tables n s) _
      (clone_tables-Takes n s v (omega (arith, count_tables-suc n s.pde, h)))
      (λ c t. next c t c.complete refl)
  where
    goal : Cloning → Type 0
    goal = IfComplete (count_tables (suc n - num_pt_kernel) s.pde) s.pm

    joined :
        (c d : Cloning) (o : Option Pt)
        → s.pde n ≡ o
        → Takes (count_tables (n - num_pt_kernel) s.pde) s.pm c.space.pm
        → Takes (table_pages n o) c.space.pm d.space.pm
        → goal d
    joined c d o e t k full =
        subst (λ x. Takes x s.pm d.space.pm)
          (sym (
            count_tables-suc n s.pde
            ∙ ap (λ x. count_tables (n - num_pt_kernel) s.pde + table_pages n x) e))
          (Takes-trans t k)

    no_pages : (b : Bool) → ◌≡◌ {A = ℕ} (if b then 0 else 0) 0
    no_pages true = refl
    no_pages false = refl

    tabled :
        (c : Cloning)
        → Takes (count_tables (n - num_pt_kernel) s.pde) s.pm c.space.pm
        → c.complete ≡ true
        → (o : Option Pt) → s.pde n ≡ o
        → Ensures goal (elim o [ none ↦ some c | some pt ↦ clone_table n pt c ])
    tabled c t full none gone = Ensures-some goal c (
        joined c c none gone t (
          subst (λ x. Takes x c.space.pm c.space.pm) (sym (no_pages (ltb n num_pt_kernel)))
            (Takes-refl c.space.pm t.placed)))
    tabled c t full (some pt) there =
        let enough : table_pages n (some pt) ≤ usable c.space.pm = omega (
          arith,
          t.total,
          h,
          count_tables-suc n s.pde
              ∙ ap (λ x. count_tables (n - num_pt_kernel) s.pde + table_pages n x) there,
        ) in
        λ d e full'.
          joined c d (some pt) there t (clone_table-Takes n pt c t.placed full enough d e full')
            full'

    next :
        (c : Cloning)
        → IfComplete (count_tables (n - num_pt_kernel) s.pde) s.pm c
        → (b : Bool) → c.complete ≡ b
        → Ensures goal (elim b [
          | false ↦ some c
          | true ↦ elim (s.pde n) [ none ↦ some c | some pt ↦ clone_table n pt c ]
        ])
    next c t false stopped = Ensures-some goal c (λ full. absurd (bool_clash (sym stopped ∙ full)))
    next c t true full = tabled c (t full) full (s.pde n) refl
