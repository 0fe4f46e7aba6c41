-- ===== src/Vm/ForkTables.antt =====
-- The copy of all tables, and the reservations over fork() and exit.
use os_p.Base.{
  ℕ, zero, suc, ◌+◌, ◌≤◌, ◌<◌, ◌≡◌, inl, inr, refl, sym, ap, ◌∙◌, Bool, true, false, List, [], ◌∷◌,
  Option, none, some, ltb, if◌then◌else◌, arith, eq_cases, ==_iff, ==_false, bool_clash, subst,
}
use os_p.Base.Ensures.{Ensures, Ensures-some, Ensures-if, Ensures-elim}
use os_p.Vm.{Pt, Pd, Space}
use os_p.Vm.Copy.{
  num_pt_kernel, num_entries, count_entries, count_tables, clone_entries, Cloning, put_table,
  allocate, clone_table, clone_tables,
}
use os_p.Vm.Fork.{Copies, TableDone, clone_entries-Copies}

pub data TableCopy : Option Pt → Option Pt → Type 0 where
  absent : TableCopy none none
  table : {pt pt' : Pt} → Copies pt pt' → TableCopy (some pt) (some pt')

-- One table more, if there was memory for it.
record Extends (i : ℕ) (pt : Pt) (c d : Cloning) : Type 0 where
  left : d.space.pm.left ≡ c.space.pm.left
  extended : d.complete ≡ true → (pt' : Pt) × (Copies pt pt' × (d.pd ≡ put_table c.pd i pt'))

pub allocate-pm : (s : Space) → (allocate s).1.pm ≡ s.pm
unfolding allocate
allocate-pm s = cases s.mallocs
  where
    cases :
        (ms : List Bool)
        → (let r : Bool × Space = elim ms [
          | [] ↦ (false, s)
          | ok ∷ rest ↦ (ok, record s { mallocs = rest })
        ] in
            r.1.pm)
          ≡ s.pm
    cases [] = refl
    cases (ok ∷ rest) = refl

clone_table-Extends :
    (i : ℕ) (pt : Pt) (c : Cloning) → Ensures (Extends i pt c) (clone_table i pt c)
unfolding clone_table
clone_table-Extends i pt c =
    Ensures-if (Extends i pt c) (ltb i num_pt_kernel) _ _
      (Ensures-some _ (record c { pd = put_table c.pd i pt })
        (record {
          left = refl;
          extended = λ h. (pt, (record { present = λ j. refl; zfod = λ j z. z }, refl));
        }))
      (user (allocate c.space).0)
  where
    m : Space
    m = (allocate c.space).1

    user :
        (b : Bool)
        → Ensures (Extends i pt c) (elim b [
          | false ↦ some (record c { complete = false; space = m })
          | true ↦ elim (clone_entries num_entries pt m.pm) [
            | none ↦ none
            | some r ↦ some (record {
              complete = true;
              pd = put_table c.pd i (r.0);
              space = record m { pm = r.1 };
            })
          ]
        ])
    user false =
        Ensures-some _ (record c { complete = false; space = m })
          (record {
            left = ap (λ p. p.left) (allocate-pm c.space);
            extended = λ h. absurd (bool_clash h);
          })
    user true =
        Ensures-elim (TableDone pt m.pm) (Extends i pt c) (clone_entries num_entries pt m.pm) _
          (clone_entries-Copies num_entries pt m.pm)
          (λ r h.
            Ensures-some _
              (record { complete = true; pd = put_table c.pd i r.0; space = record m { pm = r.1 } })
              (record {
                left = h.1 ∙ ap (λ p. p.left) (allocate-pm c.space);
                extended = λ k. (r.0, (h.0, refl));
              }))

-- The first `n` tables copied, if there was memory for them.
pub record TablesDone (s : Space) (n : ℕ) (c : Cloning) : Type 0 where
  pub left : c.space.pm.left ≡ s.pm.left
  pub below : c.complete ≡ true → (i : ℕ) → i < n → TableCopy (s.pde i) (c.pd i)
  pub above : c.complete ≡ true → (i : ℕ) → n ≤ i → c.pd i ≡ none

TablesDone-suc :
    (s : Space) (n : ℕ) (c : Cloning)
    → TablesDone s n c
    → (c.complete ≡ true → TableCopy (s.pde n) (c.pd n))
    → TablesDone s (suc n) c
TablesDone-suc s n c d h = record {
  left = d.left;
  below = λ k i l. elim (eq_cases i n) [
    | inl at ↦ subst (λ x. TableCopy (s.pde x) (c.pd x)) (sym at) (h k)
    | inr far ↦ d.below k i (omega arith)
  ];
  above = λ k i l. d.above k i (omega arith);
}

TablesDone-extend :
    (s : Space) (n : ℕ) (pt : Pt) (c d : Cloning)
    → s.pde n ≡ some pt
    → c.complete ≡ true
    → TablesDone s n c
    → Extends n pt c d
    → TablesDone s (suc n) d
TablesDone-extend s n pt c d there full t e = record {
  left = e.left ∙ t.left;
  below = λ k i l.
      let (pt', (copies, eq)) = e.extended k in
      subst (λ pd. TableCopy (s.pde i) (pd i)) (sym eq)
        (elim (eq_cases i n) [
          | inl at ↦
              subst (λ o. TableCopy o (put_table c.pd n pt' i)) (sym (ap (λ x. s.pde x) at ∙ there))
                (subst (λ b. TableCopy (some pt) (if b then some pt' else c.pd i))
                  (sym ((==_iff i n).1 at)) (table copies))
          | inr far ↦
              subst (λ b. TableCopy (s.pde i) (if b then some pt' else c.pd i))
                (sym (==_false i n far)) (t.below full i (omega arith))
        ]);
  above = λ k i l.
      let (pt', (copies, eq)) = e.extended k in
      ap (λ pd. pd i) eq
      ∙ ap (λ b. if b then some pt' else c.pd i) (==_false i n (omega arith))
      ∙ t.above full i (omega arith);
}

pub clone_tables-TablesDone : (n : ℕ) (s : Space) → Ensures (TablesDone s n) (clone_tables n s)
unfolding clone_tables
clone_tables-TablesDone zero s =
    Ensures-some _ (record { complete = true; pd = λ i. none; space = s })
      (record { left = refl; below = λ k i l. absurd (omega arith); above = λ k i l. refl })
clone_tables-TablesDone (suc n) s =
    Ensures-elim (TablesDone s n) (TablesDone s (suc n)) (clone_tables n s) _
      (clone_tables-TablesDone n s) (λ c d. next c d c.complete refl)
  where
    tabled :
        (c : Cloning)
        → TablesDone s n c
        → c.complete ≡ true
        → (o : Option Pt) → s.pde n ≡ o
        → Ensures (TablesDone s (suc n)) (elim o [ none ↦ some c | some pt ↦ clone_table n pt c ])
    tabled c d full none gone e h =
        Ensures-some (TablesDone s (suc n)) c
          (TablesDone-suc s n c d (λ k.
            subst (λ o. TableCopy o (c.pd n)) (sym gone)
              (subst (TableCopy none) (sym (d.above full n (omega arith))) absent)))
          e h
    tabled c d full (some pt) there e h =
        TablesDone-extend s n pt c e there full d (clone_table-Extends n pt c e h)

    next :
        (c : Cloning)
        → TablesDone s n c
        → (b : Bool) → c.complete ≡ b
        → Ensures (TablesDone s (suc n)) (elim b [
          | false ↦ some c
          | true ↦ elim (s.pde n) [ none ↦ some c | some pt ↦ clone_table n pt c ]
        ])
    next c d false stopped =
        Ensures-some _ c (TablesDone-suc s n c d (λ k. absurd (bool_clash (sym stopped ∙ k))))
    next c d true full = tabled c d full (s.pde n) refl

count_entries-Copies :
    (n : ℕ) (pt pt' : Pt) → Copies pt pt' → count_entries n pt' ≡ count_entries n pt
unfolding count_entries
count_entries-Copies zero pt pt' c = refl
count_entries-Copies (suc n) pt pt' c =
    ap (λ x. x + (if (pt' n).present then 1 else 0)) (count_entries-Copies n pt pt' c)
    ∙ ap (λ b. count_entries n pt + (if b then 1 else 0)) (c.present n)

pub count_tables-TableCopy :
    (n : ℕ) (old new : Pd)
    → ((i : ℕ) → i < n + num_pt_kernel → TableCopy (old i) (new i))
    → count_tables n new ≡ count_tables n old
unfolding count_tables
count_tables-TableCopy zero old new h = refl
count_tables-TableCopy (suc n) old new h =
    ap (λ x. x + counted (new (n + num_pt_kernel)))
      (count_tables-TableCopy n old new (λ i l. h i (omega arith)))
    ∙ ap (λ x. count_tables n old + x) (same (h (n + num_pt_kernel) (omega arith)))
  where
    counted : Option Pt → ℕ
    counted o = elim o [ none ↦ 0 | some pt ↦ count_entries num_entries pt ]

    same : {o o' : Option Pt} → TableCopy o o' → counted o' ≡ counted o
    same absent = refl
    same (table {pt} {pt'} c) = count_entries-Copies num_entries pt pt' c
