-- ===== src/Vm/Count.antt =====
-- The three ends of `count_pages_allocated` for new_pages.
use os_p.Base.{
  ℕ, zero, suc, ◌+◌, ◌*◌, ◌%◌, ◌^◌, ◌≤◌, ◌<◌, ◌≡◌, ◌≢◌, ◌⊎◌, inl, inr, refl, sym, ap, ◌∙◌, Bool,
  true, false, List, [], ◌∷◌, Option, none, some, if◌then◌else◌, arith, eq_cases, ==_iff, ==_false,
  ==_refl, Bool-cases, Option-cases, subst,
}
use os_p.Base.Int.{ℤ, pos}
use os_p.Vm.{
  Pte, Pt, Space, clear_pte, set_pde, get_pd_index, get_pt_index, next_page, new_pt, count_loop,
  error_malloc_lib,
}
use os_p.Vm.Region.{
  present_entry, in_table, IsPage, Agrees, Unchanged, Unchanged-trans, set_pde-Agrees, Spares,
  clear_pd_entry-Unchanged, Vacant, mark-Spares,
}

abbrev pub HasTable : Space → ℕ → Type 0
HasTable s p = (pt : Pt) × (s.pde (get_pd_index p) ≡ some pt)

-- Each page from the first number up to the second has a page table.
abbrev pub Covered : Space → ℕ → ℕ → Type 0
Covered s low high = (p : ℕ) → IsPage p → low ≤ p → p < high → HasTable s p

pub data Counted (v : ℕ → Option Pte) (s : Space) (low high : ℕ) : ℤ × Space → Type 0 where
  no_memory : {t : Space} → Unchanged v s t → Counted v s low high (error_malloc_lib, t)
  overlap :
      {t : Space} (p : ℕ)
      → Unchanged v s t
      → IsPage p
      → low ≤ p
      → p < high
      → v p ≢ none
      → Counted v s low high (pos 1, t)
  vacant :
      {t : Space}
      → Unchanged v s t
      → Vacant v low high
      → Covered t low high
      → Counted v s low high (pos 0, t)

Counted-after :
    {v : ℕ → Option Pte} (s u : Space) {low high : ℕ} {r : ℤ × Space}
    → Unchanged v s u
    → Counted v u low high r
    → Counted v s low high r
Counted-after s u h (no_memory k) = no_memory (Unchanged-trans _ _ _ _ h k)
Counted-after s u h (overlap p k a b c n) = overlap p (Unchanged-trans _ _ _ _ h k) a b c n
Counted-after s u h (vacant k a b) = vacant (Unchanged-trans _ _ _ _ h k) a b

Vacant-next :
    {v : ℕ → Option Pte} {low q : ℕ}
    → q % 4096 ≡ 0
    → Vacant v low q
    → v q ≡ none
    → Vacant v low (q + 4096)
Vacant-next {v} {low} {q} m h e p k a b = elim (eq_cases p q) [
  | inl at ↦ subst (λ x. v x ≡ none) (sym at) e
  | inr n ↦ h p k a (omega (arith, k.0, m))
]

Covered-next :
    (s : Space) {low q : ℕ}
    → q % 4096 ≡ 0
    → Covered s low q
    → HasTable s q
    → Covered s low (q + 4096)
Covered-next s {low} {q} m h e p k a b = elim (eq_cases p q) [
  | inl at ↦ subst (HasTable s) (sym at) e
  | inr n ↦ h p k a (omega (arith, k.0, m))
]

pub HasTable-set_pde :
    (s : Space) (i : ℕ) (pt : Pt) (p : ℕ) → HasTable s p → HasTable (set_pde s i (some pt)) p
HasTable-set_pde s i pt p (old, e) = elim (eq_cases (get_pd_index p) i) [
  | inl at ↦ (
    pt,
    ap (λ b. if b then some pt else s.pde (get_pd_index p)) ((==_iff (get_pd_index p) i).1 at),
  )
  | inr n ↦ (
    old,
    ap (λ b. if b then some pt else s.pde (get_pd_index p)) (==_false (get_pd_index p) i n) ∙ e,
  )
]

HasTable-new : (s : Space) (pt : Pt) (p : ℕ) → HasTable (set_pde s (get_pd_index p) (some pt)) p
HasTable-new s pt p =
    (pt, ap (λ b. if b then some pt else s.pde (get_pd_index p)) (==_refl (get_pd_index p)))

some-ne : (e : Pte) → some e ≢ none
some-ne e h = cc

pub present_entry-eq : (e : Pte) → e.present ≡ true → present_entry e ≡ some e
present_entry-eq e h = rw h refl

-- The counting loop at the page `q`, all pages from `low` up to it being absent.
pub count_loop-Counted :
    (v : ℕ → Option Pte) (low size n q page : ℕ) (bitmap : ℕ → ℕ) (s : Space)
    → page ≡ q % 2 ^ 32
    → q % 4096 ≡ 0
    → low ≤ q
    → q + n * 4096 ≤ 2 ^ 32
    → Agrees v s
    → Spares v (get_pd_index low) bitmap
    → Vacant v low q
    → Covered s low q
    → Counted v s low (q + n * 4096) (count_loop true (get_pd_index low) size n page 0 bitmap s)
unfolding count_loop
count_loop-Counted v low size zero q page bitmap s e m le max a sp va co =
    subst (λ h. Counted v s low h (pos 0, s)) (omega arith)
      (vacant (record { agrees = a; pm = refl; all_zero_frame = refl }) va co)
count_loop-Counted v low size (suc n) q page bitmap s e m le max a sp va co =
    let here : page ≡ q = omega arith in
    let k : IsPage q = (m, omega arith) in
    let next : next_page q ≡ (q + 4096) % 2 ^ 32 = omega arith in
    let size_next : q + suc n * 4096 ≡ q + 4096 + n * 4096 = omega arith in
    subst
      (λ x.
        Counted v s low (q + suc n * 4096)
          (count_loop true (get_pd_index low) size (suc n) x 0 bitmap s))
      (sym here)
      (subst (λ x. Counted v s low x (count_loop true (get_pd_index low) size (suc n) q 0 bitmap s))
        (sym size_next)
        (elim (Option-cases (s.pde (get_pd_index q))) [
          | inl absent ↦ elim (malloc_cases s.mallocs) [
            | inl (inl empty) ↦
                rw (count_loop, absent, empty)
                  (no_memory (
                    with_mallocs []
                      (clear_pd_entry-Unchanged v bitmap size (get_pd_index low) s sp a)))
            | inl (inr (rest, failed)) ↦
                rw (count_loop, absent, failed)
                  (no_memory (
                    with_mallocs (false ∷ rest)
                      (clear_pd_entry-Unchanged v bitmap size (get_pd_index low) s sp a)))
            | inr (rest, got) ↦
                rw (count_loop, absent, got)
                  (Counted-after (record s { mallocs = true ∷ rest }) (new_pt s q rest)
                    (record {
                      agrees = new_pt-Agrees rest absent;
                      pm = refl;
                      all_zero_frame = refl;
                    })
                    (count_loop-Counted v low size n (q + 4096) (next_page q) _ (new_pt s q rest)
                      next (omega arith) (omega arith) (omega arith) (new_pt-Agrees rest absent)
                      (mark-Spares v low q bitmap sp va le (absent_table absent))
                      (Vacant-next m va (absent_table absent q k refl))
                      (Covered-next (new_pt s q rest) m
                        (λ p i b c.
                          HasTable-set_pde s (get_pd_index q) (λ j. clear_pte) p (co p i b c))
                        (HasTable-new s (λ j. clear_pte) q))))
          ]
          | inr (pt, there) ↦ elim (Bool-cases ((pt (get_pt_index q)).present)) [
            | inl present ↦
                rw (count_loop, there, present)
                  (overlap q (clear_pd_entry-Unchanged v bitmap size (get_pd_index low) s sp a) k le
                    (omega arith) (present_page pt there present))
            | inr free ↦
                rw (count_loop, there, free)
                  (count_loop-Counted v low size n (q + 4096) (next_page q) bitmap s next
                    (omega arith) (omega arith) (omega arith) a sp
                    (Vacant-next m va (free_page pt there free)) (Covered-next s m co (pt, there)))
          ]
        ]))
  where
    with_mallocs :
        (ms : List Bool) {t : Space} → Unchanged v s t → Unchanged v (record s { mallocs = ms }) t
    with_mallocs ms u = record { agrees = u.agrees; pm = u.pm; all_zero_frame = u.all_zero_frame }

    at_table :
        (p : ℕ) (o : Option Pt)
        → IsPage p
        → s.pde (get_pd_index p) ≡ o
        → v p ≡ in_table o (get_pt_index p)
    at_table p o i e = sym (a p i) ∙ ap (λ x. in_table x (get_pt_index p)) e

    k : q < 2 ^ 32 → IsPage q
    k l = (m, l)

    free_page :
        (pt : Pt)
        → s.pde (get_pd_index q) ≡ some pt
        → (pt (get_pt_index q)).present ≡ false
        → v q ≡ none
    free_page pt there free = at_table q (some pt) (k (omega arith)) there ∙ rw free refl

    present_page :
        (pt : Pt)
        → s.pde (get_pd_index q) ≡ some pt
        → (pt (get_pt_index q)).present ≡ true
        → v q ≢ none
    present_page pt there present e = some-ne (pt (get_pt_index q)) (
        sym (present_entry-eq (pt (get_pt_index q)) present)
        ∙ sym (at_table q (some pt) (k (omega arith)) there)
        ∙ e)

    absent_table :
        s.pde (get_pd_index q) ≡ none
        → (p : ℕ) → IsPage p
        → get_pd_index p ≡ get_pd_index q
        → v p ≡ none
    absent_table absent p i e = at_table p none i (ap (λ x. s.pde x) e ∙ absent)

    new_pt-Agrees : (rest : List Bool) → s.pde (get_pd_index q) ≡ none → Agrees v (new_pt s q rest)
    new_pt-Agrees rest absent =
        set_pde-Agrees v s (get_pd_index q) (some (λ j. clear_pte)) a (absent_table absent)

    malloc_cases :
        (ms : List Bool)
        → ((ms ≡ []) ⊎ ((rest : List Bool) × (ms ≡ false ∷ rest)))
          ⊎ ((rest : List Bool) × (ms ≡ true ∷ rest))
    malloc_cases [] = inl (inl refl)
    malloc_cases (false ∷ rest) = inl (inr (rest, refl))
    malloc_cases (true ∷ rest) = inr (rest, refl)
