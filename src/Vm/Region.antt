-- ===== src/Vm/Region.antt =====
-- What an address space maps, and what the first loop of `new_region` does to it.
use os_p.Base.{
  ℕ, zero, suc, ◌+◌, ◌-◌, ◌/◌, ◌%◌, ◌^◌, ◌≤◌, ◌<◌, ◌≡◌, ◌≢◌, inl, inr, refl, sym, ap, ◌∙◌, true,
  false, Option, none, some, ==_iff, ==_false, if◌then◌else◌, arith, eq_cases, subst,
}
use os_p.Base.Bits.{get_bit, set_bit, get_bit-set_ne}
use os_p.Vm.{Pte, Pt, Space, set_pde, get_pd_index, get_pt_index, clear_pd_entry, mark}

abbrev pub present_entry : Pte → Option Pte
present_entry e = elim (e.present) [ true ↦ some e | false ↦ none ]

abbrev pub in_table : Option Pt → ℕ → Option Pte
in_table none j = none
in_table (some pt) j = present_entry (pt j)

-- The entry of a page that is present.
abbrev pub mapped : Space → ℕ → Option Pte
mapped s page = in_table (s.pde (get_pd_index page)) (get_pt_index page)

abbrev pub IsPage : ℕ → Type 0
IsPage p = (p % 4096 ≡ 0) × (p < 2 ^ 32)

-- The space maps each page as `v` says.
abbrev pub Agrees : (ℕ → Option Pte) → Space → Type 0
Agrees v s = (p : ℕ) → IsPage p → mapped s p ≡ v p

-- The second space differs from the first in page tables without a present page at most.
pub record Unchanged (v : ℕ → Option Pte) (s t : Space) : Type 0 where
  pub agrees : Agrees v t
  pub pm : t.pm ≡ s.pm
  pub all_zero_frame : t.all_zero_frame ≡ s.all_zero_frame

pub Unchanged-trans :
    (v : ℕ → Option Pte) (s t u : Space) → Unchanged v s t → Unchanged v t u → Unchanged v s u
Unchanged-trans v s t u a b = record {
  agrees = b.agrees;
  pm = b.pm ∙ a.pm;
  all_zero_frame = b.all_zero_frame ∙ a.all_zero_frame;
}

pub mapped-set_pde_eq :
    (s : Space) (i : ℕ) (o : Option Pt) (p : ℕ)
    → get_pd_index p ≡ i
    → mapped (set_pde s i o) p ≡ in_table o (get_pt_index p)
mapped-set_pde_eq s i o p h =
    ap (λ b. in_table (if b then o else s.pde (get_pd_index p)) (get_pt_index p))
      ((==_iff (get_pd_index p) i).1 h)

pub mapped-set_pde_ne :
    (s : Space) (i : ℕ) (o : Option Pt) (p : ℕ)
    → get_pd_index p ≢ i
    → mapped (set_pde s i o) p ≡ mapped s p
mapped-set_pde_ne s i o p h =
    ap (λ b. in_table (if b then o else s.pde (get_pd_index p)) (get_pt_index p))
      (==_false (get_pd_index p) i h)

-- A table without a present page may be exchanged for another such.
pub set_pde-Agrees :
    (v : ℕ → Option Pte) (s : Space) (i : ℕ) (o : Option Pt)
    → Agrees v s
    → ((p : ℕ) → IsPage p → get_pd_index p ≡ i → v p ≡ in_table o (get_pt_index p))
    → Agrees v (set_pde s i o)
set_pde-Agrees v s i o a h p k = elim (eq_cases (get_pd_index p) i) [
  | inl e ↦ mapped-set_pde_eq s i o p e ∙ sym (h p k e)
  | inr n ↦ mapped-set_pde_ne s i o p n ∙ a p k
]

-- The tables that the bitmap names have no present page.
abbrev pub Spares : (ℕ → Option Pte) → ℕ → (ℕ → ℕ) → Type 0
Spares v start bitmap =
    (i : ℕ)
    → get_bit (bitmap i) 0 ≡ 1
    → (p : ℕ) → IsPage p
    → get_pd_index p ≡ i + start
    → v p ≡ none

pub clear_pd_entry-Unchanged :
    (v : ℕ → Option Pte) (bitmap : ℕ → ℕ) (size start : ℕ) (s : Space)
    → Spares v start bitmap
    → Agrees v s
    → Unchanged v s (clear_pd_entry bitmap size start s)
unfolding clear_pd_entry
clear_pd_entry-Unchanged v bitmap zero start s h a = record {
  agrees = a;
  pm = refl;
  all_zero_frame = refl;
}
clear_pd_entry-Unchanged v bitmap (suc i) start s h a =
    let before = clear_pd_entry bitmap i start s in
    let r = clear_pd_entry-Unchanged v bitmap i start s h a in
    elim (eq_cases (get_bit (bitmap i) 0) 1) [
      | inl e ↦
          let t = set_pde before (i + start) none in
          let u : Unchanged v s t = record {
            agrees = set_pde-Agrees v before (i + start) none r.agrees (h i e);
            pm = r.pm;
            all_zero_frame = r.all_zero_frame;
          } in
          subst (λ b. Unchanged v s (if b then t else before))
            (sym ((==_iff (get_bit (bitmap i) 0) 1).1 e)) u
      | inr n ↦
          subst (λ b. Unchanged v s (if b then set_pde before (i + start) none else before))
            (sym (==_false (get_bit (bitmap i) 0) 1 n)) r
    ]

-- No page from the first number up to the second is present.
abbrev pub Vacant : (ℕ → Option Pte) → ℕ → ℕ → Type 0
Vacant v low high = (p : ℕ) → IsPage p → low ≤ p → p < high → v p ≡ none

-- A new table spares the pages: its own were absent, and so were those of the table before it that
-- the error path would clear in its stead.
pub mark-Spares :
    (v : ℕ → Option Pte) (low page : ℕ) (bitmap : ℕ → ℕ)
    → Spares v (get_pd_index low) bitmap
    → Vacant v low page
    → low ≤ page
    → ((p : ℕ) → IsPage p → get_pd_index p ≡ get_pd_index page → v p ≡ none)
    → Spares v (get_pd_index low) (mark bitmap (get_pd_index page - get_pd_index low))
mark-Spares v low page bitmap h vacant le own i b p k e =
    let r = get_pd_index page - get_pd_index low in
    elim (eq_cases i (r / 8)) [
      | inr n ↦
          h i
            (ap (λ c. get_bit (if c then set_bit (bitmap i) (r % 8) else bitmap i) 0)
                (sym (==_false i (r / 8) n))
              ∙ b)
            p k e
      | inl eq ↦
          let here =
            ap (λ c. get_bit (if c then set_bit (bitmap i) (r % 8) else bitmap i) 0)
              (sym ((==_iff i (r / 8)).1 eq)) in
          elim (eq_cases (r % 8) 0) [
            | inr n ↦ h i (sym (get_bit-set_ne (bitmap i) (r % 8) 0 n) ∙ here ∙ b) p k e
            | inl z ↦ elim (eq_cases i 0) [
              | inl first ↦ own p k (omega arith)
              | inr later ↦ vacant p k (omega arith) (omega arith)
            ]
          ]
    ]
