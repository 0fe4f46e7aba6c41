-- ===== src/Vm/Loops.antt =====
-- The loop of new_pages that enters the pages of a region, and that of remove_pages that clears them.
use os_p.Base.{
  ℕ, zero, suc, ◌+◌, ◌*◌, ◌%◌, ◌^◌, ◌≤◌, ◌<◌, ◌≡◌, ◌≢◌, inl, inr, refl, sym, ap, ◌∙◌, true, false,
  Option, none, some, arith, eq_cases, Bool-cases, subst,
}
use os_p.Vm.{Pte, Pt, Space, put_entry, get_pd_index, get_pt_index, next_page, new_frame, map_loop}
use os_p.Vm.Region.{present_entry, in_table, mapped, IsPage, Vacant}
use os_p.Vm.Count.{HasTable-set_pde, Covered, present_entry-eq}
use os_p.Vm.Enter.{
  put_page, mapped-put_page, mapped-put_page_ne, region_entry, region_entry-present,
}

-- The second space is the first with the pages from `q` up to `h` as `now` says.
pub record Rewrites (now : ℕ → Option Pte) (q h : ℕ) (s t : Space) : Type 0 where
  pub inside : (p : ℕ) → IsPage p → q ≤ p → p < h → mapped t p ≡ now p
  pub before : (p : ℕ) → IsPage p → p < q → mapped t p ≡ mapped s p
  pub after : (p : ℕ) → IsPage p → h ≤ p → mapped t p ≡ mapped s p

pub Rewrites-refl : (now : ℕ → Option Pte) (q h : ℕ) (s : Space) → h ≤ q → Rewrites now q h s s
Rewrites-refl now q h s le = record {
  inside = λ p k a b. absurd (omega arith);
  before = λ p k a. refl;
  after = λ p k a. refl;
}

-- A page written, then the pages behind it.
pub Rewrites-cons :
    (now : ℕ → Option Pte) (q h : ℕ) (s : Space) (pt : Pt) (e : Pte) (u t : Space)
    → IsPage q
    → q < h
    → s.pde (get_pd_index q) ≡ some pt
    → present_entry e ≡ now q
    → ((p : ℕ) → mapped u p ≡ mapped (put_page s q pt e) p)
    → Rewrites now (q + 4096) h u t
    → Rewrites now q h s t
Rewrites-cons now q h s pt e u t k l there first same r = record {
  inside = λ p i a b. elim (eq_cases p q) [
    | inl at ↦
        subst (λ x. mapped t x ≡ now x) (sym at)
          (r.before q k (omega arith) ∙ same q ∙ mapped-put_page s q pt e ∙ first)
    | inr n ↦ r.inside p i (omega (arith, i.0, k.0, n)) b
  ];
  before = λ p i a.
      r.before p i (omega arith) ∙ same p ∙ mapped-put_page_ne s q pt e p there k i (omega arith);
  after = λ p i a. r.after p i a ∙ same p ∙ mapped-put_page_ne s q pt e p there k i (omega arith);
}

map_loop-step :
    (low high n q : ℕ) (s : Space) (pt : Pt)
    → s.pde (get_pd_index q) ≡ some pt
    → (pt (get_pt_index q)).present ≡ false
    → map_loop true true true low high (suc n) q s
      ≡ map_loop true true true low high n
          (next_page q)
          (put_page s q pt (region_entry s.all_zero_frame low high q))
unfolding map_loop new_frame
map_loop-step low high n q s pt there free = rw (map_loop, there, free) refl

pub absent-free :
    (s : Space) (q : ℕ) (pt : Pt)
    → s.pde (get_pd_index q) ≡ some pt
    → mapped s q ≡ none
    → (pt (get_pt_index q)).present ≡ false
absent-free s q pt there h =
    none-free (pt (get_pt_index q)) (sym (ap (λ o. in_table o (get_pt_index q)) there) ∙ h)
  where
    some-ne : (e : Pte) → some e ≢ none
    some-ne e h = cc

    none-free : (e : Pte) → present_entry e ≡ none → e.present ≡ false
    none-free e h = elim (Bool-cases e.present) [
      | inl on ↦ absurd (some-ne e (sym (rw on refl) ∙ h))
      | inr off ↦ off
    ]

-- The pages from `q` up to `h` as new_pages enters them, without an allocation.
pub record Entered (low high q h : ℕ) (s t : Space) : Type 0 where
  pub pages : Rewrites (λ p. some (region_entry s.all_zero_frame low high p)) q h s t
  pub pm : t.pm ≡ s.pm
  pub all_zero_frame : t.all_zero_frame ≡ s.all_zero_frame

-- The entering loop at the page `q`, on `n` absent pages that have page tables.
pub map_loop-Entered :
    (low high n q h page : ℕ) (s : Space)
    → page ≡ q % 2 ^ 32
    → h ≡ q + n * 4096
    → q % 4096 ≡ 0
    → h ≤ 2 ^ 32
    → Vacant (mapped s) q h
    → Covered s q h
    → (t : Space) × ((map_loop true true true low high n page s ≡ some t)
        × Entered low high q h s t)
unfolding map_loop
map_loop-Entered low high zero q h page s e eh m max va co = (
  s,
  (refl, record { pages = Rewrites-refl _ q h s (omega arith); pm = refl; all_zero_frame = refl }),
)
map_loop-Entered low high (suc n) q h page s e eh m max va co =
    let k : IsPage q = (m, omega arith) in
    let (pt, there) = co q k (omega arith) (omega arith) in
    let new = region_entry s.all_zero_frame low high q in
    let u = put_page s q pt new in
    let (t, (run, r)) =
      map_loop-Entered low high n (q + 4096) h (next_page q) u (omega arith) (omega arith)
        (omega arith) max
        (λ p i a b.
          mapped-put_page_ne s q pt new p there k i (omega arith) ∙ va p i (omega arith) b)
        (λ p i a b.
          HasTable-set_pde s (get_pd_index q) (put_entry pt (get_pt_index q) new) p
            (co p i (omega arith) b)) in
    let free = absent-free s q pt there (va q k (omega arith) (omega arith)) in
    let shown : present_entry new ≡ some new =
      present_entry-eq new (region_entry-present s.all_zero_frame low high q) in
    let here : page ≡ q = omega arith in
    (
      t,
      (
        ap (λ x. map_loop true true true low high (suc n) x s) here
            ∙ map_loop-step low high n q s pt there free
            ∙ run,
        record {
          pages = Rewrites-cons _ q h s pt new u t k (omega arith) there shown (λ p. refl) r.pages;
          pm = r.pm;
          all_zero_frame = r.all_zero_frame;
        },
      ),
    )
