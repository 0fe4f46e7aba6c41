-- ===== src/Vm/Enter.antt =====
-- The pages that new_pages enters, and what remove_pages makes of them.
use os_p.Base.{
  ℕ, ◌*◌, ◌/◌, ◌%◌, ◌≡◌, ◌≢◌, inl, inr, refl, sym, ap, ◌∙◌, Bool, true, false, ◌||◌, none, some,
  ◌==◌, if◌then◌else◌, arith, eq_cases, ==_false, ==_refl, Bool-cases, Option-cases,
}
use os_p.Base.Bits.{get_bit}
use os_p.Vm.{Pte, Pt, Space, set_pde, put_entry, get_pd_index, get_pt_index, or_frame, region_bits}
use os_p.Vm.Region.{present_entry, in_table, mapped, IsPage, mapped-set_pde_eq, mapped-set_pde_ne}

-- The space with one entry of a page table written.
abbrev pub put_page : Space → ℕ → Pt → Pte → Space
put_page s page pt e = set_pde s (get_pd_index page) (some (put_entry pt (get_pt_index page) e))

pub mapped-put_page :
    (s : Space) (page : ℕ) (pt : Pt) (e : Pte)
    → mapped (put_page s page pt e) page ≡ present_entry e
mapped-put_page s page pt e =
    mapped-set_pde_eq s (get_pd_index page) (some (put_entry pt (get_pt_index page) e)) page refl
    ∙ ap (λ b. present_entry (if b then e else pt (get_pt_index page)))
        (==_refl (get_pt_index page))

pub mapped-put_page_ne :
    (s : Space) (page : ℕ) (pt : Pt) (e : Pte) (p : ℕ)
    → s.pde (get_pd_index page) ≡ some pt
    → IsPage page
    → IsPage p
    → p ≢ page
    → mapped (put_page s page pt e) p ≡ mapped s p
mapped-put_page_ne s page pt e p there i k n =
    elim (eq_cases (get_pd_index p) (get_pd_index page)) [
      | inr far ↦
          mapped-set_pde_ne s (get_pd_index page) (some (put_entry pt (get_pt_index page) e)) p far
      | inl near ↦
          mapped-set_pde_eq s (get_pd_index page) (some (put_entry pt (get_pt_index page) e)) p near
          ∙ ap (λ b. present_entry (if b then e else pt (get_pt_index p)))
              (==_false (get_pt_index p) (get_pt_index page)
                (λ h. absurd (omega (arith, i.0, i.1, k.0, k.1, n))))
          ∙ sym (ap (λ o. in_table o (get_pt_index p)) (ap (λ x. s.pde x) near ∙ there))
    ]

-- A page that is present has its entry in a table.
pub mapped-some :
    (s : Space) (p : ℕ) (e : Pte)
    → mapped s p ≡ some e
    → (pt : Pt) × ((s.pde (get_pd_index p) ≡ some pt)
        × ((pt (get_pt_index p) ≡ e) × (e.present ≡ true)))
mapped-some s p e h = elim (Option-cases (s.pde (get_pd_index p))) [
  | inl absent ↦ absurd (none-ne e (sym (ap (λ o. in_table o (get_pt_index p)) absent) ∙ h))
  | inr (pt, there) ↦
      let found : present_entry (pt (get_pt_index p)) ≡ some e =
        sym (ap (λ o. in_table o (get_pt_index p)) there) ∙ h in
      let r = of_present (pt (get_pt_index p)) e found in (pt, (there, r))
]
  where
    none-ne : (e : Pte) → none ≢ some e
    none-ne e h = cc

    some-injective : (d e : Pte) → some d ≡ some e → d ≡ e
    some-injective d e h = cc

    of_present : (d e : Pte) → present_entry d ≡ some e → (d ≡ e) × (e.present ≡ true)
    of_present d e h = elim (Bool-cases d.present) [
      | inl on ↦
          let same : d ≡ e = some-injective d e (sym (rw on refl) ∙ h) in
          (same, ap (λ x. x.present) (sym same) ∙ on)
      | inr off ↦ absurd (none-ne e (sym (rw off refl) ∙ h))
    ]

-- The entry of a page of a region from `low` to its last page `high`, made by new_pages.
abbrev pub region_entry : ℕ → ℕ → ℕ → ℕ → Pte
region_entry shared low high page = or_frame shared (region_bits true true true low high page)

or_true : (b : Bool) → (b || true) ≡ true
or_true true = refl
or_true false = refl

pub region_entry-present :
    (shared low high page : ℕ) → (region_entry shared low high page).present ≡ true
region_entry-present shared low high page = or_true (get_bit shared 0 == 1)

pub region_entry-zfod : (shared low high page : ℕ) → (region_entry shared low high page).zfod ≡ true
region_entry-zfod shared low high page = or_true (get_bit shared 11 == 1)

pub region_entry-start :
    (shared low high page : ℕ)
    → shared % 4096 ≡ 0
    → (region_entry shared low high page).new_pages_start ≡ (page == low)
unfolding get_bit
region_entry-start shared low high page h = ap (λ b. (b == 1) || (page == low)) (bit shared h)
  where
    bit : (shared : ℕ) → shared % 4096 ≡ 0 → get_bit shared 9 ≡ 0
    bit shared h = omega arith

pub region_entry-end :
    (shared low high page : ℕ)
    → shared % 4096 ≡ 0
    → (region_entry shared low high page).new_pages_end ≡ (page == high)
unfolding get_bit
region_entry-end shared low high page h = ap (λ b. (b == 1) || (page == high)) (bit shared h)
  where
    bit : (shared : ℕ) → shared % 4096 ≡ 0 → get_bit shared 10 ≡ 0
    bit shared h = omega arith

-- A frame that starts a page has none of the flags.
pub or_frame-aligned :
    (shared : ℕ) (bits : Pte)
    → shared % 4096 ≡ 0
    → or_frame shared bits ≡ record bits { frame = shared }
unfolding get_bit
or_frame-aligned shared bits h =
    let b0 : get_bit shared 0 ≡ 0 = omega arith in
    let b1 : get_bit shared 1 ≡ 0 = omega arith in
    let b2 : get_bit shared 2 ≡ 0 = omega arith in
    let b9 : get_bit shared 9 ≡ 0 = omega arith in
    let b10 : get_bit shared 10 ≡ 0 = omega arith in
    let b11 : get_bit shared 11 ≡ 0 = omega arith in
    let f : shared / 4096 * 4096 ≡ shared = omega arith in rw (b0, b1, b2, b9, b10, b11, f) refl
