-- ===== src/Vm/Fills.antt =====
-- The repair of a page that is zero-filled on demand, on every branch.
use os_p.Base.{ℕ, ◌≡◌, ◌≢◌, refl, ◌∙◌, Bool, true, false, ◌&&◌, ◌||◌, Option, none, some, ◌==◌}
use os_p.Pm.{Pm, error_not_enough_mem, get_frames_raw}
use os_p.Vm.{Pte, Pt, Space, get_pd_index, get_pt_index}
use os_p.Vm.Region.{mapped, IsPage}
use os_p.Vm.Count.{present_entry-eq}
use os_p.Vm.Enter.{put_page, mapped-put_page, mapped-put_page_ne}
use os_p.Vm.Fault.{filled, fill_page}

-- The page is present and may be written.
abbrev pub IsWritable : Space → ℕ → Type 0
IsWritable s p = (e : Pte) × ((mapped s p ≡ some e) × (e.rw ≡ true))

-- The ends of the repair of one page.
pub data Fills (page : ℕ) (s : Space) : Option (Bool × Space) → Type 0 where
  stuck : Fills page s none
  unfilled : {t : Space} → Fills page s (some (false, t))
  fills :
      {t : Space}
      → IsWritable t page
      → ((p : ℕ) → IsPage p → p ≢ page → mapped t p ≡ mapped s p)
      → Fills page s (some (true, t))

or_true : (b : Bool) → (b || true) ≡ true
or_true true = refl
or_true false = refl

or_on : (a b : Bool) → b ≡ true → (a || b) ≡ true
or_on true b h = refl
or_on false b h = h

and_left : (a b : Bool) → (a && b) ≡ true → a ≡ true
and_left true b h = refl
and_left false b h = h

pub fill_page-Fills : (page : ℕ) (s : Space) → IsPage page → Fills page s (fill_page page s)
unfolding fill_page
fill_page-Fills page s k = table (s.pde (get_pd_index page)) refl
  where
    set : Pt → ℕ × Pm → Space
    set pt r = record (put_page s page pt (filled r.0 (pt (get_pt_index page)))) { pm = r.1 }

    framed :
        (pt : Pt)
        → s.pde (get_pd_index page) ≡ some pt
        → (pt (get_pt_index page)).present ≡ true
        → (r : ℕ × Pm) → (b : Bool)
        → Fills page s (elim b [ true ↦ none | false ↦ some (true, set pt r) ])
    framed pt there on r true = stuck
    framed pt there on r false =
        fills
          (
            filled r.0 (pt (get_pt_index page)),
            (
              mapped-put_page s page pt (filled r.0 (pt (get_pt_index page)))
                  ∙ present_entry-eq (filled r.0 (pt (get_pt_index page))) (or_on _ _ on),
              or_true _,
            ),
          )
          (λ p i n.
            mapped-put_page_ne s page pt (filled r.0 (pt (get_pt_index page))) p there k i n)

    given :
        (pt : Pt)
        → s.pde (get_pd_index page) ≡ some pt
        → (pt (get_pt_index page)).present ≡ true
        → (o : Option (ℕ × Pm))
        → Fills page s (elim o [
          | none ↦ none
          | some r ↦ elim (r.0 == error_not_enough_mem) [
            | true ↦ none
            | false ↦ some (true, set pt r)
          ]
        ])
    given pt there on none = stuck
    given pt there on (some r) = framed pt there on r (r.0 == error_not_enough_mem)

    marked :
        (pt : Pt)
        → s.pde (get_pd_index page) ≡ some pt
        → (b : Bool) → ((pt (get_pt_index page)).present && (pt (get_pt_index page)).zfod) ≡ b
        → Fills page s (elim b [
          | false ↦ some (false, s)
          | true ↦ elim (get_frames_raw 2 s.pm) [
            | none ↦ none
            | some r ↦ elim (r.0 == error_not_enough_mem) [
              | true ↦ none
              | false ↦ some (true, set pt r)
            ]
          ]
        ])
    marked pt there false h = unfilled
    marked pt there true h = given pt there (and_left _ _ h) (get_frames_raw 2 s.pm)

    table :
        (o : Option Pt)
        → s.pde (get_pd_index page) ≡ o
        → Fills page s (elim o [
          | none ↦ some (false, s)
          | some pt ↦ elim ((pt (get_pt_index page)).present && (pt (get_pt_index page)).zfod) [
            | false ↦ some (false, s)
            | true ↦ elim (get_frames_raw 2 s.pm) [
              | none ↦ none
              | some r ↦ elim (r.0 == error_not_enough_mem) [
                | true ↦ none
                | false ↦ some (true, set pt r)
              ]
            ]
          ]
        ])
    table none e = unfilled
    table (some pt) e = marked pt e _ refl
