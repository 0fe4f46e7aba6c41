-- ===== src/Vm/Remove.antt =====
-- The loop of remove_pages on a region that new_pages has entered.
use os_p.Base.{
  ℕ, zero, suc, ◌+◌, ◌*◌, ◌%◌, ◌^◌, ◌≤◌, ◌<◌, ◌≡◌, ◌⊎◌, inl, inr, refl, ap, ◌∙◌, Bool, true, false,
  not, ◌&&◌, ◌||◌, none, some, ◌==◌, if◌then◌else◌, arith, ==_iff, ==_false,
}
use os_p.Base.Int.{pos, ◌+ℤ◌, add_pos}
use os_p.Pm.{Pm, unreserve_frames, free_frames_raw}
use os_p.Vm.{
  Pte, Pt, Space, clear_pte, get_pd_index, get_pt_index, next_page, give_back, remove_loop,
}
use os_p.Vm.Region.{mapped, IsPage}
use os_p.Vm.Enter.{
  put_page, mapped-put_page_ne, mapped-some, region_entry, region_entry-present, region_entry-zfod,
  region_entry-start, region_entry-end,
}
use os_p.Vm.Loops.{Rewrites, Rewrites-cons, Rewrites-refl}

-- The space without the page.
abbrev cleared : Space → ℕ → Pt → Space
cleared s q pt = record (put_page s q pt clear_pte) { pm = give_back (pt (get_pt_index q)) s.pm }

-- A page that the loop removes.
abbrev Removable : Bool → Space → ℕ → Pt → Type 0
Removable first s q pt =
    (s.pde (get_pd_index q) ≡ some pt)
    × (((pt (get_pt_index q)).present && (not first || (pt (get_pt_index q)).new_pages_start))
        ≡ true)

remove_loop-last :
    (fuel : ℕ) (first : Bool) (q : ℕ) (s : Space) (pt : Pt)
    → Removable first s q pt
    → (pt (get_pt_index q)).new_pages_end ≡ true
    → remove_loop (suc fuel) first q s ≡ some (pos 0, cleared s q pt)
unfolding remove_loop
remove_loop-last fuel first q s pt (there, ok) end = rw (remove_loop, there, ok, end) refl

remove_loop-next :
    (fuel : ℕ) (first : Bool) (q : ℕ) (s : Space) (pt : Pt)
    → Removable first s q pt
    → (pt (get_pt_index q)).new_pages_end ≡ false
    → remove_loop (suc fuel) first q s ≡ remove_loop fuel false (next_page q) (cleared s q pt)
unfolding remove_loop
remove_loop-next fuel first q s pt (there, ok) more = rw (remove_loop, there, ok, more) refl

give_back-zfod : (e : Pte) (p : Pm) → e.zfod ≡ true → give_back e p ≡ unreserve_frames p 1
give_back-zfod e p h = ap (λ b. unreserve_frames (if b then p else free_frames_raw p e.frame) 1) h

unreserve_frames-suc :
    (p : Pm) (n : ℕ) → unreserve_frames (unreserve_frames p 1) n ≡ unreserve_frames p (suc n)
unfolding unreserve_frames
unreserve_frames-suc p n =
    ap (λ l. record p { left = l }) (add_pos p.left 1 n ∙ ap (λ x. p.left +ℤ pos x) (omega arith))

and-true : (a b : Bool) → a ≡ true → b ≡ true → (a && b) ≡ true
and-true a b h k = rw (h, k) refl

or-last : (a b : Bool) → b ≡ true → (a || b) ≡ true
or-last true b h = refl
or-last false b h = h

-- A page of a region, the first of the removal only if it is the first of the region.
region-Removable :
    (shared low high q : ℕ) (first : Bool) (s : Space) (pt : Pt)
    → shared % 4096 ≡ 0
    → s.pde (get_pd_index q) ≡ some pt
    → pt (get_pt_index q) ≡ region_entry shared low high q
    → ((first ≡ false) ⊎ (q ≡ low))
    → Removable first s q pt
region-Removable shared low high q first s pt z there at c = (
  there,
  and-true (pt (get_pt_index q)).present _
      (ap (λ x. x.present) at ∙ region_entry-present shared low high q) (start c),
)
  where
    start :
        ((first ≡ false) ⊎ (q ≡ low)) → (not first || (pt (get_pt_index q)).new_pages_start) ≡ true
    start (inl later) = ap (λ b. not b || (pt (get_pt_index q)).new_pages_start) later
    start (inr base) = or-last (not first) _ (
        ap (λ x. x.new_pages_start) at
        ∙ region_entry-start shared low high q z
        ∙ (==_iff q low).1 base)

region-back :
    (shared low high q : ℕ) (e : Pte) (p : Pm)
    → e ≡ region_entry shared low high q
    → give_back e p ≡ unreserve_frames p 1
region-back shared low high q e p at =
    ap (λ d. give_back d p) at
    ∙ give_back-zfod (region_entry shared low high q) p (region_entry-zfod shared low high q)

region-end :
    (shared low high q : ℕ) (e : Pte) (b : Bool)
    → shared % 4096 ≡ 0
    → e ≡ region_entry shared low high q
    → (q == high) ≡ b
    → e.new_pages_end ≡ b
region-end shared low high q e b z at h =
    ap (λ d. d.new_pages_end) at ∙ region_entry-end shared low high q z ∙ h

-- The pages from `q` up to `h` removed, and their frames no longer reserved.
pub record Removed (n q h : ℕ) (s t : Space) : Type 0 where
  pub pages : Rewrites (λ p. none) q h s t
  pub pm : t.pm ≡ unreserve_frames s.pm n
  pub all_zero_frame : t.all_zero_frame ≡ s.all_zero_frame

-- The removing loop at the page `q`, with `n` pages left of a region that new_pages entered.
pub remove_loop-Removed :
    (shared low high n fuel q h page : ℕ) (first : Bool) (s : Space)
    → page ≡ q % 2 ^ 32
    → h ≡ q + suc n * 4096
    → h ≡ high + 4096
    → q % 4096 ≡ 0
    → shared % 4096 ≡ 0
    → h ≤ 2 ^ 32
    → n < fuel
    → ((first ≡ false) ⊎ (q ≡ low))
    → ((p : ℕ) → IsPage p → q ≤ p → p < h → mapped s p ≡ some (region_entry shared low high p))
    → (t : Space) × ((remove_loop fuel first page s ≡ some (pos 0, t)) × Removed (suc n) q h s t)
remove_loop-Removed shared low high n zero q h page first s e eh ee m z max f c ins =
    absurd (omega arith)
remove_loop-Removed shared low high zero (suc fuel) q h page first s e eh ee m z max f c ins =
    let here : page ≡ q = omega arith in
    let k : IsPage q = (m, omega arith) in
    let (pt, (there, (at, _))) = mapped-some s q _ (ins q k (omega arith) (omega arith)) in
    let u = cleared s q pt in
    (
      u,
      (
        ap (λ x. remove_loop (suc fuel) first x s) here
            ∙ remove_loop-last fuel first q s pt
                (region-Removable shared low high q first s pt z there at c)
                (region-end shared low high q _ true z at ((==_iff q high).1 (omega arith))),
        record {
          pages =
              Rewrites-cons _ q h s pt clear_pte u u k (omega arith) there refl (λ p. refl)
                (Rewrites-refl _ (q + 4096) h u (omega arith));
          pm = region-back shared low high q _ s.pm at;
          all_zero_frame = refl;
        },
      ),
    )
remove_loop-Removed shared low high (suc n) (suc fuel) q h page first s e eh ee m z max f c ins =
    let here : page ≡ q = omega arith in
    let k : IsPage q = (m, omega arith) in
    let (pt, (there, (at, _))) = mapped-some s q _ (ins q k (omega arith) (omega arith)) in
    let u = cleared s q pt in
    let (t, (run, r)) =
      remove_loop-Removed shared low high n fuel (q + 4096) h (next_page q) false u (omega arith)
        (omega arith) ee (omega arith) z max (omega arith) (inl refl)
        (λ p i a b.
          mapped-put_page_ne s q pt clear_pte p there k i (omega arith)
          ∙ ins p i (omega arith) b) in
    (
      t,
      (
        ap (λ x. remove_loop (suc fuel) first x s) here
            ∙ remove_loop-next fuel first q s pt
                (region-Removable shared low high q first s pt z there at c)
                (region-end shared low high q _ false z at (==_false q high (omega arith)))
            ∙ run,
        record {
          pages =
              Rewrites-cons _ q h s pt clear_pte u t k (omega arith) there refl (λ p. refl) r.pages;
          pm =
              r.pm
              ∙ ap (λ x. unreserve_frames x (suc n)) (region-back shared low high q _ s.pm at)
              ∙ unreserve_frames-suc s.pm (suc n);
          all_zero_frame = r.all_zero_frame;
        },
      ),
    )
