-- ===== src/Vm/Repair.antt =====
-- A write to a page that is zero-filled on demand.
use os_p.Base.{
  ℕ, ◌%◌, ◌^◌, ◌<◌, ◌≡◌, ◌≢◌, refl, ap, ◌∙◌, Bool, true, false, ◌&&◌, some, ◌==◌, arith, ==_false,
}
use os_p.Base.Bits.{get_bit}
use os_p.Pm.{Pm, page_size, error_not_enough_mem, get_frames_raw}
use os_p.Vm.{Pte, Pt, Space, or_frame, get_pd_index, get_pt_index, page_of}
use os_p.Vm.Region.{present_entry, mapped, IsPage}
use os_p.Vm.Count.{present_entry-eq}
use os_p.Vm.Enter.{put_page, mapped-put_page, mapped-put_page_ne, mapped-some}
use os_p.Vm.Fault.{filled, fill_page, is_page_zfod}

fill_page-filled :
    (page : ℕ) (s : Space) (pt : Pt) (f : ℕ) (p : Pm)
    → s.pde (get_pd_index page) ≡ some pt
    → ((pt (get_pt_index page)).present && (pt (get_pt_index page)).zfod) ≡ true
    → get_frames_raw 2 s.pm ≡ some (f, p)
    → (f == error_not_enough_mem) ≡ false
    → fill_page page s
      ≡ some (true, record (put_page s page pt (filled f (pt (get_pt_index page)))) { pm = p })
unfolding fill_page
fill_page-filled page s pt f p there on got ok = rw (fill_page, there, on, got, ok) refl

fill_page-kept :
    (page : ℕ) (s : Space) (pt : Pt)
    → s.pde (get_pd_index page) ≡ some pt
    → ((pt (get_pt_index page)).present && (pt (get_pt_index page)).zfod) ≡ false
    → fill_page page s ≡ some (false, s)
unfolding fill_page
fill_page-kept page s pt there off = rw (fill_page, there, off) refl

both : (a b c : Bool) → a ≡ true → b ≡ c → (a && b) ≡ c
both a b c h k = rw h k

-- A write from user space to a page that is present.
abbrev pub IsWriteFault : ℕ → Type 0
IsWriteFault code = (get_bit code 0 ≡ 1) × ((get_bit code 2 ≡ 1) × (get_bit code 1 ≡ 1))

is_page_zfod-fault :
    (va code : ℕ) (s : Space)
    → IsWriteFault code
    → is_page_zfod va code true s ≡ fill_page (page_of va) s
unfolding is_page_zfod
is_page_zfod-fault va code s (a, (b, c)) = rw (a, b, c) refl

flags_clear :
    (f : ℕ)
    → f % 4096 ≡ 0
    → (get_bit f 0 ≡ 0)
      × ((get_bit f 1 ≡ 0)
          × ((get_bit f 2 ≡ 0) × ((get_bit f 9 ≡ 0) × ((get_bit f 10 ≡ 0) × (get_bit f 11 ≡ 0)))))
unfolding get_bit
flags_clear f h =
    (omega arith, (omega arith, (omega arith, (omega arith, (omega arith, omega arith)))))

-- For a frame that starts a page the entry keeps its flags.
pub or_frame-aligned : (f : ℕ) (e : Pte) → f % 4096 ≡ 0 → or_frame f e ≡ record e { frame = f }
or_frame-aligned f e h =
    let (a, (b, (c, (x, (y, z))))) = flags_clear f h in
    let whole : page_of f ≡ f = omega arith in
    rw (a, b, c, x, y, z) (ap (λ d. record e { frame = d }) whole)

-- For a write fault at a page that is marked zero-filled on demand, when get_frames_raw hands out
-- a frame that starts a page, is_page_ZFOD returns 1, gives the page this frame, writable and no
-- longer marked, and leaves every other page; a second call at the same address returns 0 and
-- changes nothing.
pub is_page_zfod-once :
    (va code f : ℕ) (s : Space) (e : Pte) (p : Pm)
    → va < 2 ^ 32
    → IsWriteFault code
    → mapped s (page_of va) ≡ some e
    → e.zfod ≡ true
    → get_frames_raw 2 s.pm ≡ some (f, p)
    → f % page_size ≡ 0
    → (t : Space) × ((is_page_zfod va code true s ≡ some (true, t))
        × ((mapped t (page_of va) ≡ some (record e { zfod = false; rw = true; frame = f }))
            × (((q : ℕ) → IsPage q → q ≢ page_of va → mapped t q ≡ mapped s q)
                × ((t.pm ≡ p) × (is_page_zfod va code true t ≡ some (false, t))))))
is_page_zfod-once va code f s e p l w h z got aligned =
    let page = page_of va in
    let k : IsPage page = (omega arith, omega arith) in
    let (pt, (there, (at, on))) = mapped-some s page e h in
    let new = filled f (pt (get_pt_index page)) in
    let t = record (put_page s page pt new) { pm = p } in
    let shape : new ≡ record e { zfod = false; rw = true; frame = f } =
      ap (filled f) at
      ∙ or_frame-aligned f (record e { zfod = false; rw = true; frame = 0 }) aligned in
    let now : mapped t page ≡ some (record e { zfod = false; rw = true; frame = f }) =
      mapped-put_page s page pt new
      ∙ ap present_entry shape
      ∙ present_entry-eq (record e { zfod = false; rw = true; frame = f }) on in
    let (pt', (there', (at', on'))) = mapped-some t page _ now in
    (
      t,
      (
        is_page_zfod-fault va code s w
            ∙ fill_page-filled page s pt f p there
                (both _ _ true (ap (λ x. x.present) at ∙ on) (ap (λ x. x.zfod) at ∙ z)) got
                (==_false f error_not_enough_mem (omega arith)),
        (
          now,
          (
            (λ q i n. mapped-put_page_ne s page pt new q there k i n),
            (
              refl,
              is_page_zfod-fault va code t w
                  ∙ fill_page-kept page t pt' there'
                      (both _ _ false (ap (λ x. x.present) at' ∙ on') (ap (λ x. x.zfod) at')),
            ),
          ),
        ),
      ),
    )
