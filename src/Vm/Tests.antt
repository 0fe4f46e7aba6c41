-- ===== src/Vm/Tests.antt =====
-- The theorems on an address space at a task with one page that is zero-filled on demand.
use os_p.Base.{
  Bool, ℕ, ◌+◌, ◌*◌, subst, ◌≡◌, ◌≢◌, ◌⊎◌, refl, true, false, [], ◌∷◌, Option, none, some, ◌==◌,
  if◌then◌else◌, arith,
}
use os_p.Base.Bits.{get_bit, clear_bit, lowest_bit}
use os_p.Base.Int.{ℤ, pos, negsuc, ◌+ℤ◌, ◌-ℤ◌}
use os_p.SegTree.{SegTree, node_value, refresh, update_loop, get_next}
use os_p.SegTree.Range.{IsValid}
use os_p.SegTree.Sample.{fresh-IsValid, fresh-eq}
use os_p.Pm.Frames.{IsPlaced}
use os_p.Pm.Usable.{usable, count_where}
use os_p.Pm.{Pm, frame_addr, get_frames_raw, reserve_frames}
use os_p.Vm.{
  Pte, Pd, Space, clear_pte, put_entry, count_loop, count_pages_allocated, new_frame, map_loop,
  reserve_and_map, new_region, new_pages, remove_pages,
}
use os_p.Vm.Region.{mapped, IsPage, Agrees}
use os_p.Vm.Fault.{is_page_zfod, check_mem_validness}
use os_p.Vm.Copy.{
  count_entries, count_tables, count_pages_user_space, free_space, allocate, clone_entries,
  clone_table, clone_tables, clone_pd, CloneResult, clone_error, cloned,
}
use os_p.Vm.ForkExit.{ForkEnds, clone_pd-ForkEnds}
use os_p.Vm.ForkLeak.{IsLazyPd, LazyTable, no_table, lazy_table, clone_pd_leaks}
use os_p.Vm.Writable.{Writes, check_mem_validness-Writes}
use os_p.Vm.NewPages.{IsRegion, NewPages, lazy_entry, new_pages-NewPages}
use os_p.Vm.RoundTrip.{new_pages_rejects, remove_pages-new_pages}
use os_p.Vm.Repair.{is_page_zfod-once}

-- 70 free frames.
abbrev tree_of_70 : SegTree
tree_of_70 = record {
  max_num = 70;
  size = 4;
  tree = 0 ∷ 0 ∷ 0 ∷ 64 ∷ 0xffff_ffff ∷ 0xffff_ffff ∷ 63 ∷ 0 ∷ [];
}

abbrev manager : Pm
manager = record { frames = tree_of_70; left = pos 70; cur_cpu = 1; per_core = 70; lapic_base = 0 }

abbrev lazy_pte : Pte
lazy_pte = record {
  present = true;
  rw = false;
  us = true;
  zfod = true;
  new_pages_start = true;
  new_pages_end = true;
  frame = 0x5000;
}

-- The page 0x0100_3000 is present.
abbrev one_page : Pd
one_page i = if i == 4 then some (put_entry (λ j. clear_pte) 3 lazy_pte) else none

abbrev task : Space
task = record {
  pde = one_page;
  pm = manager;
  all_zero_frame = 0x5000;
  mallocs = true ∷ true ∷ true ∷ [];
}

-- Two pages above the one that is present.
abbrev base : ℕ
base = 0x0100_5000

region : IsRegion base 2
region = record { aligned = refl; some_page = omega arith; fits = omega arith; user = omega arith }

new_pages-NewPages_example :
    NewPages (lazy_entry task base 2) task base 2 (new_pages base (pos (2 * 4096)) task)
new_pages-NewPages_example = new_pages-NewPages base 2 task region refl

abbrev space_of : Option (ℤ × Space) → Space
space_of none = task
space_of (some r) = r.1

abbrev opened : Space
opened = space_of (new_pages base (pos (2 * 4096)) task)

opened-eq : new_pages base (pos (2 * 4096)) task ≡ some (pos 0, opened)
unfolding new_pages new_region count_pages_allocated count_loop reserve_and_map reserve_frames
    map_loop new_frame ◌+ℤ◌ ◌-ℤ◌
opened-eq = refl

remove_pages-new_pages_example :
    (u : Space) × ((remove_pages 2 base opened ≡ some (pos 0, u))
      × (Agrees (mapped task) u × (u.pm ≡ manager)))
remove_pages-new_pages_example =
    remove_pages-new_pages base 2 2 task opened region refl (omega arith) opened-eq

new_pages_rejects_example :
    ((n : ℕ) × (IsRegion base n × (pos 4095 ≡ pos (n * 4096))))
    ⊎ ((k : ℕ) × (new_pages base (pos 4095) task ≡ some (negsuc k, task)))
new_pages_rejects_example = new_pages_rejects base (pos 4095) task (omega arith)

first_frame :
    get_frames_raw 2 manager
    ≡ some (0x0104_6000, record manager { frames = (get_next tree_of_70).1 })
unfolding get_frames_raw frame_addr get_next update_loop refresh node_value clear_bit lowest_bit
first_frame = refl

is_page_zfod-once_example :
    (t : Space) × ((is_page_zfod 0x0100_3abc 7 true task ≡ some (true, t))
      × ((mapped t 0x0100_3000
            ≡ some (record lazy_pte { zfod = false; rw = true; frame = 0x0104_6000 }))
          × (((q : ℕ) → IsPage q → q ≢ 0x0100_3000 → mapped t q ≡ mapped task q)
              × ((t.pm ≡ record manager { frames = (get_next tree_of_70).1 })
                  × (is_page_zfod 0x0100_3abc 7 true t ≡ some (false, t))))))
unfolding get_bit
is_page_zfod-once_example =
    is_page_zfod-once 0x0100_3abc 7 0x0104_6000 task lazy_pte
      (record manager { frames = (get_next tree_of_70).1 }) (omega arith) (refl, (refl, refl)) refl
      refl first_frame refl

abbrev result_of : Option (CloneResult × Space) → CloneResult × Space
result_of none = (cloned one_page, task)
result_of (some r) = r

abbrev forked : CloneResult × Space
forked = result_of (clone_pd task)

forked-eq : clone_pd task ≡ some forked
unfolding clone_pd clone_tables clone_table clone_entries allocate count_pages_user_space
    count_tables count_entries reserve_frames get_frames_raw frame_addr get_next update_loop refresh
    node_value clear_bit lowest_bit ◌+ℤ◌ ◌-ℤ◌
forked-eq = refl

clone_pd-ForkEnds_example : ForkEnds task forked
clone_pd-ForkEnds_example = clone_pd-ForkEnds task forked forked-eq

abbrev pd_of : CloneResult → Pd
pd_of (cloned pd) = pd
pd_of (clone_error code) = one_page

copy-eq : clone_pd task ≡ some (cloned (pd_of forked.0), forked.1)
unfolding clone_pd clone_tables clone_table clone_entries allocate count_pages_user_space
    count_tables count_entries reserve_frames get_frames_raw frame_addr get_next update_loop refresh
    node_value clear_bit lowest_bit ◌+ℤ◌ ◌-ℤ◌
copy-eq = refl

one_page-IsLazyPd : IsLazyPd one_page
one_page-IsLazyPd i l = tables (i == 4)
  where
    entry :
        (b : Bool)
        → (if b then lazy_pte else clear_pte).present ≡ true
        → (if b then lazy_pte else clear_pte).zfod ≡ true
    entry true h = refl
    entry false h = h

    tables :
        (b : Bool) → LazyTable (if b then some (put_entry (λ j. clear_pte) 3 lazy_pte) else none)
    tables true = lazy_table (record { lazy = λ j h. entry (j == 3) h })
    tables false = no_table

manager-IsPlaced : IsPlaced manager
manager-IsPlaced = record { tree = subst IsValid fresh-eq fresh-IsValid; fits = omega arith }

one_page-count : count_pages_user_space one_page ≡ 1
unfolding count_pages_user_space count_tables count_entries
one_page-count = refl

manager-usable : usable manager ≡ 70
unfolding count_where frame_addr get_bit
manager-usable = refl

clone_pd_leaks_example :
    (let after = free_space (pd_of forked.0) false true (forked.1).pm in
      (after.left ≡ pos 70) × (usable after + count_pages_user_space one_page ≡ usable manager))
clone_pd_leaks_example =
    clone_pd_leaks task forked.1 (pd_of forked.0) manager-IsPlaced one_page-IsLazyPd
      (omega (arith, one_page-count, manager-usable)) copy-eq

check_mem_validness-Writes_example :
    Writes task 0x0100_3000 0x0100_4000
      (check_mem_validness (λ a. 1) 0x0100_3ff0 (pos 16) false true task)
check_mem_validness-Writes_example =
    check_mem_validness-Writes (λ a. 1) 0x0100_3ff0 16 task (omega arith) (omega arith)
      (omega arith)
