-- ===== src/Pm/Tests.antt =====
-- The theorems on frames at a concrete manager: core 1 of 70 frames a core, whose first frame is the
-- local APIC's.
use os_p.Base.{ℕ, ◌+◌, ◌-◌, ◌*◌, ◌≡◌, true, some, arith}
use os_p.Base.Int.{pos}
use os_p.SegTree.Sample.{fresh, fresh-IsValid, fresh-size}
use os_p.Pm.{Pm, page_size, user_mem_start, get_frames_raw}
use os_p.Pm.Frames.{IsPlaced, Outcome, get_frames_raw-total}
use os_p.Pm.Race.{start, done, pair_run, preempted, lost_reservation}

abbrev manager : Pm
manager = record {
  frames = fresh;
  left = pos 70;
  cur_cpu = 1;
  per_core = 70;
  lapic_base = user_mem_start + 70 * page_size;
}

manager-IsPlaced : IsPlaced manager
manager-IsPlaced = record { tree = fresh-IsValid; fits = (omega (arith, fresh-size)) }

get_frames_raw-total_example :
    (a : ℕ) × (q : Pm) × (get_frames_raw 2 manager ≡ some (a, q)) × Outcome manager a q
get_frames_raw-total_example = get_frames_raw-total manager manager-IsPlaced

lost_reservation_example :
    pair_run 3 4 preempted (record { left = pos 10; first = start; second = start })
    ≡ record { left = pos (10 - 3); first = done true; second = done true }
lost_reservation_example = lost_reservation 10 3 4 (omega arith)
