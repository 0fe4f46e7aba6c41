-- ===== src/Pm.antt =====
-- kern/pm.c: the physical memory manager of one core, over the segment tree. The mutex around the
-- tree makes each call one step; `reserve_frames`, which takes no lock, is cut into its accesses
-- in Pm/Race.
pub mod Frames
pub mod Race
pub mod Usable
mod Tests
use os_p.Base.{
  ℕ, zero, suc, ◌+◌, ◌-◌, ◌*◌, ◌/◌, ◌%◌, ◌^◌, Bool, true, false, Option, none, some, ltb, ◌==◌,
  if◌then◌else◌,
}
use os_p.Base.Int.{ℤ, pos, ◌+ℤ◌, ◌-ℤ◌, ltb_ℤ}
use os_p.SegTree.{SegTree, nan, get_next, put_back}

abbrev pub page_size : ℕ
page_size = 4096

abbrev pub user_mem_start : ℕ
user_mem_start = 0x0100_0000

-- `ERROR_NOT_ENOUGH_MEM`, -3 as a `uint32_t`
abbrev pub error_not_enough_mem : ℕ
error_not_enough_mem = 2 ^ 32 - 3

pub record Pm : Type 0 where
  pub frames : SegTree  -- this core's tree
  pub left : ℤ  -- `*num_free_frames_left[cur_cpu]`
  pub cur_cpu : ℕ
  pub per_core : ℕ  -- `num_free_frames_per_core`
  pub lapic_base : ℕ

-- The address of a frame of this core; a `uint32_t` sum.
unfoldable pub frame_addr : Pm → ℕ → ℕ
frame_addr p index =
    (user_mem_start + index * page_size + p.cur_cpu * p.per_core * page_size) % 2 ^ 32

-- The call repeats itself at the frame of the local APIC. `none` is a run that is out of fuel.
unfoldable pub get_frames_raw : ℕ → Pm → Option (ℕ × Pm)
get_frames_raw zero p = none
get_frames_raw (suc fuel) p =
    let r = get_next p.frames in
    let again = get_frames_raw fuel (record p { frames = r.1 }) in
    if r.0 == nan
    then some (error_not_enough_mem, record p { frames = r.1 })
    else if frame_addr p r.0 == p.lapic_base
    then again
    else some (frame_addr p r.0, record p { frames = r.1 })

-- The frame that an address stands for: `uint32_t` differences, wrapped.
pub frame_index : Pm → ℕ → ℕ
frame_index p base =
    (2 * 2 ^ 32 + base - p.cur_cpu * p.per_core * page_size % 2 ^ 32 - user_mem_start)
    % 2 ^ 32
    / page_size

unfoldable pub free_frames_raw : Pm → ℕ → Pm
free_frames_raw p base = record p { frames = put_back p.frames (frame_index p base) }

-- `true` is the return value 0 of the source, `false` its -1.
unfoldable pub reserve_frames : Pm → ℕ → Bool × Pm
reserve_frames p count =
    let added = p.left -ℤ pos count in
    if ltb_ℤ added (pos 0)
    then (false, record p { left = added +ℤ pos count })
    else (true, record p { left = added })

unfoldable pub unreserve_frames : Pm → ℕ → Pm
unreserve_frames p count = record p { left = p.left +ℤ pos count }
