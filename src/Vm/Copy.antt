-- ===== src/Vm/Copy.antt =====
-- kern/vm.c: how much user space a task has, its release at the end of the task, and its copy for
-- fork(). The content of frames is not part of the state.
use os_p.Base.{
  ℕ, zero, suc, ◌+◌, ◌-◌, Bool, true, false, [], ◌∷◌, Option, none, some, ltb, if◌then◌else◌, ◌==◌,
  not,
}
use os_p.Base.Int.{ℤ}
use os_p.Pm.{Pm, get_frames_raw, free_frames_raw, reserve_frames, unreserve_frames}
use os_p.Vm.{Pte, Pt, Pd, Space, or_frame, put_entry, error_malloc_lib, error_not_enough}

abbrev pub num_pt_kernel : ℕ
num_pt_kernel = 4

-- PAGE_SIZE/ENTRY_SIZE
abbrev pub num_entries : ℕ
num_entries = 1024

unfoldable pub count_entries : ℕ → Pt → ℕ
count_entries zero pt = 0
count_entries (suc j) pt = count_entries j pt + (if (pt j).present then 1 else 0)

-- The first `n` page tables of user space.
unfoldable pub count_tables : ℕ → Pd → ℕ
count_tables zero pd = 0
count_tables (suc i) pd =
    count_tables i pd
    + (elim (pd (i + num_pt_kernel)) [ none ↦ 0 | some pt ↦ count_entries num_entries pt ])

unfoldable pub count_pages_user_space : Pd → ℕ
count_pages_user_space pd = count_tables (num_entries - num_pt_kernel) pd

-- One entry of a page table that is freed.
abbrev pub free_entry : Bool → Pte → Pm → Pm
free_entry need_unreserve_frames e p =
    let q = if e.zfod then p else free_frames_raw p e.frame in
    if e.present then (if need_unreserve_frames then unreserve_frames q 1 else q) else p

unfoldable pub free_entries : Bool → ℕ → Pt → Pm → Pm
free_entries need_unreserve_frames zero pt p = p
free_entries need_unreserve_frames (suc j) pt p =
    free_entry need_unreserve_frames (pt j) (free_entries need_unreserve_frames j pt p)

unfoldable pub free_tables : Bool → ℕ → Pd → Pm → Pm
free_tables need_unreserve_frames zero pd p = p
free_tables need_unreserve_frames (suc i) pd p =
    let q = free_tables need_unreserve_frames i pd p in
    elim (pd (i + num_pt_kernel)) [
      | none ↦ q
      | some pt ↦ free_entries need_unreserve_frames num_entries pt q
    ]

-- The frames of kernel space stay, and so do its page tables.
unfoldable pub free_space : Pd → Bool → Bool → Pm → Pm
free_space pd true need_unreserve_frames p = p
free_space pd false need_unreserve_frames p =
    free_tables need_unreserve_frames (num_entries - num_pt_kernel) pd p

unfoldable pub free_entire_space : Pd → Bool → Pm → Pm
free_entire_space pd need_unreserve_frames p =
    free_space pd true need_unreserve_frames (free_space pd false need_unreserve_frames p)

-- The next allocation of kernel memory.
unfoldable pub allocate : Space → Bool × Space
allocate s = elim (s.mallocs) [ [] ↦ (false, s) | ok ∷ rest ↦ (ok, record s { mallocs = rest }) ]

-- The copy of the first `n` entries of a table; the old table is as before in the end. `none` is
-- `get_frames_raw` out of fuel.
unfoldable pub clone_entries : ℕ → Pt → Pm → Option (Pt × Pm)
clone_entries zero pt p = some (pt, p)
clone_entries (suc j) pt p = elim (clone_entries j pt p) [
  | none ↦ none
  | some r ↦ elim ((pt j).present) [
    | false ↦ some r
    | true ↦ elim (get_frames_raw 2 (r.1)) [
      | none ↦ none
      | some g ↦ some (put_entry (r.0) j (or_frame (g.0) (record (pt j) { frame = 0 })), g.1)
    ]
  ]
]

-- How far the copy is: whether every table so far got its memory, the new directory, and the frames
-- and the memory left.
pub record Cloning : Type 0 where
  pub complete : Bool
  pub pd : Pd
  pub space : Space

abbrev pub put_table : Pd → ℕ → Pt → Pd
put_table pd i pt x = if x == i then some pt else pd x

unfoldable pub clone_table : ℕ → Pt → Cloning → Option Cloning
clone_table i pt c =
    let m = allocate c.space in
    if ltb i num_pt_kernel then some (record c { pd = put_table c.pd i pt }) else elim (m.0) [
      | false ↦ some (record c { complete = false; space = m.1 })
      | true ↦ elim (clone_entries num_entries pt (m.1).pm) [
        | none ↦ none
        | some r ↦ some (record {
          complete = true;
          pd = put_table c.pd i (r.0);
          space = record (m.1) { pm = r.1 };
        })
      ]
    ]

unfoldable pub clone_tables : ℕ → Space → Option Cloning
clone_tables zero s = some (record { complete = true; pd = λ i. none; space = s })
clone_tables (suc i) s = elim (clone_tables i s) [
  | none ↦ none
  | some c ↦ elim (c.complete) [
    | false ↦ some c
    | true ↦ elim (s.pde i) [ none ↦ some c | some pt ↦ clone_table i pt c ]
  ]
]

-- A new directory, or an error code.
pub data CloneResult : Type 0 where
  cloned : Pd → CloneResult
  clone_error : ℤ → CloneResult

abbrev pub finish_clone : ℕ → Option Cloning → Option (CloneResult × Space)
finish_clone num_pages_allocated none = none
finish_clone num_pages_allocated (some c) =
    if c.complete
    then some (cloned c.pd, c.space)
    else some (
      clone_error error_malloc_lib,
      record c.space {
        pm = unreserve_frames (free_entire_space c.pd false c.space.pm) num_pages_allocated;
      },
    )

unfoldable pub clone_pd : Space → Option (CloneResult × Space)
clone_pd s =
    let num_pages_allocated = count_pages_user_space s.pde in
    let r = reserve_frames s.pm num_pages_allocated in
    let buf = allocate (record s { pm = r.1 }) in
    let dir = allocate (buf.1) in
    if not (r.0)
    then some (clone_error error_not_enough, record s { pm = r.1 })
    else if not (buf.0)
    then some (clone_error error_malloc_lib, buf.1)
    else if not (dir.0)
    then some (clone_error error_malloc_lib, dir.1)
    else finish_clone num_pages_allocated (clone_tables num_entries (dir.1))
