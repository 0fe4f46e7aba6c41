-- ===== src/Vm.antt =====
-- kern/vm.c: the address space of a task. A page directory is a function from indices to page
-- tables, `none` where the present bit is clear; an entry of a page table is a record of the flags
-- that the source reads and of its frame. The page table locks make each call one step.
pub mod Copy
pub mod Count
pub mod Enter
pub mod Exit
pub mod Fault
pub mod Fills
pub mod Fork
pub mod ForkExit
pub mod ForkFrames
pub mod ForkLeak
pub mod ForkTables
pub mod Loops
pub mod NewPages
pub mod Region
pub mod Remove
pub mod Readable
pub mod Repair
pub mod RoundTrip
pub mod Writable
mod Tests
use os_p.Base.{
  ℕ, zero, suc, ◌+◌, ◌-◌, ◌*◌, ◌/◌, ◌%◌, ◌^◌, Bool, true, false, not, ◌&&◌, ◌||◌, List, [], ◌∷◌,
  Option, none, some, ltb, leb, ◌==◌, if◌then◌else◌,
}
use os_p.Base.Bits.{get_bit, set_bit}
use os_p.Base.Int.{ℤ, pos, negsuc, pos_part, ltb_ℤ}
use os_p.Pm.{
  Pm, page_size, user_mem_start, get_frames_raw, free_frames_raw, reserve_frames, unreserve_frames,
}

-- The flags PG_P, PG_RW, PG_US, PG_ZFOD, PG_NEW_PAGES_START and PG_NEW_PAGES_END, and the frame.
pub record Pte : Type 0 where
  pub present : Bool
  pub rw : Bool
  pub us : Bool
  pub zfod : Bool
  pub new_pages_start : Bool
  pub new_pages_end : Bool
  pub frame : ℕ

-- An entry that is 0.
abbrev pub clear_pte : Pte
clear_pte = record {
  present = false;
  rw = false;
  us = false;
  zfod = false;
  new_pages_start = false;
  new_pages_end = false;
  frame = 0;
}

abbrev pub Pt : Type 0
Pt = ℕ → Pte

abbrev pub Pd : Type 0
Pd = ℕ → Option Pt

-- The directory of the running task, the frames of its core, `all_zero_frame`, and how the next
-- allocations of kernel memory end; when the list is empty they fail.
pub record Space : Type 0 where
  pub pde : Pd
  pub pm : Pm
  pub all_zero_frame : ℕ
  pub mallocs : List Bool

abbrev pub error_malloc_lib : ℤ
error_malloc_lib = negsuc 0

abbrev pub error_not_enough : ℤ
error_not_enough = negsuc 2

abbrev pub error_base_not_aligned : ℤ
error_base_not_aligned = negsuc 6

abbrev pub error_len : ℤ
error_len = negsuc 14

abbrev pub error_overlap : ℤ
error_overlap = negsuc 30

abbrev pub error_kernel_space : ℤ
error_kernel_space = negsuc 62

abbrev pub error_base_not_prev : ℤ
error_base_not_prev = negsuc 1022

abbrev pub get_pd_index : ℕ → ℕ
get_pd_index va = va / 2 ^ 22

abbrev pub get_pt_index : ℕ → ℕ
get_pt_index va = va * 2 ^ 10 % 2 ^ 32 / 2 ^ 22

-- va & PAGE_ALIGN_MASK
abbrev pub page_of : ℕ → ℕ
page_of va = va / page_size * page_size

abbrev pub next_page : ℕ → ℕ
next_page page = (page + page_size) % 2 ^ 32

abbrev pub set_pde : Space → ℕ → Option Pt → Space
set_pde s i pt = record s { pde = λ x. if x == i then pt else s.pde x }

abbrev pub put_entry : Pt → ℕ → Pte → Pt
put_entry pt j e x = if x == j then e else pt x

-- new_f | bits, where the bits have no frame.
abbrev pub or_frame : ℕ → Pte → Pte
or_frame new_f bits = record {
  present = (get_bit new_f 0 == 1) || bits.present;
  rw = (get_bit new_f 1 == 1) || bits.rw;
  us = (get_bit new_f 2 == 1) || bits.us;
  zfod = (get_bit new_f 11 == 1) || bits.zfod;
  new_pages_start = (get_bit new_f 9 == 1) || bits.new_pages_start;
  new_pages_end = (get_bit new_f 10 == 1) || bits.new_pages_end;
  frame = page_of new_f;
}

-- `sizeof(char)` is 1, so only bit 0 of each byte is looked at.
pub clear_pd_entry : (ℕ → ℕ) → ℕ → ℕ → Space → Space
clear_pd_entry bitmap zero pd_index_start s = s
clear_pd_entry bitmap (suc i) pd_index_start s =
    let before = clear_pd_entry bitmap i pd_index_start s in
    if get_bit (bitmap i) 0 == 1 then set_pde before (i + pd_index_start) none else before

-- The bit of the newly allocated table, in the byte of eight.
abbrev pub mark : (ℕ → ℕ) → ℕ → ℕ → ℕ
mark bitmap r x = if x == r / 8 then set_bit (bitmap x) (r % 8) else bitmap x

-- A page table of zeros for the page.
abbrev pub new_pt : Space → ℕ → List Bool → Space
new_pt s page rest = record (set_pde s (get_pd_index page) (some (λ j. clear_pte))) {
  mallocs = rest;
}

-- The loop of `count_pages_allocated` from `page` on, `n` pages.
pub count_loop : Bool → ℕ → ℕ → ℕ → ℕ → ℕ → (ℕ → ℕ) → Space → ℤ × Space
count_loop syscall lowest size zero page num bitmap s = (pos num, s)
count_loop syscall lowest size (suc n) page num bitmap s = elim (s.pde (get_pd_index page)) [
  | some pt ↦ elim ((pt (get_pt_index page)).present) [
    | true ↦ elim syscall [
      | true ↦ (pos (suc num), clear_pd_entry bitmap size lowest s)
      | false ↦ count_loop syscall lowest size n (next_page page) (suc num) bitmap s
    ]
    | false ↦ count_loop syscall lowest size n (next_page page) num bitmap s
  ]
  | none ↦ elim (s.mallocs) [
    | true ∷ rest ↦
        count_loop syscall lowest size n (next_page page) num
          (mark bitmap (get_pd_index page - lowest)) (new_pt s page rest)
    | _ ↦ (error_malloc_lib, clear_pd_entry bitmap size lowest s)
  ]
]

-- The last page of a region, and the number of its pages; `uint32_t` arithmetic.
abbrev pub page_highest : ℕ → ℕ → ℕ
page_highest va size_bytes = page_of ((va + size_bytes + 2 ^ 32 - 1) % 2 ^ 32)

abbrev pub page_count : ℕ → ℕ → ℕ
page_count va size_bytes =
    1 + (page_highest va size_bytes + 2 ^ 32 - page_of va) % 2 ^ 32 / page_size

-- For a region that ends past its start: the array of the source has a positive size then.
pub count_pages_allocated : ℕ → ℕ → Bool → Space → ℤ × Space
count_pages_allocated va size_bytes syscall s =
    let lowest = get_pd_index (page_of va) in
    let num_page_tables = get_pd_index (page_highest va size_bytes) - lowest + 1 in
    count_loop syscall lowest num_page_tables (page_count va size_bytes) (page_of va) 0 (λ i. 0) s

-- The control bits of the entry of a page of a new region.
abbrev pub region_bits : Bool → Bool → Bool → ℕ → ℕ → ℕ → Pte
region_bits rw_perm syscall zfod lowest highest page = record {
  present = true;
  rw = not zfod && rw_perm;
  us = true;
  zfod = zfod;
  new_pages_start = syscall && page == lowest;
  new_pages_end = syscall && page == highest;
  frame = 0;
}

-- The frame for a page of a new region. `none` is `get_frames_raw` out of fuel.
pub new_frame : Bool → Space → Option (ℕ × Space)
new_frame true s = some (s.all_zero_frame, s)
new_frame false s = elim (get_frames_raw 2 s.pm) [
  | none ↦ none
  | some r ↦ some (r.0, record s { pm = r.1 })
]

-- The loop of `new_region` that enters the pages; `none` is a panic, or `new_frame`'s.
pub map_loop : Bool → Bool → Bool → ℕ → ℕ → ℕ → ℕ → Space → Option Space
map_loop rw_perm syscall zfod lowest highest zero page s = some s
map_loop rw_perm syscall zfod lowest highest (suc n) page s = elim (s.pde (get_pd_index page)) [
  | none ↦ none
  | some pt ↦ elim ((pt (get_pt_index page)).present) [
    | true ↦ map_loop rw_perm syscall zfod lowest highest n (next_page page) s
    | false ↦ elim (new_frame zfod s) [
      | none ↦ none
      | some r ↦
          let e = or_frame r.0 (region_bits rw_perm syscall zfod lowest highest page) in
          map_loop rw_perm syscall zfod lowest highest n (next_page page)
            (set_pde r.1 (get_pd_index page) (some (put_entry pt (get_pt_index page) e)))
    ]
  ]
]

-- The part of `new_region` after the pages are counted, for `count` pages.
pub reserve_and_map : Bool → Bool → Bool → ℕ → ℕ → ℕ → ℤ × Space → Option (ℤ × Space)
reserve_and_map rw_perm syscall zfod lowest highest count (negsuc n, s) = some (error_malloc_lib, s)
reserve_and_map rw_perm syscall zfod lowest highest count (pos n, s) =
    let r = reserve_frames s.pm (count - n) in
    elim (syscall && ltb 0 n) [
      | true ↦ some (error_overlap, s)
      | false ↦ elim (r.0) [
        | false ↦ some (error_not_enough, record s { pm = r.1 })
        | true ↦
            elim (map_loop rw_perm syscall zfod lowest highest count lowest
              (record s { pm = r.1 })) [ none ↦ none | some t ↦ some (pos 0, t) ]
      ]
    ]

pub new_region : ℕ → ℕ → Bool → Bool → Bool → Space → Option (ℤ × Space)
new_region va size_bytes rw_perm syscall zfod s =
    reserve_and_map rw_perm syscall zfod (page_of va) (page_highest va size_bytes)
      (page_count va size_bytes) (count_pages_allocated va size_bytes syscall s)

pub new_pages : ℕ → ℤ → Space → Option (ℤ × Space)
new_pages base len s =
    if not (base % page_size == 0)
    then some (error_base_not_aligned, s)
    else if not (ltb_ℤ (pos 0) len && pos_part len % page_size == 0)
    then some (error_len, s)
    else if ltb ((2 ^ 32 - 1 - base + 1) % 2 ^ 32) (pos_part len)
    then some (error_len, s)
    else if not (leb user_mem_start base)
    then some (error_kernel_space, s)
    else new_region base (pos_part len) true true true s

-- The frame of a removed page goes back unless it is the all-zero frame; its reservation always.
abbrev pub give_back : Pte → Pm → Pm
give_back e p = unreserve_frames (if e.zfod then p else free_frames_raw p e.frame) 1

-- `none` is a run that is out of fuel.
unfoldable pub remove_loop : ℕ → Bool → ℕ → Space → Option (ℤ × Space)
remove_loop zero is_first_page page s = none
remove_loop (suc n) is_first_page page s = elim (s.pde (get_pd_index page)) [
  | none ↦ some (error_base_not_prev, s)
  | some pt ↦
      let e = pt (get_pt_index page) in
      elim (e.present && (not is_first_page || e.new_pages_start)) [
        | false ↦ some (error_base_not_prev, s)
        | true ↦
            let t =
              record (set_pde s (get_pd_index page)
                (some (put_entry pt (get_pt_index page) clear_pte))) { pm = give_back e s.pm } in
            elim (e.new_pages_end) [
              | true ↦ some (pos 0, t)
              | false ↦ remove_loop n false (next_page page) t
            ]
      ]
]

pub remove_pages : ℕ → ℕ → Space → Option (ℤ × Space)
remove_pages fuel base s = remove_loop fuel true (page_of base) s
