-- ===== src/Vm/Fault.antt =====
-- kern/vm.c: the check and repair of a page that is zero-filled on demand, and the check of user
-- memory that system calls make before they read or write it.
use os_p.Base.{
  ℕ, zero, suc, ◌+◌, ◌-◌, ◌/◌, ◌%◌, ◌^◌, Bool, true, false, not, ◌&&◌, Option, none, some, ltb,
  ◌==◌, if◌then◌else◌,
}
use os_p.Base.Bits.{get_bit}
use os_p.Base.Int.{ℤ, pos, negsuc, pos_part, ltb_ℤ}
use os_p.Pm.{page_size, user_mem_start, error_not_enough_mem, get_frames_raw}
use os_p.Vm.{
  Pte, Space, or_frame, set_pde, put_entry, get_pd_index, get_pt_index, page_of, next_page,
  error_len, error_kernel_space,
}

abbrev pub error_read_only : ℤ
error_read_only = negsuc 126

abbrev pub error_not_null_term : ℤ
error_not_null_term = negsuc 254

abbrev pub error_page_not_alloc : ℤ
error_page_not_alloc = negsuc 510

-- An entry with its own frame in place of the all-zero frame, writable.
abbrev pub filled : ℕ → Pte → Pte
filled new_f e = or_frame new_f (record e { zfod = false; rw = true; frame = 0 })

-- The part of `is_page_zfod` behind the test of the error code; `true` is its return value 1, `none`
-- a panic, or `get_frames_raw` out of fuel. The content of the page is not part of the state.
unfoldable pub fill_page : ℕ → Space → Option (Bool × Space)
fill_page page s = elim (s.pde (get_pd_index page)) [
  | none ↦ some (false, s)
  | some pt ↦
      let e = pt (get_pt_index page) in
      elim (e.present && e.zfod) [
        | false ↦ some (false, s)
        | true ↦ elim (get_frames_raw 2 s.pm) [
          | none ↦ none
          | some r ↦ elim (r.0 == error_not_enough_mem) [
            | true ↦ none
            | false ↦ some (
              true,
              record (set_pde s (get_pd_index page)
                  (some (put_entry pt (get_pt_index page) (filled r.0 e)))) { pm = r.1 },
            )
          ]
        ]
      ]
]

unfoldable pub is_page_zfod : ℕ → ℕ → Bool → Space → Option (Bool × Space)
is_page_zfod va error_code need_check_error_code s =
    if need_check_error_code
      && not (get_bit error_code 0 == 1 && get_bit error_code 2 == 1 && get_bit error_code 1 == 1)
    then some (false, s)
    else fill_page (page_of va) s

-- How the scan of a page for '\0' ends: with a result, or past the page.
pub data Scanned : Type 0 where
  finished : ℤ → Scanned
  past : ℕ → Scanned

-- The bytes of the page from `current_byte` on, at most `n`.
unfoldable pub scan : (ℕ → ℕ) → ℕ → ℕ → ℕ → ℕ → Scanned
scan byte page last_byte zero current_byte = past current_byte
scan byte page last_byte (suc n) current_byte =
    let rest = scan byte page last_byte n ((current_byte + 1) % 2 ^ 32) in
    if not (page_of current_byte == page)
    then past current_byte
    else if byte current_byte == 0
    then finished (pos 0)
    else if current_byte == last_byte
    then finished error_not_null_term
    else rest

-- The loop of `check_mem_validness` over `n` pages. The bytes of user memory are an argument.
unfoldable pub check_loop : (ℕ → ℕ) → Bool → Bool → ℕ → ℕ → ℕ → ℕ → Space → Option (ℤ × Space)
check_loop byte is_check_null need_writable last_byte zero page current_byte s = some (pos 0, s)
check_loop byte is_check_null need_writable last_byte (suc n) page current_byte s =
    elim (s.pde (get_pd_index page)) [
      | none ↦ some (error_page_not_alloc, s)
      | some pt ↦
          let e = pt (get_pt_index page) in
          elim (e.present) [
            | false ↦ some (error_page_not_alloc, s)
            | true ↦ elim is_check_null [
              | true ↦ elim (scan byte page last_byte page_size current_byte) [
                | finished ret ↦ some (ret, s)
                | past c ↦
                    check_loop byte is_check_null need_writable last_byte n (next_page page) c s
              ]
              | false ↦ elim (need_writable && not e.rw) [
                | false ↦
                    check_loop byte is_check_null need_writable last_byte n (next_page page)
                      current_byte s
                | true ↦ elim (is_page_zfod page 0 false s) [
                  | none ↦ none
                  | some r ↦ elim (r.0) [
                    | false ↦ some (error_read_only, r.1)
                    | true ↦
                        check_loop byte is_check_null need_writable last_byte n (next_page page)
                          current_byte (r.1)
                  ]
                ]
              ]
            ]
          ]
    ]

-- (uint32_t)va + max_bytes - 1, where a string may end at the end of memory.
abbrev pub last_byte_of : Bool → ℕ → ℕ → ℕ
last_byte_of is_check_null va max_bytes =
    let last = (va + max_bytes + 2 ^ 32 - 1) % 2 ^ 32 in
    if is_check_null && ltb last va then 2 ^ 32 - 1 else last

unfoldable pub check_mem_validness : (ℕ → ℕ) → ℕ → ℤ → Bool → Bool → Space → Option (ℤ × Space)
check_mem_validness byte va max_bytes is_check_null need_writable s =
    let last_byte = last_byte_of is_check_null va (pos_part max_bytes) in
    if ltb va user_mem_start
    then some (error_kernel_space, s)
    else if ltb_ℤ max_bytes (pos 0)
    then some (error_len, s)
    else if not is_check_null && ltb last_byte va
    then some (error_len, s)
    else check_loop byte is_check_null need_writable last_byte
        (1 + (page_of last_byte - page_of va) / page_size) (page_of va) va s
