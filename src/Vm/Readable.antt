-- ===== src/Vm/Readable.antt =====
-- The check of user memory that is only read.
use os_p.Base.{
  ℕ, zero, suc, ◌+◌, ◌-◌, ◌*◌, ◌/◌, ◌%◌, ◌^◌, ◌≤◌, ◌<◌, ◌≡◌, ◌≢◌, inl, inr, refl, sym, ap, ◌∙◌,
  Bool, false, Option, none, some, ltb, if◌then◌else◌, arith, eq_cases, bool_clash, Bool-cases,
  Option-cases, subst,
}
use os_p.Base.Int.{ℤ, pos, ltb_ℤ}
use os_p.Pm.{page_size, user_mem_start}
use os_p.Vm.{
  Pt, Space, get_pd_index, get_pt_index, page_of, next_page, error_len, error_kernel_space,
}
use os_p.Vm.Region.{present_entry, in_table, mapped, IsPage}
use os_p.Vm.Loops.{absent-free}
use os_p.Vm.Fault.{check_loop, last_byte_of, check_mem_validness, error_page_not_alloc}

-- The two ends of a check for reading over the pages from `q` up to `h`.
pub data Readable (s : Space) (q h : ℕ) : Option (ℤ × Space) → Type 0 where
  readable :
      ((p : ℕ) → IsPage p → q ≤ p → p < h → mapped s p ≢ none) → Readable s q h (some (pos 0, s))
  missing :
      (p : ℕ)
      → IsPage p
      → q ≤ p
      → p < h
      → mapped s p ≡ none
      → Readable s q h (some (error_page_not_alloc, s))

Readable-cons :
    {s : Space} {q h : ℕ} {o : Option (ℤ × Space)}
    → q % 4096 ≡ 0
    → mapped s q ≢ none
    → Readable s (q + 4096) h o
    → Readable s q h o
Readable-cons {s} {q} m n (readable r) = readable (λ p k a b. elim (eq_cases p q) [
  | inl at ↦ subst (λ x. mapped s x ≢ none) (sym at) n
  | inr ne ↦ r p k (omega (arith, m, k.0, ne)) b
])
Readable-cons m n (missing p k a b e) = missing p k (omega arith) b e

check_loop-Readable :
    (byte : ℕ → ℕ) (last n q h page cur : ℕ) (s : Space)
    → page ≡ q % 2 ^ 32
    → h ≡ q + n * 4096
    → q % 4096 ≡ 0
    → h ≤ 2 ^ 32
    → Readable s q h (check_loop byte false false last n page cur s)
unfolding check_loop
check_loop-Readable byte last zero q h page cur s e eh m max =
    readable (λ p k a b. absurd (omega arith))
check_loop-Readable byte last (suc n) q h page cur s e eh m max =
    let here : page ≡ q = omega arith in
    let k : IsPage q = (m, omega arith) in
    let seen = λ (o : Option Pt) (at : s.pde (get_pd_index q) ≡ o).
      ap (λ x. in_table x (get_pt_index q)) at in
    subst (λ x. Readable s q h (check_loop byte false false last (suc n) x cur s)) (sym here)
      (elim (Option-cases (s.pde (get_pd_index q))) [
        | inl absent ↦
            rw (check_loop, absent) (missing q k (omega arith) (omega arith) (seen none absent))
        | inr (pt, there) ↦ elim (Bool-cases ((pt (get_pt_index q)).present)) [
          | inr off ↦
              rw (check_loop, there, off)
                (missing q k (omega arith) (omega arith) (seen (some pt) there ∙ gone pt off))
          | inl on ↦
              rw (check_loop, there, on)
                (Readable-cons m (λ z. bool_clash (sym (absent-free s q pt there z) ∙ on))
                  (check_loop-Readable byte last n (q + 4096) h (next_page q) cur s (omega arith)
                    (omega arith) (omega arith) max))
        ]
      ])
  where
    gone :
        (pt : Pt)
        → (pt (get_pt_index q)).present ≡ false
        → present_entry (pt (get_pt_index q)) ≡ none
    gone pt off = rw off refl

-- The last byte of `len` bytes from `va` on.
abbrev pub final_byte : ℕ → ℕ → ℕ
final_byte va len = va + len - 1

pub check_mem_validness-eq :
    (byte : ℕ → ℕ) (va len : ℕ) (need_writable : Bool) (s : Space)
    → user_mem_start ≤ va
    → 0 < len
    → va + len ≤ 2 ^ 32
    → check_mem_validness byte va (pos len) false need_writable s
      ≡ check_loop byte false need_writable
          (final_byte va len)
          (1 + (page_of (final_byte va len) - page_of va) / page_size)
          (page_of va)
          va
          s
unfolding check_mem_validness
check_mem_validness-eq byte va len need_writable s u h l =
    guards (last_byte_of false va len) (omega arith)
    ∙ ap
        (λ x.
          check_loop byte false need_writable x (1 + (page_of x - page_of va) / page_size)
            (page_of va) va s)
        (omega arith)
  where
    above : (a b : ℕ) → b ≤ a → ltb a b ≡ false
    above a b h = ground arith

    guards :
        (last : ℕ)
        → va ≤ last
        → (if ltb va user_mem_start
            then some (error_kernel_space, s)
            else if ltb_ℤ (pos len) (pos 0)
            then some (error_len, s)
            else if ltb last va
            then some (error_len, s)
            else check_loop byte false need_writable last
                (1 + (page_of last - page_of va) / page_size)
                (page_of va)
                va
                s)
          ≡ check_loop byte false need_writable last
              (1 + (page_of last - page_of va) / page_size)
              (page_of va)
              va
              s
    guards last k =
        let g1 : ltb va user_mem_start ≡ false = above va user_mem_start u in
        let g2 : ltb_ℤ (pos len) (pos 0) ≡ false = above _ _ (omega arith) in
        let g3 : ltb last va ≡ false = above last va k in rw (g1, g2, g3) refl

-- For a region of user space of at least one byte that ends within 2^32, check_mem_validness
-- without the checks for a null byte and for writing returns 0 if all pages that the region
-- touches are present, and ERROR_PAGE_NOT_ALLOC if one of them is not; the address space is as
-- before.
pub check_mem_validness-Readable :
    (byte : ℕ → ℕ) (va len : ℕ) (s : Space)
    → user_mem_start ≤ va
    → 0 < len
    → va + len ≤ 2 ^ 32
    → Readable s
        (page_of va)
        (page_of (final_byte va len) + page_size)
        (check_mem_validness byte va (pos len) false false s)
check_mem_validness-Readable byte va len s u h l =
    subst (Readable s (page_of va) (page_of (final_byte va len) + page_size))
      (sym (check_mem_validness-eq byte va len false s u h l))
      (check_loop-Readable byte (final_byte va len)
        (1 + (page_of (final_byte va len) - page_of va) / page_size) (page_of va)
        (page_of (final_byte va len) + page_size) (page_of va) va s (omega arith) (omega arith)
        (omega arith) (omega arith))
