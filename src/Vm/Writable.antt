-- ===== src/Vm/Writable.antt =====
-- The check of user memory that is written.
use os_p.Base.{
  ℕ, zero, suc, ◌+◌, ◌-◌, ◌*◌, ◌/◌, ◌%◌, ◌^◌, ◌≤◌, ◌<◌, ◌≡◌, ◌≢◌, inl, inr, refl, sym, ap, ◌∙◌,
  Bool, true, false, not, ◌&&◌, Option, none, some, arith, eq_cases, subst,
}
use os_p.Base.Int.{ℤ, pos, negsuc}
use os_p.Pm.{page_size, user_mem_start}
use os_p.Vm.{Pt, Space, get_pd_index, get_pt_index, page_of, next_page}
use os_p.Vm.Region.{in_table, mapped, IsPage}
use os_p.Vm.Count.{present_entry-eq}
use os_p.Vm.Fault.{
  error_read_only, error_page_not_alloc, fill_page, is_page_zfod, check_loop, check_mem_validness,
}
use os_p.Vm.Readable.{final_byte, check_mem_validness-eq}
use os_p.Vm.Fills.{IsWritable, Fills, stuck, unfilled, fills, fill_page-Fills}

-- The ends of a check for writing over the pages from `q` up to `h`.
pub data Writes (s : Space) (q h : ℕ) : Option (ℤ × Space) → Type 0 where
  panics : Writes s q h none
  refused : {t : Space} (n : ℕ) → Writes s q h (some (negsuc n, t))
  granted :
      {t : Space}
      → ((p : ℕ) → IsPage p → q ≤ p → p < h → IsWritable t p)
      → ((p : ℕ) → IsPage p → p < q → mapped t p ≡ mapped s p)
      → ((p : ℕ) → IsPage p → h ≤ p → mapped t p ≡ mapped s p)
      → Writes s q h (some (pos 0, t))

IsWritable-eq : (s t : Space) (p : ℕ) → mapped t p ≡ mapped s p → IsWritable s p → IsWritable t p
IsWritable-eq s t p h (e, (at, w)) = (e, (h ∙ at, w))

Writes-cons :
    {o : Option (ℤ × Space)} (s u : Space) (q h : ℕ)
    → IsPage q
    → q < h
    → IsWritable u q
    → ((p : ℕ) → IsPage p → p ≢ q → mapped u p ≡ mapped s p)
    → Writes u (q + 4096) h o
    → Writes s q h o
Writes-cons s u q h k l w same panics = panics
Writes-cons s u q h k l w same (refused n) = refused n
Writes-cons s u q h k l w same (granted {t} inside before after) =
    granted {t = t}
      (λ p i a b. elim (eq_cases p q) [
        | inl at ↦ subst (IsWritable t) (sym at) (IsWritable-eq u t q (before q k (omega arith)) w)
        | inr n ↦ inside p i (omega (arith, i.0, k.0, n)) b
      ])
      (λ p i a. before p i (omega arith) ∙ same p i (omega arith))
      (λ p i a. after p i a ∙ same p i (omega arith))

-- One page of the check, with the rest of the loop as a function.
check_page-Writes :
    (s : Space) (q h : ℕ) (rest : Space → Option (ℤ × Space))
    → IsPage q
    → q < h
    → ((u : Space) → Writes u (q + 4096) h (rest u))
    → {o : Option (Bool × Space)} → Fills q s o
    → Writes s q h (elim o [
      | none ↦ none
      | some r ↦ elim (r.0) [ false ↦ some (error_read_only, r.1) | true ↦ rest (r.1) ]
    ])
check_page-Writes s q h rest k l rec stuck = panics
check_page-Writes s q h rest k l rec unfilled = refused 126
check_page-Writes s q h rest k l rec (fills {t} w same) = Writes-cons s t q h k l w same (rec t)

check_loop-Writes :
    (byte : ℕ → ℕ) (last n q h page cur : ℕ) (s : Space)
    → page ≡ q % 2 ^ 32
    → h ≡ q + n * 4096
    → q % 4096 ≡ 0
    → h ≤ 2 ^ 32
    → Writes s q h (check_loop byte false true last n page cur s)
unfolding check_loop is_page_zfod
check_loop-Writes byte last zero q h page cur s e eh m max =
    granted (λ p k a b. absurd (omega arith)) (λ p k a. refl) (λ p k a. refl)
check_loop-Writes byte last (suc n) q h page cur s e eh m max =
    let here : page ≡ q = omega arith in
    let k : IsPage q = (m, omega arith) in
    let rec = λ (u : Space).
      check_loop-Writes byte last n (q + 4096) h (next_page q) cur u (omega arith) (omega arith)
        (omega arith) max in
    subst (λ x. Writes s q h (check_loop byte false true last (suc n) x cur s)) (sym here)
      (table k (omega arith) rec (s.pde (get_pd_index q)) refl)
  where
    rest : Space → Option (ℤ × Space)
    rest u = check_loop byte false true last n (next_page q) cur u

    repair : Option (ℤ × Space)
    repair = elim (fill_page (page_of q) s) [
      | none ↦ none
      | some r ↦ elim (r.0) [ false ↦ some (error_read_only, r.1) | true ↦ rest (r.1) ]
    ]

    repaired :
        IsPage q → q < h → ((u : Space) → Writes u (q + 4096) h (rest u)) → Writes s q h repair
    repaired k l rec =
        let whole : page_of q ≡ q = omega (arith, k.0) in
        check_page-Writes s q h rest k l rec
          (subst (λ x. Fills q s (fill_page x s)) (sym whole) (fill_page-Fills q s k))

    guarded :
        (pt : Pt)
        → IsPage q
        → q < h
        → ((u : Space) → Writes u (q + 4096) h (rest u))
        → s.pde (get_pd_index q) ≡ some pt
        → (pt (get_pt_index q)).present ≡ true
        → (b : Bool) → (pt (get_pt_index q)).rw ≡ b
        → Writes s q h (elim (true && not b) [ false ↦ rest s | true ↦ repair ])
    guarded pt k l rec there on true w =
        Writes-cons s s q h k l
          (
            pt (get_pt_index q),
            (
              ap (λ o. in_table o (get_pt_index q)) there
                  ∙ present_entry-eq (pt (get_pt_index q)) on,
              w,
            ),
          )
          (λ p i n. refl) (rec s)
    guarded pt k l rec there on false w = repaired k l rec

    shown :
        (pt : Pt)
        → IsPage q
        → q < h
        → ((u : Space) → Writes u (q + 4096) h (rest u))
        → s.pde (get_pd_index q) ≡ some pt
        → (b : Bool) → (pt (get_pt_index q)).present ≡ b
        → Writes s q h (elim b [
          | false ↦ some (error_page_not_alloc, s)
          | true ↦ elim (true && not (pt (get_pt_index q)).rw) [ false ↦ rest s | true ↦ repair ]
        ])
    shown pt k l rec there false off = refused 510
    shown pt k l rec there true on = guarded pt k l rec there on _ refl

    table :
        IsPage q
        → q < h
        → ((u : Space) → Writes u (q + 4096) h (rest u))
        → (o : Option Pt) → s.pde (get_pd_index q) ≡ o
        → Writes s q h (elim o [
          | none ↦ some (error_page_not_alloc, s)
          | some pt ↦ elim ((pt (get_pt_index q)).present) [
            | false ↦ some (error_page_not_alloc, s)
            | true ↦ elim (true && not (pt (get_pt_index q)).rw) [ false ↦ rest s | true ↦ repair ]
          ]
        ])
    table k l rec none e = refused 510
    table k l rec (some pt) e = shown pt k l rec e _ refl

-- For a region of user space of at least one byte that ends within 2^32, when check_mem_validness
-- with the check for writing and without that for a null byte returns, it returns 0 or a negative
-- number; after 0 every page that the region touches is present and writable, those that were
-- zero-filled on demand included, and every other page is as before.
pub check_mem_validness-Writes :
    (byte : ℕ → ℕ) (va len : ℕ) (s : Space)
    → user_mem_start ≤ va
    → 0 < len
    → va + len ≤ 2 ^ 32
    → Writes s
        (page_of va)
        (page_of (final_byte va len) + page_size)
        (check_mem_validness byte va (pos len) false true s)
check_mem_validness-Writes byte va len s u h l =
    subst (Writes s (page_of va) (page_of (final_byte va len) + page_size))
      (sym (check_mem_validness-eq byte va len true s u h l))
      (check_loop-Writes byte (final_byte va len)
        (1 + (page_of (final_byte va len) - page_of va) / page_size) (page_of va)
        (page_of (final_byte va len) + page_size) (page_of va) va s (omega arith) (omega arith)
        (omega arith) (omega arith))
