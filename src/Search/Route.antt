-- ===== src/Search/Route.antt =====
-- The route of a request, and searches on an even number of worker cores.
use os_p.Base.{
  ℕ, zero, suc, ◌+◌, ◌*◌, ◌%◌, ◌≤◌, ◌<◌, ◌≡◌, ◌≢◌, refl, ap, ◌∙◌, ◌⊎◌, inl, inr, Bool, true, false,
  Option, some, arith, ==_iff, ==_false, lt_cases,
}
use native.Mathlib.Nat.{mod-eq_of_lt, add-mod_right, mod_self}
use os_p.Base.Int.{ℤ, pos, negsuc}
use os_p.Search.{
  Msg, ethread, smp_make_runnable_syscall_handler, smp_yield_syscall_handler, visit, search,
  make_runnable_search, yield_search,
}

-- The core after `c`, without the remainder.
abbrev pub step : ℕ → ℕ → ℕ
step n c = (c + 1) % n + 1

pub step-eq :
    (n c : ℕ)
    → 2 ≤ n
    → 1 ≤ c
    → c ≤ n
    → ((c + 2 ≤ n) × (step n c ≡ c + 2)) ⊎ ((n < c + 2) × (step n c + n ≡ c + 2))
step-eq n c a b h = elim (lt_cases (c + 1) n) [
  | inl less ↦ inl (omega arith, omega (arith, mod-eq_of_lt {n = c + 1} {m = n} less))
  | inr (inl e) ↦ inr (omega arith, omega (arith, ap (λ x. x % n) e, mod_self n))
  | inr (inr more) ↦
      let e : c + 1 ≡ 1 + n = omega arith in
      inr (
        omega arith,
        omega (arith, ap (λ x. x % n) e, add-mod_right 1 n, mod-eq_of_lt {n = 1} {m = n} a),
      )
]

-- The message of a search that has found nothing, about to be looked at on the core `c`.
abbrev pub asking : ℕ → ℕ → ℕ → Msg
asking req tid c = record { req_cpu = req; tid = tid; result = negsuc 0; next_core = c }

module _ (n : ℕ) (found : ℕ → ℕ → Bool) (f req tid c : ℕ) where
  abbrev round : ℕ → Option ℤ
  round fuel = search (smp_make_runnable_syscall_handler n) found fuel c (asking req tid c)

  pub round-found : found c tid ≡ true → round (suc f) ≡ some (pos 0)
  unfolding search visit smp_make_runnable_syscall_handler
  round-found e = rw e

  pub round-back : found c tid ≡ false → step n c ≡ req → round (suc f) ≡ some ethread
  unfolding search visit smp_make_runnable_syscall_handler
  round-back e b = rw e (rw ((==_iff (step n c) req).1 b))

  pub round-next :
      found c tid ≡ false
      → step n c ≢ req
      → round (suc f)
        ≡ search
            (smp_make_runnable_syscall_handler n)
            found
            f
            (step n c)
            (asking req tid (step n c))
  unfolding search visit smp_make_runnable_syscall_handler
  round-next e b = rw e (rw (==_false (step n c) req b))

module _ (m : ℕ) (found : ℕ → ℕ → Bool) (req tid : ℕ) (low : 1 ≤ req) (high : req ≤ 2 * m)
    (absent : (c : ℕ) → c % 2 ≡ req % 2 → found c tid ≡ false) where
  -- After `j` visits, with `f + 1` to go.
  even_rounds :
      (f j c : ℕ)
      → f + suc j ≡ m
      → 1 ≤ c
      → c ≤ 2 * m
      → (c ≡ req + 2 * j) ⊎ (c + 2 * m ≡ req + 2 * j)
      → search (smp_make_runnable_syscall_handler (2 * m)) found (suc f) c (asking req tid c)
        ≡ some ethread
  even_rounds zero j c e a b at =
      round-back (2 * m) found 0 req tid c (absent c (omega (arith, at)))
        (omega (arith, at, step-eq (2 * m) c (omega arith) a b))
  even_rounds (suc f) j c e a b at =
      let s = step-eq (2 * m) c (omega arith) a b in
      round-next (2 * m) found (suc f) req tid c (absent c (omega (arith, at)))
        (λ q. omega (arith, at, s, q))
      ∙ even_rounds f (suc j) (step (2 * m) c) (omega arith) (omega (arith, s)) (omega (arith, s))
          (omega (arith, at, s))

-- With an even number of worker cores a make_runnable request visits only the cores of the parity
-- of the core that asks: if the thread is on none of these, the call fails with ETHREAD, whatever
-- the other cores have.
pub make_runnable_search-even :
    (m : ℕ) (found : ℕ → ℕ → Bool) (cpu tid : ℕ)
    → 1 ≤ cpu
    → cpu ≤ 2 * m
    → ((c : ℕ) → c % 2 ≡ cpu % 2 → found c tid ≡ false)
    → make_runnable_search (2 * m) found m cpu tid ≡ some ethread
unfolding make_runnable_search
make_runnable_search-even zero found cpu tid low high absent = absurd (omega arith)
make_runnable_search-even (suc m) found cpu tid low high absent =
    even_rounds (suc m) found cpu tid low high absent m 0 cpu (omega arith) low high
      (inl (omega arith))

-- yield() looks for its thread on the cores that make_runnable() visits, with the same result.
pub yield_search-eq :
    (n : ℕ) (found : ℕ → ℕ → Bool) (fuel cpu tid : ℕ)
    → yield_search n found fuel cpu tid ≡ make_runnable_search n found fuel cpu tid
unfolding yield_search make_runnable_search smp_yield_syscall_handler
    smp_make_runnable_syscall_handler
yield_search-eq n found fuel cpu tid = refl
