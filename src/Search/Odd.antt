-- ===== src/Search/Odd.antt =====
-- Searches on an odd number of worker cores, three or more.
use os_p.Base.{
  ℕ, zero, suc, ◌+◌, ◌-◌, ◌*◌, ◌/◌, ◌%◌, ◌≤◌, ◌<◌, ◌≡◌, ◌≢◌, ◌∙◌, subst, ◌⊎◌, inl, inr, Bool, true,
  some, arith, Bool-cases, eq_cases, dec_le,
}
use os_p.Base.Int.{pos}
use os_p.Search.{smp_make_runnable_syscall_handler, search, make_runnable_search}
use os_p.Search.Route.{step, step-eq, asking, round-found, round-next}

-- `c` is the core `x`, counted round the `n` cores.
abbrev Near : ℕ → ℕ → ℕ → Type 0
Near n c x = (c ≡ x) ⊎ (c + n ≡ x) ⊎ (c + 2 * n ≡ x)

module _ (m : ℕ) (found : ℕ → ℕ → Bool) (req tid : ℕ) (big : 1 ≤ m) (low : 1 ≤ req)
    (high : req ≤ 2 * m + 1) where
  abbrev n : ℕ
  n = 2 * m + 1

  Near-step :
      (j c : ℕ)
      → j + 1 < n
      → 1 ≤ c
      → c ≤ n
      → Near n c (req + 2 * j)
      → (1 ≤ step n c) × (step n c ≤ n) × Near n (step n c) (req + 2 * (j + 1)) × (step n c ≢ req)
  Near-step j c h a b at =
      let s = step-eq n c (omega arith) a b in
      (omega arith, omega (arith, s), omega (arith, s, at), λ q. omega (arith, s, at, q))

  hit_rounds :
      (d : ℕ)
      → 1 ≤ d
      → d ≤ n
      → found d tid ≡ true
      → (f j k c : ℕ) → Near n d (req + 2 * (j + k))
      → j + k < n
      → k < f
      → 1 ≤ c
      → c ≤ n
      → Near n c (req + 2 * j)
      → search (smp_make_runnable_syscall_handler n) found f c (asking req tid c) ≡ some (pos 0)
  hit_rounds d dl dh on zero j k c target b e a h at = absurd (omega arith)
  hit_rounds d dl dh on (suc f) j zero c target b e a h at =
      let here : d ≡ c = omega (arith, target, at) in
      round-found n found f req tid c (subst (λ x. found x tid ≡ true) here on)
  hit_rounds d dl dh on (suc f) j (suc k) c target b e a h at = elim (Bool-cases (found c tid)) [
    | inl yes_here ↦ round-found n found f req tid c yes_here
    | inr not_here ↦
        let (sl, sh, near, ne) = Near-step j c (omega arith) a h at in
        round-next n found f req tid c not_here ne
        ∙ hit_rounds d dl dh on f (j + 1) k (step n c) (omega (arith, target)) (omega arith)
            (omega arith) sl sh near
  ]

  -- The visit at which the core `d` is looked at.
  turn : (d : ℕ) → 1 ≤ d → d ≤ n → (k : ℕ) × (k < n) × Near n d (req + 2 * k)
  turn d a b = elim (dec_le req d) [
    | yes h ↦ elim (eq_cases ((d - req) % 2) 0) [
      | inl e ↦ ((d - req) / 2, omega arith, inl (omega arith))
      | inr e ↦ ((d - req + n) / 2, omega arith, inr (inl (omega arith)))
    ]
    | no h ↦ elim (eq_cases ((d + n - req) % 2) 0) [
      | inl e ↦ ((d + n - req) / 2, omega arith, inr (inl (omega arith)))
      | inr e ↦ ((d + n - req + n) / 2, omega arith, inr (inr (omega arith)))
    ]
  ]

-- With an odd number of worker cores, three or more, as many visits as there are cores find the
-- thread if any core has it, and make_runnable returns 0.
pub make_runnable_search-odd :
    (m : ℕ) (found : ℕ → ℕ → Bool) (cpu tid d : ℕ)
    → 1 ≤ m
    → 1 ≤ cpu
    → cpu ≤ 2 * m + 1
    → 1 ≤ d
    → d ≤ 2 * m + 1
    → found d tid ≡ true
    → make_runnable_search (2 * m + 1) found (2 * m + 1) cpu tid ≡ some (pos 0)
unfolding make_runnable_search
make_runnable_search-odd m found cpu tid d big low high dl dh on =
    let (k, b, near) = turn m found cpu tid big low high d dl dh in
    hit_rounds m found cpu tid big low high d dl dh on (2 * m + 1) 0 k cpu (omega (arith, near))
      (omega arith) b low high (inl (omega arith))
