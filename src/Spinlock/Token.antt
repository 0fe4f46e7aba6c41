-- ===== src/Spinlock/Token.antt =====
-- The right to enter the region as a token: it lies in `available`, with a core, or in a flag that
-- the other core has cleared.
use os_p.Base.{ℕ, ◌+◌, ◌-◌, ◌≤◌, ◌≡◌, refl, Bool, true, false, List, [], ◌∷◌, arith}
use os_p.Spinlock.{
  Pc, idle, spin, xchg, clear, critical, hand, release, Spinlock, spinlock_init, access, spin_step,
  spin_run,
}

-- 1 if the core that stands at `pc` with this flag has the token.
abbrev pub token : Pc → ℕ → ℕ
token idle mine = 0
token spin mine = 1 - mine
token xchg mine = 1 - mine
token _ mine = 1

-- What a core's flag is where it stands. About to clear the other's, it has seen it set.
abbrev pub Fits : Pc → ℕ → ℕ → Type 0
Fits spin mine other = mine ≤ 1
Fits xchg mine other = mine ≤ 1
Fits clear mine other = mine ≤ 1
Fits hand mine other = (mine ≡ 0) × (other ≡ 1)
Fits _ mine other = mine ≡ 0

-- `available`, the flag and place of one core, and those of the other.
pub record Invariant (available w v : ℕ) (p q : Pc) : Type 0 where
  pub one : available + token p w + token q v ≡ 1
  pub mine : Fits p w v
  pub yours : Fits q v w

-- An access keeps exactly one token.
pub access-Invariant :
    (p q : Pc) (a w v : ℕ)
    → Invariant a w v p q
    → (let r = access p a w v in Invariant r.0 r.1 r.2 r.3 q)
unfolding access
access-Invariant idle idle a w v i = ground arith
access-Invariant _ _ a w v i = ground arith

abbrev pub IsReached : Spinlock → Type 0
IsReached s = Invariant s.available s.waiting_0 s.waiting_1 s.pc_0 s.pc_1

pub Invariant-comm : (a w v : ℕ) (p q : Pc) → Invariant a w v p q → Invariant a v w q p
Invariant-comm a w v p q i = record { one = omega (arith, i.one); mine = i.yours; yours = i.mine }

pub spin_step-IsReached : (t : Bool) (s : Spinlock) → IsReached s → IsReached (spin_step t s)
unfolding spin_step
spin_step-IsReached true s i = access-Invariant s.pc_0 s.pc_1 s.available s.waiting_0 s.waiting_1 i
spin_step-IsReached false s i =
    let r = access s.pc_1 s.available s.waiting_1 s.waiting_0 in
    Invariant-comm r.0 r.1 r.2 r.3 s.pc_0 (
      access-Invariant s.pc_1 s.pc_0 s.available s.waiting_1 s.waiting_0
        (Invariant-comm s.available s.waiting_0 s.waiting_1 s.pc_0 s.pc_1 i))

pub spin_run-IsReached : (ts : List Bool) (s : Spinlock) → IsReached s → IsReached (spin_run ts s)
unfolding spin_run
spin_run-IsReached [] s i = i
spin_run-IsReached (t ∷ ts) s i = spin_run-IsReached ts (spin_step t s) (spin_step-IsReached t s i)

pub spinlock_init-IsReached : IsReached spinlock_init
unfolding spinlock_init
spinlock_init-IsReached = omega arith

-- Between the end of `spinlock_lock` and that of `spinlock_unlock`.
abbrev pub inside : Pc → Bool
inside critical = true
inside hand = true
inside release = true
inside _ = false

inside-token : (p : Pc) (mine : ℕ) → inside p ≡ true → token p mine ≡ 1
inside-token critical mine e = refl
inside-token p mine e = ground arith

-- After any run of the accesses of two cores from spinlock_init the two cores are not both between
-- the end of spinlock_lock and the end of spinlock_unlock.
pub spin_run_excludes :
    (ts : List Bool)
    → ¬ (
        (inside (spin_run ts spinlock_init).pc_0 ≡ true)
        × (inside (spin_run ts spinlock_init).pc_1 ≡ true))
spin_run_excludes ts (e, f) =
    let s = spin_run ts spinlock_init in
    let i = spin_run-IsReached ts spinlock_init spinlock_init-IsReached in
    absurd
      (omega (arith, i.one, inside-token s.pc_0 s.waiting_0 e, inside-token s.pc_1 s.waiting_1 f))
