-- ===== src/Spinlock/Turns.antt =====
-- How often the other core may enter before a core that waits.
use os_p.Base.{ℕ, ◌+◌, ◌≤◌, ◌≡◌, ◌≢◌, refl, ap, Bool, true, false, List, [], ◌∷◌, arith}
use os_p.Spinlock.{
  Pc, idle, spin, xchg, clear, critical, hand, release, Spinlock, spinlock_init, access, spin_step,
  spin_run,
}
use os_p.Spinlock.Token.{
  Invariant, IsReached, Invariant-comm, spin_step-IsReached, spin_run-IsReached,
  spinlock_init-IsReached,
}

-- A core that has set its flag and is not yet inside.
abbrev pub waits : Pc → Bool
waits spin = true
waits xchg = true
waits clear = true
waits _ = false

-- 1 for the access with which a core enters.
abbrev pub enters : Pc → ℕ
enters clear = 1
enters _ = 0

-- `n`, if the next access of a core at `p` does not let it in.
abbrev pub unless_enters : Pc → ℕ → ℕ
unless_enters clear n = 0
unless_enters _ n = n

-- How often the other core enters in a run before core 0 does, and before core 1 does.
abbrev pub overtakes_0 : List Bool → Spinlock → ℕ
overtakes_0 [] s = 0
overtakes_0 (false ∷ ts) s = enters s.pc_1 + overtakes_0 ts (spin_step false s)
overtakes_0 (true ∷ ts) s = unless_enters s.pc_0 (overtakes_0 ts (spin_step true s))

abbrev pub overtakes_1 : List Bool → Spinlock → ℕ
overtakes_1 [] s = 0
overtakes_1 (true ∷ ts) s = enters s.pc_0 + overtakes_1 ts (spin_step true s)
overtakes_1 (false ∷ ts) s = unless_enters s.pc_1 (overtakes_1 ts (spin_step false s))

-- The times that the rival at `q` can still enter, for a waiter at `p` with the flag `w`.
abbrev left : Pc → ℕ → Pc → ℕ
left clear w q = 0
left p w critical = 0
left p w hand = 0
left p w q = w

left-rival :
    (p q : Pc) (a w v : ℕ)
    → waits p ≡ true
    → Invariant a w v p q
    → (let r = access q a v w in enters q + left p r.2 r.3 ≤ left p w q)
unfolding access
left-rival spin idle a w v h i = ground arith
left-rival _ _ a w v h i = ground arith

left-waiter :
    (p q : Pc) (a w v : ℕ)
    → waits p ≡ true
    → p ≢ clear
    → Invariant a w v p q
    → (let r = access p a w v in (waits r.3 ≡ true) × (left r.3 r.1 q ≤ left p w q))
unfolding access
left-waiter spin idle a w v h n i = ground arith
left-waiter _ _ a w v h n i = ground arith

unless_enters-le : (p : Pc) (n k : ℕ) → (p ≢ clear → n ≤ k) → unless_enters p n ≤ k
unless_enters-le clear n k h = omega arith
unless_enters-le idle n k h = h (λ e. cc)
unless_enters-le spin n k h = h (λ e. cc)
unless_enters-le xchg n k h = h (λ e. cc)
unless_enters-le critical n k h = h (λ e. cc)
unless_enters-le hand n k h = h (λ e. cc)
unless_enters-le release n k h = h (λ e. cc)

overtakes_0-le :
    (ts : List Bool) (s : Spinlock)
    → IsReached s
    → waits s.pc_0 ≡ true
    → overtakes_0 ts s ≤ left s.pc_0 s.waiting_0 s.pc_1
unfolding spin_step
overtakes_0-le [] s i h = omega arith
overtakes_0-le (false ∷ ts) s i h = omega (
  arith,
  left-rival s.pc_0 s.pc_1 s.available s.waiting_0 s.waiting_1 h i,
  overtakes_0-le ts (spin_step false s) (spin_step-IsReached false s i) h,
)
overtakes_0-le (true ∷ ts) s i h = unless_enters-le s.pc_0 _ _ (λ n.
    let (w, l) = left-waiter s.pc_0 s.pc_1 s.available s.waiting_0 s.waiting_1 h n i in
    omega (arith, l, overtakes_0-le ts (spin_step true s) (spin_step-IsReached true s i) w))

left-le : (p q : Pc) (a w v : ℕ) → waits p ≡ true → Invariant a w v p q → left p w q ≤ 1
left-le spin idle a w v h i = ground arith
left-le _ _ a w v h i = ground arith

-- The two cores in each other's place.
abbrev swapped : Spinlock → Spinlock
swapped s = record {
  available = s.available;
  waiting_0 = s.waiting_1;
  waiting_1 = s.waiting_0;
  pc_0 = s.pc_1;
  pc_1 = s.pc_0;
}

abbrev flipped : List Bool → List Bool
flipped [] = []
flipped (true ∷ ts) = false ∷ flipped ts
flipped (false ∷ ts) = true ∷ flipped ts

overtakes_1-eq :
    (ts : List Bool) (s : Spinlock) → overtakes_1 ts s ≡ overtakes_0 (flipped ts) (swapped s)
unfolding spin_step
overtakes_1-eq [] s = refl
overtakes_1-eq (true ∷ ts) s = ap (λ n. enters s.pc_0 + n) (overtakes_1-eq ts (spin_step true s))
overtakes_1-eq (false ∷ ts) s = ap (unless_enters s.pc_1) (overtakes_1-eq ts (spin_step false s))

abbrev pub pc_of : Bool → Spinlock → Pc
pc_of true s = s.pc_0
pc_of false s = s.pc_1

abbrev pub overtakes : Bool → List Bool → Spinlock → ℕ
overtakes true = overtakes_0
overtakes false = overtakes_1

-- From any state that a run from spinlock_init reaches in which a core waits for the spinlock, in
-- every further run the other core enters at most once before it does.
pub overtakes-le_one :
    (core : Bool) (before ts : List Bool)
    → waits (pc_of core (spin_run before spinlock_init)) ≡ true
    → overtakes core ts (spin_run before spinlock_init) ≤ 1
overtakes-le_one true before ts h =
    let s = spin_run before spinlock_init in
    let i = spin_run-IsReached before spinlock_init spinlock_init-IsReached in
    omega (
      arith,
      overtakes_0-le ts s i h,
      left-le s.pc_0 s.pc_1 s.available s.waiting_0 s.waiting_1 h i,
    )
overtakes-le_one false before ts h =
    let s = spin_run before spinlock_init in
    let i = spin_run-IsReached before spinlock_init spinlock_init-IsReached in
    let j = Invariant-comm s.available s.waiting_0 s.waiting_1 s.pc_0 s.pc_1 i in
    omega (
      arith,
      overtakes_1-eq ts s,
      overtakes_0-le (flipped ts) (swapped s) j h,
      left-le s.pc_1 s.pc_0 s.available s.waiting_1 s.waiting_0 h j,
    )
