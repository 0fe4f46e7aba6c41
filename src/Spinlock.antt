-- ===== src/Spinlock.antt =====
-- kern/spinlock.c: the lock that at most two cores share, access by access. Core 0 has the slot 0 of
-- `waiting`, every other core the slot 1.
pub mod Token
pub mod Turns
mod Tests
use os_p.Base.{ℕ, Bool, true, false, List, [], ◌∷◌, ◌==◌, if◌then◌else◌}

-- Where a core stands: not at the lock, about to read its `waiting`, about to exchange `available`,
-- about to clear its `waiting`, in the region that the lock protects, and in `spinlock_unlock` about
-- to clear the other's `waiting` or to set `available`.
pub data Pc : Type 0 where
  idle : Pc
  spin : Pc
  xchg : Pc
  clear : Pc
  critical : Pc
  hand : Pc
  release : Pc

-- The two fields and the two cores; 1 is set.
pub record Spinlock : Type 0 where
  pub available : ℕ
  pub waiting_0 : ℕ
  pub waiting_1 : ℕ
  pub pc_0 : Pc
  pub pc_1 : Pc

pub spinlock_init : Spinlock
spinlock_init = record { available = 1; waiting_0 = 0; waiting_1 = 0; pc_0 = idle; pc_1 = idle }

-- The next access of a core that stands at `pc`, whose flag is `mine` and the other's `other`:
-- `available`, both flags and where it stands then.
pub access : Pc → ℕ → ℕ → ℕ → ℕ × ℕ × ℕ × Pc
access idle available mine other = (available, 1, other, spin)
access spin available mine other = (available, mine, other, if mine == 0 then clear else xchg)
access xchg available mine other = (0, mine, other, if available == 0 then spin else clear)
access clear available mine other = (available, 0, other, critical)
access critical available mine other =
    (available, mine, other, if other == 0 then release else hand)
access hand available mine other = (available, mine, 0, idle)
access release available mine other = (1, mine, other, idle)

-- `true` lets core 0 make its next access, `false` the other core.
pub spin_step : Bool → Spinlock → Spinlock
spin_step true s =
    let r = access s.pc_0 s.available s.waiting_0 s.waiting_1 in
    record { available = r.0; waiting_0 = r.1; waiting_1 = r.2; pc_0 = r.3; pc_1 = s.pc_1 }
spin_step false s =
    let r = access s.pc_1 s.available s.waiting_1 s.waiting_0 in
    record { available = r.0; waiting_0 = r.2; waiting_1 = r.1; pc_0 = s.pc_0; pc_1 = r.3 }

pub spin_run : List Bool → Spinlock → Spinlock
spin_run [] s = s
spin_run (t ∷ ts) s = spin_run ts (spin_step t s)
