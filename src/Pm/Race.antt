-- ===== src/Pm/Race.antt =====
-- `reserve_frames` access by access, for threads of one core that preempt one another: the call
-- stores what `atomic_add` returned back into the counter, by a second access.
use os_p.Base.{
  ℕ, zero, suc, ◌+◌, ◌-◌, ◌≤◌, ◌≡◌, Bool, true, false, List, [], ◌∷◌, arith, if◌then◌else◌,
}
use os_p.Base.Int.{ℤ, pos, ◌+ℤ◌, ◌-ℤ◌, ltb_ℤ}
use os_p.Pm.{Pm, reserve_frames}

-- Where a call stands, with the value that `atomic_add` returned.
pub data Pc : Type 0 where
  start : Pc
  added : ℤ → Pc
  stored : Pc
  failing : Pc
  done : Bool → Pc

-- One access of a call for `count` frames to the counter.
pub reserve_step : ℕ → ℤ → Pc → ℤ × Pc
reserve_step count left start = (left -ℤ pos count, added (left -ℤ pos count))
reserve_step count left (added r) = (r, stored)
reserve_step count left stored = (left, if ltb_ℤ left (pos 0) then failing else done true)
reserve_step count left failing = (left +ℤ pos count, done false)
reserve_step count left (done b) = (left, done b)

abbrev pub reserve_steps : ℕ → ℕ → ℤ × Pc → ℤ × Pc
reserve_steps zero count s = s
reserve_steps (suc n) count s = reserve_steps n count (reserve_step count s.0 s.1)

-- A call of reserve_frames that is not preempted does in four accesses to the counter what
-- reserve_frames does at once.
pub reserve_steps-eq :
    (p : Pm) (count : ℕ)
    → (let r = reserve_frames p count in
        reserve_steps 4 count (p.left, start) ≡ (r.1.left, done r.0))
unfolding reserve_frames reserve_step
reserve_steps-eq p count = ground arith

-- Two calls over one counter.
pub record Pair : Type 0 where
  pub left : ℤ
  pub first : Pc
  pub second : Pc

-- `true` lets the first call make an access, `false` the second.
pub pair_step : ℕ → ℕ → Bool → Pair → Pair
pair_step a b true s = let r = reserve_step a s.left s.first in record s { left = r.0; first = r.1 }
pair_step a b false s =
    let r = reserve_step b s.left s.second in record s { left = r.0; second = r.1 }

pub pair_run : ℕ → ℕ → List Bool → Pair → Pair
pair_run a b [] s = s
pair_run a b (t ∷ ts) s = pair_run a b ts (pair_step a b t s)

-- The second call runs between the two writes of the first.
abbrev pub preempted : List Bool
preempted = true ∷ false ∷ false ∷ false ∷ true ∷ true ∷ []

-- If a + b frames are left and a call of reserve_frames for b frames runs to its end between the
-- atomic_add and the store of a call for a frames on the same core, both succeed and the count
-- falls by a alone: the second reservation is lost.
pub lost_reservation :
    (n a b : ℕ)
    → a + b ≤ n
    → pair_run a b preempted (record { left = pos n; first = start; second = start })
      ≡ record { left = pos (n - a); first = done true; second = done true }
unfolding pair_run pair_step reserve_step ◌-ℤ◌
lost_reservation n a b h = ground arith
