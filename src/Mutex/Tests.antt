-- ===== src/Mutex/Tests.antt =====
-- The mutex at a concrete world: thread 5 has it and thread 6 waits.
use os_p.Base.{ℕ, ◌≡◌, refl, ◌⊎◌, some, [], ◌∷◌}
use os_p.Base.Int.{pos}
use os_p.SimpleQueue.Fifo.{enqueue}
use os_p.SimpleQueue.Links.{NotIn}
use os_p.Mutex.{
  mutex_init, mutex_lock, hand_over, mutex_unlock, outside, waiting, inside, World, set_status,
  enter, block, start, Reachable, begin, step,
}
use os_p.Mutex.Exclusion.{Reachable-Exclusive}

abbrev one_in : World
one_in = record {
  mutex = record { lock_holder = pos 5; deque = [] };
  status = set_status (λ x. outside) 5 inside;
}

abbrev one_waits : World
one_waits = record {
  mutex = record { lock_holder = pos 5; deque = 6 ∷ [] };
  status = set_status one_in.status 6 waiting;
}

one_waits-Reachable : Reachable one_waits
unfolding mutex_init mutex_lock enqueue
one_waits-Reachable =
    step one_in one_waits (step start one_in begin (enter start one_in.mutex 5 refl refl))
      (block one_in one_waits.mutex 6 refl refl)

Reachable-Exclusive_example :
    ((t u : ℕ) → one_waits.status t ≡ inside → one_waits.status u ≡ inside → t ≡ u)
    × ((t : ℕ)
        → one_waits.status t ≡ inside
        → mutex_unlock one_waits.mutex ≡ some (hand_over one_waits.mutex.deque))
    × ((t : ℕ)
        → one_waits.status t ≡ waiting
        → (one_waits.mutex.lock_holder ≡ pos t)
          ⊎ ((h : ℕ) × (one_waits.mutex.lock_holder ≡ pos h) × (¬ NotIn t one_waits.mutex.deque)))
Reachable-Exclusive_example = Reachable-Exclusive one_waits one_waits-Reachable
