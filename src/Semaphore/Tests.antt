-- ===== src/Semaphore/Tests.antt =====
-- A thread waits on a semaphore without units, and another signals it.
use os_p.Base.{ℕ, zero, suc, ◌+◌, ◌-◌, ◌≤◌, ◌≡◌, refl, [], ◌∷◌, some, get_elem?, arith}
use os_p.Base.Int.{pos, ◌+ℤ◌}
use os_p.Base.Threads.{count}
use os_p.Semaphore.{
  sem_init, sem_wait, wait_round, sem_signal, Pc, outside, blocked, signalling, is_woken,
  is_signalling, World, gets_blocked, start_wait, start_signal, Reachable, begin, step,
}
use os_p.Semaphore.Balance.{Reachable-sem, Reachable-signalling}

abbrev new_world : World
new_world = record { sem = pos 0; threads = outside ∷ outside ∷ []; taken = 0; given = 0 }

abbrev one_waits : World
one_waits = record { sem = pos 0; threads = blocked ∷ outside ∷ []; taken = 0; given = 0 }

abbrev one_signals : World
one_signals = record { sem = pos 1; threads = blocked ∷ signalling ∷ []; taken = 0; given = 1 }

all_outside : (i : ℕ) (p : Pc) → get_elem? new_world.threads i ≡ some p → p ≡ outside
all_outside zero p e = cc
all_outside (suc zero) p e = cc
all_outside (suc (suc i)) p e = cc

waits_for_unit : Reachable 0 one_waits
unfolding sem_init sem_wait wait_round
waits_for_unit =
    step new_world one_waits (begin (pos 0) (outside ∷ outside ∷ []) refl all_outside)
      (start_wait new_world one_waits 0 refl gets_blocked)

signals : Reachable 0 one_signals
unfolding sem_signal ◌+ℤ◌
signals = step one_waits one_signals waits_for_unit (start_signal one_waits 1 (pos 1) refl refl)

Reachable-sem_example : (0 ≤ 0 + 1) × (one_signals.sem ≡ pos (0 + 1 - 0))
Reachable-sem_example = Reachable-sem 0 one_signals signals

Reachable-signalling_example :
    0 + 1 ≤ 0 + count is_woken one_signals.threads + count is_signalling one_signals.threads
unfolding count
Reachable-signalling_example = Reachable-signalling 0 one_signals signals (omega arith)
