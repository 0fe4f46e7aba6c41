-- ===== src/Rwlock/Tests.antt =====
-- A reader gets in, and a writer that comes after it waits.
use os_p.Base.{ℕ, zero, suc, ◌+◌, ◌-◌, ◌<◌, ◌≡◌, ◌⊎◌, refl, [], ◌∷◌, some, get_elem?, arith}
use os_p.Base.Int.{pos, negsuc, ◌+ℤ◌}
use os_p.Base.Threads.{count}
use os_p.Rwlock.{
  rwlock_init, rwlock_lock_read, rwlock_lock_write, read_round, write_round, locked, Pc, outside,
  writer_blocked, reading, is_writer_woken, is_reading, is_writing, World, gets_in, blocks,
  start_read, start_write, Reachable, begin, step,
}
use os_p.Rwlock.Steps.{Reachable-lock_state, Reachable-write_round}

abbrev new_world : World
new_world = record { lock = rwlock_init; threads = outside ∷ outside ∷ [] }

abbrev one_reader : World
one_reader = record {
  lock = record { lock_state = pos 1; writer_waiting_count = 0; reader_waiting_count = 0 };
  threads = reading ∷ outside ∷ [];
}

abbrev one_waits : World
one_waits = record {
  lock = record { lock_state = pos 1; writer_waiting_count = 1; reader_waiting_count = 0 };
  threads = reading ∷ writer_blocked ∷ [];
}

all_outside : (i : ℕ) (p : Pc) → get_elem? new_world.threads i ≡ some p → p ≡ outside
all_outside zero p e = cc
all_outside (suc zero) p e = cc
all_outside (suc (suc i)) p e = cc

reads : Reachable one_reader
unfolding rwlock_lock_read read_round rwlock_init ◌+ℤ◌
reads =
    step new_world one_reader (begin (outside ∷ outside ∷ []) all_outside)
      (start_read new_world one_reader 0 refl (gets_in one_reader.lock))

waits_for_reader : Reachable one_waits
unfolding rwlock_lock_write write_round
waits_for_reader =
    step one_reader one_waits reads
      (start_write one_reader one_waits 1 refl (blocks one_waits.lock))

Reachable-lock_state_example :
    ((one_waits.lock.lock_state ≡ pos (count is_reading one_waits.threads))
      × (count is_writing one_waits.threads ≡ 0))
    ⊎ ((one_waits.lock.lock_state ≡ negsuc 0)
        × (count is_writing one_waits.threads ≡ 1)
        × (count is_reading one_waits.threads ≡ 0))
Reachable-lock_state_example = Reachable-lock_state one_waits waits_for_reader

Reachable-write_round_example :
    (0 < count is_reading one_waits.threads + count is_writing one_waits.threads)
    ⊎ ((0 < count is_writer_woken one_waits.threads)
        × (write_round one_waits.lock
            ≡ locked (record one_waits.lock {
              lock_state = negsuc 0;
              writer_waiting_count = one_waits.lock.writer_waiting_count - 1;
            })))
unfolding count
Reachable-write_round_example = Reachable-write_round one_waits waits_for_reader (omega arith)
