-- ===== src/Spinlock/Tests.antt =====
-- Runs of the spinlock: core 0 enters, core 1 waits, and the lock is handed over.
use os_p.Base.{◌≤◌, ◌≡◌, refl, Bool, true, false, List, [], ◌∷◌, ◌++◌}
use os_p.Spinlock.{critical, spinlock_init, access, spin_step, spin_run}
use os_p.Spinlock.Token.{inside, spin_run_excludes}
use os_p.Spinlock.Turns.{waits, pc_of, overtakes, overtakes-le_one}

-- Core 0 is inside, and core 1 spins.
abbrev contended : List Bool
contended = true ∷ true ∷ true ∷ true ∷ false ∷ false ∷ false ∷ []

-- Core 0 leaves, and tries to come back before core 1 has noticed.
abbrev retry : List Bool
retry = true ∷ true ∷ true ∷ true ∷ true ∷ true ∷ true ∷ false ∷ false ∷ []

handed_over : (spin_run retry (spin_run contended spinlock_init)).pc_1 ≡ critical
unfolding spin_run spin_step access spinlock_init
handed_over = refl

rival_waits : waits (pc_of false (spin_run contended spinlock_init)) ≡ true
unfolding spin_run spin_step access spinlock_init
rival_waits = refl

spin_run_excludes_example : ¬ (
    (inside (spin_run (contended ++ retry) spinlock_init).pc_0 ≡ true)
    × (inside (spin_run (contended ++ retry) spinlock_init).pc_1 ≡ true))
spin_run_excludes_example = spin_run_excludes (contended ++ retry)

overtakes-le_one_example : overtakes false retry (spin_run contended spinlock_init) ≤ 1
overtakes-le_one_example = overtakes-le_one false contended retry rival_waits
