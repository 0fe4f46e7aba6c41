-- ===== src/Mutex.antt =====
-- kern/mutex.c: the mutex that hands itself over to the thread that has waited longest. The inner
-- spinlock makes each call one step, but for the loop in which a thread waits. A thread is its tid.
pub mod Held
pub mod Exclusion
mod Tests
use os_p.Base.{ℕ, ◌≡◌, Bool, true, false, List, [], ◌∷◌, Option, none, some, ◌==◌, if◌then◌else◌}
use os_p.Base.Int.{ℤ, pos, negsuc, eqb_ℤ}
use os_p.SimpleQueue.Fifo.{enqueue}

pub record Mutex : Type 0 where
  pub lock_holder : ℤ  -- -1 if the lock is available, -2 if it is destroyed
  pub deque : List ℕ

abbrev pub available : ℤ
available = negsuc 0

abbrev pub destroyed : ℤ
destroyed = negsuc 1

unfoldable pub mutex_init : Mutex
mutex_init = record { lock_holder = available; deque = [] }

-- A call of `mutex_lock` up to its loop: it has the lock, has to wait, or panics.
pub data LockResult : Type 0 where
  locked : Mutex → LockResult
  waits : Mutex → LockResult
  lock_panics : LockResult

unfoldable pub mutex_lock : Mutex → ℕ → LockResult
mutex_lock mp thr =
    if eqb_ℤ mp.lock_holder destroyed
    then lock_panics
    else if eqb_ℤ mp.lock_holder available
    then locked (record mp { lock_holder = pos thr })
    else waits (record mp { deque = enqueue mp.deque thr })

-- `true` is the return value 0; `none` a panic.
unfoldable pub mutex_try_lock : Mutex → ℕ → Option (Bool × Mutex)
mutex_try_lock mp thr =
    if eqb_ℤ mp.lock_holder destroyed
    then none
    else if eqb_ℤ mp.lock_holder available
    then some (true, record mp { lock_holder = pos thr })
    else some (false, mp)

unfoldable pub hand_over : List ℕ → Option ℕ × Mutex
hand_over [] = (none, record { lock_holder = available; deque = [] })
hand_over (thr ∷ rest) = (some thr, record { lock_holder = pos thr; deque = rest })

-- The thread that is made runnable, if any; `none` a panic.
unfoldable pub mutex_unlock : Mutex → Option (Option ℕ × Mutex)
mutex_unlock mp =
    if eqb_ℤ mp.lock_holder destroyed
    then none
    else if eqb_ℤ mp.lock_holder available
    then none
    else some (hand_over mp.deque)

-- `none` is a panic.
unfoldable pub mutex_destroy : Mutex → Option Mutex
mutex_destroy mp =
    if eqb_ℤ mp.lock_holder destroyed
    then none
    else if eqb_ℤ mp.lock_holder available
    then elim mp.deque [ [] ↦ some (record mp { lock_holder = destroyed }) | _ ∷ _ ↦ none ]
    else none

pub data Status : Type 0 where
  outside : Status
  waiting : Status
  inside : Status

-- A mutex and where each thread stands.
pub record World : Type 0 where
  pub mutex : Mutex
  pub status : ℕ → Status

abbrev pub set_status : (ℕ → Status) → ℕ → Status → ℕ → Status
set_status status thr s x = if x == thr then s else status x

-- The steps of threads that lock, wait until `lock_holder` is their tid, and unlock what they hold.
pub data Step : World → World → Type 0 where
  enter :
      (w : World) (m : Mutex) (thr : ℕ)
      → w.status thr ≡ outside
      → mutex_lock w.mutex thr ≡ locked m
      → Step w (record { mutex = m; status = set_status w.status thr inside })
  block :
      (w : World) (m : Mutex) (thr : ℕ)
      → w.status thr ≡ outside
      → mutex_lock w.mutex thr ≡ waits m
      → Step w (record { mutex = m; status = set_status w.status thr waiting })
  resume :
      (w : World) (thr : ℕ)
      → w.status thr ≡ waiting
      → w.mutex.lock_holder ≡ pos thr
      → Step w (record { mutex = w.mutex; status = set_status w.status thr inside })
  leave :
      (w : World) (m : Mutex) (woken : Option ℕ) (thr : ℕ)
      → w.status thr ≡ inside
      → mutex_unlock w.mutex ≡ some (woken, m)
      → Step w (record { mutex = m; status = set_status w.status thr outside })

-- A mutex that nobody has locked, and the worlds that steps lead to.
abbrev pub start : World
start = record { mutex = mutex_init; status = λ x. outside }

pub data Reachable : World → Type 0 where
  begin : Reachable start
  step : (v w : World) → Reachable v → Step v w → Reachable w
