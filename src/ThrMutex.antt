-- ===== src/ThrMutex.antt =====
-- user/libthread/mutex.c: the mutex of the thread library. The inner spinlock makes each call one step, but
-- for the loops that yield. Unlike the mutex of the kernel it does not name its holder.
mod Forget
use os_p.Base.{ℕ, ◌≡◌, Bool, true, false, not, List, [], ◌∷◌, Option, none, some, if◌then◌else◌}
use os_p.Base.Int.{ℤ, pos, negsuc, eqb_ℤ, ltb_ℤ}
use os_p.SimpleQueue.Fifo.{enqueue}

-- `lock_available` is 1, 0 if the mutex is locked and -1 if it is destroyed.
pub record ThrMutex : Type 0 where
  pub lock_available : ℤ
  pub deque : List ℕ

pub thr_mutex_init : ThrMutex
thr_mutex_init = record { lock_available = pos 1; deque = [] }

-- A call that finds the mutex in the wrong state retries, or panics if it is destroyed.
pub data Locking : Type 0 where
  gets_lock : ThrMutex → Locking
  queues : ThrMutex → Locking
  lock_panics : Locking

pub thr_mutex_lock : ThrMutex → ℕ → Locking
thr_mutex_lock mp ktid =
    if ltb_ℤ mp.lock_available (pos 0)
    then lock_panics
    else if not (eqb_ℤ mp.lock_available (pos 0))
    then gets_lock (record mp { lock_available = pos 0 })
    else queues (record mp { deque = enqueue mp.deque ktid })

-- The thread whose `reject` is set, if any.
pub data Unlocking : Type 0 where
  gives_to : Option ℕ → ThrMutex → Unlocking
  unlock_retries : Unlocking
  unlock_panics : Unlocking

pub pass_on : List ℕ → ThrMutex → Unlocking
pass_on [] mp = gives_to none (record mp { lock_available = pos 1 })
pass_on (ktid ∷ rest) mp = gives_to (some ktid) (record mp { deque = rest })

pub thr_mutex_unlock : ThrMutex → Unlocking
thr_mutex_unlock mp =
    if ltb_ℤ mp.lock_available (pos 0)
    then unlock_panics
    else if eqb_ℤ mp.lock_available (pos 1)
    then unlock_retries
    else pass_on mp.deque mp
