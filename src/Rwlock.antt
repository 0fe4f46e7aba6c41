-- ===== src/Rwlock.antt =====
-- user/libthread/rwlock.c over user/libthread/cond_var.c: the readers/writers lock, and threads that
-- lock, downgrade and unlock it as a step relation. The inner mutex makes each stretch between two
-- waits one step; a thread that waits on a condition variable is blocked until a signal wakes it.
pub mod Held
pub mod Release
pub mod Moves
pub mod Steps
mod Tests
use os_p.Base.{
  ℕ, zero, suc, ◌+◌, ◌-◌, ◌≡◌, Bool, true, false, not, ◌&&◌, ◌||◌, List, [], ◌∷◌, Option, none,
  some, ltb, ◌==◌, if◌then◌else◌, get_elem?, set, map,
}
use os_p.Base.Int.{ℤ, pos, negsuc, ◌+ℤ◌, ◌-ℤ◌, eqb_ℤ, ltb_ℤ}
use os_p.Base.Threads.{count}

-- `lock_state` is the number of readers inside, -1 for a writer and -2 if the lock is destroyed.
pub record Rwlock : Type 0 where
  pub lock_state : ℤ
  pub writer_waiting_count : ℕ
  pub reader_waiting_count : ℕ

abbrev pub destroyed : ℤ
destroyed = negsuc 1

pub rwlock_init : Rwlock
rwlock_init = record { lock_state = pos 0; writer_waiting_count = 0; reader_waiting_count = 0 }

-- A stretch of `rwlock_lock` ends with the lock, with a wait, or with a panic.
pub data Locking : Type 0 where
  locked : Rwlock → Locking
  waits : Rwlock → Locking
  lock_panics : Locking

-- The test of the readers' loop and of the `break` in it.
abbrev pub reader_waits : Rwlock → Bool
reader_waits l =
    (not (eqb_ℤ l.lock_state (pos 0)) || ltb 0 l.writer_waiting_count)
    && not (ltb_ℤ (pos 0) l.lock_state && l.writer_waiting_count == 0)

-- A round of the readers' loop; the calling thread is counted as waiting.
pub read_round : Rwlock → Locking
read_round l =
    if reader_waits l
    then waits l
    else locked (record l {
      lock_state = l.lock_state +ℤ pos 1;
      reader_waiting_count = l.reader_waiting_count - 1;
    })

pub write_round : Rwlock → Locking
write_round l =
    if not (eqb_ℤ l.lock_state (pos 0))
    then waits l
    else locked
        (record l { lock_state = negsuc 0; writer_waiting_count = l.writer_waiting_count - 1 })

pub rwlock_lock_read : Rwlock → Locking
rwlock_lock_read l =
    if eqb_ℤ l.lock_state destroyed
    then lock_panics
    else read_round (record l { reader_waiting_count = l.reader_waiting_count + 1 })

pub rwlock_lock_write : Rwlock → Locking
rwlock_lock_write l =
    if eqb_ℤ l.lock_state destroyed
    then lock_panics
    else write_round (record l { writer_waiting_count = l.writer_waiting_count + 1 })

-- Whom an unlock wakes: `cond_signal` of the writers, `cond_broadcast` to the readers.
pub data Wake : Type 0 where
  nobody : Wake
  one_writer : Wake
  all_readers : Wake

-- An unlock of a free lock tries again.
pub data Unlocking : Type 0 where
  unlocked : Rwlock → Wake → Unlocking
  unlock_retries : Unlocking
  unlock_panics : Unlocking

pub rwlock_unlock : Rwlock → Unlocking
rwlock_unlock l =
    let state =
      if ltb_ℤ (pos 0) l.lock_state then l.lock_state -ℤ pos 1 else l.lock_state +ℤ pos 1 in
    let wake =
      if eqb_ℤ state (pos 0)
      then (if ltb 0 l.writer_waiting_count then one_writer else all_readers)
      else nobody in
    if eqb_ℤ l.lock_state destroyed
    then unlock_panics
    else if eqb_ℤ l.lock_state (pos 0)
    then unlock_retries
    else unlocked (record l { lock_state = state }) wake

pub rwlock_downgrade : Rwlock → Unlocking
rwlock_downgrade l =
    if not (eqb_ℤ l.lock_state (negsuc 0))
    then unlock_panics
    else unlocked (record l { lock_state = pos 1 }) all_readers

pub rwlock_destroy : Rwlock → Unlocking
rwlock_destroy l =
    if eqb_ℤ l.lock_state destroyed
    then unlock_panics
    else if not (eqb_ℤ l.lock_state (pos 0))
        || not (l.reader_waiting_count == 0)
        || not (l.writer_waiting_count == 0)
    then unlock_retries
    else unlocked (record l { lock_state = destroyed }) nobody

-- Where a thread stands: outside, blocked on a condition variable or woken from it, or inside.
pub data Pc : Type 0 where
  outside : Pc
  reader_blocked : Pc
  reader_woken : Pc
  writer_blocked : Pc
  writer_woken : Pc
  reading : Pc
  writing : Pc

abbrev pub is_reader_blocked : Pc → Bool
is_reader_blocked reader_blocked = true
is_reader_blocked _ = false

abbrev pub is_reader_woken : Pc → Bool
is_reader_woken reader_woken = true
is_reader_woken _ = false

abbrev pub is_writer_blocked : Pc → Bool
is_writer_blocked writer_blocked = true
is_writer_blocked _ = false

abbrev pub is_writer_woken : Pc → Bool
is_writer_woken writer_woken = true
is_writer_woken _ = false

abbrev pub is_reading : Pc → Bool
is_reading reading = true
is_reading _ = false

abbrev pub is_writing : Pc → Bool
is_writing writing = true
is_writing _ = false

-- A lock and where each thread stands.
pub record World : Type 0 where
  pub lock : Rwlock
  pub threads : List Pc

abbrev pub wake_reader : Pc → Pc
wake_reader reader_blocked = reader_woken
wake_reader p = p

-- A signal wakes one blocked writer, whichever, if there is one.
pub data Wakes : Wake → List Pc → List Pc → Type 0 where
  wakes_nobody : {ts : List Pc} → Wakes nobody ts ts
  wakes_readers : {ts : List Pc} → Wakes all_readers ts (map wake_reader ts)
  wakes_writer :
      {ts : List Pc} (i : ℕ)
      → get_elem? ts i ≡ some writer_blocked
      → Wakes one_writer ts (set ts i writer_woken)
  no_writer : {ts : List Pc} → count is_writer_blocked ts ≡ 0 → Wakes one_writer ts ts

-- Where a thread that locks stands after a stretch, by the outcome.
pub data Ends (in_ blocked : Pc) (i : ℕ) (ts : List Pc) : Locking → World → Type 0 where
  gets_in :
      (l : Rwlock) → Ends in_ blocked i ts (locked l) (record { lock = l; threads = set ts i in_ })
  blocks :
      (l : Rwlock)
      → Ends in_ blocked i ts (waits l) (record { lock = l; threads = set ts i blocked })

-- The steps of the thread `i`.
pub data Step : World → World → Type 0 where
  start_read :
      (v w : World) (i : ℕ)
      → get_elem? v.threads i ≡ some outside
      → Ends reading reader_blocked i v.threads (rwlock_lock_read v.lock) w
      → Step v w
  resume_read :
      (v w : World) (i : ℕ)
      → get_elem? v.threads i ≡ some reader_woken
      → Ends reading reader_blocked i v.threads (read_round v.lock) w
      → Step v w
  start_write :
      (v w : World) (i : ℕ)
      → get_elem? v.threads i ≡ some outside
      → Ends writing writer_blocked i v.threads (rwlock_lock_write v.lock) w
      → Step v w
  resume_write :
      (v w : World) (i : ℕ)
      → get_elem? v.threads i ≡ some writer_woken
      → Ends writing writer_blocked i v.threads (write_round v.lock) w
      → Step v w
  unlock_read :
      (v : World) (l : Rwlock) (wake : Wake) (ts : List Pc) (i : ℕ)
      → get_elem? v.threads i ≡ some reading
      → rwlock_unlock v.lock ≡ unlocked l wake
      → Wakes wake (set v.threads i outside) ts
      → Step v (record { lock = l; threads = ts })
  unlock_write :
      (v : World) (l : Rwlock) (wake : Wake) (ts : List Pc) (i : ℕ)
      → get_elem? v.threads i ≡ some writing
      → rwlock_unlock v.lock ≡ unlocked l wake
      → Wakes wake (set v.threads i outside) ts
      → Step v (record { lock = l; threads = ts })
  downgrade :
      (v : World) (l : Rwlock) (wake : Wake) (ts : List Pc) (i : ℕ)
      → get_elem? v.threads i ≡ some writing
      → rwlock_downgrade v.lock ≡ unlocked l wake
      → Wakes wake (set v.threads i reading) ts
      → Step v (record { lock = l; threads = ts })

-- From a new lock with all threads outside.
pub data Reachable : World → Type 0 where
  begin :
      (ts : List Pc)
      → ((i : ℕ) (p : Pc) → get_elem? ts i ≡ some p → p ≡ outside)
      → Reachable (record { lock = rwlock_init; threads = ts })
  step : (v w : World) → Reachable v → Step v w → Reachable w
