-- ===== src/Semaphore.antt =====
-- user/libthread/sem.c over user/libthread/cond_var.c: the semaphore, and threads that wait on it and
-- signal it as a step relation. The mutex makes each stretch of sem_wait one step; sem_signal has two, since
-- its cond_signal comes after the mutex is released.
pub mod Balance
mod Tests
use os_p.Base.{
  ℕ, zero, suc, ◌+◌, ◌-◌, ◌≡◌, Bool, true, false, List, [], ◌∷◌, Option, none, some, ◌==◌,
  if◌then◌else◌, get_elem?, set,
}
use os_p.Base.Int.{ℤ, pos, negsuc, ◌+ℤ◌, ◌-ℤ◌, eqb_ℤ, ltb_ℤ}
use os_p.Base.Threads.{count}

-- The count of a new semaphore, or -1.
pub sem_init : ℤ → Option ℤ
sem_init n = if ltb_ℤ n (pos 0) then none else some n

-- A stretch of `sem_wait` takes a unit, waits, or panics.
pub data Taking : Type 0 where
  takes : ℤ → Taking
  blocks : Taking
  wait_panics : Taking

-- A round of the loop of `sem_wait`.
pub wait_round : ℤ → Taking
wait_round n = if eqb_ℤ n (pos 0) then blocks else takes (n -ℤ pos 1)

pub sem_wait : ℤ → Taking
sem_wait n =
    if ltb_ℤ (pos 0) n
    then takes (n -ℤ pos 1)
    else if ltb_ℤ n (pos 0)
    then wait_panics
    else wait_round n

-- Up to the release of the mutex; no count is a panic.
pub sem_signal : ℤ → Option ℤ
sem_signal n = if ltb_ℤ n (pos 0) then none else some (n +ℤ pos 1)

pub sem_destroy : ℤ → Option ℤ
sem_destroy n = if ltb_ℤ n (pos 0) then none else some (negsuc 0)

-- Where a thread stands: outside, blocked on the condition variable or woken from it, or in `sem_signal`
-- before its `cond_signal`.
pub data Pc : Type 0 where
  outside : Pc
  blocked : Pc
  woken : Pc
  signalling : Pc

abbrev pub is_blocked : Pc → Bool
is_blocked blocked = true
is_blocked _ = false

abbrev pub is_woken : Pc → Bool
is_woken woken = true
is_woken _ = false

abbrev pub is_signalling : Pc → Bool
is_signalling signalling = true
is_signalling _ = false

-- The semaphore, the threads, and how many calls have taken and given a unit.
pub record World : Type 0 where
  pub sem : ℤ
  pub threads : List Pc
  pub taken : ℕ
  pub given : ℕ

-- The ends of a stretch of `sem_wait` by the thread `i`.
pub data Ends (v : World) (i : ℕ) : Taking → World → Type 0 where
  gets_unit :
      (n : ℤ)
      → Ends v i
          (takes n)
          (record v { sem = n; threads = set v.threads i outside; taken = v.taken + 1 })
  gets_blocked : Ends v i blocks (record v { threads = set v.threads i blocked })

pub data Step : World → World → Type 0 where
  start_wait :
      (v w : World) (i : ℕ)
      → get_elem? v.threads i ≡ some outside
      → Ends v i (sem_wait v.sem) w
      → Step v w
  resume_wait :
      (v w : World) (i : ℕ)
      → get_elem? v.threads i ≡ some woken
      → Ends v i (wait_round v.sem) w
      → Step v w
  start_signal :
      (v : World) (i : ℕ) (n : ℤ)
      → get_elem? v.threads i ≡ some outside
      → sem_signal v.sem ≡ some n
      → Step v (record v { sem = n; threads = set v.threads i signalling; given = v.given + 1 })
  signal_wakes :
      (v : World) (i j : ℕ)
      → get_elem? v.threads i ≡ some signalling
      → get_elem? (set v.threads i outside) j ≡ some blocked
      → Step v (record v { threads = set (set v.threads i outside) j woken })
  signal_ends :
      (v : World) (i : ℕ)
      → get_elem? v.threads i ≡ some signalling
      → count is_blocked v.threads ≡ 0
      → Step v (record v { threads = set v.threads i outside })

-- From a new semaphore with the count `initial` and all threads outside.
pub data Reachable (initial : ℕ) : World → Type 0 where
  begin :
      (n : ℤ) (ts : List Pc)
      → sem_init (pos initial) ≡ some n
      → ((i : ℕ) (p : Pc) → get_elem? ts i ≡ some p → p ≡ outside)
      → Reachable initial (record { sem = n; threads = ts; taken = 0; given = 0 })
  step : (v w : World) → Reachable initial v → Step v w → Reachable initial w
