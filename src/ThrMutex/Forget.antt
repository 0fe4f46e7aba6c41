-- ===== src/ThrMutex/Forget.antt =====
-- user/libthread/mutex.c beside kern/mutex.c, whose mutex also has the name of the holder.
use os_p.Base.{ℕ, zero, suc, ◌≡◌, refl, true, false, List, [], ◌∷◌, Option, none, some, arith}
use os_p.Base.Int.{ℤ, pos, negsuc, eqb_ℤ, ltb_ℤ}
use os_p.Mutex.{Mutex, LockResult, locked, waits, mutex_init, mutex_lock, mutex_unlock, hand_over}
use os_p.ThrMutex.{
  ThrMutex, thr_mutex_init, Locking, gets_lock, queues, lock_panics, thr_mutex_lock, Unlocking,
  gives_to, unlock_panics, pass_on, thr_mutex_unlock,
}

abbrev state_of : ℤ → ℤ
state_of (pos thr) = pos 0
state_of (negsuc zero) = pos 1
state_of (negsuc (suc n)) = negsuc 0

abbrev forget : Mutex → ThrMutex
forget mp = record { lock_available = state_of mp.lock_holder; deque = mp.deque }

abbrev forget_lock : LockResult → Locking
forget_lock (locked mp) = gets_lock (forget mp)
forget_lock (waits mp) = queues (forget mp)
forget_lock LockResult.lock_panics = lock_panics

forget-mutex_init : forget mutex_init ≡ thr_mutex_init
unfolding mutex_init thr_mutex_init
forget-mutex_init = refl

-- For a mutex that is held, free or destroyed.
forget-mutex_lock :
    (holder : ℤ) (deque : List ℕ) (thr : ℕ)
    → ltb_ℤ (negsuc 2) holder ≡ true
    → forget_lock (mutex_lock (record { lock_holder = holder; deque = deque }) thr)
      ≡ thr_mutex_lock (record { lock_available = state_of holder; deque = deque }) thr
unfolding mutex_lock thr_mutex_lock
forget-mutex_lock (pos h) deque thr e =
    let a : eqb_ℤ (pos h) (negsuc 1) ≡ false = ground arith in
    let b : eqb_ℤ (pos h) (negsuc 0) ≡ false = ground arith in rw (mutex_lock, a, b) refl
forget-mutex_lock (negsuc zero) deque thr e = refl
forget-mutex_lock (negsuc (suc zero)) deque thr e = refl
forget-mutex_lock (negsuc (suc (suc n))) deque thr e = absurd (small e)
  where
    small : ltb_ℤ (negsuc 2) (negsuc (suc (suc n))) ≡ true → ⊥
    small f = ground (arith, f)

forget_unlock : Option (Option ℕ × Mutex) → Unlocking
forget_unlock none = unlock_panics
forget_unlock (some (thr, mp)) = gives_to thr (forget mp)

-- For a mutex that is held or destroyed.
forget-mutex_unlock :
    (holder : ℤ) (deque : List ℕ)
    → ltb_ℤ (negsuc 2) holder ≡ true
    → eqb_ℤ holder (negsuc 0) ≡ false
    → forget_unlock (mutex_unlock (record { lock_holder = holder; deque = deque }))
      ≡ thr_mutex_unlock (record { lock_available = state_of holder; deque = deque })
unfolding mutex_unlock thr_mutex_unlock hand_over pass_on forget_unlock
forget-mutex_unlock (pos h) [] e f =
    let a : eqb_ℤ (pos h) (negsuc 1) ≡ false = ground arith in
    let b : eqb_ℤ (pos h) (negsuc 0) ≡ false = ground arith in rw (mutex_unlock, a, b) refl
forget-mutex_unlock (pos h) (thr ∷ rest) e f =
    let a : eqb_ℤ (pos h) (negsuc 1) ≡ false = ground arith in
    let b : eqb_ℤ (pos h) (negsuc 0) ≡ false = ground arith in rw (mutex_unlock, a, b) refl
forget-mutex_unlock (negsuc zero) deque e f = absurd (free f)
  where
    free : eqb_ℤ (negsuc 0) (negsuc 0) ≡ false → ⊥
    free f = ground (arith, f)
forget-mutex_unlock (negsuc (suc zero)) deque e f = refl
forget-mutex_unlock (negsuc (suc (suc n))) deque e f = absurd (small e)
  where
    small : ltb_ℤ (negsuc 2) (negsuc (suc (suc n))) ≡ true → ⊥
    small f = ground (arith, f)
