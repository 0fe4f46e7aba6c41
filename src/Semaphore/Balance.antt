-- ===== src/Semaphore/Balance.antt =====
-- The count of the semaphore balances the units given and taken, and no wake-up is lost.
use os_p.Base.{
  ℕ, zero, suc, ◌+◌, ◌-◌, ◌≤◌, ◌<◌, ◌≡◌, refl, sym, ap, ◌∙◌, Bool, true, false, List, [], ◌∷◌, none,
  some, if◌then◌else◌, get_elem?, set, arith, subst,
}
use os_p.Base.Int.{ℤ, pos, ◌+ℤ◌, ◌-ℤ◌, ltb_ℤ}
use os_p.Base.Threads.{count, one, count-set, count-some}
use os_p.Semaphore.{
  sem_init, Taking, takes, blocks, wait_round, sem_wait, sem_signal, Pc, outside, blocked, woken,
  signalling, is_blocked, is_woken, is_signalling, World, Ends, gets_unit, gets_blocked, Step,
  start_wait, resume_wait, start_signal, signal_wakes, signal_ends, Reachable, begin, step,
}

-- The count, as a natural number, and the threads that are blocked, woken and signalling.
pub record Balanced (initial : ℕ) (w : World) : Type 0 where
  pub units : ℕ
  pub sem_at : w.sem ≡ pos units
  pub balance : units + w.taken ≡ initial + w.given
  pub wakes :
      0 < count is_blocked w.threads
      → units ≤ count is_woken w.threads + count is_signalling w.threads

-- What a stretch of sem_wait does with a count that is not negative.
data Takes (n : ℕ) : Taking → Type 0 where
  takes_one : (k : ℕ) → n ≡ suc k → Takes n (takes (pos k))
  takes_none : n ≡ 0 → Takes n blocks

wait_round-Takes : (n : ℕ) → Takes n (wait_round (pos n))
unfolding wait_round ◌-ℤ◌
wait_round-Takes zero = takes_none refl
wait_round-Takes (suc k) = subst (λ (r : Taking). Takes (suc k) r) (sym e) (takes_one k refl)
  where
    e : wait_round (pos (suc k)) ≡ takes (pos k)
    e = ground arith

sem_wait-Takes : (n : ℕ) → Takes n (sem_wait (pos n))
unfolding sem_wait wait_round ◌-ℤ◌
sem_wait-Takes zero = takes_none refl
sem_wait-Takes (suc k) = subst (λ (r : Taking). Takes (suc k) r) (sym e) (takes_one k refl)
  where
    e : sem_wait (pos (suc k)) ≡ takes (pos k)
    e = ground arith

signal_adds : (n : ℕ) (m : ℤ) → sem_signal (pos n) ≡ some m → m ≡ pos (suc n)
unfolding sem_signal ◌+ℤ◌
signal_adds n m e = some-eq (sym e ∙ added)
  where
    added : (if ltb_ℤ (pos n) (pos 0) then none else some (pos n +ℤ pos 1)) ≡ some (pos (suc n))
    added = ground arith

    some-eq : some m ≡ some (pos (suc n)) → m ≡ pos (suc n)
    some-eq h = cc

-- The calling thread `i` stands at `u`, and is not blocked.
Ends-Balanced :
    (initial n i : ℕ) (u : Pc) (r : Taking) (v w : World)
    → get_elem? v.threads i ≡ some u
    → one (is_blocked u) ≡ 0
    → one (is_signalling u) ≡ 0
    → n + v.taken ≡ initial + v.given
    → (0 < count is_blocked v.threads
        → n ≤ count is_woken v.threads + count is_signalling v.threads)
    → v.sem ≡ pos n
    → Ends v i r w
    → Takes n r
    → Balanced initial w
Ends-Balanced initial n i u _ v _ e ub us b h s (gets_unit _) (takes_one k q) =
    let one_u : one (is_woken u) ≤ 1 = one_le (is_woken u) in
    record {
      units = k;
      sem_at = refl;
      balance = omega (arith, b, q);
      wakes = λ z.
          let was : 0 < count is_blocked v.threads =
            omega (arith, z, count-set is_blocked v.threads i u outside e, ub) in
          omega (
            arith,
            h was,
            count-set is_woken v.threads i u outside e,
            count-set is_signalling v.threads i u outside e,
            us,
            one_u,
            q,
          );
    }
  where
    one_le : (c : Bool) → one c ≤ 1
    one_le true = omega arith
    one_le false = omega arith
Ends-Balanced initial n i u _ v _ e ub us b h s gets_blocked (takes_none q) = record {
  units = n;
  sem_at = s;
  balance = b;
  wakes = λ z. omega (arith, q);
}

Step-Balanced : (initial : ℕ) (v w : World) → Step v w → Balanced initial v → Balanced initial w
Step-Balanced initial _ _ (start_wait v w i e n) h =
    Ends-Balanced initial h.units i outside (sem_wait v.sem) v w e refl refl h.balance h.wakes
      h.sem_at n
      (subst (λ (z : ℤ). Takes h.units (sem_wait z)) (sym h.sem_at) (sem_wait-Takes h.units))
Step-Balanced initial _ _ (resume_wait v w i e n) h =
    Ends-Balanced initial h.units i woken (wait_round v.sem) v w e refl refl h.balance h.wakes
      h.sem_at n
      (subst (λ (z : ℤ). Takes h.units (wait_round z)) (sym h.sem_at) (wait_round-Takes h.units))
Step-Balanced initial _ _ (start_signal v i n e q) h = record {
  units = suc h.units;
  sem_at = signal_adds h.units n (sym (ap sem_signal h.sem_at) ∙ q);
  balance = omega (arith, h.balance);
  wakes = λ z.
      let was : 0 < count is_blocked v.threads =
        omega (arith, z, count-set is_blocked v.threads i outside signalling e) in
      omega (
        arith,
        h.wakes was,
        count-set is_woken v.threads i outside signalling e,
        count-set is_signalling v.threads i outside signalling e,
      );
}
Step-Balanced initial _ _ (signal_wakes v i j e f) h =
    let ts = set v.threads i outside in
    record {
      units = h.units;
      sem_at = h.sem_at;
      balance = h.balance;
      wakes = λ z.
          let was : 0 < count is_blocked v.threads = omega (
            arith,
            count-set is_blocked v.threads i signalling outside e,
            count-some is_blocked ts j blocked f,
          ) in
          omega (
            arith,
            h.wakes was,
            count-set is_woken v.threads i signalling outside e,
            count-set is_signalling v.threads i signalling outside e,
            count-set is_woken ts j blocked woken f,
            count-set is_signalling ts j blocked woken f,
          );
    }
Step-Balanced initial _ _ (signal_ends v i e f) h = record {
  units = h.units;
  sem_at = h.sem_at;
  balance = h.balance;
  wakes = λ z. absurd (omega (arith, z, f, count-set is_blocked v.threads i signalling outside e));
}

count_outside :
    (is : Pc → Bool) (ts : List Pc)
    → ((i : ℕ) (p : Pc) → get_elem? ts i ≡ some p → p ≡ outside)
    → is outside ≡ false
    → count is ts ≡ 0
unfolding count
count_outside is [] h e = refl
count_outside is (p ∷ ts) h e = omega (
  arith,
  ap (λ (x : Pc). one (is x)) (h 0 p refl),
  ap one e,
  count_outside is ts (λ i. h (suc i)) e,
)

init_count : (initial : ℕ) (n : ℤ) → sem_init (pos initial) ≡ some n → n ≡ pos initial
unfolding sem_init
init_count initial n e = same (sym e ∙ new)
  where
    new : (if ltb_ℤ (pos initial) (pos 0) then none else some (pos initial)) ≡ some (pos initial)
    new = ground arith

    same : some n ≡ some (pos initial) → n ≡ pos initial
    same h = cc

Reachable-Balanced : (initial : ℕ) (w : World) → Reachable initial w → Balanced initial w
Reachable-Balanced initial _ (begin n ts e h) = record {
  units = initial;
  sem_at = init_count initial n e;
  balance = refl;
  wakes = λ z. absurd (omega (arith, z, count_outside is_blocked ts h refl));
}
Reachable-Balanced initial _ (step v w r s) =
    Step-Balanced initial v w s (Reachable-Balanced initial v r)

-- In every world that threads reach from a new semaphore by sem_wait and sem_signal, the calls of
-- sem_wait that have taken a unit are at most the initial count and the calls of sem_signal that
-- have given one, and the count is the difference.
pub Reachable-sem :
    (initial : ℕ) (w : World)
    → Reachable initial w
    → (w.taken ≤ initial + w.given) × (w.sem ≡ pos (initial + w.given - w.taken))
Reachable-sem initial w r =
    let h : Balanced initial w = Reachable-Balanced initial w r in
    let u : h.units ≡ initial + w.given - w.taken = omega (arith, h.balance) in
    (omega (arith, h.balance), h.sem_at ∙ ap pos u)

-- In every world that threads reach from a new semaphore in which a thread is blocked, for each
-- unit of the count a thread is woken and has not yet looked at the count again, or is in
-- sem_signal before its cond_signal.
pub Reachable-signalling :
    (initial : ℕ) (w : World)
    → Reachable initial w
    → 0 < count is_blocked w.threads
    → initial + w.given ≤ w.taken + count is_woken w.threads + count is_signalling w.threads
Reachable-signalling initial w r b =
    let h : Balanced initial w = Reachable-Balanced initial w r in
    omega (arith, h.balance, h.wakes b)
