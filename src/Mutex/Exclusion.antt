-- ===== src/Mutex/Exclusion.antt =====
-- The invariant of a mutex and its threads, by induction on the steps.
use os_p.Base.{
  ℕ, ◌≡◌, ◌≢◌, refl, sym, ap, ◌∙◌, subst, ◌⊎◌, inl, inr, List, [], ◌∷◌, ◌++◌, Option, some, arith,
  eq_cases,
}
use os_p.Base.Int.{pos}
use os_p.SimpleQueue.Fifo.{enqueue}
use os_p.SimpleQueue.Links.{NotIn}
use os_p.Mutex.{
  Mutex, available, mutex_init, locked, waits, mutex_lock, hand_over, mutex_unlock, Status, outside,
  waiting, inside, World, set_status, Step, enter, block, resume, leave, Reachable, begin, step,
}
use os_p.Mutex.Held.{
  Queued, Held, outside≢inside, outside≢waiting, enter-Held, block-Held, resume-Held, inside-holder,
  leave_last, leave_next,
}

-- The lock is free and nobody is there, or it has one holder and the others wait or are outside.
abbrev pub Invariant : World → Type 0
Invariant w =
    ((w.mutex ≡ record { lock_holder = available; deque = [] }) × ((x : ℕ) → w.status x ≡ outside))
    ⊎ ((holder : ℕ) × (w.mutex.lock_holder ≡ pos holder) × Held w.status holder w.mutex.deque)

abbrev free : Mutex
free = record { lock_holder = available; deque = [] }

mutex_lock-locked :
    (t : ℕ) → mutex_lock free t ≡ locked (record { lock_holder = pos t; deque = [] })
unfolding mutex_lock
mutex_lock-locked t = refl

mutex_lock-waits :
    (m : Mutex) (h t : ℕ)
    → m.lock_holder ≡ pos h
    → mutex_lock m t ≡ waits (record { lock_holder = pos h; deque = m.deque ++ (t ∷ []) })
unfolding mutex_lock enqueue
mutex_lock-waits m h t e =
    subst
      (λ z.
        mutex_lock (record m { lock_holder = z }) t
        ≡ waits (record { lock_holder = pos h; deque = m.deque ++ (t ∷ []) }))
      (sym e) (ground arith)

mutex_unlock-hand_over :
    (m : Mutex) (h : ℕ) → m.lock_holder ≡ pos h → mutex_unlock m ≡ some (hand_over m.deque)
unfolding mutex_unlock
mutex_unlock-hand_over m h e =
    subst (λ z. mutex_unlock (record m { lock_holder = z }) ≡ some (hand_over m.deque)) (sym e)
      (ground arith)

locked≢waits : (m n : Mutex) → locked m ≢ waits n
locked≢waits m n e = cc

locked-injective : (m n : Mutex) → locked m ≡ locked n → m ≡ n
locked-injective m n e = cc

waits-injective : (m n : Mutex) → waits m ≡ waits n → m ≡ n
waits-injective m n e = cc

some-injective : (a b : Option ℕ × Mutex) → some a ≡ some b → a ≡ b
some-injective a b e = cc

-- What an unlock by the holder leaves.
hand_over-Invariant :
    (status : ℕ → Status) (h : ℕ) (q : List ℕ)
    → Held status h q
    → Invariant (record { mutex = (hand_over q).1; status = set_status status h outside })
unfolding hand_over
hand_over-Invariant status h [] v = inl (refl, leave_last status h v)
hand_over-Invariant status h (u ∷ q) v = inr (u, refl, leave_next status h u q v)

Step-Invariant : (v w : World) → Step v w → Invariant v → Invariant w
Step-Invariant _ _ (enter v m t o e) (inl (f, out)) =
    let is : record { lock_holder = pos t; deque = [] } ≡ m =
      locked-injective _ _ (sym (mutex_lock-locked t) ∙ sym (ap (λ x. mutex_lock x t) f) ∙ e) in
    subst (λ z. Invariant (record { mutex = z; status = set_status v.status t inside })) is
      (inr (t, refl, enter-Held v.status t out))
Step-Invariant _ _ (enter v m t o e) (inr (h, held, _)) =
    absurd (locked≢waits m _ (sym e ∙ mutex_lock-waits v.mutex h t held))
Step-Invariant _ _ (block v m t o e) (inl (f, out)) =
    absurd (locked≢waits _ m (sym (mutex_lock-locked t) ∙ sym (ap (λ x. mutex_lock x t) f) ∙ e))
Step-Invariant _ _ (block v m t o e) (inr (h, held, i)) =
    subst (λ z. Invariant (record { mutex = z; status = set_status v.status t waiting }))
      (waits-injective _ m (sym (mutex_lock-waits v.mutex h t held) ∙ e))
      (inr (h, refl, block-Held v.status h t v.mutex.deque i o))
Step-Invariant _ _ (resume v t o e) (inl (f, out)) = absurd (outside≢waiting (sym (out t) ∙ o))
Step-Invariant _ _ (resume v t o e) (inr (h, held, i)) =
    let same : h ≡ t = pos-injective h t (sym held ∙ e) in
    inr (
      h,
      held,
      subst (λ z. Held (set_status v.status z inside) h v.mutex.deque) same
          (resume-Held v.status h v.mutex.deque i),
    )
  where
    pos-injective : (a b : ℕ) → pos a ≡ pos b → a ≡ b
    pos-injective a b e = cc
Step-Invariant _ _ (leave v m woken t o e) (inl (f, out)) =
    absurd (outside≢inside (sym (out t) ∙ o))
Step-Invariant _ _ (leave v m woken t o e) (inr (h, held, i)) =
    let same : t ≡ h = inside-holder v.status h t v.mutex.deque i o in
    let is : (hand_over v.mutex.deque).1 ≡ m =
      ap (λ (r : Option ℕ × Mutex). r.1)
        (some-injective _ (woken, m) (sym (mutex_unlock-hand_over v.mutex h held) ∙ e)) in
    subst (λ z. Invariant (record { mutex = z; status = set_status v.status t outside })) is
      (subst
        (λ z.
          Invariant (record {
            mutex = (hand_over v.mutex.deque).1;
            status = set_status v.status z outside;
          }))
        (sym same) (hand_over-Invariant v.status h v.mutex.deque i))

Reachable-Invariant : (w : World) → Reachable w → Invariant w
unfolding mutex_init
Reachable-Invariant _ begin = inl (refl, λ x. refl)
Reachable-Invariant _ (step v w r s) = Step-Invariant v w s (Reachable-Invariant v r)

-- In every world that the steps of threads reach from an unlocked mutex, two threads inside are
-- the same thread, a thread inside can unlock without a panic, and if a thread waits the lock is
-- not free but held by it or by another thread behind which it stands in the queue.
pub Reachable-Exclusive :
    (w : World)
    → Reachable w
    → ((t u : ℕ) → w.status t ≡ inside → w.status u ≡ inside → t ≡ u)
      × ((t : ℕ) → w.status t ≡ inside → mutex_unlock w.mutex ≡ some (hand_over w.mutex.deque))
      × ((t : ℕ)
          → w.status t ≡ waiting
          → (w.mutex.lock_holder ≡ pos t)
            ⊎ ((h : ℕ) × (w.mutex.lock_holder ≡ pos h) × (¬ NotIn t w.mutex.deque)))
Reachable-Exclusive w r = (
  λ t u i j. one t u i j (Reachable-Invariant w r),
  λ t i. unlocks t i (Reachable-Invariant w r),
  λ t i. queued t i (Reachable-Invariant w r),
)
  where
    one : (t u : ℕ) → w.status t ≡ inside → w.status u ≡ inside → Invariant w → t ≡ u
    one t u i j (inl (_, out)) = absurd (outside≢inside (sym (out t) ∙ i))
    one t u i j (inr (h, _, v)) =
        inside-holder w.status h t w.mutex.deque v i
        ∙ sym (inside-holder w.status h u w.mutex.deque v j)

    unlocks :
        (t : ℕ)
        → w.status t ≡ inside
        → Invariant w
        → mutex_unlock w.mutex ≡ some (hand_over w.mutex.deque)
    unlocks t i (inl (_, out)) = absurd (outside≢inside (sym (out t) ∙ i))
    unlocks t i (inr (h, held, v)) = mutex_unlock-hand_over w.mutex h held

    place :
        (h t : ℕ)
        → w.status t ≡ waiting
        → Queued (w.status t) t w.mutex.deque
        → ¬ NotIn t w.mutex.deque
    place h t i (inl (_, q)) = q
    place h t i (inr (o, _)) = absurd (outside≢waiting (sym o ∙ i))

    queued :
        (t : ℕ)
        → w.status t ≡ waiting
        → Invariant w
        → (w.mutex.lock_holder ≡ pos t)
          ⊎ ((h : ℕ) × (w.mutex.lock_holder ≡ pos h) × (¬ NotIn t w.mutex.deque))
    queued t i (inl (_, out)) = absurd (outside≢waiting (sym (out t) ∙ i))
    queued t i (inr (h, held, v)) = elim (eq_cases t h) [
      | inl e ↦ inl (held ∙ ap pos (sym e))
      | inr n ↦ inr (h, held, place h t i (v.others t n))
    ]
