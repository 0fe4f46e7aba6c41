-- ===== src/Sleep/Wake.antt =====
-- Who is woken when.
use os_p.Base.{
  ℕ, zero, suc, ◌+◌, ◌%◌, ◌^◌, ◌≤◌, ◌<◌, ◌≡◌, refl, sym, ◌∙◌, subst, ◌⊎◌, inl, inr, true, List, [],
  ◌∷◌, Option, none, some, arith, dec_le,
}
use os_p.Base.Int.{ℤ, pos, negsuc, ltb_ℤ}
use os_p.PriorityQueue.{PriQueue, pri_queue_enqueue, pri_queue_dequeue, pri_queue_get_first}
use os_p.PriorityQueue.Order.{
  All, After, NotAfter, Ordered, IsOrder, Inserted, pri_queue_enqueue-Inserted,
}
use os_p.Sleep.{
  SleepQueueData, sleep_queue_compare, Core, returned, blocked, einval, sleep_syscall_handler,
  timer_callback, op_context_switch, op_resume, apic_timer_interrupt_handler, switch_to,
}

After-lt : (x y : SleepQueueData) → After sleep_queue_compare x y → y.ticks < x.ticks
unfolding sleep_queue_compare
After-lt x y h = ground arith

NotAfter-le : (x y : SleepQueueData) → NotAfter sleep_queue_compare x y → x.ticks ≤ y.ticks
unfolding sleep_queue_compare
NotAfter-le x y h = ground arith

le-NotAfter : (x y : SleepQueueData) → x.ticks ≤ y.ticks → NotAfter sleep_queue_compare x y
unfolding sleep_queue_compare
le-NotAfter x y h = ground arith

-- The comparison of sleep() is an order.
pub sleep_queue_compare-IsOrder : IsOrder sleep_queue_compare
sleep_queue_compare-IsOrder = record {
  total = λ x y h. le-NotAfter y x (omega (arith, After-lt x y h));
  trans = λ x y z a b. le-NotAfter x z (omega (arith, NotAfter-le x y a, NotAfter-le y z b));
}

-- The queue of a core is kept by wake-up time.
pub record IsValid (core : Core) : Type 0 where
  pub by_time : core.sleep_queue.compare ≡ sleep_queue_compare
  pub ordered : Ordered sleep_queue_compare core.sleep_queue.head
  pub word : core.apic_num_ticks < 2 ^ 32

-- Every thread asleep is due later than now.
abbrev pub NoneDue : Core → Type 0
NoneDue core = All (λ d. core.apic_num_ticks < d.ticks) core.sleep_queue.head

All-later :
    (now : ℕ) (x : SleepQueueData) (q : List SleepQueueData)
    → now < x.ticks
    → All (NotAfter sleep_queue_compare x) q
    → All (λ d. now < d.ticks) q
All-later now x [] h a = tt
All-later now x (y ∷ q) h a = (omega (arith, NotAfter-le x y a.0, h), All-later now x q h a.1)

-- On a valid core the timer callback takes the thread that is due first off the sleep queue and
-- returns it, if its time has come; it returns NULL and changes nothing only if no thread is due.
pub timer_callback-cases :
    (core : Core)
    → IsValid core
    → ((timer_callback core ≡ (none, core)) × NoneDue core)
      ⊎ ((first : SleepQueueData) × (rest : List SleepQueueData) × (core.sleep_queue.head
            ≡ first ∷ rest)
          × (first.ticks ≤ core.apic_num_ticks)
          × All (λ d. first.ticks ≤ d.ticks) rest
          × (timer_callback core ≡ (
            some first.thr,
            record core { sleep_queue = record core.sleep_queue { head = rest } },
          )))
unfolding timer_callback pri_queue_get_first pri_queue_dequeue
timer_callback-cases core v = by_queue core.sleep_queue.head v.ordered
  where
    at : List SleepQueueData → Core
    at q = record core { sleep_queue = record core.sleep_queue { head = q } }

    by_queue :
        (q : List SleepQueueData)
        → Ordered sleep_queue_compare q
        → ((timer_callback (at q) ≡ (none, at q)) × NoneDue (at q))
          ⊎ ((first : SleepQueueData) × (rest : List SleepQueueData) × (q ≡ first ∷ rest)
              × (first.ticks ≤ core.apic_num_ticks)
              × All (λ d. first.ticks ≤ d.ticks) rest
              × (timer_callback (at q) ≡ (some first.thr, at rest)))
    by_queue [] o = inl (refl, tt)
    by_queue (first ∷ rest) o = elim (dec_le first.ticks core.apic_num_ticks) [
      | yes h ↦ inr (first, rest, refl, h, later rest o.0, ground arith)
      | no h ↦
          inl (
            ground arith,
            (omega arith, All-later core.apic_num_ticks first rest (omega arith) o.0),
          )
    ]
      where
        later :
            (q : List SleepQueueData)
            → All (NotAfter sleep_queue_compare first) q
            → All (λ d. first.ticks ≤ d.ticks) q
        later [] a = tt
        later (y ∷ q) a = (NotAfter-le first y a.0, later q a.1)

Ordered-rest :
    (core : Core) (first : SleepQueueData) (rest : List SleepQueueData)
    → IsValid core
    → core.sleep_queue.head ≡ first ∷ rest
    → IsValid (record core { sleep_queue = record core.sleep_queue { head = rest } })
Ordered-rest core first rest v e = record {
  by_time = v.by_time;
  ordered = (subst (Ordered sleep_queue_compare) e v.ordered).1;
  word = v.word;
}

-- The callback keeps the core valid.
pub timer_callback-IsValid : (core : Core) → IsValid core → IsValid (timer_callback core).1
timer_callback-IsValid core v = elim (timer_callback-cases core v) [
  | inl (e, _) ↦ subst (λ (r : Option ℕ × Core). IsValid r.1) (sym e) v
  | inr (first, rest, q, _, _, e) ↦
      subst (λ (r : Option ℕ × Core). IsValid r.1) (sym e) (Ordered-rest core first rest v q)
]

abbrev ticked : Core → Core
ticked core = record core { apic_num_ticks = (core.apic_num_ticks + 1) % 2 ^ 32 }

-- A timer interrupt keeps the core valid: the sleep queue in order of wake-up time and the count
-- of ticks below 2^32.
pub apic_timer_interrupt_handler-IsValid :
    (core : Core) → IsValid core → IsValid (apic_timer_interrupt_handler core).1
unfolding apic_timer_interrupt_handler switch_to
apic_timer_interrupt_handler-IsValid core v = same (timer_callback (ticked core)) (
    timer_callback-IsValid (ticked core)
      (record { by_time = v.by_time; ordered = v.ordered; word = omega arith }))
  where
    same : (r : Option ℕ × Core) → IsValid r.1 → IsValid (switch_to r).1
    same (none, c) w = w
    same (some t, c) w = w

-- On a valid core, sleep() for a positive number of ticks blocks the thread, queues it by its
-- wake-up time (modulo 2^32) behind exactly the threads due earlier and keeps the core valid; for
-- zero ticks it returns 0, for less EINVAL.
pub sleep_syscall_handler-cases :
    (core : Core) (thr : ℕ) (ticks : ℤ)
    → IsValid core
    → ((ltb_ℤ ticks (pos 0) ≡ true) × (sleep_syscall_handler core thr ticks ≡ returned einval))
      ⊎ ((ticks ≡ pos 0) × (sleep_syscall_handler core thr ticks ≡ returned (pos 0)))
      ⊎ ((n : ℕ) × (c : Core) × (ticks ≡ pos (suc n))
          × (sleep_syscall_handler core thr ticks ≡ blocked c)
          × IsValid c
          × Inserted sleep_queue_compare
              (record { ticks = (suc n + core.apic_num_ticks) % 2 ^ 32; thr = thr })
              core.sleep_queue.head
              c.sleep_queue.head)
unfolding sleep_syscall_handler pri_queue_enqueue
sleep_syscall_handler-cases core thr (negsuc n) v = inl (ground arith, ground arith)
sleep_syscall_handler-cases core thr (pos zero) v = inr (inl (refl, refl))
sleep_syscall_handler-cases core thr (pos (suc n)) v =
    let d : SleepQueueData = record { ticks = (suc n + core.apic_num_ticks) % 2 ^ 32; thr = thr } in
    let q = core.sleep_queue in
    let (w, o) =
      pri_queue_enqueue-Inserted q d (subst IsOrder (sym v.by_time) sleep_queue_compare-IsOrder)
        (subst (λ c. Ordered c q.head) (sym v.by_time) v.ordered) in
    inr (
      inr (
        n,
        record core { sleep_queue = pri_queue_enqueue q d },
        refl,
        ground arith,
        record {
          by_time = kept q d ∙ v.by_time;
          ordered = subst (λ c. Ordered c (pri_queue_enqueue q d).head) v.by_time o;
          word = v.word;
        },
        subst (λ c. Inserted c d q.head (pri_queue_enqueue q d).head) v.by_time w,
      ))
  where
    kept :
        (q : PriQueue SleepQueueData) (d : SleepQueueData)
        → (pri_queue_enqueue q d).compare ≡ q.compare
    kept q d = refl

-- An interrupt at which the first thread is due.
pub handler-due :
    (core : Core) (d : SleepQueueData) (rest : List SleepQueueData)
    → core.sleep_queue.head ≡ d ∷ rest
    → core.apic_num_ticks + 1 < 2 ^ 32
    → d.ticks ≤ core.apic_num_ticks + 1
    → apic_timer_interrupt_handler core ≡ (
      op_resume d.thr,
      record core {
        sleep_queue = record core.sleep_queue { head = rest };
        apic_num_ticks = core.apic_num_ticks + 1;
      },
    )
unfolding apic_timer_interrupt_handler timer_callback pri_queue_get_first pri_queue_dequeue
    switch_to
handler-due core d rest e b h =
    subst
      (λ z.
        apic_timer_interrupt_handler
          (record core { sleep_queue = record core.sleep_queue { head = z } })
        ≡ (
          op_resume d.thr,
          record core {
            sleep_queue = record core.sleep_queue { head = rest };
            apic_num_ticks = core.apic_num_ticks + 1;
          },
        ))
      (sym e) (ground arith)

-- An interrupt at which it is not.
pub handler-early :
    (core : Core) (d : SleepQueueData) (rest : List SleepQueueData)
    → core.sleep_queue.head ≡ d ∷ rest
    → core.apic_num_ticks + 1 < 2 ^ 32
    → core.apic_num_ticks + 1 < d.ticks
    → apic_timer_interrupt_handler core
      ≡ (op_context_switch, record core { apic_num_ticks = core.apic_num_ticks + 1 })
unfolding apic_timer_interrupt_handler timer_callback pri_queue_get_first pri_queue_dequeue
    switch_to
handler-early core d rest e b h =
    subst
      (λ z.
        apic_timer_interrupt_handler
          (record core { sleep_queue = record core.sleep_queue { head = z } })
        ≡ (
          op_context_switch,
          record core {
            sleep_queue = record core.sleep_queue { head = z };
            apic_num_ticks = core.apic_num_ticks + 1;
          },
        ))
      (sym e) (ground arith)
