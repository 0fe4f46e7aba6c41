-- ===== src/Sleep/Runs.antt =====
-- Runs of timer interrupts.
use os_p.Base.{
  ℕ, zero, suc, ◌+◌, ◌%◌, ◌^◌, ◌≤◌, ◌<◌, ◌≡◌, refl, sym, ap, ◌∙◌, subst, List, [], ◌∷◌, ◌++◌, map,
  replicate, arith, length,
}
use os_p.Base.Int.{pos}
use os_p.PriorityQueue.{insert, pri_queue_enqueue}
use os_p.PriorityQueue.Order.{All}
use os_p.Sleep.{
  SleepQueueData, Core, blocked, sleep_syscall_handler, Switch, op_context_switch, op_resume,
  apic_timer_interrupt_handler, interrupts,
}
use os_p.Sleep.Wake.{handler-due, handler-early}

abbrev pub resume : SleepQueueData → Switch
resume d = op_resume d.thr

abbrev with_queue : Core → ℕ → List SleepQueueData → Core
with_queue core now q = record core {
  apic_num_ticks = now;
  sleep_queue = record core.sleep_queue { head = q };
}

interrupts-suc :
    (n : ℕ) (core : Core) (r : Switch × Core)
    → apic_timer_interrupt_handler core ≡ r
    → interrupts (suc n) core ≡ (r.0 ∷ (interrupts n r.1).0, (interrupts n r.1).1)
unfolding interrupts
interrupts-suc n core r e =
    ap (λ (r : Switch × Core). (r.0 ∷ (interrupts n r.1).0, (interrupts n r.1).1)) e

drain :
    (core : Core) (now : ℕ) (q : List SleepQueueData)
    → All (λ d. d.ticks ≤ now) q
    → now + length q < 2 ^ 32
    → interrupts (length q) (with_queue core now q)
      ≡ (map resume q, with_queue core (now + length q) [])
unfolding interrupts
drain core now [] a b = ap (λ m. ([], with_queue core m [])) (omega arith)
drain core now (d ∷ q) a b =
    interrupts-suc (length q) (with_queue core now (d ∷ q))
      (op_resume d.thr, with_queue core (now + 1) q)
      (handler-due (with_queue core now (d ∷ q)) d q refl (omega arith) (omega arith))
    ∙ ap (λ (r : List Switch × Core). (op_resume d.thr ∷ r.0, r.1))
        (drain core (now + 1) q (later q a.1) (omega arith))
    ∙ ap (λ m. (op_resume d.thr ∷ map resume q, with_queue core m [])) (omega arith)
  where
    later : (q : List SleepQueueData) → All (λ d. d.ticks ≤ now) q → All (λ d. d.ticks ≤ now + 1) q
    later [] a = tt
    later (x ∷ q) a = (omega (arith, a.0), later q a.1)

-- If all threads asleep on a core are due, as many timer interrupts as there are threads resume
-- them all, one each, in the order of the queue, provided the count of ticks does not wrap
-- meanwhile.
pub interrupts-drain :
    (core : Core)
    → All (λ d. d.ticks ≤ core.apic_num_ticks) core.sleep_queue.head
    → core.apic_num_ticks + length core.sleep_queue.head < 2 ^ 32
    → (let r = interrupts (length core.sleep_queue.head) core in
        (r.0 ≡ map resume core.sleep_queue.head) × (r.1.sleep_queue.head ≡ []))
interrupts-drain core a b =
    let e = drain core core.apic_num_ticks core.sleep_queue.head a b in
    (
      ap (λ (r : List Switch × Core). r.0) e,
      ap (λ (r : List Switch × Core). r.1.sleep_queue.head) e,
    )

wait_alone :
    (core : Core) (d : SleepQueueData) (k now : ℕ)
    → now + suc k ≡ d.ticks
    → d.ticks < 2 ^ 32
    → (interrupts (suc k) (with_queue core now (d ∷ []))).0
      ≡ replicate k op_context_switch ++ (resume d ∷ [])
unfolding interrupts
wait_alone core d zero now e b =
    ap (λ (r : List Switch × Core). r.0)
      (interrupts-suc 0 (with_queue core now (d ∷ []))
        (op_resume d.thr, with_queue core (now + 1) [])
        (handler-due (with_queue core now (d ∷ [])) d [] refl (omega arith) (omega arith)))
wait_alone core d (suc k) now e b =
    ap (λ (r : List Switch × Core). r.0)
      (interrupts-suc (suc k) (with_queue core now (d ∷ []))
        (op_context_switch, with_queue core (now + 1) (d ∷ []))
        (handler-early (with_queue core now (d ∷ [])) d [] refl (omega arith) (omega arith)))
    ∙ ap (λ l. op_context_switch ∷ l) (wait_alone core d k (now + 1) (omega arith) b)

alone :
    (core : Core) (thr n : ℕ)
    → core.sleep_queue.head ≡ []
    → sleep_syscall_handler core thr (pos (suc n))
      ≡ blocked (
          with_queue core core.apic_num_ticks
            (record { ticks = (suc n + core.apic_num_ticks) % 2 ^ 32; thr = thr } ∷ []))
unfolding sleep_syscall_handler pri_queue_enqueue insert
alone core thr n e =
    subst
      (λ z.
        sleep_syscall_handler (with_queue core core.apic_num_ticks z) thr (pos (suc n))
        ≡ blocked (
            with_queue core core.apic_num_ticks
              (record { ticks = (suc n + core.apic_num_ticks) % 2 ^ 32; thr = thr } ∷ [])))
      (sym e) (ground arith)

-- A thread that is alone in calling sleep() for n + 1 ticks, where the sum with the current tick
-- does not wrap, is passed over by n timer interrupts and resumed by the next.
pub sleep_syscall_handler-interrupts :
    (core : Core) (thr n : ℕ)
    → core.sleep_queue.head ≡ []
    → suc n + core.apic_num_ticks < 2 ^ 32
    → (c : Core) × (sleep_syscall_handler core thr (pos (suc n)) ≡ blocked c)
      × ((interrupts (suc n) c).0 ≡ replicate n op_context_switch ++ (op_resume thr ∷ []))
sleep_syscall_handler-interrupts core thr n e b =
    let d : SleepQueueData = record { ticks = (suc n + core.apic_num_ticks) % 2 ^ 32; thr = thr } in
    (
      with_queue core core.apic_num_ticks (d ∷ []),
      alone core thr n e,
      wait_alone core d n core.apic_num_ticks (omega arith) (omega arith),
    )

-- If the current tick is less than 2^32 - 1, n + 1 < 2^31 ticks are asked for and their sum with
-- the current tick reaches 2^32, a thread that is alone in calling sleep() is resumed by the very
-- next timer interrupt, however long it asked to sleep.
pub sleep_syscall_handler_wraps :
    (core : Core) (thr n : ℕ)
    → core.sleep_queue.head ≡ []
    → suc n < 2 ^ 31
    → core.apic_num_ticks + 1 < 2 ^ 32
    → 2 ^ 32 ≤ suc n + core.apic_num_ticks
    → (c : Core) × (sleep_syscall_handler core thr (pos (suc n)) ≡ blocked c)
      × ((apic_timer_interrupt_handler c).0 ≡ op_resume thr)
sleep_syscall_handler_wraps core thr n e small b wraps =
    let d : SleepQueueData = record { ticks = (suc n + core.apic_num_ticks) % 2 ^ 32; thr = thr } in
    (
      with_queue core core.apic_num_ticks (d ∷ []),
      alone core thr n e,
      ap (λ (r : Switch × Core). r.0)
          (handler-due (with_queue core core.apic_num_ticks (d ∷ [])) d [] refl b (omega arith)),
    )
