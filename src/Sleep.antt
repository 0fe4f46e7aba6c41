-- ===== src/Sleep.antt =====
-- kern/syscall_thr_management.c and kern/timer_driver.c: sleep() and the timer interrupt of one
-- core, over kern/priority_queue.c. The spinlock disables interrupts, so each call is one step.
pub mod Wake
pub mod Runs
mod Tests
use os_p.Base.{
  ℕ, zero, suc, ◌+◌, ◌%◌, ◌^◌, Bool, true, false, List, [], ◌∷◌, Option, none, some, ltb, leb, ◌==◌,
  if◌then◌else◌,
}
use os_p.Base.Int.{ℤ, pos, negsuc, pos_part, ltb_ℤ}
use os_p.PriorityQueue.{
  PriQueue, pri_queue_init, pri_queue_enqueue, pri_queue_dequeue, pri_queue_get_first,
}

-- `sleep_queue_data_t`
pub record SleepQueueData : Type 0 where
  pub ticks : ℕ
  pub thr : ℕ

pub sleep_queue_compare : SleepQueueData → SleepQueueData → ℤ
sleep_queue_compare this that =
    if ltb that.ticks this.ticks
    then pos 1
    else if ltb this.ticks that.ticks
    then negsuc 0
    else pos 0

-- One core: its sleep queue and the `unsigned int` count of timer interrupts.
pub record Core : Type 0 where
  pub sleep_queue : PriQueue SleepQueueData
  pub apic_num_ticks : ℕ

-- `EINVAL`, -22
abbrev pub einval : ℤ
einval = negsuc 21

-- A call returns at once, or blocks the thread.
pub data SleepResult : Type 0 where
  returned : ℤ → SleepResult
  blocked : Core → SleepResult

pub sleep_syscall_handler : Core → ℕ → ℤ → SleepResult
sleep_syscall_handler core thr ticks =
    if ltb_ℤ ticks (pos 0)
    then returned einval
    else if pos_part ticks == 0
    then returned (pos 0)
    else blocked (record core {
      sleep_queue =
          pri_queue_enqueue core.sleep_queue
            (record { ticks = (pos_part ticks + core.apic_num_ticks) % 2 ^ 32; thr = thr });
    })

-- `none` is NULL.
pub timer_callback : Core → Option ℕ × Core
timer_callback core = elim (pri_queue_get_first core.sleep_queue) [
  | none ↦ (none, core)
  | some node ↦
      if leb node.ticks core.apic_num_ticks
      then (some node.thr, record core { sleep_queue = (pri_queue_dequeue core.sleep_queue).1 })
      else (none, core)
]

-- The context switch that the interrupt handler ends with.
pub data Switch : Type 0 where
  op_context_switch : Switch
  op_resume : ℕ → Switch

-- The thread that is resumed, if the callback has one.
pub switch_to : Option ℕ × Core → Switch × Core
switch_to (none, core) = (op_context_switch, core)
switch_to (some thr, core) = (op_resume thr, core)

pub apic_timer_interrupt_handler : Core → Switch × Core
apic_timer_interrupt_handler core =
    switch_to (timer_callback (record core { apic_num_ticks = (core.apic_num_ticks + 1) % 2 ^ 32 }))

-- A run of interrupts, with the switches they end with.
pub interrupts : ℕ → Core → List Switch × Core
interrupts zero core = ([], core)
interrupts (suc n) core =
    let (switch, next) = apic_timer_interrupt_handler core in
    let (switches, last) = interrupts n next in (switch ∷ switches, last)
