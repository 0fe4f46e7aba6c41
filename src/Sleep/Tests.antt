-- ===== src/Sleep/Tests.antt =====
-- The theorems on sleep() at concrete cores.
use os_p.Base.{ℕ, suc, ◌≡◌, refl, [], ◌∷◌, ◌++◌, replicate, arith}
use os_p.Base.Int.{pos}
use os_p.PriorityQueue.{pri_queue_init}
use os_p.PriorityQueue.Order.{Ordered}
use os_p.Sleep.{
  SleepQueueData, sleep_queue_compare, Core, blocked, sleep_syscall_handler, op_context_switch,
  op_resume, apic_timer_interrupt_handler, interrupts,
}
use os_p.Sleep.Wake.{IsValid}
use os_p.Sleep.Runs.{sleep_syscall_handler-interrupts, sleep_syscall_handler_wraps}

abbrev one : SleepQueueData
one = record { ticks = 5; thr = 100 }

abbrev other : SleepQueueData
other = record { ticks = 7; thr = 200 }

-- Two threads asleep, at tick 6.
abbrev two_asleep : Core
two_asleep = record {
  sleep_queue = record { head = one ∷ other ∷ []; compare = sleep_queue_compare };
  apic_num_ticks = 6;
}

abbrev at_tick : ℕ → Core
at_tick n = record { sleep_queue = pri_queue_init sleep_queue_compare; apic_num_ticks = n }

in_order : Ordered sleep_queue_compare (one ∷ other ∷ [])
unfolding sleep_queue_compare
in_order = ((refl, tt), (tt, tt))

two_asleep-IsValid : IsValid two_asleep
two_asleep-IsValid = record { by_time = refl; ordered = in_order; word = omega arith }

abbrev both_due : Core
both_due = record two_asleep { apic_num_ticks = 9 }

at_tick_empty : (n : ℕ) → (at_tick n).sleep_queue.head ≡ []
unfolding pri_queue_init
at_tick_empty n = refl

sleep_syscall_handler-interrupts_example :
    (c : Core) × (sleep_syscall_handler (at_tick 10) 300 (pos (suc 4)) ≡ blocked c)
    × ((interrupts (suc 4) c).0 ≡ replicate 4 op_context_switch ++ (op_resume 300 ∷ []))
sleep_syscall_handler-interrupts_example =
    sleep_syscall_handler-interrupts (at_tick 10) 300 4 (at_tick_empty 10) (omega arith)

sleep_syscall_handler_wraps_example :
    (c : Core) × (sleep_syscall_handler (at_tick 0xffff_fff0) 300 (pos (suc 99)) ≡ blocked c)
    × ((apic_timer_interrupt_handler c).0 ≡ op_resume 300)
sleep_syscall_handler_wraps_example =
    sleep_syscall_handler_wraps (at_tick 0xffff_fff0) 300 99 (at_tick_empty 0xffff_fff0)
      (omega arith) (omega arith) (omega arith)
