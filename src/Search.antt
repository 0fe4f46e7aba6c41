-- ===== src/Search.antt =====
-- kern/smp_syscall_thr_management.c, and yield() and make_runnable() of
-- kern/syscall_thr_management.c: a request travels from core to core, by way of the manager core,
-- until a core has the thread or it is back where it started. Worker cores are numbered from 1.
pub mod Route
pub mod Odd
mod Tests
use os_p.Base.{ℕ, zero, suc, ◌+◌, ◌%◌, Bool, true, false, Option, none, some, ◌==◌, if◌then◌else◌}
use os_p.Base.Int.{ℤ, pos, negsuc, ltb_ℤ}

-- The data of a MAKE_RUNNABLE or a YIELD message, with the core that asks.
pub record Msg : Type 0 where
  pub req_cpu : ℕ
  pub tid : ℕ
  pub result : ℤ
  pub next_core : ℕ

-- `ETHREAD`
abbrev pub ethread : ℤ
ethread = negsuc 256

-- The manager core's handler, for `num_worker_cores`: the core that it sends the message to.
pub smp_make_runnable_syscall_handler : ℕ → Msg → ℕ × Msg
smp_make_runnable_syscall_handler num_worker_cores msg =
    let next = (msg.next_core + 1) % num_worker_cores + 1 in
    elim msg.result [ pos zero ↦ (msg.req_cpu, msg) | _ ↦ (next, record msg { next_core = next }) ]

pub smp_yield_syscall_handler : ℕ → Msg → ℕ × Msg
smp_yield_syscall_handler num_worker_cores msg =
    let next = (msg.next_core + 1) % num_worker_cores + 1 in
    elim msg.result [ pos zero ↦ (msg.req_cpu, msg) | _ ↦ (next, record msg { next_core = next }) ]

-- What a visit to a core does: `found` says if the core has the thread.
pub visit : (ℕ → ℕ → Bool) → ℕ → Msg → Msg
visit found core msg = if found core msg.tid then record msg { result = pos 0 } else msg

-- The loop of both calls on the core `core`; `none` is out of fuel. `handler` is the manager's.
pub search : (Msg → ℕ × Msg) → (ℕ → ℕ → Bool) → ℕ → ℕ → Msg → Option ℤ
search handler found zero core msg = none
search handler found (suc fuel) core msg =
    let sent = handler (visit found core msg) in
    let rest = search handler found fuel sent.0 sent.1 in
    if ltb_ℤ sent.1.result (pos 0)
    then if sent.0 == msg.req_cpu then some ethread else rest
    else some (pos 0)

-- The loops of the two calls, begun on the core `cpu`.
pub make_runnable_search : ℕ → (ℕ → ℕ → Bool) → ℕ → ℕ → ℕ → Option ℤ
make_runnable_search num_worker_cores in_deschedule_queue fuel cpu tid =
    search (smp_make_runnable_syscall_handler num_worker_cores) in_deschedule_queue fuel cpu
      (record { req_cpu = cpu; tid = tid; result = negsuc 0; next_core = cpu })

pub yield_search : ℕ → (ℕ → ℕ → Bool) → ℕ → ℕ → ℕ → Option ℤ
yield_search num_worker_cores is_exist_or_running fuel cpu tid =
    search (smp_yield_syscall_handler num_worker_cores) is_exist_or_running fuel cpu
      (record { req_cpu = cpu; tid = tid; result = negsuc 0; next_core = cpu })
