-- ===== src/Message.antt =====
-- kern/smp_message.c and kern/scheduler.c: the queues between the manager core and the worker cores,
-- and the choice of the next thread of a core. A queue is the list of what it holds, the oldest
-- first; the spinlock of a queue makes each access to it one step.
pub mod Channel
pub mod Choice
mod Tests
use os_p.Base.{
  ℕ, zero, suc, ◌+◌, ◌-◌, ◌*◌, ◌%◌, Bool, true, false, List, [], ◌∷◌, ◌++◌, Option, none, some,
  ◌==◌, if◌then◌else◌,
}
use os_p.Base.Int.{ℤ, pos, negsuc}

pub data MsgType : Type 0 where
  fork : MsgType
  thread_fork : MsgType
  vanish : MsgType
  wait : MsgType
  yield : MsgType
  make_runnable : MsgType
  readline : MsgType
  print : MsgType
  set_term_color : MsgType
  set_cursor_pos : MsgType
  get_cursor_pos : MsgType
  set_init_pcb : MsgType
  response : MsgType
  fork_response : MsgType
  wait_response : MsgType
  vanish_back : MsgType
  halt : MsgType
  none_type : MsgType

-- The fields that the scheduler reads; threads are addresses.
pub record Msg : Type 0 where
  pub req_thr : ℕ
  pub req_cpu : ℕ
  pub type : MsgType
  pub new_thr : ℕ

-- `msg_queues`: the slot 2 * (c - 1) is from the worker core c, the next one to it.
abbrev pub Queues : Type 0
Queues = ℕ → List Msg

abbrev pub put_queue : Queues → ℕ → List Msg → Queues
put_queue q id ms x = if x == id then ms else q x

abbrev pub out_id : ℕ → ℕ
out_id cpu = (cpu - 1) * 2

abbrev pub in_id : ℕ → ℕ
in_id cpu = (cpu - 1) * 2 + 1

pub worker_send_msg : ℕ → Msg → Queues → Queues
worker_send_msg cur_cpu msg q = put_queue q (out_id cur_cpu) (q (out_id cur_cpu) ++ (msg ∷ []))

pub manager_send_msg : Msg → ℕ → Queues → Queues
manager_send_msg msg dest_cpu q = put_queue q (in_id dest_cpu) (q (in_id dest_cpu) ++ (msg ∷ []))

-- A dequeue from one queue.
pub receive : ℕ → Queues → Option Msg × Queues
receive id q = elim (q id) [ [] ↦ (none, q) | msg ∷ rest ↦ (some msg, put_queue q id rest) ]

pub worker_recv_msg : ℕ → Queues → Option Msg × Queues
worker_recv_msg cur_cpu q = receive (in_id cur_cpu) q

-- The polling loop from the slot `i` on; `none` is a run that has not yet found a message.
pub recv_loop : ℕ → ℕ → ℕ → Queues → Option (Msg × Queues)
recv_loop num_worker_cores zero i q = none
recv_loop num_worker_cores (suc fuel) i q = elim ((receive i q).0) [
  | some msg ↦ some (msg, (receive i q).1)
  | none ↦ recv_loop num_worker_cores fuel ((i + 2) % (2 * num_worker_cores)) q
]

pub manager_recv_msg : ℕ → ℕ → Queues → Option (Msg × Queues)
manager_recv_msg num_worker_cores fuel q = recv_loop num_worker_cores fuel 0 q

-- What a core's scheduler reads and writes: the queues, its ready queue of threads, the tid and the
-- task of each thread, and the task of the idle thread of each core.
pub record Core : Type 0 where
  pub cpu : ℕ
  pub msg_queues : Queues
  pub ready : List ℕ
  pub tid : ℕ → ℕ
  pub pcb : ℕ → ℕ
  pub idle_pcb : ℕ → ℕ

-- No thread, a thread, or a core that has halted.
pub data Next : Type 0 where
  no_thread : Next
  thread : ℕ → Next
  halted : Next

-- The thread that a message stands for; for make_runnable and yield it gets the task of the idle
-- thread of the core that it visits.
unfoldable pub thr_of_msg : Core → Msg → MsgType → Next × Core
thr_of_msg c msg fork = (thread msg.new_thr, c)
thr_of_msg c msg fork_response = (thread msg.req_thr, c)
thr_of_msg c msg wait_response = (thread msg.req_thr, c)
thr_of_msg c msg response = (thread msg.req_thr, c)
thr_of_msg c msg make_runnable = (
  thread msg.req_thr,
  record c { pcb = λ t. if t == msg.req_thr then c.idle_pcb c.cpu else c.pcb t },
)
thr_of_msg c msg yield = (
  thread msg.req_thr,
  record c { pcb = λ t. if t == msg.req_thr then c.idle_pcb c.cpu else c.pcb t },
)
thr_of_msg c msg halt = (halted, c)
thr_of_msg c msg _ = (no_thread, c)

pub get_thr_from_msg_queue : Core → Next × Core
get_thr_from_msg_queue c =
    let r = worker_recv_msg c.cpu c.msg_queues in
    if c.cpu == 0 then (no_thread, c) else elim (r.0) [
      | none ↦ (no_thread, c)
      | some msg ↦ thr_of_msg (record c { msg_queues = r.1 }) msg msg.type
    ]

-- simple_queue_dequeue on the ready queue.
pub scheduler_block : Core → Next × Core
scheduler_block c = elim (c.ready) [
  | [] ↦ (no_thread, c)
  | t ∷ rest ↦ (thread t, record c { ready = rest })
]

-- simple_queue_remove_tid on the ready queue: the first thread with the tid, and the others.
pub remove_tid : (ℕ → ℕ) → ℕ → List ℕ → Option ℕ × List ℕ
remove_tid tid wanted [] = (none, [])
remove_tid tid wanted (t ∷ ts) =
    let rest = remove_tid tid wanted ts in
    if tid t == wanted then (some t, ts) else (rest.0, t ∷ rest.1)

-- The mode -1 takes the next thread, any other the thread with that tid; no tid is negative.
pub scheduler_get_next : ℤ → Core → Next × Core
scheduler_get_next (negsuc zero) c =
    let r = get_thr_from_msg_queue c in
    elim (r.0) [
      | no_thread ↦ scheduler_block (r.1)
      | thread t ↦ (thread t, r.1)
      | halted ↦ (halted, r.1)
    ]
scheduler_get_next (negsuc (suc n)) c = (no_thread, c)
scheduler_get_next (pos mode) c =
    let r = remove_tid c.tid mode c.ready in
    elim (r.0) [ none ↦ (no_thread, c) | some t ↦ (thread t, record c { ready = r.1 }) ]

pub scheduler_make_runnable : ℕ → Core → Core
scheduler_make_runnable t c = record c { ready = c.ready ++ (t ∷ []) }

-- `running` is the thread that runs on the core.
pub scheduler_is_exist_or_running : ℕ → ℕ → Core → Bool
scheduler_is_exist_or_running wanted running c = elim ((remove_tid c.tid wanted c.ready).0) [
  | some t ↦ true
  | none ↦ wanted == c.tid running
]
