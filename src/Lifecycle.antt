-- ===== src/Lifecycle.antt =====
-- kern/smp_syscall_lifecycle.c: wait() and vanish() on the manager core, over the table of tasks by
-- pid. The manager handles one message at a time, so its mutexes are not modelled; a task is known
-- by its address, and freed tasks stay in the store.
pub mod Tasks
pub mod Orders
pub mod Vanish
pub mod Orphan
pub mod Fork
mod Tests
use os_p.Base.{
  ℕ, zero, suc, ◌%◌, Bool, true, false, ◌&&◌, List, [], ◌∷◌, ◌++◌, Option, none, some, ◌==◌,
  if◌then◌else◌, length,
}
use os_p.Base.Int.{ℤ, pos, negsuc, ◌+ℤ◌, ◌-ℤ◌, eqb_ℤ}
use os_p.Hashtable.{Hashtable, hashtable_init, hashtable_put, hashtable_get, hashtable_remove}
use os_p.SimpleQueue.Fifo.{enqueue}

pub record ExitStatus : Type 0 where
  pub pid : ℕ
  pub status : ℤ

-- The thread and the core that wait for the answer to a message.
pub record Msg : Type 0 where
  pub req_thr : ℕ
  pub req_cpu : ℕ

-- What the manager sends, by type: WAIT_RESPONSE with its pid and its status, RESPONSE with its
-- result, FORK_RESPONSE with its result, and FORK. `none` is a field that is not written.
pub data Packet : Type 0 where
  wait_response : Msg → ℤ → Option ℤ → Packet
  response : Msg → Option ℤ → Packet
  fork_response : Msg → ℤ → Packet
  fork : Msg → Packet

-- `pcb_vanish_wait_t`, with its `task_wait_struct`.
pub record Task : Type 0 where
  pub child_exit_status_list : List ExitStatus
  pub exit_status : ExitStatus
  pub num_alive : ℤ
  pub num_zombie : ℤ
  pub wait_queue : List Msg

-- `ECHILD`
abbrev pub echild : ℤ
echild = negsuc 9

-- The reaping of the first child in the list for a thread; `none` is a NULL dereference.
pub reap : Task → Msg → Option (Task × List (ℕ × Packet))
reap task msg = elim task.child_exit_status_list [
  | [] ↦ none
  | es ∷ rest ↦ some (
    record task { child_exit_status_list = rest; num_zombie = task.num_zombie -ℤ pos 1 },
    (msg.req_cpu, wait_response msg (pos es.pid) (some es.status)) ∷ [],
  )
]

-- `smp_syscall_wait` on the task that it finds.
pub wait_task : Task → Msg → Option (Task × List (ℕ × Packet))
wait_task task msg =
    if eqb_ℤ task.num_zombie (pos 0) && eqb_ℤ task.num_alive (pos (length task.wait_queue))
    then some (task, (msg.req_cpu, wait_response msg echild none) ∷ [])
    else if eqb_ℤ task.num_zombie (pos 0)
    then some (record task { wait_queue = enqueue task.wait_queue msg }, [])
    else reap task msg

-- The first waiting thread, if any, reaps.
pub wake_waiter : Task → Option (Task × List (ℕ × Packet))
wake_waiter task = elim task.wait_queue [
  | [] ↦ some (task, [])
  | msg ∷ rest ↦ reap (record task { wait_queue = rest }) msg
]

-- A dead child reports to the task.
pub report_exit : Task → ExitStatus → Option (Task × List (ℕ × Packet))
report_exit task es = wake_waiter (record task {
  child_exit_status_list = enqueue task.child_exit_status_list es;
  num_zombie = task.num_zombie +ℤ pos 1;
  num_alive = task.num_alive -ℤ pos 1;
})

-- The loop that moves unreaped children to the init task.
pub adopt : Task → List ExitStatus → Task
adopt init [] = init
adopt init (es ∷ rest) =
    adopt
      (record init {
        child_exit_status_list = enqueue init.child_exit_status_list es;
        num_zombie = init.num_zombie +ℤ pos 1;
      })
      rest

-- The end of `smp_syscall_vanish`: a waiter is woken only if there were children to move.
pub adopt_all : Task → List ExitStatus → Option (Task × List (ℕ × Packet))
adopt_all init [] = some (init, [])
adopt_all init (es ∷ rest) = wake_waiter (adopt init (es ∷ rest))

pub record Manager : Type 0 where
  pub ht_pid_pcb : Hashtable ℕ  -- from pids to addresses of tasks
  pub task_at : ℕ → Task
  pub init_task : Option ℕ
  pub fork_next_core : ℕ
  pub num_worker_cores : ℕ
  pub sent : List (ℕ × Packet)  -- to which core, oldest first

-- A handler ends, calls `panic`, dereferences NULL, or never ends.
pub data Result : Type 0 where
  ok : Manager → Result
  panics : Result
  faults : Result
  loops : Result

pub then_do : Result → (Manager → Result) → Result
then_do (ok m) f = f m
then_do panics f = panics
then_do faults f = faults
then_do loops f = loops

abbrev pub set_task : Manager → ℕ → Task → Manager
set_task m ptr task = record m { task_at = λ a. if a == ptr then task else m.task_at a }

abbrev pub send : Manager → List (ℕ × Packet) → Manager
send m out = record m { sent = m.sent ++ out }

abbrev pub get_task : Manager → ℕ → Option ℕ
get_task m pid = hashtable_get m.ht_pid_pcb pid

-- The task at an address is changed by an operation.
pub change_task : Manager → ℕ → Option (Task × List (ℕ × Packet)) → Result
change_task m ptr none = faults
change_task m ptr (some (task, out)) = ok (send (set_task m ptr task) out)

unfoldable pub smp_syscall_wait : Manager → Msg → ℕ → Result
smp_syscall_wait m msg pid = elim (get_task m pid) [
  | none ↦ panics
  | some ptr ↦ change_task m ptr (wait_task (m.task_at ptr) msg)
]

-- The report of the task at `this` to the task at `parent`, with the status of its exit.
pub report_to : Manager → ℕ → ℤ → Option ℕ → Result
report_to m this status none = faults
report_to m this status (some parent) =
    let es = record (m.task_at this).exit_status { status = status } in
    let written = set_task m this (record (m.task_at this) { exit_status = es }) in
    change_task written parent (report_exit (written.task_at parent) es)

pub or_init : Option ℕ → Option ℕ → Option ℕ
or_init none init = init
or_init (some parent) init = some parent

-- The entry of the task leaves the table.
pub forget_found : Manager → Option ℕ × Hashtable ℕ → Result
forget_found m (none, table) = panics
forget_found m (some ptr, table) = ok (record m { ht_pid_pcb = table })

pub forget : Manager → ℕ → Result
forget m pid = forget_found m (hashtable_remove m.ht_pid_pcb pid)

-- Unreaped children go to the init task. The loop does not end if that is the task itself and has
-- any.
pub give_children : Manager → ℕ → Option ℕ → Result
give_children m this none = faults
give_children m this (some init) =
    let children = (m.task_at this).child_exit_status_list in
    let emptied = set_task m this (record (m.task_at this) { child_exit_status_list = [] }) in
    if this == init
    then elim children [ [] ↦ ok m | _ ∷ _ ↦ loops ]
    else change_task emptied init (adopt_all (emptied.task_at init) children)

-- What follows the report, then what follows the removal from the table, then the answer.
pub finish : Msg → Manager → Result
finish msg m = ok (send m ((msg.req_cpu, response msg none) ∷ []))

pub leave : Msg → ℕ → Manager → Result
leave msg this m = then_do (give_children m this m.init_task) (finish msg)

pub after_report : Msg → ℕ → ℕ → Manager → Result
after_report msg pid this m = then_do (forget m pid) (leave msg this)

pub vanish_at : Manager → Msg → ℕ → ℕ → ℤ → Option ℕ → Result
vanish_at m msg pid ppid status none = panics
vanish_at m msg pid ppid status (some this) =
    then_do (report_to m this status (or_init (get_task m ppid) m.init_task))
      (after_report msg pid this)

pub smp_syscall_vanish : Manager → Msg → ℕ → ℕ → ℤ → Result
smp_syscall_vanish m msg pid ppid status = vanish_at m msg pid ppid status (get_task m pid)
