-- ===== src/Lifecycle/Tests.antt =====
-- The theorems on tasks at a concrete machine: init (pid 1), a shell (pid 2) and its child (pid 3).
use os_p.Base.{
  ℕ, suc, ◌+◌, ◌%◌, ◌≤◌, ◌<◌, ◌≡◌, ◌≢◌, refl, List, [], ◌∷◌, ◌++◌, none, some, true, false, ◌⊎◌,
  inr, arith, ◌==◌, if◌then◌else◌,
}
use os_p.Base.Int.{pos, negsuc}
use os_p.Hashtable.{Hashtable, hashtable_init, hashtable_put, hashtable_get, find}
use os_p.Hashtable.Lookup.{hashtable_init-IsValid, hashtable_put-IsValid}
use os_p.Hashtable.Lookup as Table
use os_p.Lifecycle.{
  ExitStatus, Msg, Packet, wait_response, response, fork, fork_response, Task, echild, wait_task,
  report_exit, Manager, ok, get_task, or_init, smp_syscall_vanish, then_do, smp_syscall_wait,
}
use os_p.Lifecycle.Tasks.{
  IsValid, task_of, task_of-IsValid, Waits, wait_task-Waits, Reports, report_exit-Reports,
}
use os_p.Lifecycle.Orders.{both, wait_task-report_exit}
use os_p.Lifecycle.Vanish.{smp_syscall_vanish-ok}
use os_p.Lifecycle.Orphan.{orphan_uncounts}
use os_p.Lifecycle.Fork.{
  Mallocs, create_pcb_vanish_wait_struct, smp_syscall_fork, smp_syscall_fork-cases,
}

abbrev status_of : ℕ → ExitStatus
status_of pid = record { pid = pid; status = pos 7 }

abbrev waiter : Msg
waiter = record { req_thr = 500; req_cpu = 2 }

abbrev second_waiter : Msg
second_waiter = record { req_thr = 600; req_cpu = 1 }

-- Two live children, one of them waited for.
abbrev parent : Task
parent = task_of (status_of 2) [] 2 (waiter ∷ [])

parent-IsValid : IsValid parent 2
parent-IsValid = task_of-IsValid (status_of 2) [] 2 (waiter ∷ []) (omega arith) (inr refl)

wait_task-Waits_example : Waits parent 2 second_waiter
wait_task-Waits_example = wait_task-Waits parent 2 second_waiter parent-IsValid

report_exit-Reports_example : Reports parent 1 (status_of 3)
report_exit-Reports_example = report_exit-Reports parent 1 (status_of 3) parent-IsValid

wait_task-report_exit_example :
    (let waits = λ (t : Task). wait_task t waiter in
      let dies = λ (t : Task). report_exit t (status_of 3) in
      let task = task_of (status_of 2) [] (suc 0) [] in
      (both waits dies task ≡ both dies waits task)
      × (both waits dies task
          ≡ some (
            task_of (status_of 2) [] 0 [],
            (waiter.req_cpu, wait_response waiter (pos 3) (some (pos 7))) ∷ [],
          )))
wait_task-report_exit_example = wait_task-report_exit (status_of 2) (status_of 3) 0 waiter

abbrev slot : ℕ → ℕ
slot pid = pid % 4

abbrev table_0 : Hashtable ℕ
table_0 = record { array = [] ∷ [] ∷ [] ∷ [] ∷ []; size = 4; func = slot }

abbrev table_1 : Hashtable ℕ
table_1 = record { array = [] ∷ ((1, 100) ∷ []) ∷ [] ∷ [] ∷ []; size = 4; func = slot }

abbrev table_2 : Hashtable ℕ
table_2 = record { array = [] ∷ ((1, 100) ∷ []) ∷ ((2, 200) ∷ []) ∷ [] ∷ []; size = 4; func = slot }

abbrev table_3 : Hashtable ℕ
table_3 = record {
  array = [] ∷ ((1, 100) ∷ []) ∷ ((2, 200) ∷ []) ∷ ((3, 300) ∷ []) ∷ [];
  size = 4;
  func = slot;
}

table_3-IsValid : Table.IsValid table_3
unfolding hashtable_init hashtable_put hashtable_get find
table_3-IsValid =
    let v_0 = (hashtable_init-IsValid table_0 4 slot refl (λ k. omega arith)).0 in
    let v_1 = hashtable_put-IsValid table_0 table_1 1 100 v_0 refl refl in
    let v_2 = hashtable_put-IsValid table_1 table_2 2 200 v_1 refl refl in
    hashtable_put-IsValid table_2 table_3 3 300 v_2 refl refl

abbrev tasks : ℕ → Task
tasks ptr = if ptr == 200 then parent else task_of (status_of 0) [] 1 []

abbrev machine : Manager
machine = record {
  ht_pid_pcb = table_3;
  task_at = tasks;
  init_task = some 100;
  fork_next_core = 1;
  num_worker_cores = 2;
  sent = [];
}

child_here : get_task machine 3 ≡ some 300
unfolding hashtable_get find
child_here = refl

shell_is_parent : or_init (get_task machine 2) machine.init_task ≡ some 200
unfolding hashtable_get find or_init
shell_is_parent = refl

pid_4_free : get_task machine 4 ≡ none
unfolding hashtable_get find
pid_4_free = refl

smp_syscall_vanish-ok_example :
    (after : Manager) × (t : Task) × (out : List (ℕ × Packet)) × (more : List (ℕ × Packet))
    × (smp_syscall_vanish machine second_waiter 3 2 (pos 7) ≡ ok after)
    × (report_exit
          (machine.task_at 200)
          (record (machine.task_at 300).exit_status { status = pos 7 })
        ≡ some (t, out))
    × (after.sent
        ≡ machine.sent
          ++ out
          ++ more
          ++ ((second_waiter.req_cpu, response second_waiter none) ∷ []))
    × (◌≢◌ {A = ℕ} 200 100 → after.task_at 200 ≡ t)
    × ((j : ℕ) → get_task after j ≡ (if 3 == j then none else get_task machine j))
smp_syscall_vanish-ok_example =
    smp_syscall_vanish-ok machine second_waiter 3 2 (pos 7) 300 200 100 1 table_3-IsValid child_here
      shell_is_parent refl (λ e. absurd (omega (arith, e))) (λ e. absurd (omega (arith, e)))
      parent-IsValid

-- Task 2 is an orphan, and task 3 is the one child of the init task.
abbrev orphaned : Manager
orphaned = record machine { task_at = λ ptr. task_of (status_of 2) [] 1 [] }

init_here : get_task orphaned 1 ≡ some 100
unfolding hashtable_get find
init_here = refl

orphan_here : get_task orphaned 2 ≡ some 200
unfolding hashtable_get find
orphan_here = refl

orphan_uncounts_example :
    (waited : Manager) × (buried : Manager) × (then_do
        (smp_syscall_vanish orphaned waiter 2 4 (pos 9))
        (λ a. then_do (smp_syscall_wait a waiter 1) (λ b. smp_syscall_wait b second_waiter 1))
      ≡ ok waited)
    × (waited.sent
        ≡ orphaned.sent
          ++ ((2, response waiter none)
              ∷ (2, wait_response waiter (pos 2) (some (pos 9)))
              ∷ (1, wait_response second_waiter echild none)
              ∷ []))
    × (get_task waited 3 ≡ some 300)
    × (waited.task_at 300 ≡ orphaned.task_at 300)
    × (smp_syscall_vanish waited waiter 3 1 (pos 0) ≡ ok buried)
    × ((buried.task_at 100).num_alive ≡ negsuc 0)
orphan_uncounts_example =
    orphan_uncounts orphaned 2 4 1 3 200 100 300 (status_of 2) table_3-IsValid orphan_here
      pid_4_free refl init_here child_here (λ e. absurd (omega (arith, e)))
      (λ e. absurd (omega (arith, e))) (λ e. absurd (omega (arith, e)))
      (λ e. absurd (omega (arith, e))) (λ e. absurd (omega (arith, e))) refl refl refl waiter waiter
      second_waiter waiter (pos 9) (pos 0)

abbrev all_succeed : Mallocs
all_succeed = record {
  process = some 400;
  hash_node = true;
  exit_status = true;
  exit_status_node = true;
}

abbrev last_fails : Mallocs
last_fails = record {
  process = some 400;
  hash_node = true;
  exit_status = true;
  exit_status_node = false;
}

smp_syscall_fork-cases_example :
    (let after = smp_syscall_fork machine last_fails waiter 4 in
      (after.fork_next_core < after.num_worker_cores)
      × (machine.fork_next_core + 1 ≤ machine.num_worker_cores)
      × ((((create_pcb_vanish_wait_struct machine last_fails 4).0 ≡ true)
            × (after.sent ≡ machine.sent ++ ((machine.fork_next_core + 1, fork waiter) ∷ [])))
          ⊎ (((create_pcb_vanish_wait_struct machine last_fails 4).0 ≡ false)
              × (after.sent
                  ≡ machine.sent
                    ++ ((waiter.req_cpu, fork_response waiter (negsuc 0)) ∷ [])
                    ++ ((machine.fork_next_core + 1, fork_response waiter (negsuc 0)) ∷ [])))))
smp_syscall_fork-cases_example =
    smp_syscall_fork-cases machine last_fails waiter 4 (omega arith) table_3-IsValid pid_4_free
