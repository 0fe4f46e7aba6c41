-- ===== src/Lifecycle/Orders.antt =====
-- kern/smp_syscall_lifecycle.c: wait() and the death of a child in either order.
use os_p.Base.{ℕ, suc, ◌≡◌, sym, ap, ◌∙◌, List, [], ◌∷◌, ◌++◌, Option, none, some, arith}
use os_p.Base.Int.{pos}
use os_p.SimpleQueue.Fifo.{enqueue}
use os_p.Lifecycle.{ExitStatus, Msg, Packet, wait_response, Task, wait_task, report_exit}
use os_p.Lifecycle.Tasks.{task_of, wait_blocks, wait_reaps, report_wakes, report_keeps}

abbrev pub Step : Type 0
Step = Task → Option (Task × List (ℕ × Packet))

abbrev prefix :
    List (ℕ × Packet) → Option (Task × List (ℕ × Packet)) → Option (Task × List (ℕ × Packet))
prefix out none = none
prefix out (some (task, more)) = some (task, out ++ more)

abbrev continue : Step → Option (Task × List (ℕ × Packet)) → Option (Task × List (ℕ × Packet))
continue second none = none
continue second (some (task, out)) = prefix out (second task)

-- Two operations, one after the other, with what both send.
abbrev pub both : Step → Step → Task → Option (Task × List (ℕ × Packet))
both first second task = continue second (first task)

both-eq :
    (first second : Step) (a b c : Task) (x y : List (ℕ × Packet))
    → first a ≡ some (b, x)
    → second b ≡ some (c, y)
    → both first second a ≡ some (c, x ++ y)
both-eq first second a b c x y e f = ap (continue second) e ∙ ap (prefix x) f

-- On a task without unreaped children or waiting threads, a thread that calls wait() gets the pid
-- and the status of the child that dies, whether it calls before the child dies or after, and the
-- task ends the same.
pub wait_task-report_exit :
    (own es : ExitStatus) (alive : ℕ) (msg : Msg)
    → (let waits = λ (t : Task). wait_task t msg in
        let dies = λ (t : Task). report_exit t es in
        let task = task_of own [] (suc alive) [] in
        (both waits dies task ≡ both dies waits task)
        × (both waits dies task
            ≡ some (
              task_of own [] alive [],
              (msg.req_cpu, wait_response msg (pos es.pid) (some es.status)) ∷ [],
            )))
unfolding enqueue
wait_task-report_exit own es alive msg =
    let waits = λ (t : Task). wait_task t msg in
    let dies = λ (t : Task). report_exit t es in
    let p =
      both-eq waits dies _ _ _ _ _ (wait_blocks own (suc alive) [] msg (omega arith))
        (report_wakes own alive msg [] es) in
    let q =
      both-eq dies waits _ _ _ _ _ (report_keeps own [] alive es)
        (wait_reaps own es [] alive [] msg) in
    (p ∙ sym q, p)
