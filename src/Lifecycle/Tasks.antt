-- ===== src/Lifecycle/Tasks.antt =====
-- The invariant of a task, and what each operation does to it.
use os_p.Base.{
  ℕ, suc, ◌≤◌, ◌<◌, ◌≡◌, refl, sym, ap, subst, ◌⊎◌, inl, inr, List, [], ◌∷◌, ◌++◌, none, some,
  arith, length, length-append, eq_cases,
}
use mathlib.Core.Path.{ap₂}
use os_p.Base.Int.{pos, ◌+ℤ◌, ◌-ℤ◌}
use os_p.SimpleQueue.Fifo.{enqueue}
use os_p.Lifecycle.{
  ExitStatus, Msg, wait_response, Task, echild, reap, wait_task, wake_waiter, report_exit,
}

-- The zombies are those of the list, no thread waits while there is one, and there are at least as
-- many live children, `alive`, as waiting threads.
pub record IsValid (task : Task) (alive : ℕ) : Type 0 where
  pub num_alive : task.num_alive ≡ pos alive
  pub num_zombie : task.num_zombie ≡ pos (length task.child_exit_status_list)
  pub enough : length task.wait_queue ≤ alive
  pub idle : (task.wait_queue ≡ []) ⊎ (task.child_exit_status_list ≡ [])

-- A task by its parts.
abbrev pub task_of : ExitStatus → List ExitStatus → ℕ → List Msg → Task
task_of own children alive waiting = record {
  child_exit_status_list = children;
  exit_status = own;
  num_alive = pos alive;
  num_zombie = pos (length children);
  wait_queue = waiting;
}

pub task_of-eq :
    (task : Task) (alive : ℕ)
    → IsValid task alive
    → task ≡ task_of task.exit_status task.child_exit_status_list alive task.wait_queue
task_of-eq task alive v =
    ap₂ (λ a z. record task { num_alive = a; num_zombie = z }) v.num_alive v.num_zombie

module _ (own : ExitStatus) where
  pub wait_none :
      (waiting : List Msg) (msg : Msg)
      → wait_task (task_of own [] (length waiting) waiting) msg
        ≡ some (
          task_of own [] (length waiting) waiting,
          (msg.req_cpu, wait_response msg echild none) ∷ [],
        )
  unfolding wait_task
  wait_none waiting msg = ground arith

  pub wait_blocks :
      (alive : ℕ) (waiting : List Msg) (msg : Msg)
      → length waiting < alive
      → wait_task (task_of own [] alive waiting) msg
        ≡ some (task_of own [] alive (enqueue waiting msg), [])
  unfolding wait_task
  wait_blocks alive waiting msg h = ground arith

  pub wait_reaps :
      (es : ExitStatus) (rest : List ExitStatus) (alive : ℕ) (waiting : List Msg) (msg : Msg)
      → wait_task (task_of own (es ∷ rest) alive waiting) msg
        ≡ some (
          task_of own rest alive waiting,
          (msg.req_cpu, wait_response msg (pos es.pid) (some es.status)) ∷ [],
        )
  unfolding wait_task reap ◌-ℤ◌
  wait_reaps es rest alive waiting msg = ground arith

  pub report_wakes :
      (alive : ℕ) (msg : Msg) (waiting : List Msg) (es : ExitStatus)
      → report_exit (task_of own [] (suc alive) (msg ∷ waiting)) es
        ≡ some (
          task_of own [] alive waiting,
          (msg.req_cpu, wait_response msg (pos es.pid) (some es.status)) ∷ [],
        )
  unfolding report_exit wake_waiter reap enqueue ◌+ℤ◌ ◌-ℤ◌
  report_wakes alive msg waiting es = ground arith

  pub report_keeps :
      (children : List ExitStatus) (alive : ℕ) (es : ExitStatus)
      → report_exit (task_of own children (suc alive) []) es
        ≡ some (task_of own (enqueue children es) alive [], [])
  unfolding report_exit wake_waiter reap enqueue ◌+ℤ◌ ◌-ℤ◌
  report_keeps children alive es = ground (arith, length-append children (es ∷ []))

pub task_of-IsValid :
    (own : ExitStatus) (children : List ExitStatus) (alive : ℕ) (waiting : List Msg)
    → length waiting ≤ alive
    → (waiting ≡ []) ⊎ (children ≡ [])
    → IsValid (task_of own children alive waiting) alive
task_of-IsValid own children alive waiting h i = record {
  num_alive = refl;
  num_zombie = refl;
  enough = h;
  idle = i;
}

-- What wait() does to a task, beside what it sends.
abbrev pub Waits : Task → ℕ → Msg → Type 0
Waits task alive msg =
    ((task.child_exit_status_list ≡ [])
      × (alive ≡ length task.wait_queue)
      × (wait_task task msg ≡ some (task, (msg.req_cpu, wait_response msg echild none) ∷ [])))
    ⊎ ((t : Task) × (task.child_exit_status_list ≡ [])
        × (length task.wait_queue < alive)
        × (wait_task task msg ≡ some (t, []))
        × (t.wait_queue ≡ task.wait_queue ++ (msg ∷ []))
        × IsValid t alive)
    ⊎ ((t : Task) × (es : ExitStatus) × (task.child_exit_status_list
          ≡ es ∷ t.child_exit_status_list)
        × (wait_task task msg
            ≡ some (t, (msg.req_cpu, wait_response msg (pos es.pid) (some es.status)) ∷ []))
        × IsValid t alive)

waits :
    (own : ExitStatus) (children : List ExitStatus) (alive : ℕ) (waiting : List Msg) (msg : Msg)
    → length waiting ≤ alive
    → (waiting ≡ []) ⊎ (children ≡ [])
    → Waits (task_of own children alive waiting) alive msg
unfolding enqueue
waits own [] alive waiting msg h i = elim (eq_cases alive (length waiting)) [
  | inl e ↦ inl (
    refl,
    e,
    subst
        (λ a.
          wait_task (task_of own [] a waiting) msg
          ≡ some (task_of own [] a waiting, (msg.req_cpu, wait_response msg echild none) ∷ []))
        (sym e) (wait_none own waiting msg),
  )
  | inr n ↦ inr (
      inl (
        task_of own [] alive (enqueue waiting msg),
        refl,
        omega arith,
        wait_blocks own alive waiting msg (omega arith),
        refl,
        task_of-IsValid own [] alive (enqueue waiting msg)
            (omega (arith, length-append waiting (msg ∷ []))) (inr refl),
      ))
]
waits own (es ∷ rest) alive waiting msg h (inl e) = inr (
    inr (
      task_of own rest alive waiting,
      es,
      refl,
      wait_reaps own es rest alive waiting msg,
      task_of-IsValid own rest alive waiting h (inl e),
    ))
waits own (es ∷ rest) alive waiting msg h (inr e) = absurd (cons-ne es rest e)
  where
    cons-ne : (es : ExitStatus) (rest : List ExitStatus) → ¬ (es ∷ rest ≡ [])
    cons-ne es rest e = absurd (omega (arith, ap length e))

-- On a valid task wait() returns ECHILD if there is no unreaped child and every live child has a
-- thread waiting for it, blocks the thread at the end of the queue if there is no unreaped child
-- otherwise, and else answers with the first unreaped child; the task stays valid.
pub wait_task-Waits :
    (task : Task) (alive : ℕ) (msg : Msg) → IsValid task alive → Waits task alive msg
wait_task-Waits task alive msg v =
    subst (λ t. Waits t alive msg) (sym (task_of-eq task alive v))
      (waits task.exit_status task.child_exit_status_list alive task.wait_queue msg v.enough v.idle)

-- What the report of a dead child does to a task.
abbrev pub Reports : Task → ℕ → ExitStatus → Type 0
Reports task alive es =
    ((t : Task) × (msg : Msg) × (task.wait_queue ≡ msg ∷ t.wait_queue)
      × (report_exit task es
          ≡ some (t, (msg.req_cpu, wait_response msg (pos es.pid) (some es.status)) ∷ []))
      × IsValid t alive)
    ⊎ ((t : Task) × (task.wait_queue ≡ [])
        × (report_exit task es ≡ some (t, []))
        × (t.child_exit_status_list ≡ task.child_exit_status_list ++ (es ∷ []))
        × IsValid t alive)

reports :
    (own : ExitStatus) (children : List ExitStatus) (alive : ℕ) (waiting : List Msg)
    (es : ExitStatus)
    → length waiting ≤ suc alive
    → (waiting ≡ []) ⊎ (children ≡ [])
    → Reports (task_of own children (suc alive) waiting) alive es
unfolding enqueue
reports own children alive [] es h i = inr (
  task_of own (enqueue children es) alive [],
  refl,
  report_keeps own children alive es,
  refl,
  task_of-IsValid own (enqueue children es) alive [] (omega arith) (inl refl),
)
reports own children alive (msg ∷ waiting) es h (inl e) = absurd (omega (arith, ap length e))
reports own children alive (msg ∷ waiting) es h (inr e) =
    subst (λ c. Reports (task_of own c (suc alive) (msg ∷ waiting)) alive es) (sym e)
      (inl (
        task_of own [] alive waiting,
        msg,
        refl,
        report_wakes own alive msg waiting es,
        task_of-IsValid own [] alive waiting (omega arith) (inr refl),
      ))

-- On a valid task with a live child the report of a dead child answers the thread that has waited
-- longest with the pid and the status, or if none waits puts the child last in the list; the task
-- stays valid, with one live child fewer.
pub report_exit-Reports :
    (task : Task) (alive : ℕ) (es : ExitStatus) → IsValid task (suc alive) → Reports task alive es
report_exit-Reports task alive es v =
    subst (λ t. Reports t alive es) (sym (task_of-eq task (suc alive) v))
      (reports task.exit_status task.child_exit_status_list alive task.wait_queue es v.enough
        v.idle)
