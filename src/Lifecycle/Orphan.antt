-- ===== src/Lifecycle/Orphan.antt =====
-- kern/smp_syscall_lifecycle.c: the death of a task whose parent is dead, and the init task's wait().
use os_p.Base.{
  ℕ, ◌≡◌, ◌≢◌, refl, sym, ap, ◌∙◌, List, [], ◌∷◌, ◌++◌, none, some, ◌==◌, if◌then◌else◌, ==_false,
}
use os_p.Base.Int.{ℤ, pos, negsuc, ◌+ℤ◌, ◌-ℤ◌}
use mathlib.Core.List.{append-nil, append_assoc}
use os_p.SimpleQueue.Fifo.{enqueue}
use os_p.Hashtable.{hashtable_remove}
use os_p.Hashtable.Lookup.{hashtable_get-remove, hashtable_remove-IsValid}
use os_p.Hashtable.Lookup as Table
use os_p.Lifecycle.{
  ExitStatus, Msg, Packet, response, wait_response, echild, Task, wait_task, wake_waiter,
  report_exit, adopt_all, Manager, ok, then_do, set_task, send, get_task, change_task, report_to,
  or_init, finish, leave, after_report, vanish_at, give_children, smp_syscall_vanish,
  smp_syscall_wait,
}
use os_p.Lifecycle.Tasks.{task_of, wait_none, wait_reaps, report_keeps}
use os_p.Lifecycle.Vanish.{report_to-eq, forget-eq, set_task_ne, set_task_self}

wait-eq :
    (m : Manager) (msg : Msg) (pid ptr : ℕ) (t : Task) (out : List (ℕ × Packet))
    → get_task m pid ≡ some ptr
    → wait_task (m.task_at ptr) msg ≡ some (t, out)
    → smp_syscall_wait m msg pid ≡ ok (send (set_task m ptr t) out)
unfolding smp_syscall_wait change_task
wait-eq m msg pid ptr t out e f = rw (smp_syscall_wait, e) (rw f refl)

-- A task without unreaped children has none to give to the init task.
give_children-none :
    (m : Manager) (this init : ℕ)
    → this ≢ init
    → (m.task_at this).child_exit_status_list ≡ []
    → give_children m this (some init)
      ≡ ok (
          send
            (set_task
              (set_task m this (record (m.task_at this) { child_exit_status_list = [] }))
              init
              (m.task_at init))
            [])
unfolding give_children change_task adopt_all
give_children-none m this init n e =
    rw (==_false this init n, ==_false init this (λ q. n (sym q)), e) refl

-- The vanish() of a task without children that reports to the init task, which has no thread to
-- wake.
module _ (m : Manager) (msg : Msg) (pid ppid : ℕ) (status : ℤ) (this init : ℕ) (t : Task)
    (table : Table.IsValid m.ht_pid_pcb) (here : get_task m pid ≡ some this)
    (reports_to : or_init (get_task m ppid) m.init_task ≡ some init)
    (has_init : m.init_task ≡ some init) (not_init : this ≢ init)
    (childless : (m.task_at this).child_exit_status_list ≡ [])
    (reported : report_exit
        (m.task_at init)
        (record (m.task_at this).exit_status { status = status })
      ≡ some (t, [])) where
  -- The manager after it.
  pub record Vanished (after : Manager) : Type 0 where
    pub run : smp_syscall_vanish m msg pid ppid status ≡ ok after
    pub answered : after.sent ≡ m.sent ++ ((msg.req_cpu, response msg none) ∷ [])
    pub counted : after.task_at init ≡ t
    pub others : (a : ℕ) → a ≢ this → a ≢ init → after.task_at a ≡ m.task_at a
    pub table_kept : (j : ℕ) → get_task after j ≡ (if pid == j then none else get_task m j)
    pub table_valid : Table.IsValid after.ht_pid_pcb
    pub init_kept : after.init_task ≡ m.init_task

  vanish-Vanished : (after : Manager) × Vanished after
  unfolding smp_syscall_vanish vanish_at after_report leave finish then_do
  vanish-Vanished =
      let leaving = record (m.task_at this) {
        exit_status = record (m.task_at this).exit_status { status = status };
      } in
      let written = set_task m this leaving in
      let counted : Manager = send (set_task written init t) [] in
      let removed : Manager = record counted {
        ht_pid_pcb = (hashtable_remove m.ht_pid_pcb pid).1;
      } in
      let blank : Task = record (removed.task_at this) { child_exit_status_list = [] } in
      let emptied = set_task removed this blank in
      let given : Manager = send (set_task emptied init (removed.task_at init)) [] in
      let kept : (removed.task_at this).child_exit_status_list ≡ [] =
        ap (λ (t : Task). t.child_exit_status_list)
          (set_task_ne written init this t not_init ∙ set_task_self m this leaving)
        ∙ childless in
      (
        send given ((msg.req_cpu, response msg none) ∷ []),
        record {
          run =
              ap (vanish_at m msg pid ppid status) here
              ∙ ap (λ p. then_do (report_to m this status p) (after_report msg pid this)) reports_to
              ∙ ap (λ r. then_do r (after_report msg pid this))
                  (report_to-eq m this init status t [] not_init reported)
              ∙ ap (λ r. then_do r (leave msg this)) (forget-eq counted pid this table here)
              ∙ ap (λ i. then_do (give_children removed this i) (finish msg)) has_init
              ∙ ap (λ r. then_do r (finish msg))
                  (give_children-none removed this init not_init kept);
          answered =
              ap (λ l. l ++ ((msg.req_cpu, response msg none) ∷ []))
                (append-nil (m.sent ++ []) ∙ append-nil m.sent);
          counted =
              set_task_self emptied init (removed.task_at init) ∙ set_task_self written init t;
          others = λ a n k.
              set_task_ne emptied init a (removed.task_at init) k
              ∙ set_task_ne removed this a blank n
              ∙ set_task_ne written init a t k
              ∙ set_task_ne m this a leaving n;
          table_kept = (hashtable_get-remove m.ht_pid_pcb pid table).1;
          table_valid = hashtable_remove-IsValid m.ht_pid_pcb pid table;
          init_kept = refl;
        },
      )

-- A report to a task that counts no live child makes the count negative.
report_uncounted :
    (own es : ExitStatus)
    → report_exit (task_of own [] 0 []) es
      ≡ some (record (task_of own (es ∷ []) 0 []) { num_alive = negsuc 0 }, [])
unfolding report_exit wake_waiter enqueue ◌+ℤ◌ ◌-ℤ◌
report_uncounted own es = refl

-- The packet that answers a thread with the exit status of the orphan, and the one without.
abbrev reaped : Msg → ExitStatus → List (ℕ × Packet)
reaped msg es = (msg.req_cpu, wait_response msg (pos es.pid) (some es.status)) ∷ []

abbrev no_child : Msg → List (ℕ × Packet)
no_child msg = (msg.req_cpu, wait_response msg echild none) ∷ []

-- Two calls of wait() on a task with one unreaped child and no live one.
abbrev after_waits : Manager → ℕ → ExitStatus → ExitStatus → Msg → Msg → Manager
after_waits a init own es first second =
    let b = send (set_task a init (task_of own [] 0 [])) (reaped first es) in
    send (set_task b init (task_of own [] 0 [])) (no_child second)

waits-eq :
    (a : Manager) (init_pid init : ℕ) (own es : ExitStatus) (first second : Msg)
    → get_task a init_pid ≡ some init
    → a.task_at init ≡ task_of own (es ∷ []) 0 []
    → then_do (smp_syscall_wait a first init_pid) (λ b. smp_syscall_wait b second init_pid)
      ≡ ok (after_waits a init own es first second)
unfolding then_do
waits-eq a init_pid init own es first second found counted =
    let none_left = task_of own [] 0 [] in
    let b = send (set_task a init none_left) (reaped first es) in
    ap (λ r. then_do r (λ b. smp_syscall_wait b second init_pid))
      (wait-eq a first init_pid init none_left (reaped first es) found
        (ap (λ (t : Task). wait_task t first) counted ∙ wait_reaps own es [] 0 [] first))
    ∙ wait-eq b second init_pid init none_left (no_child second) found (
        ap (λ (t : Task). wait_task t second) (set_task_self a init none_left)
        ∙ wait_none own [] second)

-- What the three handlers have sent, in one list.
sent-eq :
    (sent : List (ℕ × Packet)) (x y z : ℕ × Packet)
    → ((sent ++ (x ∷ [])) ++ (y ∷ [])) ++ (z ∷ []) ≡ sent ++ (x ∷ y ∷ z ∷ [])
sent-eq sent x y z =
    ap (λ l. l ++ (z ∷ [])) (append_assoc sent (x ∷ []) (y ∷ []))
    ∙ append_assoc sent (x ∷ y ∷ []) (z ∷ [])

module _ (m : Manager) (pid ppid init_pid cpid this init child : ℕ) (own : ExitStatus)
    (table : Table.IsValid m.ht_pid_pcb) (here : get_task m pid ≡ some this)
    (no_parent : get_task m ppid ≡ none) (has_init : m.init_task ≡ some init)
    (init_here : get_task m init_pid ≡ some init) (child_here : get_task m cpid ≡ some child)
    (pid_ne_init : pid ≢ init_pid) (pid_ne_child : pid ≢ cpid) (not_init : this ≢ init)
    (child_ne_init : child ≢ init) (child_ne_this : child ≢ this)
    (one_child : m.task_at init ≡ task_of own [] 1 [])
    (childless : (m.task_at this).child_exit_status_list ≡ [])
    (child_childless : (m.task_at child).child_exit_status_list ≡ []) where
  -- On a valid table with the init task, a task other than it without unreaped children whose
  -- parent is not in the table, and a third task without unreaped children, where the init task
  -- counts one live child, has no unreaped child and no waiting thread: if the second task
  -- vanishes and init calls wait() twice, all three calls end, the first wait() gets the pid and
  -- the status of the orphan, and the second fails with ECHILD though the third task is still in
  -- the table and unchanged. When the third task then vanishes as a child of init, the call ends
  -- and leaves init with -1 live children.
  pub orphan_uncounts :
      (msg first second last : Msg) (status code : ℤ)
      → (waited : Manager) × (buried : Manager) × (then_do
            (smp_syscall_vanish m msg pid ppid status)
            (λ a.
              then_do (smp_syscall_wait a first init_pid) (λ b. smp_syscall_wait b second init_pid))
          ≡ ok waited)
        × (waited.sent
            ≡ m.sent
              ++ ((msg.req_cpu, response msg none)
                  ∷ (
                    first.req_cpu,
                    wait_response first (pos (m.task_at this).exit_status.pid) (some status),
                  )
                  ∷ (second.req_cpu, wait_response second echild none)
                  ∷ []))
        × (get_task waited cpid ≡ some child)
        × (waited.task_at child ≡ m.task_at child)
        × (smp_syscall_vanish waited last cpid init_pid code ≡ ok buried)
        × ((buried.task_at init).num_alive ≡ negsuc 0)
  unfolding then_do or_init enqueue
  orphan_uncounts msg first second last status code =
      let es = record (m.task_at this).exit_status { status = status } in
      let none_left = task_of own [] 0 [] in
      let (a, v) =
        vanish-Vanished m msg pid ppid status this init (task_of own (es ∷ []) 0 []) table here
          (ap (λ p. or_init p m.init_task) no_parent ∙ has_init) has_init not_init childless
          (ap (λ (t : Task). report_exit t es) one_child ∙ report_keeps own [] 0 es) in
      let found = (λ (q ptr : ℕ) (n : pid ≢ q) (e : get_task m q ≡ some ptr).
        v.table_kept q ∙ ap (λ t. if t then none else get_task m q) (==_false pid q n) ∙ e) in
      let b = send (set_task a init none_left) (reaped first es) in
      let c = after_waits a init own es first second in
      let alive : c.task_at child ≡ m.task_at child =
        set_task_ne b init child none_left child_ne_init
        ∙ set_task_ne a init child none_left child_ne_init
        ∙ v.others child child_ne_this child_ne_init in
      let dead = record (c.task_at child).exit_status { status = code } in
      let (d, w) =
        vanish-Vanished c last cpid init_pid code child init
          (record (task_of own (dead ∷ []) 0 []) { num_alive = negsuc 0 }) v.table_valid
          (found cpid child pid_ne_child child_here)
          (ap (λ p. or_init p c.init_task) (found init_pid init pid_ne_init init_here))
          (v.init_kept ∙ has_init) child_ne_init
          (ap (λ (t : Task). t.child_exit_status_list) alive ∙ child_childless)
          (ap (λ (t : Task). report_exit t dead) (set_task_self b init none_left)
            ∙ report_uncounted own dead) in
      (
        c,
        d,
        ap
              (λ r. then_do r (λ a.
                then_do (smp_syscall_wait a first init_pid)
                  (λ b. smp_syscall_wait b second init_pid)))
              v.run
            ∙ waits-eq a init_pid init own es first second
                (found init_pid init pid_ne_init init_here) v.counted,
        ap (λ l. (l ++ reaped first es) ++ no_child second) v.answered ∙ sent-eq m.sent _ _ _,
        found cpid child pid_ne_child child_here,
        alive,
        w.run,
        ap (λ (t : Task). t.num_alive) w.counted,
      )
