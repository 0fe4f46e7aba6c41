-- ===== src/Lifecycle/Vanish.antt =====
-- The end of a task, as seen from the table.
use os_p.Base.{
  ℕ, suc, ◌≡◌, ◌≢◌, refl, sym, ap, ◌∙◌, subst, inl, inr, List, [], ◌∷◌, ◌++◌, Option, none, some,
  ◌==◌, if◌then◌else◌, ==_false, ==_refl,
}
use os_p.Base.Int.{ℤ, pos, ◌+ℤ◌}
use os_p.SimpleQueue.Fifo.{enqueue}
use os_p.Hashtable.{hashtable_remove}
use os_p.Hashtable.Lookup.{hashtable_get-remove}
use os_p.Hashtable.Lookup as Table
use os_p.Lifecycle.{
  ExitStatus, Msg, Packet, response, Task, reap, wake_waiter, report_exit, adopt, adopt_all,
  Manager, ok, then_do, set_task, send, get_task, change_task, report_to, or_init, forget,
  forget_found, finish, leave, after_report, vanish_at, give_children, smp_syscall_vanish,
}
use os_p.Lifecycle.Tasks.{IsValid, report_exit-Reports}

adopt-cons :
    (init : Task) (c : ExitStatus) (cs : List ExitStatus) (rest : List ExitStatus)
    → init.child_exit_status_list ≡ c ∷ cs
    → (l : List ExitStatus) × ((adopt init rest).child_exit_status_list ≡ c ∷ l)
unfolding adopt enqueue
adopt-cons init c cs [] e = (cs, e)
adopt-cons init c cs (es ∷ rest) e =
    adopt-cons
      (record init {
        child_exit_status_list = init.child_exit_status_list ++ (es ∷ []);
        num_zombie = init.num_zombie +ℤ pos 1;
      })
      c (cs ++ (es ∷ [])) rest (ap (λ l. l ++ (es ∷ [])) e)

abbrev Sends : Option (Task × List (ℕ × Packet)) → Type 0
Sends r = (t : Task) × (out : List (ℕ × Packet)) × (r ≡ some (t, out))

wake_total :
    (task : Task) (c : ExitStatus) (l : List ExitStatus)
    → task.child_exit_status_list ≡ c ∷ l
    → Sends (wake_waiter task)
unfolding wake_waiter reap
wake_total task c l e =
    subst (λ z. Sends (wake_waiter (record task { child_exit_status_list = z }))) (sym e)
      (by_queue task.wait_queue)
  where
    by_queue :
        (q : List Msg)
        → Sends (wake_waiter (record task { child_exit_status_list = c ∷ l; wait_queue = q }))
    by_queue [] = (_, _, refl)
    by_queue (w ∷ q) = (_, _, refl)

-- The adoption never finds the list empty.
adopt_all-total : (init : Task) (children : List ExitStatus) → Sends (adopt_all init children)
unfolding adopt_all adopt enqueue
adopt_all-total init [] = (init, [], refl)
adopt_all-total init (es ∷ rest) =
    let (c, cs, e) = snoc init.child_exit_status_list in
    let more : Task = record init {
      child_exit_status_list = init.child_exit_status_list ++ (es ∷ []);
      num_zombie = init.num_zombie +ℤ pos 1;
    } in
    let (l, f) = adopt-cons more c cs rest e in wake_total (adopt init (es ∷ rest)) c l f
  where
    snoc :
        (l : List ExitStatus)
        → (c : ExitStatus) × (cs : List ExitStatus) × (l ++ (es ∷ []) ≡ c ∷ cs)
    snoc [] = (es, [], refl)
    snoc (x ∷ l) = (x, l ++ (es ∷ []), refl)

-- Both outcomes of a report, without their details.
report-Sends :
    (task : Task) (alive : ℕ) (es : ExitStatus)
    → IsValid task (suc alive)
    → Sends (report_exit task es)
report-Sends task alive es v = elim (report_exit-Reports task alive es v) [
  | inl (t, w, _, e, _) ↦ (t, _, e)
  | inr (t, _, e, _, _) ↦ (t, [], e)
]

pub report_to-eq :
    (m : Manager) (this parent : ℕ) (status : ℤ) (t : Task) (out : List (ℕ × Packet))
    → this ≢ parent
    → (let es = record (m.task_at this).exit_status { status = status } in
        report_exit (m.task_at parent) es ≡ some (t, out)
        → report_to m this status (some parent)
          ≡ ok (
              send
                (set_task (set_task m this (record (m.task_at this) { exit_status = es })) parent t)
                out))
unfolding report_to change_task
report_to-eq m this parent status t out n e = rw (==_false parent this (λ q. n (sym q))) (rw e)

give_children-eq :
    (m : Manager) (this init : ℕ)
    → this ≢ init
    → (t : Task) × (out : List (ℕ × Packet)) × (give_children m this (some init)
        ≡ ok (
            send
              (set_task
                (set_task m this (record (m.task_at this) { child_exit_status_list = [] }))
                init
                t)
              out))
unfolding give_children change_task
give_children-eq m this init n =
    let (t, out, e) = adopt_all-total (m.task_at init) (m.task_at this).child_exit_status_list in
    (t, out, rw (==_false this init n, ==_false init this (λ q. n (sym q))) (rw e))

pub set_task_ne :
    (m : Manager) (ptr a : ℕ) (t : Task) → a ≢ ptr → (set_task m ptr t).task_at a ≡ m.task_at a
set_task_ne m ptr a t n = rw (==_false a ptr n)

pub set_task_self : (m : Manager) (ptr : ℕ) (t : Task) → (set_task m ptr t).task_at ptr ≡ t
set_task_self m ptr t = rw (==_refl ptr)

pub forget-eq :
    (m : Manager) (pid this : ℕ)
    → Table.IsValid m.ht_pid_pcb
    → get_task m pid ≡ some this
    → forget m pid ≡ ok (record m { ht_pid_pcb = (hashtable_remove m.ht_pid_pcb pid).1 })
unfolding forget forget_found
forget-eq m pid this v e =
    ap (λ (o : Option ℕ). forget_found m (o, (hashtable_remove m.ht_pid_pcb pid).1))
      ((hashtable_get-remove m.ht_pid_pcb pid v).0 ∙ e)

module _ (m : Manager) (msg : Msg) (pid ppid : ℕ) (status : ℤ) (this parent init alive : ℕ)
    (table : Table.IsValid m.ht_pid_pcb) (here : get_task m pid ≡ some this)
    (reports_to : or_init (get_task m ppid) m.init_task ≡ some parent)
    (has_init : m.init_task ≡ some init) (not_init : this ≢ init) (not_parent : this ≢ parent)
    (valid : IsValid (m.task_at parent) (suc alive)) where
  -- The exit status that the task leaves.
  abbrev pub left : ExitStatus
  left = record (m.task_at this).exit_status { status = status }

  -- If the table is valid and the parent of a vanishing task, or the init task in its place, is a
  -- valid task other than it with a live child, and the task is not the init task, then
  -- smp_syscall_vanish ends without a panic or a NULL dereference: the parent gets the report of
  -- the exit status, the caller is answered last, the pid leaves the table, and every other pid is
  -- found as before; a parent other than the init task is left as the report leaves it.
  pub smp_syscall_vanish-ok :
      (after : Manager) × (t : Task) × (out : List (ℕ × Packet)) × (more : List (ℕ × Packet))
      × (smp_syscall_vanish m msg pid ppid status ≡ ok after)
      × (report_exit (m.task_at parent) left ≡ some (t, out))
      × (after.sent ≡ m.sent ++ out ++ more ++ ((msg.req_cpu, response msg none) ∷ []))
      × (parent ≢ init → after.task_at parent ≡ t)
      × ((j : ℕ) → get_task after j ≡ (if pid == j then none else get_task m j))
  unfolding smp_syscall_vanish vanish_at after_report leave finish then_do
  smp_syscall_vanish-ok =
      let (t, out, e) = report-Sends (m.task_at parent) alive left valid in
      let reported : Manager =
        send (set_task (set_task m this (record (m.task_at this) { exit_status = left })) parent t)
          out in
      let removed : Manager = record reported {
        ht_pid_pcb = (hashtable_remove m.ht_pid_pcb pid).1;
      } in
      let (u, more, g) = give_children-eq removed this init not_init in
      let blank : Task = record (removed.task_at this) { child_exit_status_list = [] } in
      let removed_emptied = set_task removed this blank in
      let given : Manager = send (set_task removed_emptied init u) more in
      (
        send given ((msg.req_cpu, response msg none) ∷ []),
        t,
        out,
        more,
        ap (vanish_at m msg pid ppid status) here
            ∙ ap (λ p. then_do (report_to m this status p) (after_report msg pid this)) reports_to
            ∙ ap (λ r. then_do r (after_report msg pid this))
                (report_to-eq m this parent status t out not_parent e)
            ∙ ap (λ r. then_do r (leave msg this)) (forget-eq reported pid this table here)
            ∙ ap (λ i. then_do (give_children removed this i) (finish msg)) has_init
            ∙ ap (λ r. then_do r (finish msg)) g,
        e,
        refl,
        λ n.
            set_task_ne removed_emptied init parent u n
            ∙ set_task_ne removed this parent blank (λ q. not_parent (sym q))
            ∙ set_task_self (set_task m this (record (m.task_at this) { exit_status = left }))
                parent t,
        (hashtable_get-remove m.ht_pid_pcb pid table).1,
      )
