-- ===== src/Lifecycle/Fork.antt =====
-- kern/smp_syscall_lifecycle.c: a task is made, for fork() or as the init task.
use os_p.Base.{
  ℕ, ◌+◌, ◌%◌, ◌≤◌, ◌<◌, ◌≡◌, ◌≢◌, refl, sym, ap, ◌∙◌, ◌⊎◌, inl, inr, Bool, true, false, ◌&&◌, [],
  ◌∷◌, ◌++◌, Option, none, some, arith, ◌==◌, if◌then◌else◌, eq_cases, ==_iff, ==_false, ==_refl,
  Bool-cases,
}
use native.Mathlib.Nat.{mod-lt}
use os_p.Base.Int.{pos, negsuc}
use os_p.Hashtable.{Hashtable, hashtable_put, hashtable_remove, hashtable_get}
use os_p.Hashtable.Lookup.{
  hashtable_get-remove, hashtable_get-put, hashtable_put-IsValid, hashtable_remove-IsValid,
}
use os_p.Hashtable.Lookup as Table
use os_p.Lifecycle.{Msg, response, fork, fork_response, Task, Manager, set_task, send, get_task}
use os_p.Lifecycle.Tasks.{IsValid, task_of-IsValid}

-- How the calls of `malloc` of one creation end: the address of the task, and which others succeed.
pub record Mallocs : Type 0 where
  pub process : Option ℕ
  pub hash_node : Bool
  pub exit_status : Bool
  pub exit_status_node : Bool

abbrev pub new_task : ℕ → Task
new_task pid = record {
  child_exit_status_list = [];
  exit_status = record { pid = pid; status = pos 0 };
  num_alive = pos 0;
  num_zombie = pos 0;
  wait_queue = [];
}

-- After the entry has been put in the table, or not.
pub fill_task : Manager → Mallocs → ℕ → ℕ → Option (Hashtable ℕ) → Bool × Manager
fill_task m a pid ptr none = (false, m)
fill_task m a pid ptr (some table) =
    if a.exit_status && a.exit_status_node
    then (true, set_task (record m { ht_pid_pcb = table }) ptr (new_task pid))
    else (false, record m { ht_pid_pcb = (hashtable_remove table pid).1 })

-- `true` is the return value 0.
pub create_pcb_vanish_wait_struct : Manager → Mallocs → ℕ → Bool × Manager
create_pcb_vanish_wait_struct m a pid = elim a.process [
  | none ↦ (false, m)
  | some ptr ↦ fill_task m a pid ptr (hashtable_put a.hash_node m.ht_pid_pcb pid ptr)
]

-- There is no return after the failure.
pub smp_syscall_fork : Manager → Mallocs → Msg → ℕ → Manager
smp_syscall_fork m a msg new_tid =
    let created = create_pcb_vanish_wait_struct m a new_tid in
    let packet = if created.0 then fork msg else fork_response msg (negsuc 0) in
    let answered = if created.0 then created.1 else send created.1 ((msg.req_cpu, packet) ∷ []) in
    record (send answered ((answered.fork_next_core + 1, packet) ∷ [])) {
      fork_next_core = (answered.fork_next_core + 1) % answered.num_worker_cores;
    }

unfoldable pub smp_set_init_pcb : Manager → Mallocs → Msg → ℕ → Manager
smp_set_init_pcb m a msg pid =
    let created = create_pcb_vanish_wait_struct m a pid in
    let set =
      if created.0 then record created.1 { init_task = get_task created.1 pid } else created.1 in
    send set ((msg.req_cpu, response msg (some (if created.0 then pos 0 else negsuc 0))) ∷ [])

-- What a creation leaves: the new task under its pid, or every pid as before.
abbrev pub Creates : Manager → ℕ → Bool × Manager → Type 0
Creates m pid (true, after) =
    (ptr : ℕ) × (after ≡ set_task (record m { ht_pid_pcb = after.ht_pid_pcb }) ptr (new_task pid))
    × IsValid (after.task_at ptr) 0
    × Table.IsValid after.ht_pid_pcb
    × ((j : ℕ) → get_task after j ≡ (if pid == j then some ptr else get_task m j))
Creates m pid (false, after) =
    (after ≡ record m { ht_pid_pcb = after.ht_pid_pcb })
    × Table.IsValid after.ht_pid_pcb
    × ((j : ℕ) → get_task after j ≡ get_task m j)

module _ (m : Manager) (a : Mallocs) (pid : ℕ) (table : Table.IsValid m.ht_pid_pcb)
    (fresh : get_task m pid ≡ none) where
  filled :
      (ptr : ℕ) (t : Hashtable ℕ)
      → hashtable_put true m.ht_pid_pcb pid ptr ≡ some t
      → Creates m pid (fill_task m a pid ptr (some t))
  unfolding fill_task
  filled ptr t e = elim (Bool-cases (a.exit_status && a.exit_status_node)) [
    | inl h ↦ rw h (
      ptr,
      refl,
      rw (==_refl ptr)
          (task_of-IsValid (record { pid = pid; status = pos 0 }) [] 0 [] (omega arith) (inl refl)),
      hashtable_put-IsValid m.ht_pid_pcb t pid ptr table e fresh,
      hashtable_get-put m.ht_pid_pcb t pid ptr table e,
    )
    | inr h ↦
        let valid = hashtable_put-IsValid m.ht_pid_pcb t pid ptr table e fresh in
        rw h (
          refl,
          hashtable_remove-IsValid t pid valid,
          λ j. (hashtable_get-remove t pid valid).1 j ∙ undone j e (eq_cases pid j),
        )
  ]
    where
      undone :
          (j : ℕ)
          → hashtable_put true m.ht_pid_pcb pid ptr ≡ some t
          → (pid ≡ j) ⊎ (pid ≢ j)
          → (if pid == j then none else hashtable_get t j) ≡ get_task m j
      undone j e (inl q) = rw ((==_iff pid j).1 q) (sym (ap (get_task m) (sym q) ∙ fresh))
      undone j e (inr n) =
          rw (==_false pid j n)
            (hashtable_get-put m.ht_pid_pcb t pid ptr table e j ∙ rw (==_false pid j n))

  -- For a valid table and a pid that is not in it, the creation of a task either succeeds and puts
  -- a task without children under the pid, or fails, whichever call of malloc it is, and leaves
  -- every lookup as it was; the table stays valid.
  pub create_pcb_vanish_wait_struct-Creates : Creates m pid (create_pcb_vanish_wait_struct m a pid)
  unfolding create_pcb_vanish_wait_struct fill_task hashtable_put
  create_pcb_vanish_wait_struct-Creates = made a.process a.hash_node
    where
      made :
          (p : Option ℕ) (b : Bool)
          → Creates m pid
              (create_pcb_vanish_wait_struct m (record a { process = p; hash_node = b }) pid)
      made none b = (refl, table, λ j. refl)
      made (some ptr) true = filled ptr _ refl
      made (some ptr) false = (refl, table, λ j. refl)

-- For a valid table and a pid that is not in it, while the next core of fork() is a worker it
-- stays one; if the creation succeeds the fork is sent to that core, and if it fails the answer is
-- sent to the caller and a second time to that core.
pub smp_syscall_fork-cases :
    (m : Manager) (a : Mallocs) (msg : Msg) (pid : ℕ)
    → m.fork_next_core < m.num_worker_cores
    → Table.IsValid m.ht_pid_pcb
    → get_task m pid ≡ none
    → (let after = smp_syscall_fork m a msg pid in
        (after.fork_next_core < after.num_worker_cores)
        × (m.fork_next_core + 1 ≤ m.num_worker_cores)
        × ((((create_pcb_vanish_wait_struct m a pid).0 ≡ true)
              × (after.sent ≡ m.sent ++ ((m.fork_next_core + 1, fork msg) ∷ [])))
            ⊎ (((create_pcb_vanish_wait_struct m a pid).0 ≡ false)
                × (after.sent
                    ≡ m.sent
                      ++ ((msg.req_cpu, fork_response msg (negsuc 0)) ∷ [])
                      ++ ((m.fork_next_core + 1, fork_response msg (negsuc 0)) ∷ [])))))
unfolding smp_syscall_fork
smp_syscall_fork-cases m a msg pid h table fresh =
    by_result (create_pcb_vanish_wait_struct m a pid)
      (create_pcb_vanish_wait_struct-Creates m a pid table fresh)
  where
    forked : Bool × Manager → Manager
    forked created =
        let packet = if created.0 then fork msg else fork_response msg (negsuc 0) in
        let answered =
          if created.0 then created.1 else send created.1 ((msg.req_cpu, packet) ∷ []) in
        record (send answered ((answered.fork_next_core + 1, packet) ∷ [])) {
          fork_next_core = (answered.fork_next_core + 1) % answered.num_worker_cores;
        }

    by_result :
        (r : Bool × Manager)
        → Creates m pid r
        → ((forked r).fork_next_core < (forked r).num_worker_cores)
          × (m.fork_next_core + 1 ≤ m.num_worker_cores)
          × (((r.0 ≡ true) × ((forked r).sent ≡ m.sent ++ ((m.fork_next_core + 1, fork msg) ∷ [])))
              ⊎ ((r.0 ≡ false)
                  × ((forked r).sent
                      ≡ m.sent
                        ++ ((msg.req_cpu, fork_response msg (negsuc 0)) ∷ [])
                        ++ ((m.fork_next_core + 1, fork_response msg (negsuc 0)) ∷ []))))
    by_result (true, after) (ptr, e, _, _, _) =
        rw e (mod-lt (m.fork_next_core + 1) (omega arith), omega arith, inl (refl, refl))
    by_result (false, after) (e, _, _) =
        rw e (mod-lt (m.fork_next_core + 1) (omega arith), omega arith, inr (refl, refl))
