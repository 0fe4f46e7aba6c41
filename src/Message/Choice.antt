-- ===== src/Message/Choice.antt =====
-- Which thread a core runs next.
use os_p.Base.{
  ℕ, zero, suc, ◌≡◌, ◌≢◌, inl, inr, refl, sym, ap, ◌∙◌, true, List, [], ◌∷◌, ◌++◌, Option, none,
  some, ◌==◌, ==_iff, ==_false, if◌then◌else◌, eq_cases, length, subst, Bool-cases,
}
use os_p.Base.Int.{pos, negsuc}
use os_p.Message.{
  in_id, receive, worker_recv_msg, Core, Next, no_thread, thread, halted, get_thr_from_msg_queue,
  scheduler_block, remove_tid, scheduler_get_next, scheduler_make_runnable,
  scheduler_is_exist_or_running,
}

-- The core after `n` choices of a next thread.
abbrev pub turns : ℕ → Core → Core
turns zero c = c
turns (suc n) c = turns n (scheduler_get_next (negsuc 0) c).1

quiet_queue :
    (c : Core) → c.msg_queues (in_id c.cpu) ≡ [] → get_thr_from_msg_queue c ≡ (no_thread, c)
unfolding get_thr_from_msg_queue worker_recv_msg receive
quiet_queue c h = elim (Bool-cases (c.cpu == 0)) [
  | inl manager ↦ rw (get_thr_from_msg_queue, manager) refl
  | inr worker ↦ rw (get_thr_from_msg_queue, worker, receive, h) refl
]

-- Without a message the ready queue decides.
quiet_choice :
    (c : Core)
    → c.msg_queues (in_id c.cpu) ≡ []
    → scheduler_get_next (negsuc 0) c ≡ scheduler_block c
unfolding scheduler_get_next
quiet_choice c h = ap choice (quiet_queue c h)
  where
    choice : Next × Core → Next × Core
    choice r = elim (r.0) [
      | no_thread ↦ scheduler_block (r.1)
      | thread t ↦ (thread t, r.1)
      | halted ↦ (halted, r.1)
    ]

turns-ready :
    (before after : List ℕ) (c : Core)
    → c.msg_queues (in_id c.cpu) ≡ []
    → c.ready ≡ before ++ after
    → turns (length before) c ≡ record c { ready = after }
unfolding scheduler_block
turns-ready [] after c h e = ap (λ ts. record c { ready = ts }) e
turns-ready (t ∷ before) after c h e =
    let chosen : scheduler_get_next (negsuc 0) c
        ≡ (thread t, record c { ready = before ++ after }) =
      quiet_choice c h ∙ rw (scheduler_block, e) refl in
    ap (λ r. turns (length before) r.1) chosen
    ∙ turns-ready before after (record c { ready = before ++ after }) h refl

-- On a core whose message queue is empty, a thread that is made runnable is the next thread after
-- exactly as many choices as there are threads in the ready queue, and the queue is then empty.
pub scheduler_get_next-turns :
    (t : ℕ) (c : Core)
    → c.msg_queues (in_id c.cpu) ≡ []
    → scheduler_get_next (negsuc 0) (turns (length c.ready) (scheduler_make_runnable t c))
      ≡ (thread t, record c { ready = [] })
unfolding scheduler_make_runnable scheduler_block
scheduler_get_next-turns t c h =
    ap (scheduler_get_next (negsuc 0))
      (turns-ready c.ready (t ∷ []) (record c { ready = c.ready ++ (t ∷ []) }) h refl)
    ∙ quiet_choice (record c { ready = t ∷ [] }) h

-- No thread of the list has the tid.
pub data HasNone (tid : ℕ → ℕ) (wanted : ℕ) : List ℕ → Type 0 where
  nobody : HasNone tid wanted []
  another :
      {t : ℕ} {ts : List ℕ} → tid t ≢ wanted → HasNone tid wanted ts → HasNone tid wanted (t ∷ ts)

-- The ends of a search for a thread by tid in a list.
pub data Removes (tid : ℕ → ℕ) (wanted : ℕ) : List ℕ → Option ℕ × List ℕ → Type 0 where
  missing : (ts : List ℕ) → HasNone tid wanted ts → Removes tid wanted ts (none, ts)
  taken :
      (before : List ℕ) (t : ℕ) (after : List ℕ)
      → HasNone tid wanted before
      → tid t ≡ wanted
      → Removes tid wanted (before ++ (t ∷ after)) (some t, before ++ after)

remove_tid-Removes :
    (tid : ℕ → ℕ) (wanted : ℕ) (ts : List ℕ) → Removes tid wanted ts (remove_tid tid wanted ts)
unfolding remove_tid
remove_tid-Removes tid wanted [] = missing [] nobody
remove_tid-Removes tid wanted (t ∷ ts) = elim (eq_cases (tid t) wanted) [
  | inl here ↦
      subst (λ b. Removes tid wanted (t ∷ ts) (if b then (some t, ts) else (rest.0, t ∷ rest.1)))
        (sym ((==_iff (tid t) wanted).1 here)) (taken [] t ts nobody here)
  | inr other ↦
      subst (λ b. Removes tid wanted (t ∷ ts) (if b then (some t, ts) else (rest.0, t ∷ rest.1)))
        (sym (==_false (tid t) wanted other)) (behind other (remove_tid-Removes tid wanted ts))
]
  where
    rest : Option ℕ × List ℕ
    rest = remove_tid tid wanted ts

    behind :
        {us : List ℕ} {r : Option ℕ × List ℕ}
        → tid t ≢ wanted
        → Removes tid wanted us r
        → Removes tid wanted (t ∷ us) (r.0, t ∷ r.1)
    behind other (missing us h) = missing (t ∷ us) (another other h)
    behind other (taken before u after h e) = taken (t ∷ before) u after (another other h) e

-- How a yield to the thread `wanted` ends on a core.
pub data Yields (wanted : ℕ) (c : Core) : Next × Core → Type 0 where
  absent :
      HasNone c.tid wanted c.ready
      → ((running : ℕ) → scheduler_is_exist_or_running wanted running c ≡ (wanted == c.tid running))
      → Yields wanted c (no_thread, c)
  chosen :
      (before : List ℕ) (t : ℕ) (after : List ℕ)
      → c.ready ≡ before ++ (t ∷ after)
      → HasNone c.tid wanted before
      → c.tid t ≡ wanted
      → ((running : ℕ) → scheduler_is_exist_or_running wanted running c ≡ true)
      → Yields wanted c (thread t, record c { ready = before ++ after })

-- A choice of the thread with a given tid takes the first such thread from the ready queue and
-- keeps the order of the others, and scheduler_is_exist_or_running is then true whatever thread
-- runs; if there is none it returns NULL and changes nothing, and scheduler_is_exist_or_running is
-- true only of the running thread.
pub scheduler_get_next-Yields :
    (wanted : ℕ) (c : Core) → Yields wanted c (scheduler_get_next (pos wanted) c)
unfolding scheduler_get_next scheduler_is_exist_or_running
scheduler_get_next-Yields wanted c = ends refl refl (remove_tid-Removes c.tid wanted c.ready)
  where
    removal : Option ℕ × List ℕ → Next × Core
    removal r = elim (r.0) [ none ↦ (no_thread, c) | some t ↦ (thread t, record c { ready = r.1 }) ]

    ends :
        {ts : List ℕ} {r : Option ℕ × List ℕ}
        → c.ready ≡ ts
        → remove_tid c.tid wanted c.ready ≡ r
        → Removes c.tid wanted ts r
        → Yields wanted c (scheduler_get_next (pos wanted) c)
    ends e f (missing ts h) = subst (Yields wanted c) (sym (ap removal f)) (
        absent (subst (HasNone c.tid wanted) (sym e) h)
          (λ running. rw (scheduler_is_exist_or_running, f) refl))
    ends e f (taken before t after h g) =
        subst (Yields wanted c) (sym (ap removal f))
          (chosen before t after e h g (λ running. rw (scheduler_is_exist_or_running, f) refl))
