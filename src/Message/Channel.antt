-- ===== src/Message/Channel.antt =====
-- Messages between the manager core and the worker cores: what the polling finds, and the order.
use os_p.Base.{
  ℕ, zero, suc, ◌+◌, ◌*◌, ◌%◌, ◌≤◌, ◌<◌, ◌≡◌, ◌⊎◌, inl, inr, refl, sym, ap, ◌∙◌, List, [], ◌∷◌,
  ◌++◌, Option, none, some, ==_refl, if◌then◌else◌, arith, eq_cases, length, subst,
}
use native.Mathlib.Nat.{mod-eq_of_lt, mod_self}
use mathlib.Core.List.{append-nil, append_assoc}
use os_p.Message.{
  Msg, Queues, put_queue, in_id, manager_send_msg, receive, worker_recv_msg, recv_loop,
  manager_recv_msg,
}

-- What a round of polling finds: the oldest message of the first core that has one, the worker core
-- c + 1, or that no core has one.
pub data Polls (num_worker_cores : ℕ) (q : Queues) : Option (Msg × Queues) → Type 0 where
  found :
      (c : ℕ) (msg : Msg) (rest : List Msg)
      → c < num_worker_cores
      → ((d : ℕ) → d < c → q (d * 2) ≡ [])
      → q (c * 2) ≡ msg ∷ rest
      → Polls num_worker_cores q (some (msg, put_queue q (c * 2) rest))
  idle : ((d : ℕ) → d < num_worker_cores → q (d * 2) ≡ []) → Polls num_worker_cores q none

-- The slot behind `j * 2`, which starts again after the last one.
next_slot :
    (n j : ℕ)
    → j < n
    → ((suc j < n) × ((j * 2 + 2) % (2 * n) ≡ suc j * 2))
      ⊎ ((suc j ≡ n) × ((j * 2 + 2) % (2 * n) ≡ 0))
next_slot n j h = elim (eq_cases (suc j) n) [
  | inl last ↦ inr (last, ap (λ x. x % (2 * n)) (omega arith) ∙ mod_self (2 * n))
  | inr more ↦
      inl (omega arith, mod-eq_of_lt {n = j * 2 + 2} {m = 2 * n} (omega arith) ∙ omega arith)
]

recv_loop-empty :
    (n fuel i : ℕ) (q : Queues)
    → q i ≡ []
    → recv_loop n (suc fuel) i q ≡ recv_loop n fuel ((i + 2) % (2 * n)) q
unfolding recv_loop receive
recv_loop-empty n fuel i q h = rw (recv_loop, h) refl

receive-found :
    (i : ℕ) (q : Queues) (msg : Msg) (rest : List Msg)
    → q i ≡ msg ∷ rest
    → receive i q ≡ (some msg, put_queue q i rest)
unfolding receive
receive-found i q msg rest h = rw (receive, h) refl

recv_loop-found :
    (n fuel i : ℕ) (q : Queues) (msg : Msg) (rest : List Msg)
    → q i ≡ msg ∷ rest
    → recv_loop n (suc fuel) i q ≡ some (msg, put_queue q i rest)
unfolding recv_loop
recv_loop-found n fuel i q msg rest h = ap polled (receive-found i q msg rest h)
  where
    polled : Option Msg × Queues → Option (Msg × Queues)
    polled r = elim (r.0) [ some m ↦ some (m, r.1) | none ↦ recv_loop n fuel ((i + 2) % (2 * n)) q ]

recv_loop-idle :
    (n fuel j : ℕ) (q : Queues)
    → j < n
    → ((d : ℕ) → d < n → q (d * 2) ≡ [])
    → recv_loop n fuel (j * 2) q ≡ none
unfolding recv_loop
recv_loop-idle n zero j q h e = refl
recv_loop-idle n (suc fuel) j q h e =
    recv_loop-empty n fuel (j * 2) q (e j h) ∙ (elim (next_slot n j h) [
      | inl (more, at) ↦ ap (λ i. recv_loop n fuel i q) at ∙ recv_loop-idle n fuel (suc j) q more e
      | inr (last, at) ↦
          ap (λ i. recv_loop n fuel i q) at ∙ recv_loop-idle n fuel 0 q (omega arith) e
    ])

list_cases : (ms : List Msg) → (ms ≡ []) ⊎ ((m : Msg) × (rest : List Msg) × (ms ≡ m ∷ rest))
list_cases [] = inl refl
list_cases (m ∷ rest) = inr (m, rest, refl)

-- The loop at the slot of the worker core j + 1, with fuel for the cores from there on.
recv_loop-Polls :
    (n j fuel : ℕ) (q : Queues)
    → j < n
    → n ≤ j + fuel
    → ((d : ℕ) → d < j → q (d * 2) ≡ [])
    → Polls n q (recv_loop n fuel (j * 2) q)
recv_loop-Polls n j zero q l f h = absurd (omega arith)
recv_loop-Polls n j (suc fuel) q l f h = elim (list_cases (q (j * 2))) [
  | inr (msg, rest, here) ↦
      subst (Polls n q) (sym (recv_loop-found n fuel (j * 2) q msg rest here))
        (found j msg rest l h here)
  | inl empty ↦
      subst (Polls n q) (sym (recv_loop-empty n fuel (j * 2) q empty)) (elim (next_slot n j l) [
        | inl (more, at) ↦
            subst (λ i. Polls n q (recv_loop n fuel i q)) (sym at)
              (recv_loop-Polls n (suc j) fuel q more (omega arith) (so_far empty))
        | inr (last, at) ↦
            let all = λ (d : ℕ) (k : d < n). so_far empty d (omega arith) in
            subst (λ i. Polls n q (recv_loop n fuel i q)) (sym at)
              (subst (Polls n q) (sym (recv_loop-idle n fuel 0 q (omega arith) all)) (idle all))
      ])
]
  where
    so_far : q (j * 2) ≡ [] → (d : ℕ) → d < suc j → q (d * 2) ≡ []
    so_far empty d l = elim (eq_cases d j) [
      | inl at ↦ ap (λ x. q (x * 2)) at ∙ empty
      | inr far ↦ h d (omega arith)
    ]

-- With at least one worker core and fuel for one round, the polling of the manager core takes the
-- oldest message of the first worker core that has sent one and leaves every other queue, and it
-- finds none only if no worker core has sent one.
pub manager_recv_msg-Polls :
    (n fuel : ℕ) (q : Queues) → 0 < n → n ≤ fuel → Polls n q (manager_recv_msg n fuel q)
unfolding manager_recv_msg
manager_recv_msg-Polls n fuel q h f =
    recv_loop-Polls n 0 fuel q h (omega arith) (λ d l. absurd (omega arith))

-- The messages sent to a worker core in this order, and its next receptions, as many.
abbrev pub send_all : ℕ → List Msg → Queues → Queues
send_all core [] q = q
send_all core (m ∷ ms) q = send_all core ms (manager_send_msg m core q)

abbrev pub recv_all : ℕ → ℕ → Queues → List (Option Msg)
recv_all core zero q = []
recv_all core (suc n) q = let r = worker_recv_msg core q in r.0 ∷ recv_all core n r.1

abbrev pub all_some : List Msg → List (Option Msg)
all_some [] = []
all_some (m ∷ ms) = some m ∷ all_some ms

put_queue-here : (q : Queues) (i : ℕ) (ms : List Msg) → put_queue q i ms i ≡ ms
put_queue-here q i ms = ap (λ b. if b then ms else q i) (==_refl i)

send_all-queue :
    (core : ℕ) (ms : List Msg) (q : Queues) → send_all core ms q (in_id core) ≡ q (in_id core) ++ ms
unfolding manager_send_msg
send_all-queue core [] q = sym (append-nil (q (in_id core)))
send_all-queue core (m ∷ ms) q =
    send_all-queue core ms (manager_send_msg m core q)
    ∙ ap (λ xs. xs ++ ms) (put_queue-here q (in_id core) (q (in_id core) ++ (m ∷ [])))
    ∙ append_assoc (q (in_id core)) (m ∷ []) ms

recv_all-queue :
    (core : ℕ) (ms : List Msg) (q : Queues)
    → q (in_id core) ≡ ms
    → recv_all core (length ms) q ≡ all_some ms
unfolding worker_recv_msg
recv_all-queue core [] q h = refl
recv_all-queue core (m ∷ ms) q h =
    let got = receive-found (in_id core) q m ms h in
    ap (λ r. r.0 ∷ recv_all core (length ms) r.1) got
    ∙ ap (λ xs. some m ∷ xs)
        (recv_all-queue core ms (put_queue q (in_id core) ms) (put_queue-here q (in_id core) ms))

-- The messages that the manager core sends to a worker core whose queue is empty are received by
-- as many receptions, each once and in order.
pub recv_all-send_all :
    (core : ℕ) (ms : List Msg) (q : Queues)
    → q (in_id core) ≡ []
    → recv_all core (length ms) (send_all core ms q) ≡ all_some ms
recv_all-send_all core ms q h =
    recv_all-queue core ms (send_all core ms q) (send_all-queue core ms q ∙ ap (λ xs. xs ++ ms) h)
