-- ===== src/SimpleQueue/Tests.antt =====
-- The theorems on the queue at a concrete memory: sentinels at 1 and 2, nodes at 3, 4 and 5.
use os_p.Base.{ℕ, ◌+◌, ◌*◌, ◌≡◌, ◌≢◌, ◌<◌, refl, [], ◌∷◌, arith}
use os_p.SimpleQueue.{
  Memory, Deque, simple_queue_init, simple_queue_enqueue, simple_queue_remove_tid, remove_loop,
}
use os_p.SimpleQueue.Fifo.{enqueue, find_key, drop_key}
use os_p.SimpleQueue.Links.{Holds}
use os_p.SimpleQueue.Ends.{simple_queue_init-Holds, simple_queue_enqueue-Holds}
use os_p.SimpleQueue.Walk.{node_key, or_null, simple_queue_remove_tid-Holds}

abbrev queue : Deque
queue = record { head = 1; tail = 2 }

-- The data field of the node at `a` is `10 * a`.
abbrev before : Memory
before a = record { thr = 10 * a; next = 7; prev = 8 }

abbrev tid_of : ℕ → ℕ
tid_of thr = thr + 1

abbrev no_nodes : Memory
no_nodes = simple_queue_init before queue

abbrev one_node : Memory
one_node = simple_queue_enqueue no_nodes queue 3

abbrev two_nodes : Memory
two_nodes = simple_queue_enqueue one_node queue 4

abbrev three_nodes : Memory
three_nodes = simple_queue_enqueue two_nodes queue 5

no_nodes-Holds : Holds no_nodes queue []
no_nodes-Holds = simple_queue_init-Holds before queue (λ e. absurd (omega (arith, e)))

far : (a b : ℕ) → a < b → b ≢ a
far a b h e = absurd (omega (arith, e))

one_node-Holds : Holds one_node queue (3 ∷ [])
unfolding enqueue
one_node-Holds =
    simple_queue_enqueue-Holds no_nodes queue [] 3 no_nodes-Holds (far 2 3 (omega arith))
      (far 1 3 (omega arith), tt)

two_nodes-Holds : Holds two_nodes queue (3 ∷ 4 ∷ [])
unfolding enqueue
two_nodes-Holds =
    simple_queue_enqueue-Holds one_node queue (3 ∷ []) 4 one_node-Holds (far 2 4 (omega arith))
      (far 1 4 (omega arith), (far 3 4 (omega arith), tt))

three_nodes-Holds : Holds three_nodes queue (3 ∷ 4 ∷ 5 ∷ [])
unfolding enqueue
three_nodes-Holds =
    simple_queue_enqueue-Holds two_nodes queue (3 ∷ 4 ∷ []) 5 two_nodes-Holds
      (far 2 5 (omega arith))
      (far 1 5 (omega arith), (far 3 5 (omega arith), (far 4 5 (omega arith), tt)))

taken_from_middle : (simple_queue_remove_tid tid_of 4 three_nodes queue 41).0 ≡ 4
unfolding simple_queue_remove_tid remove_loop simple_queue_init simple_queue_enqueue
taken_from_middle = refl

simple_queue_remove_tid-Holds_example :
    (let r = simple_queue_remove_tid tid_of 4 three_nodes queue 41 in
      (r.0 ≡ or_null (find_key (node_key tid_of three_nodes) 41 (3 ∷ 4 ∷ 5 ∷ [])))
      × Holds r.1 queue (drop_key (node_key tid_of three_nodes) 41 (3 ∷ 4 ∷ 5 ∷ [])))
simple_queue_remove_tid-Holds_example =
    simple_queue_remove_tid-Holds tid_of 4 three_nodes queue 41 (3 ∷ 4 ∷ 5 ∷ []) three_nodes-Holds
      (omega arith)
