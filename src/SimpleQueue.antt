-- ===== src/SimpleQueue.antt =====
-- kern/simple_queue.c: the doubly linked queue whose nodes the callers provide, on an explicit
-- memory of nodes. An address is a number, and NULL is 0.
pub mod Fifo
pub mod Links
pub mod Ends
pub mod Walk
mod Tests
use os_p.Base.{ℕ, zero, suc, ◌+◌, Bool, true, false, ◌==◌, if◌then◌else◌}

pub record Node : Type 0 where
  pub thr : ℕ  -- the data field: the address of a tcb or of a message
  pub next : ℕ
  pub prev : ℕ

abbrev pub Memory : Type 0
Memory = ℕ → Node

-- `simple_queue_t`: where its two sentinel nodes are.
pub record Deque : Type 0 where
  pub head : ℕ
  pub tail : ℕ

abbrev pub null : ℕ
null = 0

abbrev pub set_next : Memory → ℕ → ℕ → Memory
set_next m a v x = if x == a then record (m a) { next = v } else m x

abbrev pub set_prev : Memory → ℕ → ℕ → Memory
set_prev m a v x = if x == a then record (m a) { prev = v } else m x

pub simple_queue_init : Memory → Deque → Memory
simple_queue_init m q =
    let a = set_prev m q.head null in
    let b = set_next a q.head q.tail in let c = set_prev b q.tail q.head in set_next c q.tail null

pub simple_queue_enqueue : Memory → Deque → ℕ → Memory
simple_queue_enqueue m q new_node =
    let a = set_next m new_node q.tail in
    let b = set_prev a new_node (a q.tail).prev in
    let c = set_next b (b q.tail).prev new_node in set_prev c q.tail new_node

pub simple_queue_dequeue : Memory → Deque → ℕ × Memory
simple_queue_dequeue m q =
    let rv = (m q.head).next in
    let a = set_next m q.head (m rv).next in
    let b = set_prev a (a q.head).next q.head in
    if (m q.head).next == q.tail then (null, m) else (rv, b)

-- The `while` loop of the two removals from `node` on. `key` reads the tid behind a data field: the
-- tcb's own, or that of the thread that a message belongs to. `fuel` bounds the rounds.
pub remove_loop : (ℕ → ℕ) → ℕ → ℕ → Memory → Deque → ℕ → ℕ × Memory
remove_loop key tid zero m q node = (null, m)
remove_loop key tid (suc fuel) m q node =
    let tmp = (m node).next in
    let a = set_next m node (m tmp).next in
    let b = set_prev a (a node).next node in
    let rest = remove_loop key tid fuel m q tmp in
    if tmp == q.tail then (null, m) else if key (m tmp).thr == tid then (tmp, b) else rest

pub simple_queue_remove_tid : (ℕ → ℕ) → ℕ → Memory → Deque → ℕ → ℕ × Memory
simple_queue_remove_tid key fuel m q tid = remove_loop key tid fuel m q q.head

pub exist_loop : (ℕ → ℕ) → ℕ → ℕ → Memory → Deque → ℕ → Bool
exist_loop key tid zero m q node = false
exist_loop key tid (suc fuel) m q node =
    let tmp = (m node).next in
    let rest = exist_loop key tid fuel m q tmp in
    if tmp == q.tail then false else if key (m tmp).thr == tid then true else rest

pub simple_queue_is_exist_tid : (ℕ → ℕ) → ℕ → Memory → Deque → ℕ → Bool
simple_queue_is_exist_tid key fuel m q tid = exist_loop key tid fuel m q q.head

-- `true` is the return value 0, `false` the error -1.
pub simple_queue_destroy : Memory → Deque → Bool
simple_queue_destroy m q = (m q.head).next == q.tail

pub size_loop : ℕ → Memory → Deque → ℕ → ℕ → ℕ
size_loop zero m q node count = count
size_loop (suc fuel) m q node count =
    let rest = size_loop fuel m q (m node).next (count + 1) in
    if (m node).next == q.tail then count else rest

pub simple_queue_size : ℕ → Memory → Deque → ℕ
simple_queue_size fuel m q = size_loop fuel m q q.head 0
