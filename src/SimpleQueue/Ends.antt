-- ===== src/SimpleQueue/Ends.antt =====
-- `simple_queue_init`, `simple_queue_enqueue` and `simple_queue_dequeue` against the FIFO.
use os_p.Base.{
  ℕ, ◌≡◌, ◌≢◌, sym, ap, ◌∙◌, ◌⊎◌, inl, inr, List, [], ◌∷◌, ◌++◌, Option, none, some, arith,
  ==_false, ==_iff, subst,
}
use os_p.SimpleQueue.{
  Memory, Deque, null, set_next, set_prev, simple_queue_init, simple_queue_enqueue,
  simple_queue_dequeue, simple_queue_destroy,
}
use os_p.SimpleQueue.Links.{NotIn, Distinct, Linked, Linked-same, last_ne, Holds}
use os_p.SimpleQueue.Fifo.{enqueue, dequeue, is_empty}

-- A queue whose two sentinels differ holds no node after simple_queue_init, whatever was in
-- memory.
pub simple_queue_init-Holds :
    (m : Memory) (q : Deque) → q.head ≢ q.tail → Holds (simple_queue_init m q) q []
unfolding simple_queue_init
simple_queue_init-Holds m q h = record {
  links = ground arith;
  apart = (tt, tt);
  tail_apart = (λ e. h (sym e), tt);
}

-- The links that the four writes of an enqueue leave; `l` is the node that was last.
record Enqueued (m n : Memory) (new l t : ℕ) : Type 0 where
  next_last : (n l).next ≡ new
  next_new : (n new).next ≡ t
  prev_new : (n new).prev ≡ l
  prev_tail : (n t).prev ≡ new
  next_other : (y : ℕ) → y ≢ l → y ≢ new → (n y).next ≡ (m y).next
  prev_other : (y : ℕ) → y ≢ t → y ≢ new → (n y).prev ≡ (m y).prev

enqueue-Enqueued :
    (m : Memory) (q : Deque) (new : ℕ)
    → new ≢ q.tail
    → new ≢ (m q.tail).prev
    → Enqueued m (simple_queue_enqueue m q new) new (m q.tail).prev q.tail
unfolding simple_queue_enqueue
enqueue-Enqueued m q new a b = record {
  next_last = ground arith;
  next_new = ground arith;
  prev_new = ground arith;
  prev_tail = ground arith;
  next_other = λ y c d. ground arith;
  prev_other = λ y c d. ground arith;
}

Enqueued-Linked :
    (m n : Memory) (new t a : ℕ) (xs : List ℕ)
    → Enqueued m n new (m t).prev t
    → Linked m a xs t
    → Distinct (a ∷ xs)
    → NotIn t (a ∷ xs)
    → NotIn new (a ∷ xs)
    → Linked n a (xs ++ (new ∷ [])) t
Enqueued-Linked m n new t a [] w (e, f) d nt nn =
    (ap (λ y. (n y).next) (sym f) ∙ w.next_last, w.prev_new ∙ f, (w.next_new, w.prev_tail))
Enqueued-Linked m n new t a (x ∷ xs) w (e, f, l) d nt nn = (
  w.next_other a (last_ne m a x xs t l d.0.0 d.0.1) (λ q. nn.0 (sym q)) ∙ e,
  w.prev_other x (λ q. nt.1.0 (sym q)) (λ q. nn.1.0 (sym q)) ∙ f,
  Enqueued-Linked m n new t x xs w l d.1 nt.1 nn.1,
)

pub NotIn-snoc : (y new : ℕ) (xs : List ℕ) → NotIn y xs → y ≢ new → NotIn y (xs ++ (new ∷ []))
NotIn-snoc y new [] h n = (n, tt)
NotIn-snoc y new (x ∷ xs) h n = (h.0, NotIn-snoc y new xs h.1 n)

pub Distinct-snoc :
    (new : ℕ) (xs : List ℕ) → Distinct xs → NotIn new xs → Distinct (xs ++ (new ∷ []))
Distinct-snoc new [] d h = (tt, tt)
Distinct-snoc new (x ∷ xs) d h =
    (NotIn-snoc x new xs d.0 (λ e. h.0 (sym e)), Distinct-snoc new xs d.1 h.1)

-- An enqueue of a node that is not in the queue puts it last and moves no other node.
pub simple_queue_enqueue-Holds :
    (m : Memory) (q : Deque) (xs : List ℕ) (new : ℕ)
    → Holds m q xs
    → new ≢ q.tail
    → NotIn new (q.head ∷ xs)
    → Holds (simple_queue_enqueue m q new) q (enqueue xs new)
unfolding enqueue
simple_queue_enqueue-Holds m q xs new h nt nn =
    let w = enqueue-Enqueued m q new nt (last_ne m new q.head xs q.tail h.links nn.0 nn.1) in
    record {
      links =
          Enqueued-Linked m (simple_queue_enqueue m q new) new q.tail q.head xs w h.links h.apart
            h.tail_apart nn;
      apart = Distinct-snoc new (q.head ∷ xs) h.apart nn;
      tail_apart = NotIn-snoc q.tail new (q.head ∷ xs) h.tail_apart (λ e. nt (sym e));
    }

-- What a dequeue gives for the nodes of a queue, and the memory that it leaves.
abbrev pub Dequeues : Memory → Deque → Option (ℕ × List ℕ) → Type 0
Dequeues m q none = simple_queue_dequeue m q ≡ (null, m)
Dequeues m q (some (x, rest)) =
    ((simple_queue_dequeue m q).0 ≡ x) × Holds (simple_queue_dequeue m q).1 q rest

-- The memory after the first node has been unlinked.
abbrev pub unlinked : Memory → ℕ → ℕ → Memory
unlinked m node tmp = let a = set_next m node (m tmp).next in set_prev a (a node).next node

-- What the two writes change.
pub record Unlinked (m n : Memory) (node z : ℕ) : Type 0 where
  pub next_node : (n node).next ≡ z
  pub prev_next : (n z).prev ≡ node
  pub next_other : (y : ℕ) → y ≢ node → (n y).next ≡ (m y).next
  pub prev_other : (y : ℕ) → y ≢ z → (n y).prev ≡ (m y).prev

pub unlinked-Unlinked :
    (m : Memory) (node tmp z : ℕ) → (m tmp).next ≡ z → Unlinked m (unlinked m node tmp) node z
unlinked-Unlinked m node tmp z e = record {
  next_node = ground arith;
  prev_next = ground arith;
  next_other = λ y h. ground arith;
  prev_other = λ y h. ground arith;
}

-- The node after `node` is taken out of the chain.
pub unlink-Linked :
    (m : Memory) (node tmp t : ℕ) (xs : List ℕ)
    → Linked m tmp xs t
    → Distinct (node ∷ tmp ∷ xs)
    → NotIn t (node ∷ tmp ∷ xs)
    → Linked (unlinked m node tmp) node xs t
unlink-Linked m node tmp t [] (e, f) d n =
    let w = unlinked-Unlinked m node tmp t e in (w.next_node, w.prev_next)
unlink-Linked m node tmp t (x ∷ xs) (e, f, l) d n =
    let w = unlinked-Unlinked m node tmp x e in
    (w.next_node, w.prev_next, Linked-same m (unlinked m node tmp) x xs t (fwd w) (back w) l)
  where
    fwd :
        Unlinked m (unlinked m node tmp) node x
        → (y : ℕ) → (y ≡ x) ⊎ (¬ NotIn y xs)
        → (unlinked m node tmp y).next ≡ (m y).next
    fwd w y (inl q) = w.next_other y (λ r. d.0.1.0 (sym r ∙ q))
    fwd w y (inr c) = w.next_other y (λ r. c (subst (λ z. NotIn z xs) (sym r) d.0.1.1))

    back :
        Unlinked m (unlinked m node tmp) node x
        → (y : ℕ) → (y ≡ t) ⊎ (¬ NotIn y xs)
        → (unlinked m node tmp y).prev ≡ (m y).prev
    back w y (inl q) = w.prev_other y (λ r. n.1.1.0 (sym q ∙ r))
    back w y (inr c) = w.prev_other y (λ r. c (subst (λ z. NotIn z xs) (sym r) d.1.1.0))

-- A dequeue returns the oldest node and leaves the queue with the others in order; for an empty
-- queue it returns NULL and writes nothing.
pub simple_queue_dequeue-Dequeues :
    (m : Memory) (q : Deque) (xs : List ℕ) → Holds m q xs → Dequeues m q (dequeue xs)
unfolding simple_queue_dequeue dequeue
simple_queue_dequeue-Dequeues m q [] h = rw ((==_iff (m q.head).next q.tail).1 h.links.0)
simple_queue_dequeue-Dequeues m q (x ∷ xs) h =
    let ne : (m q.head).next ≢ q.tail = λ e. h.tail_apart.1.0 (sym e ∙ h.links.0) in
    rw (==_false (m q.head).next q.tail ne) (
      h.links.0,
      record {
        links =
            subst (λ r. Linked (unlinked m q.head r) q.head xs q.tail) (sym h.links.0)
              (unlink-Linked m q.head x q.tail xs h.links.2 h.apart h.tail_apart);
        apart = (h.apart.0.1, h.apart.1.1);
        tail_apart = (h.tail_apart.0, h.tail_apart.1.1);
      },
    )

-- simple_queue_destroy succeeds exactly if the queue holds no node.
pub simple_queue_destroy-eq :
    (m : Memory) (q : Deque) (xs : List ℕ) → Holds m q xs → simple_queue_destroy m q ≡ is_empty xs
unfolding simple_queue_destroy
simple_queue_destroy-eq m q [] h = (==_iff (m q.head).next q.tail).1 h.links.0
simple_queue_destroy-eq m q (x ∷ xs) h =
    ==_false (m q.head).next q.tail (λ e. h.tail_apart.1.0 (sym e ∙ h.links.0))
