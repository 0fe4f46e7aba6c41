-- ===== src/SimpleQueue/Walk.antt =====
-- The loops that walk the queue: removal by tid, search and size. One round for each node and one
-- for the end are enough fuel.
use os_p.Base.{
  ℕ, zero, suc, ◌+◌, ◌<◌, ◌≡◌, ◌≢◌, refl, sym, ap, ◌∙◌, ◌⊎◌, inl, inr, List, [], ◌∷◌, Option, none,
  some, Bool, true, false, arith, ◌==◌, if◌then◌else◌, ==_false, ==_iff, subst, length, Bool-cases,
}
use os_p.SimpleQueue.{
  Memory, Deque, null, remove_loop, simple_queue_remove_tid, exist_loop, simple_queue_is_exist_tid,
  size_loop, simple_queue_size,
}
use os_p.SimpleQueue.Links.{NotIn, Distinct, Linked, Holds}
use os_p.SimpleQueue.Ends.{unlinked, unlink-Linked, Unlinked, unlinked-Unlinked}
use os_p.SimpleQueue.Fifo.{find_key, drop_key}

-- The key of a node: the tid behind its data field.
abbrev pub node_key : (ℕ → ℕ) → Memory → ℕ → ℕ
node_key key m x = key (m x).thr

abbrev pub or_null : Option ℕ → ℕ
or_null none = null
or_null (some x) = x

-- What the removal has done from `node` on, with `rest` behind it.
record Removed (key : ℕ → ℕ) (tid : ℕ) (m : Memory) (t node : ℕ) (xs : List ℕ) (r : ℕ × Memory)
    : Type 0 where
  found : r.0 ≡ or_null (find_key (node_key key m) tid xs)
  links : Linked r.1 node (drop_key (node_key key m) tid xs) t
  next_before : (y : ℕ) → NotIn y (node ∷ xs) → (r.1 y).next ≡ (m y).next
  prev_before : (y : ℕ) → NotIn y xs → y ≢ t → (r.1 y).prev ≡ (m y).prev

module _ (key : ℕ → ℕ) (tid : ℕ) (m : Memory) (q : Deque) where
  remove_loop-end :
      (f node : ℕ) → (m node).next ≡ q.tail → remove_loop key tid (suc f) m q node ≡ (null, m)
  unfolding remove_loop
  remove_loop-end f node e = rw ((==_iff (m node).next q.tail).1 e)

  remove_loop-hit :
      (f node : ℕ)
      → (m node).next ≢ q.tail
      → (key (m (m node).next).thr == tid) ≡ true
      → remove_loop key tid (suc f) m q node ≡ ((m node).next, unlinked m node (m node).next)
  unfolding remove_loop
  remove_loop-hit f node n h = rw (==_false (m node).next q.tail n, h)

  remove_loop-miss :
      (f node : ℕ)
      → (m node).next ≢ q.tail
      → (key (m (m node).next).thr == tid) ≡ false
      → remove_loop key tid (suc f) m q node ≡ remove_loop key tid f m q (m node).next
  unfolding remove_loop
  remove_loop-miss f node n h = rw (==_false (m node).next q.tail n, h)

  hit-Removed :
      (node x : ℕ) (xs : List ℕ)
      → (m node).next ≡ x
      → (key (m x).thr == tid) ≡ true
      → Linked m x xs q.tail
      → Distinct (node ∷ x ∷ xs)
      → NotIn q.tail (node ∷ x ∷ xs)
      → Removed key tid m q.tail node (x ∷ xs) (x, unlinked m node x)
  unfolding find_key drop_key
  hit-Removed node x xs e h l d n = record {
    found = rw h;
    links = rw h (unlink-Linked m node x q.tail xs l d n);
    next_before = λ y c. (w (m x).next refl).next_other y c.0;
    prev_before = λ y c b. (w (m x).next refl).prev_other y (far y xs l c.1 b);
  }
    where
      w : (z : ℕ) → (m x).next ≡ z → Unlinked m (unlinked m node x) node z
      w z = unlinked-Unlinked m node x z

      far : (y : ℕ) (xs : List ℕ) → Linked m x xs q.tail → NotIn y xs → y ≢ q.tail → y ≢ (m x).next
      far y [] l c b = λ r. b (r ∙ l.0)
      far y (z ∷ zs) l c b = λ r. c.0 (r ∙ l.0)

  miss-Removed :
      (node x : ℕ) (xs : List ℕ) (r : ℕ × Memory)
      → (m node).next ≡ x
      → (m x).prev ≡ node
      → (key (m x).thr == tid) ≡ false
      → Distinct (node ∷ x ∷ xs)
      → NotIn q.tail (node ∷ x ∷ xs)
      → Removed key tid m q.tail x xs r
      → Removed key tid m q.tail node (x ∷ xs) r
  unfolding find_key drop_key
  miss-Removed node x xs r e f h d n w = record {
    found = rw h w.found;
    links =
        rw h (w.next_before node d.0 ∙ e, w.prev_before x d.1.0 (λ b. n.1.0 (sym b)) ∙ f, w.links);
    next_before = λ y c. w.next_before y c.1;
    prev_before = λ y c b. w.prev_before y c.1 b;
  }

  remove_loop-Removed :
      (f node : ℕ) (xs : List ℕ)
      → length xs < f
      → Linked m node xs q.tail
      → Distinct (node ∷ xs)
      → NotIn q.tail (node ∷ xs)
      → Removed key tid m q.tail node xs (remove_loop key tid f m q node)
  unfolding find_key drop_key
  remove_loop-Removed zero node xs b l d n = absurd (omega arith)
  remove_loop-Removed (suc f) node [] b l d n =
      rw (remove_loop-end f node l.0)
        (record { found = refl; links = l; next_before = λ y c. refl; prev_before = λ y c b. refl })
  remove_loop-Removed (suc f) node (x ∷ xs) b l d n =
      let rest = remove_loop-Removed f x xs (omega arith) l.2 d.1 n.1 in
      let ne : (m node).next ≢ q.tail = λ e. n.1.0 (sym e ∙ l.0) in
      elim (Bool-cases (key (m x).thr == tid)) [
        | inl h ↦
            let h' = subst (λ z. (key (m z).thr == tid) ≡ true) (sym l.0) h in
            rw (remove_loop-hit f node ne h') (
              subst (λ z. Removed key tid m q.tail node (x ∷ xs) (z, unlinked m node z)) (sym l.0)
                (hit-Removed node x xs l.0 h l.2 d n))
        | inr h ↦
            let h' = subst (λ z. (key (m z).thr == tid) ≡ false) (sym l.0) h in
            rw (remove_loop-miss f node ne h') (
              subst (λ z. Removed key tid m q.tail node (x ∷ xs) (remove_loop key tid f m q z))
                (sym l.0) (miss-Removed node x xs (remove_loop key tid f m q x) l.0 l.1 h d n rest))
      ]

drop_key-NotIn : (k : ℕ → ℕ) (tid y : ℕ) (xs : List ℕ) → NotIn y xs → NotIn y (drop_key k tid xs)
unfolding drop_key
drop_key-NotIn k tid y [] h = tt
drop_key-NotIn k tid y (x ∷ xs) h = ground (arith, drop_key-NotIn k tid y xs h.1)

drop_key-Distinct : (k : ℕ → ℕ) (tid : ℕ) (xs : List ℕ) → Distinct xs → Distinct (drop_key k tid xs)
unfolding drop_key
drop_key-Distinct k tid [] d = tt
drop_key-Distinct k tid (x ∷ xs) d =
    ground (arith, drop_key-Distinct k tid xs d.1, drop_key-NotIn k tid x xs d.0)

-- With more rounds than nodes simple_queue_remove_tid returns the oldest node with the tid, or
-- NULL if there is none, and the queue then holds the other nodes in their order.
pub simple_queue_remove_tid-Holds :
    (key : ℕ → ℕ) (fuel : ℕ) (m : Memory) (q : Deque) (tid : ℕ) (xs : List ℕ)
    → Holds m q xs
    → length xs < fuel
    → (let r = simple_queue_remove_tid key fuel m q tid in
        (r.0 ≡ or_null (find_key (node_key key m) tid xs))
        × Holds r.1 q (drop_key (node_key key m) tid xs))
unfolding simple_queue_remove_tid
simple_queue_remove_tid-Holds key fuel m q tid xs h b =
    let w = remove_loop-Removed key tid m q fuel q.head xs b h.links h.apart h.tail_apart in
    (
      w.found,
      record {
        links = w.links;
        apart = (
          drop_key-NotIn (node_key key m) tid q.head xs h.apart.0,
          drop_key-Distinct (node_key key m) tid xs h.apart.1,
        );
        tail_apart = (h.tail_apart.0, drop_key-NotIn (node_key key m) tid q.tail xs h.tail_apart.1);
      },
    )

abbrev pub is_found : Option ℕ → Bool
is_found none = false
is_found (some x) = true

exist_loop-eq :
    (key : ℕ → ℕ) (tid : ℕ) (m : Memory) (q : Deque) (f node : ℕ) (xs : List ℕ)
    → length xs < f
    → Linked m node xs q.tail
    → NotIn q.tail xs
    → exist_loop key tid f m q node ≡ is_found (find_key (node_key key m) tid xs)
unfolding exist_loop find_key
exist_loop-eq key tid m q zero node xs b l n = absurd (omega arith)
exist_loop-eq key tid m q (suc f) node [] b l n = rw ((==_iff (m node).next q.tail).1 l.0)
exist_loop-eq key tid m q (suc f) node (x ∷ xs) b l n =
    let ne : (m node).next ≢ q.tail = λ e. n.0 (sym e ∙ l.0) in
    let ih = exist_loop-eq key tid m q f x xs (omega arith) l.2 n.1 in
    rw (==_false (m node).next q.tail ne) (
      subst
        (λ z.
          (if key (m z).thr == tid then true else exist_loop key tid f m q z)
          ≡ is_found (if key (m x).thr == tid then some x else find_key (node_key key m) tid xs))
        (sym l.0) (split (Bool-cases (key (m x).thr == tid)) ih))
  where
    split :
        ((key (m x).thr == tid) ≡ true) ⊎ ((key (m x).thr == tid) ≡ false)
        → exist_loop key tid f m q x ≡ is_found (find_key (node_key key m) tid xs)
        → (if key (m x).thr == tid then true else exist_loop key tid f m q x)
          ≡ is_found (if key (m x).thr == tid then some x else find_key (node_key key m) tid xs)
    split (inl h) ih = rw h
    split (inr h) ih = rw h ih

-- With more rounds than nodes simple_queue_is_exist_tid says whether a node of the queue has the
-- tid.
pub simple_queue_is_exist_tid-eq :
    (key : ℕ → ℕ) (fuel : ℕ) (m : Memory) (q : Deque) (tid : ℕ) (xs : List ℕ)
    → Holds m q xs
    → length xs < fuel
    → simple_queue_is_exist_tid key fuel m q tid ≡ is_found (find_key (node_key key m) tid xs)
unfolding simple_queue_is_exist_tid
simple_queue_is_exist_tid-eq key fuel m q tid xs h b =
    exist_loop-eq key tid m q fuel q.head xs b h.links h.tail_apart.1

size_loop-eq :
    (m : Memory) (q : Deque) (f node count : ℕ) (xs : List ℕ)
    → length xs < f
    → Linked m node xs q.tail
    → NotIn q.tail xs
    → size_loop f m q node count ≡ count + length xs
unfolding size_loop
size_loop-eq m q zero node count xs b l n = absurd (omega arith)
size_loop-eq m q (suc f) node count [] b l n =
    rw ((==_iff (m node).next q.tail).1 l.0) (omega arith)
size_loop-eq m q (suc f) node count (x ∷ xs) b l n =
    let ne : (m node).next ≢ q.tail = λ e. n.0 (sym e ∙ l.0) in
    rw (==_false (m node).next q.tail ne) (
      ap (λ z. size_loop f m q z (count + 1)) l.0
      ∙ size_loop-eq m q f x (count + 1) xs (omega arith) l.2 n.1
      ∙ omega arith)

-- With more rounds than nodes simple_queue_size is the number of nodes that the queue holds.
pub simple_queue_size-length :
    (fuel : ℕ) (m : Memory) (q : Deque) (xs : List ℕ)
    → Holds m q xs
    → length xs < fuel
    → simple_queue_size fuel m q ≡ length xs
unfolding simple_queue_size
simple_queue_size-length fuel m q xs h b =
    size_loop-eq m q fuel q.head 0 xs b h.links h.tail_apart.1 ∙ omega arith
