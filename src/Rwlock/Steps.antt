-- ===== src/Rwlock/Steps.antt =====
-- Every step of a thread keeps what the lock's fields say, so each reachable world is exclusive and no
-- wake-up is lost.
use os_p.Base.{
  ℕ, zero, suc, ◌+◌, ◌-◌, ◌<◌, ◌≡◌, ◌⊎◌, inl, inr, refl, ap, Bool, true, false, some, List, [], ◌∷◌,
  get_elem?, arith, subst, if◌then◌else◌,
}
use os_p.Base.Int.{pos, negsuc, eqb_ℤ}
use os_p.Base.Threads.{count, one}
use os_p.Rwlock.{
  Rwlock, rwlock_init, locked, lock_panics, read_round, write_round, rwlock_lock_read,
  rwlock_lock_write, rwlock_unlock, rwlock_downgrade, Pc, outside, reader_blocked, reader_woken,
  writer_blocked, writer_woken, reading, writing, is_reader_blocked, is_reader_woken,
  is_writer_blocked, is_writer_woken, is_reading, is_writing, World, Step, start_read, resume_read,
  start_write, resume_write, unlock_read, unlock_write, downgrade, Reachable, begin, step,
  destroyed,
}
use os_p.Rwlock.Held.{Held, Outcome, read_round-Held, write_round-Held}
use os_p.Rwlock.Release.{unlock_read-Held, unlock_write-Held, downgrade-Held}
use os_p.Rwlock.Moves.{
  At, counts, plus, others, before, Invariant, Ends-Invariant, Release-Invariant,
}

lock_read-Held :
    (l : Rwlock) (br ar bw aw rd wr : ℕ)
    → Held l br ar bw aw rd wr
    → Outcome
        (λ m. Held m br ar bw aw (suc rd) wr)
        (λ m. Held m (suc br) ar bw aw rd wr)
        (rwlock_lock_read l)
unfolding rwlock_lock_read
lock_read-Held l br ar bw aw rd wr h =
    let counted : Held (record l { reader_waiting_count = l.reader_waiting_count + 1 }) br (suc ar)
        bw aw rd wr =
      record {
        readers = omega (arith, h.readers);
        writers = h.writers;
        owners = h.owners;
        writer_next = h.writer_next;
        reader_barred = h.reader_barred;
      } in
    elim (eqb_ℤ l.lock_state destroyed)
      as (λ b.
        Outcome (λ m. Held m br ar bw aw (suc rd) wr) (λ m. Held m (suc br) ar bw aw rd wr)
          (if b
            then lock_panics
            else read_round (record l { reader_waiting_count = l.reader_waiting_count + 1 }))) [
              | true ↦ omega arith
              | false ↦
                  read_round-Held l.lock_state l.writer_waiting_count (l.reader_waiting_count + 1)
                    br ar bw aw rd wr counted
            ]

lock_write-Held :
    (l : Rwlock) (br ar bw aw rd wr : ℕ)
    → Held l br ar bw aw rd wr
    → Outcome
        (λ m. Held m br ar bw aw rd (suc wr))
        (λ m. Held m br ar (suc bw) aw rd wr)
        (rwlock_lock_write l)
unfolding rwlock_lock_write
lock_write-Held l br ar bw aw rd wr h =
    let counted : Held (record l { writer_waiting_count = l.writer_waiting_count + 1 }) br ar bw
        (suc aw) rd wr =
      record {
        readers = h.readers;
        writers = omega (arith, h.writers);
        owners = h.owners;
        writer_next = λ _ _. omega arith;
        reader_barred = λ _. inr (omega arith);
      } in
    elim (eqb_ℤ l.lock_state destroyed)
      as (λ b.
        Outcome (λ m. Held m br ar bw aw rd (suc wr)) (λ m. Held m br ar (suc bw) aw rd wr)
          (if b
            then lock_panics
            else write_round (record l { writer_waiting_count = l.writer_waiting_count + 1 }))) [
              | true ↦ omega arith
              | false ↦
                  write_round-Held l.lock_state (l.writer_waiting_count + 1) l.reader_waiting_count
                    br ar bw aw rd wr counted
            ]

module _ (v : World) (i : ℕ) (u : Pc) (e : get_elem? v.threads i ≡ some u) where
  moved : Invariant v → At v.lock (λ is. plus (is u) (others v.threads u is))
  unfolding Invariant
  moved h = subst (At v.lock) (before v.threads i u e) h

pub Step-Invariant : (v w : World) → Step v w → Invariant v → Invariant w
Step-Invariant _ _ (start_read v w i e n) h =
    let o = others v.threads outside in
    Ends-Invariant v.threads i outside reading reader_blocked (rwlock_lock_read v.lock) w e n (
      lock_read-Held v.lock (o is_reader_blocked) (o is_reader_woken) (o is_writer_blocked)
        (o is_writer_woken) (o is_reading) (o is_writing) (moved v i outside e h))
Step-Invariant _ _ (resume_read v w i e n) h =
    let o = others v.threads reader_woken in
    Ends-Invariant v.threads i reader_woken reading reader_blocked (read_round v.lock) w e n (
      read_round-Held v.lock.lock_state v.lock.writer_waiting_count v.lock.reader_waiting_count
        (o is_reader_blocked) (o is_reader_woken) (o is_writer_blocked) (o is_writer_woken)
        (o is_reading) (o is_writing) (moved v i reader_woken e h))
Step-Invariant _ _ (start_write v w i e n) h =
    let o = others v.threads outside in
    Ends-Invariant v.threads i outside writing writer_blocked (rwlock_lock_write v.lock) w e n (
      lock_write-Held v.lock (o is_reader_blocked) (o is_reader_woken) (o is_writer_blocked)
        (o is_writer_woken) (o is_reading) (o is_writing) (moved v i outside e h))
Step-Invariant _ _ (resume_write v w i e n) h =
    let o = others v.threads writer_woken in
    Ends-Invariant v.threads i writer_woken writing writer_blocked (write_round v.lock) w e n (
      write_round-Held v.lock.lock_state v.lock.writer_waiting_count v.lock.reader_waiting_count
        (o is_reader_blocked) (o is_reader_woken) (o is_writer_blocked) (o is_writer_woken)
        (o is_reading) (o is_writing) (moved v i writer_woken e h))
Step-Invariant _ _ (unlock_read v l wake us i e q ws) h =
    let o = others v.threads reading in
    Release-Invariant v l wake us i reading outside (rwlock_unlock v.lock) e q ws (
      unlock_read-Held v.lock.lock_state v.lock.writer_waiting_count v.lock.reader_waiting_count
        (o is_reader_blocked) (o is_reader_woken) (o is_writer_blocked) (o is_writer_woken)
        (o is_reading) (o is_writing) (moved v i reading e h))
Step-Invariant _ _ (unlock_write v l wake us i e q ws) h =
    let o = others v.threads writing in
    Release-Invariant v l wake us i writing outside (rwlock_unlock v.lock) e q ws (
      unlock_write-Held v.lock.lock_state v.lock.writer_waiting_count v.lock.reader_waiting_count
        (o is_reader_blocked) (o is_reader_woken) (o is_writer_blocked) (o is_writer_woken)
        (o is_reading) (o is_writing) (moved v i writing e h))
Step-Invariant _ _ (downgrade v l wake us i e q ws) h =
    let o = others v.threads writing in
    Release-Invariant v l wake us i writing reading (rwlock_downgrade v.lock) e q ws (
      downgrade-Held v.lock.lock_state v.lock.writer_waiting_count v.lock.reader_waiting_count
        (o is_reader_blocked) (o is_reader_woken) (o is_writer_blocked) (o is_writer_woken)
        (o is_reading) (o is_writing) (moved v i writing e h))

count_outside :
    (is : Pc → Bool) (ts : List Pc)
    → ((i : ℕ) (p : Pc) → get_elem? ts i ≡ some p → p ≡ outside)
    → is outside ≡ false
    → count is ts ≡ 0
unfolding count
count_outside is [] h e = refl
count_outside is (p ∷ ts) h e = omega (
  arith,
  ap (λ (x : Pc). one (is x)) (h 0 p refl),
  ap one e,
  count_outside is ts (λ i. h (suc i)) e,
)

Reachable-Invariant : (w : World) → Reachable w → Invariant w
unfolding Invariant rwlock_init
Reachable-Invariant _ (begin ts h) =
    rw
      (
        count_outside is_reader_blocked ts h refl,
        count_outside is_reader_woken ts h refl,
        count_outside is_writer_blocked ts h refl,
        count_outside is_writer_woken ts h refl,
        count_outside is_reading ts h refl,
        count_outside is_writing ts h refl,
      )
      (record {
        readers = refl;
        writers = refl;
        owners = inl (refl, refl);
        writer_next = λ _ z. z;
        reader_barred = λ z. absurd (omega (arith, z));
      })
Reachable-Invariant _ (step v w r s) = Step-Invariant v w s (Reachable-Invariant v r)

-- In every world that threads reach from a new readers/writers lock by locking, unlocking and
-- downgrading it, either lock_state is the number of readers inside and no writer is inside, or
-- lock_state is -1 and one writer and no reader is inside.
pub Reachable-lock_state :
    (w : World)
    → Reachable w
    → ((w.lock.lock_state ≡ pos (count is_reading w.threads)) × (count is_writing w.threads ≡ 0))
      ⊎ ((w.lock.lock_state ≡ negsuc 0)
          × (count is_writing w.threads ≡ 1)
          × (count is_reading w.threads ≡ 0))
unfolding Invariant
Reachable-lock_state w r =
    let h : At w.lock (counts w.threads) = Reachable-Invariant w r in h.owners

write_round_free :
    (l : Rwlock)
    → l.lock_state ≡ pos 0
    → write_round l
      ≡ locked
          (record l { lock_state = negsuc 0; writer_waiting_count = l.writer_waiting_count - 1 })
unfolding write_round
write_round_free l e = rw e refl

free_next :
    (l : Rwlock) (br ar bw aw rd wr : ℕ)
    → Held l br ar bw aw rd wr
    → 0 < br + bw
    → (0 < rd + wr) ⊎ ((0 < aw) × (l.lock_state ≡ pos 0))
free_next l br ar bw aw zero zero h b =
    let free : l.lock_state ≡ pos 0 = ground (arith, h.owners) in
    let next : 0 < bw → 0 < aw = h.writer_next free in inr (ground (arith, h.reader_barred), free)
free_next l br ar bw aw (suc rd) wr h b = inl (omega arith)
free_next l br ar bw aw zero (suc wr) h b = inl (omega arith)

-- In every world that threads reach from a new readers/writers lock in which some thread is
-- blocked on it, a thread is inside, or some writer is woken and the next round of its loop takes
-- the lock.
pub Reachable-write_round :
    (w : World)
    → Reachable w
    → 0 < count is_reader_blocked w.threads + count is_writer_blocked w.threads
    → (0 < count is_reading w.threads + count is_writing w.threads)
      ⊎ ((0 < count is_writer_woken w.threads)
          × (write_round w.lock
              ≡ locked (record w.lock {
                lock_state = negsuc 0;
                writer_waiting_count = w.lock.writer_waiting_count - 1;
              })))
unfolding Invariant
Reachable-write_round w r b =
    let h : At w.lock (counts w.threads) = Reachable-Invariant w r in
    let ts = w.threads in
    elim (free_next w.lock (count is_reader_blocked ts) (count is_reader_woken ts)
      (count is_writer_blocked ts) (count is_writer_woken ts) (count is_reading ts)
      (count is_writing ts) h b) [
        | inl i ↦ inl i
        | inr f ↦ inr (f.0, write_round_free w.lock (f.1))
      ]
