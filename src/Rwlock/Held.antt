-- ===== src/Rwlock/Held.antt =====
-- What the lock's fields say of the numbers of threads at each place, and that each stretch keeps it.
use os_p.Base.{
  ℕ, zero, suc, ◌+◌, ◌-◌, ◌<◌, ◌≡◌, ◌⊎◌, inl, inr, refl, sym, ap, Bool, true, false, ltb,
  if◌then◌else◌, arith, Bool-cases,
}
use os_p.Base.Int.{ℤ, pos, negsuc, ◌+ℤ◌}
use os_p.Rwlock.{Rwlock, Locking, locked, waits, lock_panics, read_round, write_round}

-- The numbers of readers and writers that are blocked, woken and inside.
pub record Held (l : Rwlock) (br ar bw aw rd wr : ℕ) : Type 0 where
  pub readers : l.reader_waiting_count ≡ br + ar
  pub writers : l.writer_waiting_count ≡ bw + aw
  pub owners :
      ((l.lock_state ≡ pos rd) × (wr ≡ 0)) ⊎ ((l.lock_state ≡ negsuc 0) × (wr ≡ 1) × (rd ≡ 0))
  pub writer_next : l.lock_state ≡ pos 0 → 0 < bw → 0 < aw
  pub reader_barred : 0 < br → (wr ≡ 1) ⊎ (0 < bw + aw)

-- The outcome of a stretch, with the numbers for a thread that got in and for one that waits.
abbrev pub Outcome : (Rwlock → Type 0) → (Rwlock → Type 0) → Locking → Type 0
Outcome P Q (locked l) = P l
Outcome P Q (waits l) = Q l
Outcome P Q lock_panics = 0 < 1

module _ (wc rc : ℕ) (br ar bw aw rd wr : ℕ) where
  abbrev pub at : ℤ → Rwlock
  at s = record { lock_state = s; writer_waiting_count = wc; reader_waiting_count = rc }

  pub pos-owners : (n : ℕ) → Held (at (pos n)) br ar bw aw rd wr → (n ≡ rd) × (wr ≡ 0)
  pos-owners n h = ground (arith, h.owners)

  pub writing-owners : Held (at (negsuc 0)) br ar bw aw rd wr → (rd ≡ 0) × (wr ≡ 1)
  writing-owners h = ground (arith, h.owners)

  pub not_destroyed : (k : ℕ) → Held (at (negsuc (suc k))) br ar bw aw rd wr → ⊥
  not_destroyed k h = ground (arith, h.owners)

read_free :
    (n wc rc : ℕ) (b : Bool)
    → ltb 0 wc ≡ b
    → read_round
        (record { lock_state = pos n; writer_waiting_count = wc; reader_waiting_count = rc })
      ≡ (if b
          then waits
              (record { lock_state = pos n; writer_waiting_count = wc; reader_waiting_count = rc })
          else locked (record {
            lock_state = pos (n + 1);
            writer_waiting_count = wc;
            reader_waiting_count = rc - 1;
          }))
unfolding read_round ◌+ℤ◌
read_free n wc rc b h = ground arith

-- A round of a reader that is counted among those woken.
pub read_round-Held :
    (s : ℤ) (wc rc br ar bw aw rd wr : ℕ)
    → Held
        (record { lock_state = s; writer_waiting_count = wc; reader_waiting_count = rc })
        br
        (suc ar)
        bw
        aw
        rd
        wr
    → Outcome
        (λ l. Held l br ar bw aw (suc rd) wr)
        (λ l. Held l (suc br) ar bw aw rd wr)
        (read_round
          (record { lock_state = s; writer_waiting_count = wc; reader_waiting_count = rc }))
unfolding read_round
read_round-Held (pos n) wc rc br ar bw aw rd wr h =
    let o = pos-owners wc rc br (suc ar) bw aw rd wr n h in
    elim (Bool-cases (ltb 0 wc)) [
      | inl e ↦ rw (read_free n wc rc true e) (record {
        readers = omega (arith, h.readers);
        writers = h.writers;
        owners = inl (ap pos (o.0), o.1);
        writer_next = h.writer_next;
        reader_barred = λ _. inr (ground (arith, h.writers));
      })
      | inr e ↦ rw (read_free n wc rc false e) (record {
        readers = omega (arith, h.readers);
        writers = h.writers;
        owners = inl (ap pos (omega (arith, o.0)), o.1);
        writer_next = λ z. ground (arith, z);
        reader_barred = h.reader_barred;
      })
    ]
read_round-Held (negsuc zero) wc rc br ar bw aw rd wr h =
    let o = writing-owners wc rc br (suc ar) bw aw rd wr h in
    record {
      readers = omega (arith, h.readers);
      writers = h.writers;
      owners = inr (refl, o.1, o.0);
      writer_next = h.writer_next;
      reader_barred = λ _. inl (o.1);
    }
read_round-Held (negsuc (suc k)) wc rc br ar bw aw rd wr h =
    absurd (not_destroyed wc rc br (suc ar) bw aw rd wr k h)

write_busy :
    (n wc rc : ℕ)
    → write_round
        (record { lock_state = pos (suc n); writer_waiting_count = wc; reader_waiting_count = rc })
      ≡ waits (record {
        lock_state = pos (suc n);
        writer_waiting_count = wc;
        reader_waiting_count = rc;
      })
unfolding write_round
write_busy n wc rc = ground arith

pub write_round-Held :
    (s : ℤ) (wc rc br ar bw aw rd wr : ℕ)
    → Held
        (record { lock_state = s; writer_waiting_count = wc; reader_waiting_count = rc })
        br
        ar
        bw
        (suc aw)
        rd
        wr
    → Outcome
        (λ l. Held l br ar bw aw rd (suc wr))
        (λ l. Held l br ar (suc bw) aw rd wr)
        (write_round
          (record { lock_state = s; writer_waiting_count = wc; reader_waiting_count = rc }))
unfolding write_round
write_round-Held (pos zero) wc rc br ar bw aw rd wr h =
    let o = pos-owners wc rc br ar bw (suc aw) rd wr 0 h in
    record {
      readers = h.readers;
      writers = omega (arith, h.writers);
      owners = inr (refl, omega (arith, o.1), sym (o.0));
      writer_next = λ z. ground (arith, z);
      reader_barred = λ _. inl (omega (arith, o.1));
    }
write_round-Held (pos (suc n)) wc rc br ar bw aw rd wr h =
    let o = pos-owners wc rc br ar bw (suc aw) rd wr (suc n) h in
    rw (write_busy n wc rc) (record {
      readers = h.readers;
      writers = omega (arith, h.writers);
      owners = inl (ap pos (o.0), o.1);
      writer_next = λ z. ground (arith, z);
      reader_barred = λ _. inr (omega arith);
    })
write_round-Held (negsuc zero) wc rc br ar bw aw rd wr h =
    let o = writing-owners wc rc br ar bw (suc aw) rd wr h in
    record {
      readers = h.readers;
      writers = omega (arith, h.writers);
      owners = inr (refl, o.1, o.0);
      writer_next = λ z. ground (arith, z);
      reader_barred = λ _. inl (o.1);
    }
write_round-Held (negsuc (suc k)) wc rc br ar bw aw rd wr h =
    absurd (not_destroyed wc rc br ar bw (suc aw) rd wr k h)
