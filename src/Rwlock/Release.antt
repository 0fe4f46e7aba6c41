-- ===== src/Rwlock/Release.antt =====
-- What the lock's fields say of the numbers of threads after an unlock or a downgrade and its wake.
use os_p.Base.{
  ℕ, zero, suc, ◌+◌, ◌<◌, ◌≡◌, inl, inr, refl, sym, ap, true, ltb, if◌then◌else◌, arith,
}
use os_p.Base.Int.{ℤ, pos, negsuc, ◌+ℤ◌, ◌-ℤ◌}
use os_p.Rwlock.{
  Rwlock, Unlocking, unlocked, unlock_panics, unlock_retries, Wake, nobody, one_writer, all_readers,
  rwlock_unlock, rwlock_downgrade,
}
use os_p.Rwlock.Held.{Held, pos-owners, writing-owners, not_destroyed}

-- What holds after the wake of an unlock.
abbrev pub Woken : Rwlock → Wake → ℕ → ℕ → ℕ → ℕ → ℕ → ℕ → Type 0
Woken l nobody br ar bw aw rd wr = Held l br ar bw aw rd wr
Woken l one_writer br ar bw aw rd wr =
    ((b : ℕ) → suc b ≡ bw → Held l br ar b (suc aw) rd wr) × (bw ≡ 0 → Held l br ar bw aw rd wr)
Woken l all_readers br ar bw aw rd wr = Held l 0 (ar + br) bw aw rd wr

abbrev pub After : (Rwlock → Wake → Type 0) → Unlocking → Type 0
After P (unlocked l wake) = P l wake
After P unlock_retries = 0 < 1
After P unlock_panics = 0 < 1

abbrev freed : ℕ → ℕ → Rwlock
freed wc rc = record { lock_state = pos 0; writer_waiting_count = wc; reader_waiting_count = rc }

-- The lock is free again: a writer is signalled if one is counted, and all readers otherwise.
freed-Woken :
    (wc rc br ar bw aw : ℕ)
    → rc ≡ br + ar
    → wc ≡ bw + aw
    → Woken (freed wc rc) (if ltb 0 wc then one_writer else all_readers) br ar bw aw 0 0
freed-Woken zero rc br ar bw aw r w = record {
  readers = omega (arith, r);
  writers = w;
  owners = inl (refl, refl);
  writer_next = λ _ b. omega (arith, w);
  reader_barred = λ z. absurd (omega (arith, z));
}
freed-Woken (suc wc) rc br ar bw aw r w =
    let e : ltb 0 (suc wc) ≡ true = ground arith in
    rw e (
      λ b e. record {
        readers = r;
        writers = omega (arith, w);
        owners = inl (refl, refl);
        writer_next = λ _ _. omega arith;
        reader_barred = λ _. inr (omega arith);
      },
      λ z. record {
        readers = r;
        writers = w;
        owners = inl (refl, refl);
        writer_next = λ _ b. absurd (omega (arith, b, z));
        reader_barred = λ _. inr (omega (arith, w));
      },
    )

unlock_last :
    (wc rc : ℕ)
    → rwlock_unlock
        (record { lock_state = pos 1; writer_waiting_count = wc; reader_waiting_count = rc })
      ≡ unlocked (freed wc rc) (if ltb 0 wc then one_writer else all_readers)
unfolding rwlock_unlock ◌+ℤ◌ ◌-ℤ◌
unlock_last wc rc = ground arith

unlock_shared :
    (n wc rc : ℕ)
    → rwlock_unlock (record {
      lock_state = pos (suc (suc n));
      writer_waiting_count = wc;
      reader_waiting_count = rc;
    })
      ≡ unlocked
          (record {
            lock_state = pos (suc n);
            writer_waiting_count = wc;
            reader_waiting_count = rc;
          })
          nobody
unfolding rwlock_unlock ◌+ℤ◌ ◌-ℤ◌
unlock_shared n wc rc = ground arith

unlock_written :
    (wc rc : ℕ)
    → rwlock_unlock
        (record { lock_state = negsuc 0; writer_waiting_count = wc; reader_waiting_count = rc })
      ≡ unlocked (freed wc rc) (if ltb 0 wc then one_writer else all_readers)
unfolding rwlock_unlock ◌+ℤ◌ ◌-ℤ◌
unlock_written wc rc = ground arith

pub unlock_read-Held :
    (s : ℤ) (wc rc br ar bw aw rd wr : ℕ)
    → Held
        (record { lock_state = s; writer_waiting_count = wc; reader_waiting_count = rc })
        br
        ar
        bw
        aw
        (suc rd)
        wr
    → After
        (λ l wake. Woken l wake br ar bw aw rd wr)
        (rwlock_unlock
          (record { lock_state = s; writer_waiting_count = wc; reader_waiting_count = rc }))
unlock_read-Held (pos zero) wc rc br ar bw aw rd wr h =
    let o = pos-owners wc rc br ar bw aw (suc rd) wr 0 h in absurd (omega (arith, o.0))
unlock_read-Held (pos (suc zero)) wc rc br ar bw aw zero zero h =
    rw (unlock_last wc rc) (freed-Woken wc rc br ar bw aw h.readers h.writers)
unlock_read-Held (pos (suc zero)) wc rc br ar bw aw zero (suc wr) h =
    let o = pos-owners wc rc br ar bw aw 1 (suc wr) 1 h in absurd (omega (arith, o.1))
unlock_read-Held (pos (suc zero)) wc rc br ar bw aw (suc rd) wr h =
    let o = pos-owners wc rc br ar bw aw (suc (suc rd)) wr 1 h in absurd (omega (arith, o.0))
unlock_read-Held (pos (suc (suc n))) wc rc br ar bw aw rd wr h =
    let o = pos-owners wc rc br ar bw aw (suc rd) wr (suc (suc n)) h in
    rw (unlock_shared n wc rc) (record {
      readers = h.readers;
      writers = h.writers;
      owners = inl (ap pos (omega (arith, o.0)), o.1);
      writer_next = λ z. ground (arith, z);
      reader_barred = h.reader_barred;
    })
unlock_read-Held (negsuc zero) wc rc br ar bw aw rd wr h =
    let o = writing-owners wc rc br ar bw aw (suc rd) wr h in absurd (omega (arith, o.0))
unlock_read-Held (negsuc (suc k)) wc rc br ar bw aw rd wr h =
    absurd (not_destroyed wc rc br ar bw aw (suc rd) wr k h)

pub unlock_write-Held :
    (s : ℤ) (wc rc br ar bw aw rd wr : ℕ)
    → Held
        (record { lock_state = s; writer_waiting_count = wc; reader_waiting_count = rc })
        br
        ar
        bw
        aw
        rd
        (suc wr)
    → After
        (λ l wake. Woken l wake br ar bw aw rd wr)
        (rwlock_unlock
          (record { lock_state = s; writer_waiting_count = wc; reader_waiting_count = rc }))
unlock_write-Held (pos n) wc rc br ar bw aw rd wr h =
    let o = pos-owners wc rc br ar bw aw rd (suc wr) n h in absurd (omega (arith, o.1))
unlock_write-Held (negsuc zero) wc rc br ar bw aw zero zero h =
    rw (unlock_written wc rc) (freed-Woken wc rc br ar bw aw h.readers h.writers)
unlock_write-Held (negsuc zero) wc rc br ar bw aw (suc rd) wr h =
    let o = writing-owners wc rc br ar bw aw (suc rd) (suc wr) h in absurd (omega (arith, o.0))
unlock_write-Held (negsuc zero) wc rc br ar bw aw zero (suc wr) h =
    let o = writing-owners wc rc br ar bw aw 0 (suc (suc wr)) h in absurd (omega (arith, o.1))
unlock_write-Held (negsuc (suc k)) wc rc br ar bw aw rd wr h =
    absurd (not_destroyed wc rc br ar bw aw rd (suc wr) k h)

pub downgrade-Held :
    (s : ℤ) (wc rc br ar bw aw rd wr : ℕ)
    → Held
        (record { lock_state = s; writer_waiting_count = wc; reader_waiting_count = rc })
        br
        ar
        bw
        aw
        rd
        (suc wr)
    → After
        (λ l wake. Woken l wake br ar bw aw (suc rd) wr)
        (rwlock_downgrade
          (record { lock_state = s; writer_waiting_count = wc; reader_waiting_count = rc }))
unfolding rwlock_downgrade
downgrade-Held (pos n) wc rc br ar bw aw rd wr h =
    let o = pos-owners wc rc br ar bw aw rd (suc wr) n h in absurd (omega (arith, o.1))
downgrade-Held (negsuc zero) wc rc br ar bw aw rd wr h =
    let o = writing-owners wc rc br ar bw aw rd (suc wr) h in
    record {
      readers = omega (arith, h.readers);
      writers = h.writers;
      owners = inl (ap (λ (x : ℕ). pos (suc x)) (sym (o.0)), omega (arith, o.1));
      writer_next = λ z. ground (arith, z);
      reader_barred = λ z. absurd (omega (arith, z));
    }
downgrade-Held (negsuc (suc k)) wc rc br ar bw aw rd wr h =
    absurd (not_destroyed wc rc br ar bw aw rd (suc wr) k h)
