-- ===== src/ThrLib/Join.antt =====
-- A thread that is joined, exits and is reaped.
use os_p.Base.{
  ℕ, zero, suc, ◌+◌, ◌≤◌, ◌<◌, ◌≡◌, ◌≢◌, inl, inr, refl, sym, ap, ◌∙◌, Bool, true, false, ◌&&◌, ◌∷◌,
  Option, none, some, ltb, ◌==◌, arith, Bool-cases,
}
use os_p.Base.Int.{ℤ}
use os_p.Arraytcb.{Tcb, Arraytcb, ThrState, joined, write, is_null, has_tid, arraytcb_delete_thread}
use os_p.Base.Threads.{one}
use os_p.Arraytcb.Slots.{IsValid, arraytcb_get_thread_below}
use os_p.Arraytcb.Insert.{Freed, arraytcb_delete_thread-Freed}
use os_p.ThrLib.{
  ThrLib, remove_exit, find_index, is_running, with_state, join_fails, join_waits, join_goes_on,
  join_found, join_start, join_reap, exit_found, thr_exit,
}

-- The only slot of the thread `t` is `i`.
pub record Lives (lib : ThrLib) (i : ℕ) (t : Tcb) : Type 0 where
  pub valid : IsValid lib.array
  pub slot : lib.array.slots i ≡ some t
  pub below : i < lib.array.cursize
  pub created : t.tid < lib.thread_count
  pub alone : (j : ℕ) → j ≢ i → has_tid t.tid (lib.array.slots j) ≡ false

module _ (a : Arraytcb) (tid : ℕ) where
  find_index-none :
      (n k : ℕ) → ((j : ℕ) → has_tid tid (a.slots j) ≡ false) → find_index n k tid a ≡ none
  unfolding find_index
  find_index-none zero k h = refl
  find_index-none (suc n) k h = rw (find_index, h k) (find_index-none n (k + 1) h)

  find_index-some :
      (n k i : ℕ)
      → k ≤ i
      → i < k + n
      → has_tid tid (a.slots i) ≡ true
      → ((j : ℕ) → j ≢ i → has_tid tid (a.slots j) ≡ false)
      → find_index n k tid a ≡ some i
  unfolding find_index
  find_index-some zero k i a b e h = absurd (omega (arith, a, b))
  find_index-some (suc n) k i b c e h = elim (Bool-cases (k == i)) [
    | inl f ↦ let s : k ≡ i = ground (arith, f) in rw s (rw (find_index, e) refl)
    | inr f ↦
        let d : k ≢ i = λ (s : k ≡ i). differ s f in
        rw (find_index, h k d)
          (find_index-some n (k + 1) i (ground (arith, b, f)) (omega (arith, c)) e h)
  ]
    where
      differ : k ≡ i → (k == i) ≡ false → ⊥
      differ s f = ground (arith, s, f)

is_null-with_state : (s : ThrState) (o : Option Tcb) → is_null (with_state s o) ≡ is_null o
is_null-with_state s none = refl
is_null-with_state s (some t) = refl

null-has_tid : (tid : ℕ) (o : Option Tcb) → is_null o ≡ true → has_tid tid o ≡ false
null-has_tid tid none e = refl
null-has_tid tid (some t) e = cc

abbrev joined_array : Arraytcb → ℕ → Arraytcb
joined_array a i = record a { slots = write a.slots i (with_state joined (a.slots i)) }

joined_array-IsValid : (a : Arraytcb) (i : ℕ) → IsValid a → IsValid (joined_array a i)
joined_array-IsValid a i h = record {
  positive = h.positive;
  size_le = h.size_le;
  beyond = λ j x. null j ∙ h.beyond j x;
  avail = λ j. h.avail j ∙ ap (λ (b : Bool). one (ltb j a.cursize && b)) (sym (null j));
}
  where
    null :
        (j : ℕ) → is_null (write a.slots i (with_state joined (a.slots i)) j) ≡ is_null (a.slots j)
    null j = elim (Bool-cases (j == i)) [
      | inl e ↦
          let s : j ≡ i = ground (arith, e) in
          rw e (is_null-with_state joined (a.slots i) ∙ ap (λ (x : ℕ). is_null (a.slots x)) (sym s))
      | inr e ↦ rw e refl
    ]

-- A join waits for the thread, the exit wakes it, and one reap gets the status.
pub record Joined (lib : ThrLib) (i tid status : ℕ) : Type 0 where
  pub waiting : ThrLib
  pub gone : ThrLib
  pub waits : join_start tid lib ≡ join_waits waiting
  pub second : join_start tid waiting ≡ join_fails
  pub exits : thr_exit i status waiting ≡ some (true, gone)
  pub valid : IsValid gone.array
  pub freed : is_null (gone.array.slots i) ≡ true
  pub others : (j : ℕ) → j ≢ i → gone.array.slots j ≡ lib.array.slots j
  pub passes : join_start tid gone ≡ join_goes_on
  pub reaped : (join_reap tid gone).0 ≡ some status
  pub taken : (join_reap tid (join_reap tid gone).1).0 ≡ none

module _ (lib : ThrLib) (i status : ℕ) (t : Tcb) (h : Lives lib i t)
    (run : is_running (some t) ≡ true) (fresh : (remove_exit t.tid lib.hash_exit).0 ≡ none) where
  abbrev waiting_lib : ThrLib
  waiting_lib = record lib { array = joined_array lib.array i }

  abbrev deleted : ℤ × Arraytcb
  deleted = arraytcb_delete_thread i (joined_array lib.array i)

  abbrev gone_lib : ThrLib
  gone_lib = record lib { array = deleted.1; hash_exit = (t.tid, status) ∷ lib.hash_exit }

  abbrev late : Tcb
  late = record t { state = joined }

  joined_slot : waiting_lib.array.slots i ≡ some late
  joined_slot = ground (arith, h.slot)

  own_tid : has_tid t.tid (lib.array.slots i) ≡ true
  own_tid = ground (arith, h.slot)

  joined_tid : has_tid t.tid (waiting_lib.array.slots i) ≡ true
  joined_tid = rw joined_slot (ground arith)

  others_tid : (j : ℕ) → j ≢ i → has_tid t.tid (waiting_lib.array.slots j) ≡ false
  others_tid j d = let e : (j == i) ≡ false = ground (arith, d) in rw e (h.alone j d)

  known : ltb t.tid lib.thread_count ≡ true
  known = ground (arith, h.created)

  waits_lem : join_start t.tid lib ≡ join_waits waiting_lib
  unfolding join_start join_found
  waits_lem =
      let f : find_index lib.array.cursize 0 t.tid lib.array ≡ some i =
        find_index-some lib.array t.tid lib.array.cursize 0 i (omega arith) (omega (arith, h.below))
          own_tid h.alone in
      let r : is_running (lib.array.slots i) ≡ true = ap is_running h.slot ∙ run in
      rw (join_start, known, f, join_found, r) refl

  second_lem : join_start t.tid waiting_lib ≡ join_fails
  unfolding join_start join_found
  second_lem =
      let f : find_index lib.array.cursize 0 t.tid waiting_lib.array ≡ some i =
        find_index-some waiting_lib.array t.tid lib.array.cursize 0 i (omega arith)
          (omega (arith, h.below)) joined_tid others_tid in
      let r : is_running (waiting_lib.array.slots i) ≡ false = ap is_running joined_slot in
      rw (join_start, known, f, join_found, r) refl

  slot-Freed : Freed (joined_array lib.array i) i deleted
  slot-Freed =
      arraytcb_delete_thread-Freed (joined_array lib.array i) i
        (joined_array-IsValid lib.array i h.valid) (ap is_null joined_slot)

  found_lem : exit_found (some late) i status waiting_lib ≡ some (true, gone_lib)
  unfolding exit_found
  found_lem = rw (exit_found, slot-Freed.result) refl

  exits_lem : thr_exit i status waiting_lib ≡ some (true, gone_lib)
  unfolding thr_exit
  exits_lem =
      ap (λ (o : Option Tcb). exit_found o i status waiting_lib)
        (arraytcb_get_thread_below waiting_lib.array i h.below ∙ joined_slot)
      ∙ found_lem

  gone_tid : (j : ℕ) → has_tid t.tid (deleted.1.slots j) ≡ false
  gone_tid j = elim (Bool-cases (j == i)) [
    | inl e ↦
        let s : j ≡ i = ground (arith, e) in
        ap (λ (x : ℕ). has_tid t.tid (deleted.1.slots x)) s
        ∙ null-has_tid t.tid (deleted.1.slots i) slot-Freed.freed
    | inr e ↦
        let d : j ≢ i = λ (s : j ≡ i). differ s e in
        ap (has_tid t.tid) (slot-Freed.others j d) ∙ others_tid j d
  ]
    where
      differ : {j : ℕ} → j ≡ i → (j == i) ≡ false → ⊥
      differ s f = ground (arith, s, f)

  passes_lem : join_start t.tid gone_lib ≡ join_goes_on
  unfolding join_start join_found
  passes_lem =
      let f : find_index deleted.1.cursize 0 t.tid deleted.1 ≡ none =
        find_index-none deleted.1 t.tid deleted.1.cursize 0 gone_tid in
      rw (join_start, known, f) refl

  reaped_lem :
      join_reap t.tid gone_lib ≡ (some status, record gone_lib { hash_exit = lib.hash_exit })
  unfolding join_reap remove_exit
  reaped_lem = let e : (t.tid == t.tid) ≡ true = ground arith in rw (join_reap, remove_exit, e) refl

  none_lem : (join_reap t.tid (record gone_lib { hash_exit = lib.hash_exit })).0 ≡ none
  unfolding join_reap
  none_lem = fresh

-- If a running thread alone has its tid, its slot is valid and no status is stored under the tid,
-- then thr_join on it waits and a second thr_join on it fails meanwhile; its thr_exit signals the
-- waiting thread, frees its slot and no other and keeps the array valid; from then on thr_join on
-- the tid passes on to the table, where the first call to look gets the exit status and the next
-- gets none.
pub join_start-Joined :
    (lib : ThrLib) (i status : ℕ) (t : Tcb)
    → Lives lib i t
    → is_running (some t) ≡ true
    → (remove_exit t.tid lib.hash_exit).0 ≡ none
    → Joined lib i t.tid status
join_start-Joined lib i status t h run fresh =
    let f : Freed (joined_array lib.array i) i
        (arraytcb_delete_thread i (joined_array lib.array i)) =
      slot-Freed lib i status t h run fresh in
    let r = reaped_lem lib i status t h run fresh in
    record {
      waiting = waiting_lib lib i status t h run fresh;
      gone = gone_lib lib i status t h run fresh;
      waits = waits_lem lib i status t h run fresh;
      second = second_lem lib i status t h run fresh;
      exits = exits_lem lib i status t h run fresh;
      valid = f.valid;
      freed = f.freed;
      others = λ j d. f.others j d ∙ same j d;
      passes = passes_lem lib i status t h run fresh;
      reaped = ap (λ (x : Option ℕ × ThrLib). x.0) r;
      taken =
          ap (λ (x : Option ℕ × ThrLib). (join_reap t.tid x.1).0) r
          ∙ none_lem lib i status t h run fresh;
    }
  where
    same : (j : ℕ) → j ≢ i → (joined_array lib.array i).slots j ≡ lib.array.slots j
    same j d = ground (arith, d)
