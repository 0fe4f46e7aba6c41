-- ===== src/Rwlock/Moves.antt =====
-- The numbers of threads at each place after one of them moves, and after a wake.
use mathlib.Core.Path.{fun_ext}
use os_p.Base.{
  ℕ, suc, ◌+◌, ◌-◌, ◌≤◌, ◌≡◌, refl, sym, ap, Bool, true, false, some, List, get_elem?, set, map,
  arith, subst,
}
use os_p.Base.Threads.{count, one, count-set, count-map, count-some, count-nil}
use os_p.Rwlock.{
  Rwlock, Locking, Unlocking, unlocked, Wake, one_writer, Pc, reader_blocked, reader_woken,
  writer_blocked, writer_woken, is_reader_blocked, is_reader_woken, is_writer_blocked,
  is_writer_woken, is_reading, is_writing, World, wake_reader, Wakes, wakes_nobody, wakes_readers,
  wakes_writer, no_writer, Ends, gets_in, blocks,
}
use os_p.Rwlock.Held.{Held, Outcome}
use os_p.Rwlock.Release.{Woken, After}

-- The numbers as a function of the test for a place.
abbrev pub At : Rwlock → ((Pc → Bool) → ℕ) → Type 0
At l k =
    Held l (k is_reader_blocked) (k is_reader_woken) (k is_writer_blocked) (k is_writer_woken)
      (k is_reading) (k is_writing)

abbrev pub WokenAt : Wake → Rwlock → ((Pc → Bool) → ℕ) → Type 0
WokenAt wake l k =
    Woken l wake (k is_reader_blocked) (k is_reader_woken) (k is_writer_blocked) (k is_writer_woken)
      (k is_reading) (k is_writing)

abbrev pub counts : List Pc → (Pc → Bool) → ℕ
counts ts is = count is ts

abbrev pub plus : Bool → ℕ → ℕ
plus true n = suc n
plus false n = n

-- The other threads than the thread `i`, which stands at `u`.
abbrev pub others : List Pc → Pc → (Pc → Bool) → ℕ
others ts u is = count is ts - one (is u)

plus-one : (b : Bool) (n : ℕ) → one b ≤ n → n ≡ plus b (n - one b)
plus-one true n h = omega (arith, h)
plus-one false n h = omega arith

plus-moved : (b c : Bool) (m n : ℕ) → one b ≤ n → m + one b ≡ n + one c → m ≡ plus c (n - one b)
plus-moved true true m n h e = omega (arith, h, e)
plus-moved true false m n h e = omega (arith, h, e)
plus-moved false true m n h e = omega (arith, e)
plus-moved false false m n h e = omega (arith, e)

pub before :
    (ts : List Pc) (i : ℕ) (u : Pc)
    → get_elem? ts i ≡ some u
    → counts ts ≡ (λ (is : Pc → Bool). plus (is u) (others ts u is))
before ts i u e = fun_ext (λ is. plus-one (is u) (count is ts) (count-some is ts i u e))

after :
    (ts : List Pc) (i : ℕ) (u v : Pc)
    → get_elem? ts i ≡ some u
    → counts (set ts i v) ≡ (λ (is : Pc → Bool). plus (is v) (others ts u is))
after ts i u v e = fun_ext (λ is.
    plus-moved (is u) (is v) (count is (set ts i v)) (count is ts) (count-some is ts i u e)
      (count-set is ts i u v e))

unfoldable pub Invariant : World → Type 0
Invariant w = At w.lock (counts w.threads)

-- A thread that locks has moved from `u` to one of two places.
pub Ends-Invariant :
    (ts : List Pc) (i : ℕ) (u in_ blocked : Pc) (r : Locking) (w : World)
    → get_elem? ts i ≡ some u
    → Ends in_ blocked i ts r w
    → Outcome
        (λ l. At l (λ is. plus (is in_) (others ts u is)))
        (λ l. At l (λ is. plus (is blocked) (others ts u is)))
        r
    → Invariant w
unfolding Invariant
Ends-Invariant ts i u in_ blocked _ _ e (gets_in l) h = subst (At l) (sym (after ts i u in_ e)) h
Ends-Invariant ts i u in_ blocked _ _ e (blocks l) h = subst (At l) (sym (after ts i u blocked e)) h

map_kept :
    (is : Pc → Bool) (ts : List Pc)
    → ((p : Pc) → is (wake_reader p) ≡ is p)
    → count is (map wake_reader ts) ≡ count is ts
map_kept is ts h = omega (
  arith,
  count-map is is (λ _. false) wake_reader (λ p. omega (arith, ap one (h p))) ts,
  count-nil (λ (_ : Pc). false) ts (λ _. refl),
)

map_blocked : (ts : List Pc) → count is_reader_blocked (map wake_reader ts) ≡ 0
map_blocked ts = omega (
  arith,
  count-map is_reader_blocked (λ _. false) (λ _. false) wake_reader kept ts,
  count-nil (λ (_ : Pc). false) ts (λ _. refl),
)
  where
    kept : (p : Pc) → one (is_reader_blocked (wake_reader p)) ≡ 0 + 0
    kept reader_blocked = refl
    kept _ = refl

map_woken :
    (ts : List Pc)
    → count is_reader_woken (map wake_reader ts)
      ≡ count is_reader_woken ts + count is_reader_blocked ts
map_woken ts = count-map is_reader_woken is_reader_woken is_reader_blocked wake_reader kept ts
  where
    kept :
        (p : Pc)
        → one (is_reader_woken (wake_reader p))
          ≡ one (is_reader_woken p) + one (is_reader_blocked p)
    kept reader_blocked = refl
    kept reader_woken = refl
    kept _ = refl

Wakes-Invariant :
    (l : Rwlock) (wake : Wake) (ts us : List Pc)
    → Wakes wake ts us
    → WokenAt wake l (counts ts)
    → Invariant (record { lock = l; threads = us })
unfolding Invariant
Wakes-Invariant l _ _ _ (wakes_nobody {ts}) h = h
Wakes-Invariant l _ _ _ (wakes_readers {ts}) h =
    rw
      (
        map_blocked ts,
        map_woken ts,
        map_kept is_writer_blocked ts kept_wb,
        map_kept is_writer_woken ts kept_ww,
        map_kept is_reading ts kept_rd,
        map_kept is_writing ts kept_wr,
      )
      h
  where
    kept_wb : (p : Pc) → is_writer_blocked (wake_reader p) ≡ is_writer_blocked p
    kept_wb reader_blocked = refl
    kept_wb _ = refl

    kept_ww : (p : Pc) → is_writer_woken (wake_reader p) ≡ is_writer_woken p
    kept_ww reader_blocked = refl
    kept_ww _ = refl

    kept_rd : (p : Pc) → is_reading (wake_reader p) ≡ is_reading p
    kept_rd reader_blocked = refl
    kept_rd _ = refl

    kept_wr : (p : Pc) → is_writing (wake_reader p) ≡ is_writing p
    kept_wr reader_blocked = refl
    kept_wr _ = refl
Wakes-Invariant l _ _ _ (wakes_writer {ts} i e) h =
    let k : WokenAt one_writer l (λ is. plus (is writer_blocked) (others ts writer_blocked is)) =
      subst (WokenAt one_writer l) (before ts i writer_blocked e) h in
    subst (At l) (sym (after ts i writer_blocked writer_woken e))
      (k.0 (others ts writer_blocked is_writer_blocked) refl)
Wakes-Invariant l _ _ _ (no_writer {ts} z) h = h.1 z

-- The same for a thread that leaves its place `u` for `v` in an unlock or a downgrade.
pub Release-Invariant :
    (v : World) (l : Rwlock) (wake : Wake) (us : List Pc) (i : ℕ) (u x : Pc) (r : Unlocking)
    → get_elem? v.threads i ≡ some u
    → r ≡ unlocked l wake
    → Wakes wake (set v.threads i x) us
    → After (λ m wake. WokenAt wake m (λ is. plus (is x) (others v.threads u is))) r
    → Invariant (record { lock = l; threads = us })
Release-Invariant v l wake us i u x r e q ws h =
    let k : WokenAt wake l (λ is. plus (is x) (others v.threads u is)) =
      subst (After (λ m wake. WokenAt wake m (λ is. plus (is x) (others v.threads u is)))) q h in
    Wakes-Invariant l wake (set v.threads i x) us ws
      (subst (WokenAt wake l) (sym (after v.threads i u x e)) k)
