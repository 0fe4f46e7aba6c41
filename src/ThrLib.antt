-- ===== src/ThrLib.antt =====
-- user/libthread/thr_lib.c: creating, joining and exiting threads over the array of thread control blocks
-- and the table of exit statuses. A stretch under a mutex is one function; the kernel's part of thr_create
-- is an argument, as is the slot of the calling thread.
pub mod Join
mod Tests
use os_p.Base.{
  ℕ, zero, suc, ◌+◌, ◌≡◌, Bool, true, false, not, ◌&&◌, List, [], ◌∷◌, Option, none, some, ltb,
  ◌==◌, if◌then◌else◌,
}
use os_p.Base.Int.{ℤ, pos, negsuc, pos_part}
use os_p.Arraytcb.{
  Tcb, Arraytcb, ThrState, running, joined, write, has_tid, Insertion, arraytcb_insert_thread,
  arraytcb_delete_thread, arraytcb_get_thread, arraytcb_find_thread, arraytcb_set_ktid,
}

-- The exit statuses by tid are a list, the last one put first.
pub record ThrLib : Type 0 where
  pub thread_count : ℕ
  pub array : Arraytcb
  pub hash_exit : List (ℕ × ℕ)

-- A status is taken out of the table.
pub remove_exit : ℕ → List (ℕ × ℕ) → Option ℕ × List (ℕ × ℕ)
remove_exit tid [] = (none, [])
remove_exit tid ((k, v) ∷ rest) =
    let others = remove_exit tid rest in
    if k == tid then (some v, rest) else (others.0, (k, v) ∷ others.1)

-- `thr_create` when the new thread does not run before it returns. `kernel` is the tid of the kernel, or
-- none on an error.
pub thr_create :
    (malloc calloc aligned : Bool) → (kernel : Option ℕ) → (ktid : ℕ) → ThrLib → ℤ × ThrLib
thr_create malloc calloc aligned kernel ktid lib =
    let tid = lib.thread_count in
    let r = arraytcb_insert_thread malloc calloc ktid tid lib.array in
    let inserted : ThrLib = record {
      thread_count = tid + 1;
      array = r.array;
      hash_exit = lib.hash_exit;
    } in
    elim r.index [
      | negsuc n ↦ (negsuc 0, inserted)
      | pos index ↦ if not aligned then (negsuc 0, inserted) else elim kernel [
        | none ↦ (negsuc 0, inserted)
        | some child ↦ (
          pos tid,
          record inserted {
            array =
                if has_tid tid (arraytcb_get_thread (pos index) r.array)
                then (arraytcb_set_ktid index child r.array).1
                else r.array;
          },
        )
      ]
    ]

-- The slot of the thread that `arraytcb_find_thread` finds.
pub find_index : (n i tid : ℕ) → Arraytcb → Option ℕ
find_index zero i tid a = none
find_index (suc n) i tid a =
    let rest = find_index n (i + 1) tid a in if has_tid tid (a.slots i) then some i else rest

abbrev pub is_running : Option Tcb → Bool
is_running none = false
is_running (some t) = elim t.state [ running ↦ true | joined ↦ false ]

abbrev pub with_state : ThrState → Option Tcb → Option Tcb
with_state s none = none
with_state s (some t) = some (record t { state = s })

-- `thr_join` up to its wait or to the release of the mutex.
pub data Joining : Type 0 where
  join_fails : Joining
  join_waits : ThrLib → Joining
  join_goes_on : Joining

pub join_found : Option ℕ → ThrLib → Joining
join_found none lib = join_goes_on
join_found (some i) lib =
    if is_running (lib.array.slots i)
    then join_waits (record lib {
      array = record lib.array {
        slots = write lib.array.slots i (with_state joined (lib.array.slots i));
      };
    })
    else join_fails

pub join_start : ℕ → ThrLib → Joining
join_start tid lib =
    if not (ltb tid lib.thread_count)
    then join_fails
    else join_found (find_index lib.array.cursize 0 tid lib.array) lib

-- The rest of `thr_join`: the status, or -1 if it is not in the table.
pub join_reap : ℕ → ThrLib → Option ℕ × ThrLib
join_reap tid lib = let r = remove_exit tid lib.hash_exit in (r.0, record lib { hash_exit = r.1 })

-- `thr_exit` of the thread in a slot: whether it signals a joiner; no result is a panic.
pub exit_found : Option Tcb → ℕ → ℕ → ThrLib → Option (Bool × ThrLib)
exit_found none index status lib = none
exit_found (some t) index status lib =
    let deleted = arraytcb_delete_thread index lib.array in
    elim deleted.0 [
      | negsuc n ↦ none
      | pos n ↦ some (
        not (is_running (some t)),
        record lib { array = deleted.1; hash_exit = (t.tid, status) ∷ lib.hash_exit },
      )
    ]

pub thr_exit : ℕ → ℕ → ThrLib → Option (Bool × ThrLib)
thr_exit index status lib = exit_found (arraytcb_get_thread (pos index) lib.array) index status lib

pub thr_getid : ℕ → ThrLib → ℤ
thr_getid index lib = elim (arraytcb_get_thread (pos index) lib.array) [
  | none ↦ negsuc 0
  | some t ↦ pos t.tid
]

pub thr_getktid : ℕ → ThrLib → ℤ
thr_getktid index lib = elim (arraytcb_get_thread (pos index) lib.array) [
  | none ↦ negsuc 0
  | some t ↦ pos t.ktid
]
