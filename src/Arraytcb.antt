-- ===== src/Arraytcb.antt =====
-- user/libthread/arraytcb.c: the array of thread control blocks, whose index is the slot of a thread's stack.
pub mod Slots
pub mod Insert
mod Tests
use os_p.Base.{
  ℕ, zero, suc, ◌+◌, ◌-◌, ◌*◌, ◌≡◌, Bool, true, false, not, ◌&&◌, ◌||◌, List, [], ◌∷◌, Option, none,
  some, ltb, ◌==◌, if◌then◌else◌,
}
use os_p.Base.Int.{ℤ, pos, negsuc, pos_part, ltb_ℤ}

pub data ThrState : Type 0 where
  running : ThrState
  joined : ThrState

-- A block without its condition variable.
pub record Tcb : Type 0 where
  pub ktid : ℕ
  pub tid : ℕ
  pub state : ThrState

-- A null pointer is `none`; the list of free slots is without its head node.
pub record Arraytcb : Type 0 where
  pub maxsize : ℕ
  pub cursize : ℕ
  pub slots : ℕ → Option Tcb
  pub avail_list : List ℕ

abbrev pub write : (ℕ → Option Tcb) → ℕ → Option Tcb → ℕ → Option Tcb
write d i v j = if j == i then v else d j

abbrev pub is_null : Option Tcb → Bool
is_null none = true
is_null (some t) = false

-- The allocations succeed.
pub arraytcb_init : ℤ → Option Arraytcb
arraytcb_init size =
    if ltb_ℤ (pos 0) size
    then some (record { maxsize = pos_part size; cursize = 0; slots = λ i. none; avail_list = [] })
    else none

-- `n` rounds of the copy into the new array.
pub copy_slots : ℕ → (ℕ → Option Tcb) → ℕ → Option Tcb
copy_slots zero old = λ i. none
copy_slots (suc n) old = write (copy_slots n old) n (old n)

pub double_array : Arraytcb → Arraytcb
double_array a = record a { maxsize = a.maxsize * 2; slots = copy_slots a.cursize a.slots }

-- The index or -1, the array, and whether the mutex is still locked.
pub record Insertion : Type 0 where
  pub index : ℤ
  pub array : Arraytcb
  pub locked : Bool

-- The block of a new thread; `ktid` is what the memory holds.
abbrev pub new_thread : ℕ → ℕ → Tcb
new_thread ktid tid = record { ktid = ktid; tid = tid; state = running }

abbrev pub append_thread : Tcb → Arraytcb → Insertion
append_thread t a = record {
  index = pos a.cursize;
  array = record a { cursize = a.cursize + 1; slots = write a.slots a.cursize (some t) };
  locked = false;
}

-- The critical section; `calloc` is whether the array can be doubled.
pub insert_block : List ℕ → Bool → Tcb → Arraytcb → Insertion
insert_block (index ∷ rest) calloc t a = record {
  index = pos index;
  array = record a { avail_list = rest; slots = write a.slots index (some t) };
  locked = false;
}
insert_block [] calloc t a =
    if a.cursize == a.maxsize
    then (if calloc
        then append_thread t (double_array a)
        else record { index = negsuc 0; array = a; locked = true })
    else append_thread t a

pub arraytcb_insert_thread : (malloc calloc : Bool) → (ktid tid : ℕ) → Arraytcb → Insertion
arraytcb_insert_thread malloc calloc ktid tid a =
    if not malloc
    then record { index = negsuc 0; array = a; locked = false }
    else insert_block a.avail_list calloc (new_thread ktid tid) a

-- The allocation of a node is tried until it succeeds.
pub arraytcb_delete_thread : ℕ → Arraytcb → ℤ × Arraytcb
arraytcb_delete_thread index a =
    if is_null (a.slots index)
    then (negsuc 0, a)
    else (pos 0, record a { slots = write a.slots index none; avail_list = index ∷ a.avail_list })

pub arraytcb_is_valid : ℤ → Arraytcb → Bool
arraytcb_is_valid index a = not (ltb_ℤ index (pos 0) || not (ltb_ℤ index (pos a.cursize)))

pub arraytcb_get_thread : ℤ → Arraytcb → Option Tcb
arraytcb_get_thread index a =
    if ltb_ℤ index (pos 0) || not (ltb_ℤ index (pos a.cursize))
    then none
    else a.slots (pos_part index)

abbrev pub has_tid : ℕ → Option Tcb → Bool
has_tid tid none = false
has_tid tid (some t) = t.tid == tid

-- `n` rounds of the search from the slot `i`.
pub find_loop : (n i tid : ℕ) → Arraytcb → Option Tcb
find_loop zero i tid a = none
find_loop (suc n) i tid a =
    let rest = find_loop n (i + 1) tid a in if has_tid tid (a.slots i) then a.slots i else rest

pub arraytcb_find_thread : ℕ → Arraytcb → Option Tcb
arraytcb_find_thread tid a = find_loop a.cursize 0 tid a

abbrev pub with_ktid : ℕ → Option Tcb → Option Tcb
with_ktid ktid none = none
with_ktid ktid (some t) = some (record t { ktid = ktid })

pub arraytcb_set_ktid : ℕ → ℕ → Arraytcb → ℤ × Arraytcb
arraytcb_set_ktid index ktid a =
    if not (ltb index a.cursize) || is_null (a.slots index)
    then (negsuc 0, a)
    else (pos 0, record a { slots = write a.slots index (with_ktid ktid (a.slots index)) })
