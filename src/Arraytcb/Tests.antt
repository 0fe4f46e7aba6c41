-- ===== src/Arraytcb/Tests.antt =====
-- An array with one slot, in use.
use os_p.Base.{ℕ, ◌⊎◌, refl, true, [], none, some, ◌==◌, if◌then◌else◌, arith}
use os_p.Base.Threads.{count}
use os_p.Arraytcb.{Arraytcb, new_thread, arraytcb_insert_thread, arraytcb_delete_thread}
use os_p.Arraytcb.Slots.{IsValid, Placed, Fails}
use os_p.Arraytcb.Insert.{Freed, arraytcb_insert_thread-Placed, arraytcb_delete_thread-Freed}

abbrev one_thread : Arraytcb
one_thread = record {
  maxsize = 1;
  cursize = 1;
  slots = λ i. if i == 0 then some (new_thread 0 7) else none;
  avail_list = [];
}

one_thread-IsValid : IsValid one_thread
unfolding count
one_thread-IsValid = record {
  positive = omega arith;
  size_le = omega arith;
  beyond = λ i x. ground (arith, x);
  avail = λ i. ground arith;
}

arraytcb_insert_thread-Placed_example :
    ((i : ℕ) × Placed one_thread
        (new_thread 0 8)
        i
        (arraytcb_insert_thread true true 0 8 one_thread))
    ⊎ Fails one_thread true (arraytcb_insert_thread true true 0 8 one_thread)
arraytcb_insert_thread-Placed_example =
    arraytcb_insert_thread-Placed one_thread true 0 8 one_thread-IsValid

arraytcb_delete_thread-Freed_example : Freed one_thread 0 (arraytcb_delete_thread 0 one_thread)
arraytcb_delete_thread-Freed_example =
    arraytcb_delete_thread-Freed one_thread 0 one_thread-IsValid refl
