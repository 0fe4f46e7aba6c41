-- ===== src/ThrLib/Tests.antt =====
-- One thread, with the tid 0 and in the slot 0, is joined.
use os_p.Base.{refl, [], none, some, ◌==◌, if◌then◌else◌, arith}
use os_p.Base.Threads.{count}
use os_p.Arraytcb.{Arraytcb, new_thread}
use os_p.ThrLib.{ThrLib, remove_exit}
use os_p.ThrLib.Join.{Lives, Joined, join_start-Joined}

abbrev only_thread : Arraytcb
only_thread = record {
  maxsize = 2;
  cursize = 1;
  slots = λ i. if i == 0 then some (new_thread 5 0) else none;
  avail_list = [];
}

abbrev lib : ThrLib
lib = record { thread_count = 1; array = only_thread; hash_exit = [] }

only_thread-Lives : Lives lib 0 (new_thread 5 0)
unfolding count
only_thread-Lives = record {
  valid = record {
    positive = omega arith;
    size_le = omega arith;
    beyond = λ i x. ground (arith, x);
    avail = λ i. ground arith;
  };
  slot = refl;
  below = omega arith;
  created = omega arith;
  alone = λ j d. ground (arith, d);
}

join_start-Joined_example : Joined lib 0 0 42
unfolding remove_exit
join_start-Joined_example = join_start-Joined lib 0 42 (new_thread 5 0) only_thread-Lives refl refl
