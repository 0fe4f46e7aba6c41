-- ===== src/Message/Tests.antt =====
-- The theorems on messages and the choice of a thread, with two worker cores.
use os_p.Base.{◌+◌, ◌≡◌, refl, [], ◌∷◌, some, arith}
use os_p.Base.Int.{negsuc}
use os_p.Message.{
  Msg, Queues, fork, yield, worker_send_msg, manager_recv_msg, receive, recv_loop, Core, thread,
  scheduler_get_next, scheduler_make_runnable,
}
use os_p.Message.Channel.{Polls, manager_recv_msg-Polls}
use os_p.Message.Choice.{turns, scheduler_get_next-turns}

abbrev first_msg : Msg
first_msg = record { req_thr = 100; req_cpu = 2; type = fork; new_thr = 200 }

abbrev second_msg : Msg
second_msg = record { req_thr = 101; req_cpu = 2; type = yield; new_thr = 0 }

abbrev empty : Queues
empty = λ i. []

-- The worker core 2 has sent two messages.
abbrev sent : Queues
sent = worker_send_msg 2 second_msg (worker_send_msg 2 first_msg empty)

polled : manager_recv_msg 2 2 sent ≡ some (first_msg, (receive 2 sent).1)
unfolding manager_recv_msg recv_loop receive worker_send_msg
polled = refl

manager_recv_msg-Polls_example : Polls 2 sent (manager_recv_msg 2 2 sent)
manager_recv_msg-Polls_example = manager_recv_msg-Polls 2 2 sent (omega arith) (omega arith)

abbrev core : Core
core = record {
  cpu = 1;
  msg_queues = empty;
  ready = 100 ∷ 101 ∷ [];
  tid = λ t. t + 5;
  pcb = λ t. 0;
  idle_pcb = λ i. i;
}

scheduler_get_next-turns_example :
    scheduler_get_next (negsuc 0) (turns 2 (scheduler_make_runnable 102 core))
    ≡ (thread 102, record core { ready = [] })
scheduler_get_next-turns_example = scheduler_get_next-turns 102 core refl
