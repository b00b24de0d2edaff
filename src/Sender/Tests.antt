-- ===== src/Sender/Tests.antt =====
-- Messages on their way to the server, and a program that opens its connections.
use log_service.Prelude.{
  ℕ, suc, ◌≡◌, refl, ◌++◌, true, false, List, [], ◌∷◌, some, Bytes, codes, arith, replicate, ltb,
  if◌then◌else◌,
}
use log_service.Epoll.{Epoll, sent, would_block}
use log_service.QueryResult.Complete.{joined}
use log_service.Sender.{Sender, Event, drain, do_with_epoll}
use log_service.Sender.Order.{Works, Answered, AllAnswered, do_with_epoll-in_order}
use log_service.Sender.Short.{num_connections, connect_all, connect_all-size}

-- The calls of `epoll_ctl`, counted.
abbrev counting : Epoll ℕ
counting = record {
  ctl_add = λ fd mode p. some (suc p);
  ctl_del = λ fd p. some (suc p);
  ctl_mod = λ fd mode p. some (suc p);
}

counting-Works : Works counting
counting-Works = record {
  adds = λ fd mode p. (suc p, refl);
  deletes = λ fd p. (suc p, refl);
  modifies = λ fd mode p. (suc p, refl);
}

abbrev writable_event : Event
writable_event = record {
  fd = 5;
  writable = true;
  established = true;
  sending = sent 80 ∷ [];
  readable = true;
  reading = would_block ∷ [];
  hung_up = false;
  new_fd = 6;
}

abbrev events : List Event
events = writable_event ∷ writable_event ∷ []

abbrev three_messages : Sender ℕ
three_messages = record {
  msg_queue = codes "one" ∷ codes "two" ∷ codes "three" ∷ [];
  epoll = 0;
  size = 1;
  closed = [];
}

events-AllAnswered : AllAnswered 64 events
unfolding drain
events-AllAnswered =
    let one : Answered 64 writable_event = record {
      taken = 80;
      others = [];
      sends = refl;
      room = omega arith;
      any = false;
      drained = refl;
    } in
    (one, (one, tt))

do_with_epoll-in_order_example :
    (texts : List Bytes) × (s' : Sender ℕ) × (do_with_epoll counting events three_messages
      ≡ some (texts, s'))
    × (joined texts ++ joined s'.msg_queue ≡ joined three_messages.msg_queue)
do_with_epoll-in_order_example =
    do_with_epoll-in_order counting 64 events three_messages counting-Works events-AllAnswered
      (ground arith)

connect_all-size_example :
    (s' : Sender ℕ) × (connect_all counting (replicate 99 7) three_messages ≡ some s')
    × (s'.size ≡ (
        if ltb three_messages.size num_connections then num_connections else three_messages.size))
    × (s'.msg_queue ≡ three_messages.msg_queue)
connect_all-size_example =
    connect_all-size counting counting-Works (replicate 99 7) three_messages (omega arith)
