-- ===== src/Sender.antt =====
-- src/log_sender/log_sender.cpp and src/log_sender/short_sender.cpp: the programs that take messages off
-- the queue of a machine and send them to the server.
pub mod Order
pub mod Short
mod Tests
use log_service.Prelude.{
  ℕ, suc, ◌-◌, Bool, true, false, List, [], ◌∷◌, Option, none, some, Bytes, leb, ◌==◌, length,
  if◌then◌else◌,
}
use log_service.Epoll.{Epoll, Received, received, would_block, failed, Sent, sent, later, broken}

-- The loop over `send` in log_sender.cpp: what the socket has taken. `msg_send_buffer` points to an array,
-- so that the address of a second part is not in the message: `none`, as where the answers end.
pub send_message : List Sent → Bytes → Option (Bytes × List Sent)
send_message [] msg = none
send_message (later ∷ answers) msg = send_message answers msg
send_message (broken ∷ answers) msg = some ([], answers)
send_message (sent n ∷ answers) msg =
    let rest = send_message answers msg in
    if leb (length msg) n then some (msg, answers) else if n == 0 then rest else none

-- The loop in short_sender.cpp, which gives up where the socket has no room.
pub send_message_once : List Sent → Bytes → Option (Bytes × List Sent)
send_message_once [] msg = none
send_message_once (later ∷ answers) msg = some ([], answers)
send_message_once (broken ∷ answers) msg = some ([], answers)
send_message_once (sent n ∷ answers) msg =
    let rest = send_message_once answers msg in
    if leb (length msg) n then some (msg, answers) else if n == 0 then rest else none

-- The loops over `recv`, up to an end or an error: whether all answers were passed. What is read is dropped;
-- short_sender.cpp goes by whether there was any.
pub drain : List Received → Option Bool
drain [] = none
drain (would_block ∷ answers) = some false
drain (failed ∷ answers) = some false
drain (received [] ∷ answers) = some false
drain (received (c ∷ str) ∷ answers) = elim (drain answers) [ none ↦ none | some b ↦ some true ]

-- An event: what `epoll` reports, the state of the connection, the answers of the calls, and the
-- descriptor of a new connection.
pub record Event : Type 0 where
  pub fd : ℕ
  pub writable : Bool
  pub established : Bool
  pub sending : List Sent
  pub readable : Bool
  pub reading : List Received
  pub hung_up : Bool
  pub new_fd : ℕ

-- `msg_queue` holds the messages in the queue, oldest first.
pub record Sender {ℓ} (E : Type ℓ) : Type ℓ where
  pub msg_queue : List Bytes
  pub epoll : E
  pub size : ℕ
  pub closed : List ℕ

-- How an event ends the body of the loop over the events.
pub data Next : Type 0 where
  goes_on breaks : Next

module _ {ℓ} {E : Type ℓ} (e : Epoll E) where
  -- `AddFd`, `DelFd`, `SetRead` and `SetWrite`, which end the process where `epoll_ctl` fails.
  pub add_fd : ℕ → Sender E → Option (Sender E)
  add_fd fd s = elim (e.ctl_add fd false s.epoll) [
    | none ↦ none
    | some p ↦ some (record s { epoll = p; size = suc s.size })
  ]

  -- With the `close` that follows it.
  pub close_fd : ℕ → Sender E → Option (Sender E)
  close_fd fd s = elim (e.ctl_del fd s.epoll) [
    | none ↦ none
    | some p ↦ some (record s { epoll = p; size = s.size - 1; closed = fd ∷ s.closed })
  ]

  pub set_mode : ℕ → Bool → Sender E → Option (Sender E)
  set_mode fd mode s = elim (e.ctl_mod fd mode s.epoll) [
    | none ↦ none
    | some p ↦ some (record s { epoll = p })
  ]

  abbrev pub then_read : ℕ → Sender E → Option (Bytes × List Sent) → Option (Bytes × Sender E)
  unfolding set_mode
  then_read fd s none = none
  then_read fd s (some (text, left)) = elim (set_mode fd false s) [
    | none ↦ none
    | some s' ↦ some (text, s')
  ]

  -- The part of log_sender.cpp for EPOLLOUT: what is sent, and whether the loop goes on to the
  -- next event at once.
  pub write_event : Event → Sender E → Option (Bytes × Sender E × Option Next)
  unfolding close_fd send_message
  write_event v s =
      if v.established
      then elim s.msg_queue [
        | [] ↦ some ([], s, some breaks)
        | m ∷ ms ↦ elim (then_read v.fd (record s { msg_queue = ms }) (send_message v.sending m)) [
          | none ↦ none
          | some (text, s') ↦ some (text, s', none)
        ]
      ]
      else elim (close_fd v.fd s) [ none ↦ none | some s' ↦ some ([], s', some goes_on) ]

  -- The part of log_sender.cpp for EPOLLIN: a connection that the server has closed is replaced by a new one.
  pub read_event : Event → Sender E → Option (Sender E × Next)
  unfolding drain close_fd add_fd set_mode
  read_event v s = elim (drain v.reading) [
    | none ↦ none
    | some b ↦
        if v.hung_up
        then elim (close_fd v.fd s) [
          | none ↦ none
          | some s1 ↦ elim (add_fd v.new_fd s1) [
            | none ↦ none
            | some s2 ↦ elim (set_mode v.new_fd false s2) [
              | none ↦ none
              | some s3 ↦ some (s3, breaks)
            ]
          ]
        ]
        else some (s, goes_on)
  ]

  abbrev pub and_read :
      Event → Option (Bytes × Sender E × Option Next) → Option (Bytes × Sender E × Next)
  unfolding read_event
  and_read v none = none
  and_read v (some (text, s, some next)) = some (text, s, next)
  and_read v (some (text, s, none)) =
      if v.readable
      then elim (read_event v s) [ none ↦ none | some (s', next) ↦ some (text, s', next) ]
      else some (text, s, goes_on)

  -- `DoWithEpoll` of log_sender.cpp: what is sent, one text for each event that it gets to.
  pub do_with_epoll : List Event → Sender E → Option (List Bytes × Sender E)
  unfolding write_event
  do_with_epoll [] s = some ([], s)
  do_with_epoll (v ∷ vs) s =
      let start : Option (Bytes × Sender E × Option Next) =
        if v.writable then write_event v s else some ([], s, none) in
      elim (and_read v start) [
        | none ↦ none
        | some (text, s', breaks) ↦ some (text ∷ [], s')
        | some (text, s', goes_on) ↦ elim (do_with_epoll vs s') [
          | none ↦ none
          | some (texts, s'') ↦ some (text ∷ texts, s'')
        ]
      ]

  -- A round of the loop of `main` in log_sender.cpp, whose connection is `fd`.
  pub main_round : ℕ → List Event → Sender E → Option (List Bytes × Sender E)
  unfolding do_with_epoll set_mode
  main_round fd events s = elim (do_with_epoll events s) [
    | none ↦ none
    | some (texts, s') ↦ elim s'.msg_queue [
      | [] ↦ some (texts, s')
      | m ∷ ms ↦ elim (set_mode fd true s') [ none ↦ none | some s'' ↦ some (texts, s'') ]
    ]
  ]

  -- The part of short_sender.cpp for EPOLLOUT, which waits for a message: `none` where none comes.
  pub write_event_once : Event → Sender E → Option (Bytes × Sender E × Option Next)
  unfolding close_fd send_message_once
  write_event_once v s =
      if v.established
      then elim s.msg_queue [
        | [] ↦ none
        | m ∷ ms ↦
            elim (then_read v.fd (record s { msg_queue = ms }) (send_message_once v.sending m)) [
              | none ↦ none
              | some (text, s') ↦ some (text, s', none)
            ]
      ]
      else elim (close_fd v.fd s) [ none ↦ none | some s' ↦ some ([], s', some goes_on) ]

  -- The part for EPOLLIN: an answer ends the connection.
  pub read_event_once : Event → Sender E → Option (Sender E × Next)
  unfolding drain close_fd set_mode
  read_event_once v s = elim (drain v.reading) [
    | none ↦ none
    | some true ↦ elim (close_fd v.fd s) [ none ↦ none | some s' ↦ some (s', goes_on) ]
    | some false ↦
        if v.hung_up
        then elim (close_fd v.fd s) [ none ↦ none | some s' ↦ some (s', breaks) ]
        else elim (set_mode v.fd true s) [ none ↦ none | some s' ↦ some (s', goes_on) ]
  ]
