-- ===== src/LogServer/Sockets.antt =====
-- The work of src/log_server/log_server.cpp on one connection. What `recv` and `send` answer is a list
-- of answers, one for each call; a call that has no answer left has not returned: `none`, as where the
-- process ends with an error.
pub mod Closed
pub mod Whole
mod Tests
use log_service.Prelude.{
  ℕ, ◌+◌, ◌-◌, ◌/◌, Bool, true, false, List, [], ◌∷◌, ◌++◌, Option, none, some, Bytes, codes, leb,
  ◌==◌, length, take, drop, replicate, if◌then◌else◌,
}
use log_service.Epoll.{Epoll, Received, received, would_block, failed, Sent, sent, later, broken}
use log_service.Config.{buffer_size, query_result_q_len}
use log_service.Decimal.{decimal}
use log_service.ReqData.{ReqData}
use log_service.LogServer.{
  Connections, find, last_first, read_result_queue, write_msgs, result_to_fd,
  del_fd_from_result_index_structure, response_head,
}
use log_service.QueryResult.{QueryResult}

-- The rest of what `MySend` sends, behind a first part.
abbrev pub behind : Bytes → Option (Bytes × List Sent) → Option (Bytes × List Sent)
behind part none = none
behind part (some (more, answers)) = some (part ++ more, answers)

-- `MySend`: what the socket has taken when it returns.
pub my_send : List Sent → Bytes → Option (Bytes × List Sent)
my_send [] msg = none
my_send (later ∷ answers) msg = my_send answers msg
my_send (broken ∷ answers) msg = some ([], answers)
my_send (sent n ∷ answers) msg =
    let rest = behind (take n msg) (my_send answers (drop n msg)) in
    if leb (length msg) n then some (msg, answers) else rest

abbrev pub in_front : ℕ → Option Bytes → Option Bytes
in_front c none = none
in_front c (some t) = some (c ∷ t)

-- The first bytes of the receive buffer up to a NUL; `none` where the buffer has none.
pub terminated : Bytes → Option Bytes
terminated [] = none
terminated (c ∷ s) = let rest = in_front c (terminated s) in if c == 0 then some [] else rest

-- The messages of the buffer, which has one slot, as BUFFER_SIZE is STR_LEN.
abbrev pub messages : Bytes → List Bytes
messages [] = []
messages (c ∷ s) = (c ∷ s) ∷ []

-- `recv` behind the bytes that were read.
pub receive : ℕ → Bytes → Bytes → Bytes
receive index str buffer =
    let part = take (buffer_size - index) str in
    take index buffer ++ (part ++ drop (index + length part) buffer)

-- `fd_ack_set.insert(fd)`
abbrev pub insert_fd : ℕ → List ℕ → List ℕ
insert_fd fd [] = fd ∷ []
insert_fd fd (i ∷ l) = if i == fd then i ∷ l else i ∷ insert_fd fd l

abbrev pub erase_fd : ℕ → List ℕ → List ℕ
erase_fd fd [] = []
erase_fd fd (i ∷ l) = if i == fd then l else i ∷ erase_fd fd l

abbrev pub has_fd : ℕ → List ℕ → Bool
has_fd fd [] = false
has_fd fd (i ∷ l) = if i == fd then true else has_fd fd l

-- `written` are the requests that have gone to the message queue, oldest first, and `closed` the
-- descriptors that were closed, newest first.
pub record Server {ℓ} (E : Type ℓ) : Type ℓ where
  pub connections : Connections
  pub fd_ack_set : List ℕ
  pub epoll : E
  pub written : List ReqData
  pub closed : List ℕ

-- An event of a connection: with EPOLLIN, what `recv` answers.
pub record Event : Type 0 where
  pub fd : ℕ
  pub readable : Option (List Received)
  pub writable : Bool

-- What `epoll_wait` reports: new connections, or an event of one.
pub data Ready : Type 0 where
  listening : List ℕ → Ready
  connection : Event → Ready

-- The rounds of `Read_result_queue`, MAX_QUERY_RESULT_READ and one more.
abbrev pub max_query_result_read : ℕ
max_query_result_read = query_result_q_len / 2 + 1

module _ {ℓ} {E : Type ℓ} (e : Epoll E) where
  -- `DelFd`, and `SetRead` and `SetWrite`, which end the process where `epoll_ctl` fails.
  pub del_fd : ℕ → Server E → Option (Server E)
  del_fd fd s = elim (e.ctl_del fd s.epoll) [ none ↦ none | some p ↦ some (record s { epoll = p }) ]

  pub modify_fd_mode : ℕ → Bool → Server E → Option (Server E)
  modify_fd_mode fd mode s = elim (e.ctl_mod fd mode s.epoll) [
    | none ↦ none
    | some p ↦ some (record s { epoll = p })
  ]

  -- The three calls on a connection that is at its end.
  pub close_connection : ℕ → Server E → Option (Server E)
  unfolding del_fd
  close_connection fd s = elim (del_fd fd s) [
    | none ↦ none
    | some s' ↦ some (record s' {
      connections = del_fd_from_result_index_structure fd s'.connections;
      closed = fd ∷ s'.closed;
    })
  ]

  -- `fd_ack_set` takes the connection where none of its requests waits for an answer.
  pub want_ack : ℕ → Bool → Server E → Option (Server E)
  unfolding modify_fd_mode
  want_ack fd needed s =
      let asked : Option (Server E) = elim (modify_fd_mode fd true s) [
        | none ↦ none
        | some s' ↦ some (record s' { fd_ack_set = insert_fd fd s'.fd_ack_set })
      ] in
      if needed then some s else asked

  -- What follows the inner loop where it has read something.
  pub handle_messages : ℕ → Bytes → Server E → Option (Server E)
  unfolding want_ack terminated
  handle_messages fd buffer s = elim (terminated buffer) [
    | none ↦ none
    | some text ↦
        let (reqs, c, needed) = write_msgs fd (messages text) s.connections in
        want_ack fd needed (record s { connections = c; written = s.written ++ reqs })
  ]

  abbrev pub handle_read : ℕ → ℕ → Bytes → Server E → Option (Server E)
  unfolding handle_messages
  handle_read fd index buffer s = if index == 0 then some s else handle_messages fd buffer s

  -- The two loops of `Read_fd_work`, with `index` bytes of the buffer read.
  pub read_loop : ℕ → List Received → ℕ → Bytes → Server E → Option (Server E)
  unfolding receive handle_messages close_connection
  read_loop fd [] index buffer s = none
  read_loop fd (would_block ∷ answers) index buffer s = handle_read fd index buffer s
  read_loop fd (failed ∷ answers) index buffer s = elim (close_connection fd s) [
    | none ↦ none
    | some s' ↦ handle_read fd index buffer s'
  ]
  read_loop fd (received [] ∷ answers) index buffer s = elim (close_connection fd s) [
    | none ↦ none
    | some s' ↦ handle_read fd index buffer s'
  ]
  read_loop fd (received (c ∷ str) ∷ answers) index buffer s =
      let index' = index + length (take (buffer_size - index) (c ∷ str)) in
      let buffer' = receive index (c ∷ str) buffer in
      let again : Option (Server E) = elim (handle_messages fd buffer' s) [
        | none ↦ none
        | some s' ↦ read_loop fd answers 0 buffer' s'
      ] in
      let more = read_loop fd answers index' buffer' s in
      if leb buffer_size index' then again else more

  -- `Read_fd_work`
  pub read_fd_work : ℕ → List Received → Server E → Option (Server E)
  unfolding read_loop
  read_fd_work fd answers s = read_loop fd answers 0 (replicate buffer_size 0) s

  abbrev pub read_event : ℕ → Option (List Received) → Server E → Option (Server E)
  unfolding read_fd_work
  read_event fd none s = some s
  read_event fd (some answers) s = read_fd_work fd answers s

  -- `Ack_to_fd`: the text for the connection, and the server.
  pub ack_to_fd : ℕ → Server E → Option (Bytes × Server E)
  unfolding modify_fd_mode
  ack_to_fd fd s =
      let acked : Option (Bytes × Server E) =
        elim (modify_fd_mode fd false (record s { fd_ack_set = erase_fd fd s.fd_ack_set })) [
          | none ↦ none
          | some s' ↦ some (response_head 6 ++ codes "[ACK]\n", s')
        ] in
      if has_fd fd s.fd_ack_set then acked else some ([], s)

  -- `finish_` of the block that is sent last.
  abbrev pub last_finish : List QueryResult → Bool
  last_finish [] = false
  last_finish (r ∷ []) = r.finish
  last_finish (r ∷ t ∷ rs) = last_finish (t ∷ rs)

  abbrev pub at_end : ℕ → Bool → Server E → Option (Server E)
  unfolding del_fd
  at_end fd false s = some s
  at_end fd true s = elim (del_fd fd s) [
    | none ↦ none
    | some s' ↦ some (record s' { closed = fd ∷ s'.closed })
  ]

  -- `Result_to_fd`, which closes the connection where the last block sent is marked as the last one.
  pub send_results : ℕ → Server E → Option (Bytes × Server E)
  send_results fd s = elim (find fd s.connections.fd_result_map) [
    | none ↦ some ([], s)
    | some rs ↦
        let (text, c) = result_to_fd fd s.connections in
        elim (at_end fd (last_finish (last_first rs)) (record s { connections = c })) [
          | none ↦ none
          | some s' ↦ some (text, s')
        ]
  ]

  -- `Write_fd_work`
  pub write_fd_work : ℕ → Server E → Option (Bytes × Server E)
  unfolding ack_to_fd send_results
  write_fd_work fd s = elim (ack_to_fd fd s) [
    | none ↦ none
    | some (ack, s1) ↦ elim (send_results fd s1) [
      | none ↦ none
      | some (text, s2) ↦ some (ack ++ text, s2)
    ]
  ]

  -- The loop over `accept4`, which answers with these descriptors until there is no connection more.
  pub accept_all : List ℕ → Server E → Option (Server E)
  accept_all [] s = some s
  accept_all (fd ∷ fds) s = elim (e.ctl_add fd false s.epoll) [
    | none ↦ none
    | some p ↦ accept_all fds (record s { epoll = p })
  ]

  -- The part of `DoWithEpoll` for a connection.
  pub do_event : Event → Server E → Option (Bytes × Server E)
  unfolding read_fd_work write_fd_work
  do_event v s = elim (read_event v.fd v.readable s) [
    | none ↦ none
    | some s' ↦ if v.writable then write_fd_work v.fd s' else some ([], s')
  ]

  -- The loop of `DoWithEpoll`: what each connection is sent.
  pub do_with_epoll : List Ready → Server E → Option (List (ℕ × Bytes) × Server E)
  unfolding do_event accept_all
  do_with_epoll [] s = some ([], s)
  do_with_epoll (listening fds ∷ vs) s = elim (accept_all fds s) [
    | none ↦ none
    | some s' ↦ do_with_epoll vs s'
  ]
  do_with_epoll (connection v ∷ vs) s = elim (do_event v s) [
    | none ↦ none
    | some (text, s1) ↦ elim (do_with_epoll vs s1) [
      | none ↦ none
      | some (texts, s2) ↦ some ((v.fd, text) ∷ texts, s2)
    ]
  ]

  -- The connections whose answers are complete wait to be written to.
  pub set_writes : List ℕ → Server E → Option (Server E)
  unfolding modify_fd_mode
  set_writes [] s = some s
  set_writes (fd ∷ fds) s = elim (modify_fd_mode fd true s) [
    | none ↦ none
    | some s' ↦ set_writes fds s'
  ]

  -- A round of the loop of `main`: the blocks of the result queue, then the events.
  pub main_round : List QueryResult → List Ready → Server E → Option (List (ℕ × Bytes) × Server E)
  unfolding set_writes do_with_epoll
  main_round queue events s =
      let (c, fd_list) = read_result_queue max_query_result_read queue (s.connections, []) in
      elim (set_writes fd_list (record s { connections = c })) [
        | none ↦ none
        | some s' ↦ do_with_epoll events s'
      ]
