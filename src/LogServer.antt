-- ===== src/LogServer.antt =====
-- src/log_server/log_server.cpp: which connection waits for which client, and the way of the requests
-- and of the result blocks between the connections and the two queues. The sockets are in `Sockets`;
-- a file descriptor is a number. An `unordered_map` is a list of pairs with different keys.
pub mod Delivery
pub mod Passing
pub mod Sockets
mod Tests
use log_service.Prelude.{
  ℕ, zero, suc, ◌+◌, ◌-◌, ◌/◌, Bool, true, false, List, [], ◌∷◌, ◌++◌, Option, none, some, Bytes,
  codes, leb, ltb, ◌==◌, length, take, if◌then◌else◌,
}
use log_service.Decimal.{decimal}
use log_service.HttpParser.{parse_req}
use log_service.ReqData.{ReqData, need_send_back, is_positive}
use log_service.QueryResult.{QueryResult}

module _ {ℓ} {A : Type ℓ} where
  pub find : ℕ → List (ℕ × A) → Option A
  find k [] = none
  find k ((j, a) ∷ m) = if j == k then some a else find k m

  -- `emplace`, which leaves a key that is there as it is.
  pub emplace : ℕ → A → List (ℕ × A) → List (ℕ × A)
  emplace k a [] = (k, a) ∷ []
  emplace k a ((j, b) ∷ m) = if j == k then (j, b) ∷ m else (j, b) ∷ emplace k a m

  pub erase : ℕ → List (ℕ × A) → List (ℕ × A)
  erase k [] = []
  erase k ((j, b) ∷ m) = if j == k then m else (j, b) ∷ erase k m

-- The globals.
pub record Connections : Type 0 where
  pub client_id_fd_map : List (ℕ × ℕ)
  pub fd_client_id_map : List (ℕ × ℕ)
  pub fd_result_map : List (ℕ × List QueryResult)

pub insert_client_id_fd_map : ℕ → ℕ → Connections → Connections
unfolding emplace
insert_client_id_fd_map client_id fd c = record c {
  client_id_fd_map = emplace client_id fd c.client_id_fd_map;
  fd_client_id_map = emplace fd client_id c.fd_client_id_map;
}

-- 0 for a client without a connection.
abbrev or_zero : Option ℕ → ℕ
or_zero none = 0
or_zero (some fd) = fd

pub find_client_id_fd_map : ℕ → Connections → ℕ
unfolding find
find_client_id_fd_map client_id c = or_zero (find client_id c.client_id_fd_map)

pub delete_client_id_fd_map : ℕ → Connections → Connections
unfolding find erase
delete_client_id_fd_map fd c = elim (find fd c.fd_client_id_map) [
  | none ↦ c
  | some client_id ↦ record c {
    client_id_fd_map = erase client_id c.client_id_fd_map;
    fd_client_id_map = erase fd c.fd_client_id_map;
  }
]

pub del_fd_from_fd_result_map : ℕ → Connections → Connections
unfolding erase
del_fd_from_fd_result_map fd c = record c { fd_result_map = erase fd c.fd_result_map }

pub del_fd_from_result_index_structure : ℕ → Connections → Connections
unfolding del_fd_from_fd_result_map delete_client_id_fd_map
del_fd_from_result_index_structure fd c =
    delete_client_id_fd_map fd (del_fd_from_fd_result_map fd c)

-- `iter->second.push_back(result)`, behind an insertion of an empty list for a new descriptor.
pub push_result : ℕ → QueryResult → List (ℕ × List QueryResult) → List (ℕ × List QueryResult)
push_result fd r [] = (fd, r ∷ []) ∷ []
push_result fd r ((j, rs) ∷ m) =
    if j == fd then (j, rs ++ (r ∷ [])) ∷ m else (j, rs) ∷ push_result fd r m

pub insert_fd_query_result : ℕ → QueryResult → Connections → Connections
unfolding push_result
insert_fd_query_result fd r c = record c { fd_result_map = push_result fd r c.fd_result_map }

-- One round of the loop of `Read_result_queue`: the block goes to the connection of its client, and
-- the connection to `fd_list` with the last block; a block for nobody is dropped.
pub read_result : QueryResult → Connections × List ℕ → Connections × List ℕ
unfolding find_client_id_fd_map insert_fd_query_result
read_result r (c, fd_list) =
    let fd = find_client_id_fd_map r.client_id c in
    if fd == 0
    then (c, fd_list)
    else (insert_fd_query_result fd r c, if r.finish then fd_list ++ (fd ∷ []) else fd_list)

-- `Read_result_queue` on the blocks that the queue holds, of which `budget` are read at most.
pub read_result_queue : ℕ → List QueryResult → Connections × List ℕ → Connections × List ℕ
unfolding read_result
read_result_queue zero queue s = s
read_result_queue (suc budget) [] s = s
read_result_queue (suc budget) (r ∷ queue) s = read_result_queue budget queue (read_result r s)

-- `msg_len`
pub message_length : List QueryResult → ℕ
message_length [] = 0
message_length (r ∷ rs) = length r.logs + message_length rs

-- The blocks with the last one, which holds the time, moved to the front.
pub last_first : List QueryResult → List QueryResult
last_first [] = []
last_first (r ∷ rs) = elim (last_first rs) [ [] ↦ r ∷ [] | t ∷ ts ↦ t ∷ r ∷ ts ]

pub body : List QueryResult → Bytes
body [] = []
body (r ∷ rs) = r.logs ++ body rs

pub response_head : ℕ → Bytes
response_head len =
    codes "HTTP/1.0 200 OK\r\nContent-length: "
    ++ (decimal len ++ codes "\r\nContent-type: text/plain\r\n\r\n")

-- `Result_to_fd`: what is sent, and the maps behind it; nothing where no block has arrived.
pub result_to_fd : ℕ → Connections → Bytes × Connections
unfolding find message_length last_first body response_head del_fd_from_result_index_structure
result_to_fd fd c = elim (find fd c.fd_result_map) [
  | none ↦ ([], c)
  | some rs ↦ (
    response_head (message_length rs) ++ body (last_first rs),
    del_fd_from_result_index_structure fd c,
  )
]

-- `Write_msg_to_msgqueue` on the messages in the receive buffer up to the first empty slot: the
-- requests for the queue, the maps, and whether one of them needs an answer. The writer waits for
-- room in the queue (`MsgQueue.Wait`), so that each request gets there.
pub write_msgs : ℕ → List Bytes → Connections → List ReqData × Connections × Bool
unfolding insert_client_id_fd_map
write_msgs fd [] c = ([], c, false)
write_msgs fd (m ∷ ms) c = elim (parse_req m) [
  | none ↦ write_msgs fd ms c
  | some r ↦
      let answers = is_positive (need_send_back r) in
      let c' = if answers then insert_client_id_fd_map (need_send_back r) fd c else c in
      let (rs, c'', needed) = write_msgs fd ms c' in (r ∷ rs, c'', if answers then true else needed)
]
