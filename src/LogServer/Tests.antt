-- ===== src/LogServer/Tests.antt =====
-- Two clients on two connections: each theorem at an input.
use log_service.Prelude.{
  ℕ, ◌≡◌, refl, false, ◌++◌, List, [], ◌∷◌, some, Bytes, codes, length, take, arith,
}
use log_service.QueryResult.{QueryResult}
use log_service.LogServer.{Connections, find, read_result_queue, response_head, body, result_to_fd}
use log_service.LogServer.Delivery.{
  waiting, blocks_for, waiting-read_result_queue, result_to_fd-response,
}

abbrev block : ℕ → Bytes → QueryResult
block client text = record { client_id = client; begin = false; finish = false; logs = text }

abbrev clients : Connections
clients = record {
  client_id_fd_map = (11, 5) ∷ (12, 6) ∷ [];
  fd_client_id_map = (5, 11) ∷ (6, 12) ∷ [];
  fd_result_map = (5, block 11 (codes "a\n") ∷ block 11 (codes "Return 1\n") ∷ []) ∷ [];
}

abbrev queue : List QueryResult
queue = block 12 (codes "b\n") ∷ block 11 (codes "c\n") ∷ block 13 (codes "d\n") ∷ []

waiting-read_result_queue_example :
    waiting 5 (read_result_queue 9 queue (clients, [])).0.fd_result_map
    ≡ waiting 5 clients.fd_result_map ++ blocks_for 5 clients (take 9 queue)
waiting-read_result_queue_example = waiting-read_result_queue 5 9 queue (clients, []) (ground arith)

first_found :
    find 5 clients.fd_result_map
    ≡ some ((block 11 (codes "a\n") ∷ []) ++ (block 11 (codes "Return 1\n") ∷ []))
unfolding find
first_found = refl

result_to_fd-response_example :
    (result_to_fd 5 clients).0
    ≡ response_head (length (codes "Return 1\n" ++ body (block 11 (codes "a\n") ∷ [])))
      ++ (codes "Return 1\n" ++ body (block 11 (codes "a\n") ∷ []))
result_to_fd-response_example =
    result_to_fd-response 5 clients (block 11 (codes "a\n") ∷ []) (block 11 (codes "Return 1\n"))
      first_found
