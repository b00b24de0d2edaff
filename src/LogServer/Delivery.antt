-- ===== src/LogServer/Delivery.antt =====
-- The blocks of an answer reach the connection of the client that asked, complete and in order.
use log_service.Prelude.{
  ℕ, zero, suc, ◌≡◌, ◌≢◌, refl, sym, ap, ◌∙◌, List, [], ◌∷◌, ◌++◌, some, ◌==◌, length, take,
  if◌then◌else◌, arith, inl, inr, Bool-cases, append-nil, append_assoc, length-append,
}
use log_service.QueryResult.{QueryResult}
use log_service.LogServer.{
  find, Connections, find_client_id_fd_map, push_result, insert_fd_query_result, read_result,
  read_result_queue, message_length, last_first, body, result_to_fd, response_head,
}

-- The blocks that wait for a connection.
pub waiting : ℕ → List (ℕ × List QueryResult) → List QueryResult
waiting fd [] = []
waiting fd ((j, rs) ∷ m) = if j == fd then rs else waiting fd m

-- The blocks of a queue that are for a connection, under the map from clients.
pub blocks_for : ℕ → Connections → List QueryResult → List QueryResult
blocks_for fd c [] = []
blocks_for fd c (r ∷ rs) =
    if find_client_id_fd_map r.client_id c == fd then r ∷ blocks_for fd c rs else blocks_for fd c rs

waiting-push_result :
    (fd fd' : ℕ) (r : QueryResult) (m : List (ℕ × List QueryResult))
    → waiting fd (push_result fd' r m)
      ≡ (if fd' == fd then waiting fd m ++ (r ∷ []) else waiting fd m)
unfolding waiting push_result
waiting-push_result fd fd' r [] = ground arith
waiting-push_result fd fd' r ((j, rs) ∷ m) = ground (arith, waiting-push_result fd fd' r m)

-- A round keeps the map from clients.
read_result-clients :
    (r : QueryResult) (s : Connections × List ℕ)
    → (read_result r s).0.client_id_fd_map ≡ s.0.client_id_fd_map
unfolding read_result insert_fd_query_result
read_result-clients r (c, l) = ground arith

blocks_for-same :
    (fd : ℕ) (c c' : Connections) (rs : List QueryResult)
    → c.client_id_fd_map ≡ c'.client_id_fd_map
    → blocks_for fd c rs ≡ blocks_for fd c' rs
unfolding blocks_for find_client_id_fd_map
blocks_for-same fd c c' [] e = refl
blocks_for-same fd c c' (r ∷ rs) e = rw (e, blocks_for-same fd c c' rs e) refl

waiting-read_result :
    (fd : ℕ) (r : QueryResult) (s : Connections × List ℕ)
    → fd ≢ 0
    → waiting fd (read_result r s).0.fd_result_map
      ≡ waiting fd s.0.fd_result_map ++ blocks_for fd s.0 (r ∷ [])
unfolding read_result insert_fd_query_result blocks_for
waiting-read_result fd r (c, l) h = ground (
  arith,
  waiting-push_result fd (find_client_id_fd_map r.client_id c) r c.fd_result_map,
  append-nil (waiting fd c.fd_result_map),
)

blocks_for-cons :
    (fd : ℕ) (c : Connections) (r : QueryResult) (rs : List QueryResult)
    → blocks_for fd c (r ∷ rs) ≡ blocks_for fd c (r ∷ []) ++ blocks_for fd c rs
unfolding blocks_for
blocks_for-cons fd c r rs = elim (Bool-cases (find_client_id_fd_map r.client_id c == fd)) [
  | inl e ↦ rw e refl
  | inr e ↦ rw e refl
]

-- After `Read_result_queue` a connection's waiting blocks are those that waited before and, behind
-- them in the order of the queue, all blocks among the first `budget` ones whose client is mapped
-- to the connection. The descriptor 0, which stands for no connection, gets none.
pub waiting-read_result_queue :
    (fd budget : ℕ) (queue : List QueryResult) (s : Connections × List ℕ)
    → fd ≢ 0
    → waiting fd (read_result_queue budget queue s).0.fd_result_map
      ≡ waiting fd s.0.fd_result_map ++ blocks_for fd s.0 (take budget queue)
unfolding read_result_queue blocks_for
waiting-read_result_queue fd zero queue s h = sym (append-nil (waiting fd s.0.fd_result_map))
waiting-read_result_queue fd (suc budget) [] s h = sym (append-nil (waiting fd s.0.fd_result_map))
waiting-read_result_queue fd (suc budget) (r ∷ queue) s h =
    let rest = take budget queue in
    waiting-read_result_queue fd budget queue (read_result r s) h
    ∙ ap (◌++◌ (waiting fd (read_result r s).0.fd_result_map))
        (blocks_for-same fd (read_result r s).0 s.0 rest (read_result-clients r s))
    ∙ ap (λ (w : List QueryResult). w ++ blocks_for fd s.0 rest) (waiting-read_result fd r s h)
    ∙ append_assoc (waiting fd s.0.fd_result_map) (blocks_for fd s.0 (r ∷ []))
        (blocks_for fd s.0 rest)
    ∙ ap (◌++◌ (waiting fd s.0.fd_result_map)) (sym (blocks_for-cons fd s.0 r rest))

last_first-append : (rs : List QueryResult) (t : QueryResult) → last_first (rs ++ (t ∷ [])) ≡ t ∷ rs
unfolding last_first
last_first-append [] t = refl
last_first-append (r ∷ rs) t = rw (last_first-append rs t) refl

message_length-append :
    (rs : List QueryResult) (t : QueryResult)
    → message_length (rs ++ (t ∷ [])) ≡ length (t.logs ++ body rs)
unfolding message_length body
message_length-append [] t = omega (arith, length-append t.logs [])
message_length-append (r ∷ rs) t = omega (
  arith,
  message_length-append rs t,
  length-append t.logs (body rs),
  length-append r.logs (body rs),
  length-append t.logs (r.logs ++ body rs),
)

sent_for :
    (fd : ℕ) (c : Connections) (rs : List QueryResult)
    → find fd c.fd_result_map ≡ some rs
    → (result_to_fd fd c).0 ≡ response_head (message_length rs) ++ body (last_first rs)
unfolding result_to_fd
sent_for fd c rs e = rw (result_to_fd, e) refl

-- The answer on a connection is one response: the last block that arrived, which counts the results,
-- then the others in order; its Content-length is the number of bytes of this text.
pub result_to_fd-response :
    (fd : ℕ) (c : Connections) (rs : List QueryResult) (t : QueryResult)
    → find fd c.fd_result_map ≡ some (rs ++ (t ∷ []))
    → let text = t.logs ++ body rs in (result_to_fd fd c).0 ≡ response_head (length text) ++ text
unfolding body
result_to_fd-response fd c rs t e =
    sent_for fd c (rs ++ (t ∷ [])) e ∙ rw (message_length-append rs t, last_first-append rs t) refl
