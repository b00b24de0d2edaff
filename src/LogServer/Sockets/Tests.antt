-- ===== src/LogServer/Sockets/Tests.antt =====
-- A socket that takes a message in two parts, and a client that closes its connection.
use log_service.Prelude.{
  ℕ, ◌≡◌, refl, sym, ap, ◌∙◌, Bool, true, false, List, [], ◌∷◌, Option, none, some, Bytes, codes,
  arith, ◌==◌, if◌then◌else◌, Bool-cases, inl, inr,
}
use log_service.HttpParser.{parse_req, find_char, starts_with, request_type, parse_query}
use log_service.ReqData.{ReqData, append, new_req_data, need_send_back, send_back_as}
use log_service.Epoll.{Epoll, received, Sent, sent, later}
use log_service.LogServer.Sockets.{Server, my_send, read_fd_work}
use log_service.LogServer.Sockets.Whole.{my_send-whole, taken}
use log_service.LogServer.Sockets.Closed.{read_fd_work-closed}

abbrev answers : List Sent
answers = sent 2 ∷ later ∷ sent 9 ∷ []

my_send-whole_example :
    (left : List Sent) × (my_send answers (codes "[ACK]\n") ≡ some (codes "[ACK]\n", left))
unfolding taken
my_send-whole_example = my_send-whole answers (codes "[ACK]\n") tt (omega arith) (omega arith)

-- The descriptors that are watched.
abbrev watch : Epoll (ℕ → Bool)
watch = record {
  ctl_add = λ fd mode p. some (λ i. if i == fd then true else p i);
  ctl_del = λ fd p. if p fd then some (λ i. if i == fd then false else p i) else none;
  ctl_mod = λ fd mode p. if p fd then some p else none;
}

abbrev watched : Option (ℕ → Bool) → ℕ → Bool
watched none i = false
watched (some p) i = p i

taken_out : (p : ℕ → Bool) → watched (watch.ctl_del 5 p) 5 ≡ false
taken_out p = elim (Bool-cases (p 5)) [ inl e ↦ rw e refl | inr e ↦ rw e refl ]

watch_gone : (p p' : ℕ → Bool) → watch.ctl_del 5 p ≡ some p' → watch.ctl_mod 5 true p' ≡ none
watch_gone p p' e =
    let out : p' 5 ≡ false = sym (ap (λ (o : Option (ℕ → Bool)). watched o 5) e) ∙ taken_out p in
    rw out refl

abbrev server : Server (ℕ → Bool)
server = record {
  connections = record { client_id_fd_map = []; fd_client_id_map = []; fd_result_map = [] };
  fd_ack_set = [];
  epoll = λ i. i == 5;
  written = [];
  closed = [];
}

abbrev path : Bytes
path = codes "ET /append"

abbrev request : ReqData
request = record new_req_data { type = append }

request_parsed : parse_req (71 ∷ path) ≡ some request
unfolding parse_req find_char starts_with request_type parse_query
request_parsed = refl

request_unanswered : need_send_back request ≡ 0
unfolding need_send_back send_back_as
request_unanswered = refl

read_fd_work-closed_example :
    read_fd_work watch 5 (received (71 ∷ path) ∷ received [] ∷ []) server ≡ none
unfolding need_send_back send_back_as
read_fd_work-closed_example =
    read_fd_work-closed watch 5 71 path request [] server watch_gone (ground arith) (omega arith)
      request_parsed refl
