-- ===== src/DataManager/Sending.antt =====
-- The loops of the queries in src/log_processor/data_manager.cpp that send logs.
use log_service.Prelude.{ℕ, zero, suc, List, [], ◌∷◌, Option, none, some, Bytes, reverse}
use log_service.Handler.{Handler}
use log_service.Handler.Calls.{serials_of_key}
use log_service.QueryResult.{ResultHandler, append_line}
use log_service.DataManager.{handler_at, set_handler, read_line}

-- Reads and sends the logs at some serials of a handler, `left` at most.
unfoldable pub send_serials :
    ℕ → List ℕ → Handler → ResultHandler → Option (ℕ × Handler × ResultHandler)
send_serials zero serials h rs = some (zero, h, rs)
send_serials (suc left) [] h rs = some (suc left, h, rs)
send_serials (suc left) (s ∷ ss) h rs = elim (read_line h s) [
  | none ↦ none
  | some (h', l) ↦ send_serials left ss h' (append_line rs l)
]

-- The loop over all handlers from the newest on, while logs are `left` to be sent; `select` is
-- the search of one handler, with the serials that it finds, newest first.
unfoldable pub send_all :
    (Handler → Option (Handler × List ℕ))
    → ℕ
    → List Handler
    → ResultHandler
    → Option (ℕ × List Handler × ResultHandler)
send_all select left [] rs = some (left, [], rs)
send_all select zero (h ∷ hs) rs = some (zero, h ∷ hs, rs)
send_all select (suc left) (h ∷ hs) rs = elim (select h) [
  | none ↦ none
  | some (h1, serials) ↦ elim (send_serials (suc left) serials h1 rs) [
    | none ↦ none
    | some (left', h2, rs') ↦ elim (send_all select left' hs rs') [
      | none ↦ none
      | some (left'', hs', rs'') ↦ some (left'', h2 ∷ hs', rs'')
    ]
  ]
]

-- The serials from the newest on.
unfoldable pub down_from : ℕ → List ℕ
down_from zero = []
down_from (suc n) = n ∷ down_from n

-- The loop over the handlers of a key, `rbegin()` first.
unfoldable pub send_ids :
    Bytes → ℕ → List ℕ → List Handler → ResultHandler → Option (ℕ × List Handler × ResultHandler)
send_ids key left [] hs rs = some (left, hs, rs)
send_ids key zero (id ∷ ids) hs rs = some (zero, hs, rs)
send_ids key (suc left) (id ∷ ids) hs rs = elim (handler_at hs id) [
  | none ↦ none
  | some h ↦ elim (serials_of_key h key) [
    | none ↦ none
    | some (h1, none) ↦ send_ids key (suc left) ids (set_handler hs id h1) rs
    | some (h1, some serials) ↦ elim (send_serials (suc left) (reverse serials) h1 rs) [
      | none ↦ none
      | some (left', h2, rs') ↦ send_ids key left' ids (set_handler hs id h2) rs'
    ]
  ]
]
