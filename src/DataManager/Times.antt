-- ===== src/DataManager/Times.antt =====
-- `SearchTime_log` of src/log_processor/data_manager.cpp.
use log_service.Prelude.{
  ℕ, ◌+◌, ◌-◌, ◌||◌, ◌&&◌, Bool, true, false, List, [], ◌∷◌, Option, none, some, Bytes, codes, ◌==◌,
  length, drop, take, map, if◌then◌else◌,
}
use log_service.ReqData.{ReqType, search_time, ReqData, valid}
use log_service.Trie.{search}
use log_service.TimeSearch.{find_start_time_bulkhandler}
use log_service.Bulk.{TimeRange, past, nothing, range}
use log_service.Handler.{Handler}
use log_service.Handler.Calls.{serials_in_time}
use log_service.QueryResult.{QueryResult, ResultHandler, new_results, finish_results}
use log_service.DataManager.{as_int, DataManager, handler_at, set_handler}
use log_service.DataManager.Sending.{send_serials}
use log_service.DataManager.Notes.{append_note, refuse_query}

-- `(*tmp_serial_list)[i]` for `i` from `start_index` to `end_index`.
abbrev pub cut : List ℕ → ℕ → ℕ → List ℕ
cut serials i j = take (j + 1 - i) (drop i serials)

-- What one handler sends: nothing once `end_search` is set.
abbrev found_range : Bool → TimeRange → List ℕ
found_range true t = []
found_range false past = []
found_range false nothing = []
found_range false (range serials i j) = cut serials i j

abbrev is_past : TimeRange → Bool
is_past past = true
is_past t = false

-- The loop over the handlers of a key from the first that may hold the time; `end_search` stays set.
pub send_times :
    Bytes
    → ℕ
    → ℕ
    → Bool
    → List ℕ
    → List Handler
    → ResultHandler
    → Option (List Handler × ResultHandler)
send_times key start end end_search [] hs rs = some (hs, rs)
send_times key start end end_search (id ∷ ids) hs rs = elim (handler_at hs id) [
  | none ↦ none
  | some h ↦ elim (serials_in_time h start end key) [
    | none ↦ none
    | some (h1, t) ↦
        let over = end_search || is_past t in
        let serials = found_range over t in
        elim (send_serials (length serials) serials h1 rs) [
          | none ↦ none
          | some (left, h2, rs') ↦ send_times key start end over ids (set_handler hs id h2) rs'
        ]
  ]
]

abbrev pub is_search_time : ReqType → Bool
is_search_time search_time = true
is_search_time t = false

abbrev end_time_of : Option Handler → ℕ
end_time_of none = 0
end_time_of (some h) = h.end_time

abbrev answer_times :
    DataManager
    → ℕ
    → Option (List Handler × ResultHandler)
    → Option (DataManager × List QueryResult)
answer_times m used none = none
answer_times m used (some (hs, rs)) = some (
  record m { handlers = hs },
  finish_results (if rs.count == 0 then append_note rs (codes "No result found\n") else rs) used,
)

-- The search over the handlers that a key leads to. A word that only starts longer keys leads to an
-- empty list, in which the loop starts at -1 and reads in front of the array: `none`.
pub search_times :
    Bytes
    → ℕ
    → ℕ
    → Option (List ℕ)
    → List Handler
    → ResultHandler
    → Option (List Handler × ResultHandler)
unfolding send_times
search_times key start end none hs rs = some (hs, rs)
search_times key start end (some ids) hs rs =
    elim (find_start_time_bulkhandler start (map (λ id. end_time_of (handler_at hs id)) ids)) [
      | none ↦ none
      | some i ↦ send_times key start end false (drop i ids) hs rs
    ]

-- `SearchTime_log`, which holds the times as `int`; `num` counts the logs sent.
pub search_time_log : DataManager → ReqData → ℕ → Option (DataManager × List QueryResult)
unfolding search_times
search_time_log m r used =
    if valid r && is_search_time r.type
    then answer_times m used (
        search_times r.key (as_int r.start) (as_int r.end) (search m.global_trie r.key) m.handlers
          (new_results r.client_id))
    else refuse_query m r used
