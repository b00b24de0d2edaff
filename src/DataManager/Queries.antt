-- ===== src/DataManager/Queries.antt =====
-- The queries of src/log_processor/data_manager.cpp. Each returns the blocks that it has queued; `none`
-- where it does not return or has no defined behaviour. `used` is the time that it takes.
use log_service.Prelude.{
  ℕ, ◌+◌, ◌%◌, ◌^◌, ◌&&◌, Bool, true, false, List, [], ◌∷◌, ◌++◌, Option, none, some, Bytes, codes,
  ◌==◌, ltb, if◌then◌else◌, reverse,
}
use log_service.Config.{max_num_result}
use log_service.Decimal.{decimal}
use log_service.ReqData.{ReqType, recent, getkey, log_count, ReqData, valid}
use log_service.Trie.{search}
use log_service.Bulk.Words.{split_words}
use log_service.Handler.{Handler}
use log_service.Handler.Calls.{serials_of_keyword, serials_of_words}
use log_service.QueryResult.{QueryResult, ResultHandler, new_results, finish_results}
use log_service.DataManager.{DataManager}
use log_service.DataManager.Sending.{send_all, send_ids, down_from}
use log_service.DataManager.Notes.{append_note, refuse_query}

abbrev pub answer :
    DataManager
    → ℕ
    → Option (ℕ × List Handler × ResultHandler)
    → Option (DataManager × List QueryResult)
answer m used none = none
answer m used (some (left, hs, rs)) = some (record m { handlers = hs }, finish_results rs used)

-- `num = recent_count` as an `int`: no log is sent for a negative one.
abbrev pub int_count : ℕ → ℕ
int_count n = let low = n % 2 ^ 32 in if ltb low (2 ^ 31) then low else 0

abbrev pub is_recent : ReqType → Bool
is_recent recent = true
is_recent t = false

-- `Get_recent_log`, which goes on behind a request that it refuses with a null block.
unfoldable pub get_recent_log : DataManager → ReqData → ℕ → Option (DataManager × List QueryResult)
get_recent_log m r used =
    if valid r
    then if is_recent r.type
      then answer m used (
          send_all (λ h. some (h, down_from h.bulk.size)) (int_count r.count) m.handlers
            (new_results r.client_id))
      else none
    else none

-- `num` counts down from MAX_NUM_RESULT while it is not negative; `left` is `num + 1`. The note is
-- sent where `num` is 0.
abbrev pub note_if_zero : ℕ → ResultHandler → ResultHandler
note_if_zero left rs = if left == 1 then append_note rs (codes "No result found\n") else rs

abbrev pub answer_down :
    DataManager
    → ℕ
    → Option (ℕ × List Handler × ResultHandler)
    → Option (DataManager × List QueryResult)
answer_down m used none = none
answer_down m used (some (left, hs, rs)) =
    some (record m { handlers = hs }, finish_results (note_if_zero left rs) used)

abbrev pub is_getkey : ReqType → Bool
is_getkey getkey = true
is_getkey t = false

abbrev pub ids_of : Option (List ℕ) → List ℕ
ids_of none = []
ids_of (some l) = l

-- `Getkey_log`, with `Find_key_in_global_trie`.
unfoldable pub getkey_log : DataManager → ReqData → ℕ → Option (DataManager × List QueryResult)
getkey_log m r used =
    if valid r && is_getkey r.type
    then answer_down m used (
        send_ids r.key (max_num_result + 1) (reverse (ids_of (search m.global_trie r.key)))
          m.handlers (new_results r.client_id))
    else refuse_query m r used

abbrev pub is_search : ReqType → Bool
is_search ReqType.search = true
is_search t = false

-- The search of one handler for one keyword. The loop over the serials moves the pointer to their
-- vector in place of its iterator, and goes on reading behind the vector: with a serial
-- found it has no defined behaviour.
pub select_keyword : Bytes → Handler → Option (Handler × List ℕ)
select_keyword keyword h = elim (serials_of_keyword h keyword) [
  | none ↦ none
  | some (h', none) ↦ some (h', [])
  | some (h', some []) ↦ some (h', [])
  | some (h', some (s ∷ ss)) ↦ none
]

pub select_words : List Bytes → Handler → Option (Handler × List ℕ)
select_words words h = elim (serials_of_words h words) [
  | none ↦ none
  | some (h', serials) ↦ some (h', reverse serials)
]

-- The search by the number of keywords.
pub search_words :
    List Bytes → Bytes → List Handler → ResultHandler → Option (ℕ × List Handler × ResultHandler)
unfolding select_keyword select_words
search_words [] keyword hs rs = some (max_num_result + 1, hs, rs)
search_words (w ∷ []) keyword hs rs = send_all (select_keyword keyword) (max_num_result + 1) hs rs
search_words (w ∷ v ∷ ws) keyword hs rs =
    send_all (select_words (w ∷ v ∷ ws)) (max_num_result + 1) hs rs

-- `Search_log`
pub search_log : DataManager → ReqData → ℕ → Option (DataManager × List QueryResult)
unfolding search_words
search_log m r used =
    if valid r && is_search r.type
    then answer_down m used
        (search_words (split_words r.keyword) r.keyword m.handlers (new_results r.client_id))
    else refuse_query m r used

abbrev pub is_log_count : ReqType → Bool
is_log_count log_count = true
is_log_count t = false

-- The count that `LogCount_log` reports.
unfoldable pub record_count : DataManager → Option ℕ
record_count m = elim m.handlers [
  | [] ↦ none
  | h ∷ hs ↦ some ((h.bulk.start_serial + h.bulk.size) % 2 ^ 64)
]

-- `LogCount_log`
unfoldable pub log_count_log : DataManager → ReqData → ℕ → Option (DataManager × List QueryResult)
unfolding record_count
log_count_log m r used =
    if valid r && is_log_count r.type
    then elim (record_count m) [
      | none ↦ none
      | some n ↦
          let text = codes "Now record log count is " ++ (decimal n ++ codes "\n") in
          some (m, finish_results (append_note (new_results r.client_id) text) used)
    ]
    else refuse_query m r used

-- `Persistence_log`, which saves nothing.
unfoldable pub persistence_log : DataManager → ReqData → ℕ → Option (DataManager × List QueryResult)
persistence_log m r used =
    some
      (m, finish_results (append_note (new_results r.client_id) (codes "Persistence down\n")) used)
