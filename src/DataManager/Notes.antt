-- ===== src/DataManager/Notes.antt =====
-- What a query sends that is no log.
use log_service.Prelude.{ℕ, List, [], ◌∷◌, ◌++◌, Option, some, Bytes, codes}
use log_service.ReqData.{ReqData}
use log_service.QueryResult.{QueryResult, ResultHandler, new_results, append_line, finish_results}
use log_service.DataManager.{DataManager}

-- `Append(str, strlen(str))` of a text that is no log: the byte copied behind it is its NUL.
abbrev pub append_note : ResultHandler → Bytes → ResultHandler
append_note rs str = append_line rs (str ++ (0 ∷ []))

abbrev not_a_search : Bytes
not_a_search = codes "Not a search req\n"

-- The answer to a request that is not of the query's kind.
pub refuse_query : DataManager → ReqData → ℕ → Option (DataManager × List QueryResult)
refuse_query m r used =
    some (m, finish_results (append_note (new_results r.client_id) not_a_search) used)
