-- ===== src/QueryResult.antt =====
-- include/QueryResult.h: the block that carries log lines back to the server, and
-- `QueryResultHandler` of src/log_processor/data_manager.cpp, which fills blocks and queues them.
pub mod Complete
pub mod Blocks
mod Tests
use log_service.Prelude.{
  ℕ, zero, suc, ◌+◌, ◌-◌, Bool, true, false, List, [], ◌∷◌, ◌++◌, Option, none, some, Bytes, codes,
  leb, ◌==◌, length, take, if◌then◌else◌,
}
use log_service.Config.{query_result_size}
use log_service.Decimal.{decimal}

-- `logs` is the text in `logs_`, whose length is `offset_`.
pub record QueryResult : Type 0 where
  pub client_id : ℕ
  pub begin : Bool
  pub finish : Bool
  pub logs : Bytes

pub new_result : ℕ → QueryResult
new_result client_id = record { client_id = client_id; begin = false; finish = false; logs = [] }

-- `sizeof(logs_)`
abbrev pub logs_size : ℕ
logs_size = query_result_size - 4 - 4 - 1

-- `Append` of the first `len` bytes of `str`, which has as many: the block, and the value returned.
pub append_text : QueryResult → Bytes → QueryResult × ℕ
append_text r str =
    if leb logs_size (length r.logs + length str + 1)
    then (r, 0)
    else (record r { logs = r.logs ++ str }, length str)

-- `QueryResultHandler`; `sent` are the blocks written to `result_queue`, oldest first. Each is
-- written by a loop that repeats a write to a full queue, so none is lost.
pub record ResultHandler : Type 0 where
  pub result : QueryResult
  pub count : ℕ
  pub sent : List QueryResult

pub new_results : ℕ → ResultHandler
unfolding new_result
new_results client_id = record {
  result = record (new_result client_id) { begin = true };
  count = 0;
  sent = [];
}

-- `Append(log, len)` with the `len + 1` bytes that it copies.
pub append_line : ResultHandler → Bytes → ResultHandler
append_line h line =
    let (r, ret) = append_text h.result line in
    let fresh = (append_text (new_result h.result.client_id) line).0 in
    if ret == 0
    then record h { result = fresh; count = h.count + 1; sent = h.sent ++ (h.result ∷ []) }
    else record h { result = r; count = h.count + 1 }

-- The text of the last block, after `used` microseconds.
unfoldable pub time_line : ℕ → ℕ → Bytes
time_line count used =
    codes "Return "
    ++ (decimal count ++ (codes " results use time " ++ (decimal used ++ codes " microseconds \n")))

-- `Finish`: what has been written to the queue when it returns.
pub finish_results : ResultHandler → ℕ → List QueryResult
unfolding time_line append_text new_result
finish_results h used =
    let last = (append_text (new_result h.result.client_id) (time_line h.count used)).0 in
    h.sent ++ (h.result ∷ (record last { finish = true }) ∷ [])

-- The calls that a query makes.
unfoldable pub append_lines : ResultHandler → List Bytes → ResultHandler
append_lines h [] = h
append_lines h (l ∷ ls) = append_lines (append_line h l) ls
