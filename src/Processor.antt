-- ===== src/Processor.antt =====
-- src/log_processor/log_processor.cpp: the dispatch of the requests that the processor reads.
pub mod Service
mod Tests
use log_service.Prelude.{
  ℕ, Bool, true, false, List, [], ◌∷◌, ◌++◌, Option, none, some, if◌then◌else◌,
}
use log_service.ReqData.{
  ReqType, invalid, append, recent, getkey, search, search_time, log_count, persistence, ReqData,
  valid,
}
use log_service.QueryResult.{QueryResult}
use log_service.DataManager.{DataManager, store_log}
use log_service.DataManager.Queries.{
  get_recent_log, getkey_log, search_log, log_count_log, persistence_log,
}
use log_service.DataManager.Times.{search_time_log}

-- `Append_req`, which drops what `Append_log` returns.
pub append_req : DataManager → ReqData → Option (DataManager × List QueryResult)
append_req m r = elim (store_log m r) [ none ↦ none | some (m', ok) ↦ some (m', []) ]

-- The switch of `Process_req` over the type: the manager, and the blocks for the result queue.
pub dispatch : ReqType → DataManager → ReqData → ℕ → Option (DataManager × List QueryResult)
unfolding append_req
dispatch append m r used = append_req m r
dispatch recent m r used = get_recent_log m r used
dispatch getkey m r used = getkey_log m r used
dispatch search m r used = search_log m r used
dispatch search_time m r used = search_time_log m r used
dispatch persistence m r used = persistence_log m r used
dispatch log_count m r used = log_count_log m r used
dispatch invalid m r used = some (m, [])

-- `Process_req`
pub process_req : DataManager → ReqData → ℕ → Option (DataManager × List QueryResult)
unfolding dispatch
process_req m r used = if valid r then dispatch r.type m r used else some (m, [])

-- The loop of `main` over the requests that it reads, each with the time that it takes.
pub process_all : DataManager → List (ReqData × ℕ) → Option (DataManager × List QueryResult)
unfolding process_req
process_all m [] = some (m, [])
process_all m ((r, used) ∷ rs) = elim (process_req m r used) [
  | none ↦ none
  | some (m', blocks) ↦ elim (process_all m' rs) [
    | none ↦ none
    | some (m'', more) ↦ some (m'', blocks ++ more)
  ]
]
