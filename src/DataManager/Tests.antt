-- ===== src/DataManager/Tests.antt =====
-- One log, and requests for it.
use log_service.Prelude.{◌≡◌, ◌≤◌, ◌+◌, true, some, refl, List, [], ◌∷◌, Bytes, codes, arith, take}
use log_service.Config.{max_num_result}
use log_service.Decimal.{decimal, decimal_from}
use log_service.ReqData.{ReqData, new_req_data, append, recent, getkey, valid, valid_as}
use log_service.QueryResult.Blocks.{blocks_of}
use log_service.QueryResult.{append_lines, finish_results, new_results}
use log_service.DataManager.{
  DataManager, init_data_manager, store_log, log_line, handler_at, set_handler,
}
use log_service.Trie.{new_trie}
use log_service.Handler.{Handler}
use log_service.Handler.Calls.{persistence}
use log_service.Handler.Calls.Sample.{text, two_logs, two_logs-IsLoaded}
use log_service.DataManager.Sample.{two_lines, two_logs-Holds}
use log_service.DataManager.Saved.{persistence-Stores}
use log_service.DataManager.Lines.{IsLine}
use log_service.DataManager.Written.{log_line-IsLine}
use log_service.DataManager.Queries.{get_recent_log, getkey_log}
use log_service.DataManager.Stored.{Stores, AllHold, newest_first, total, init-Stores}
use log_service.DataManager.Stores.{store_log-Stores}
use log_service.DataManager.Recent.{get_recent_log-newest}
use log_service.DataManager.Logs.{StoresLogs, init-StoresLogs, store_log-StoresLogs}
use log_service.DataManager.ByKey.{noted, getkey_log-found}
use log_service.DataManager.Keys.Entries.{Entry, with_key}

abbrev one_log : ReqData
one_log = record new_req_data { type = append; key = codes "k"; time = 7; content = codes "one" }

abbrev last_two : ReqData
last_two = record new_req_data { type = recent; count = 2; client_id = 5 }

abbrev empty : List (List Bytes)
empty = [] ∷ []

one_log-IsLine : IsLine (log_line one_log)
unfolding new_req_data
one_log-IsLine = log_line-IsLine one_log (ground arith) (ground arith)

init_units : init_data_manager.free_units ≡ 62
unfolding init_data_manager
init_units = refl

-- The manager after that log.
stored_one :
    (m' : DataManager) × (bulks' : List (List Bytes)) × (store_log init_data_manager one_log
      ≡ some (m', true))
    × Stores m' bulks'
    × (newest_first bulks' ≡ log_line one_log ∷ newest_first empty)
    × (total bulks' ≡ total empty + 1)
    × (init_data_manager.free_units ≤ m'.free_units + 1)
unfolding total log_line decimal decimal_from new_req_data valid valid_as
stored_one =
    store_log-Stores init_data_manager one_log empty init-Stores refl one_log-IsLine (ground arith)
      (ground arith) (omega (arith, init_units))

abbrev one_stored : DataManager
one_stored = stored_one.0

abbrev its_bulks : List (List Bytes)
its_bulks = stored_one.1

store_log-Stores_example :
    (m' : DataManager) × (bulks' : List (List Bytes)) × (store_log one_stored one_log
      ≡ some (m', true))
    × Stores m' bulks'
    × (newest_first bulks' ≡ log_line one_log ∷ newest_first its_bulks)
    × (total bulks' ≡ total its_bulks + 1)
    × (one_stored.free_units ≤ m'.free_units + 1)
unfolding total log_line decimal decimal_from new_req_data valid valid_as
store_log-Stores_example =
    store_log-Stores one_stored one_log its_bulks stored_one.3 refl one_log-IsLine (ground arith)
      (omega (arith, stored_one.5)) (omega (arith, stored_one.6, init_units))

get_recent_log-newest_example :
    (m' : DataManager) × (get_recent_log one_stored last_two 3
      ≡ some (m', blocks_of last_two.client_id (take last_two.count (newest_first its_bulks)) 3))
    × Stores m' its_bulks
unfolding new_req_data valid valid_as
get_recent_log-newest_example =
    get_recent_log-newest one_stored last_two its_bulks 3 stored_one.3 refl refl (omega arith)

abbrev under_key : ReqData
under_key = record new_req_data { type = getkey; key = codes "k"; client_id = 5 }

abbrev no_logs : List (List Entry)
no_logs = [] ∷ []

-- The manager after that log, with its keys.
kept_one :
    (m' : DataManager) × (ess' : List (List Entry)) × (store_log init_data_manager one_log
      ≡ some (m', true))
    × StoresLogs m' ess'
    × (newest_first ess' ≡ (one_log.key, log_line one_log) ∷ newest_first no_logs)
    × (init_data_manager.free_units ≤ m'.free_units + 1)
unfolding newest_first log_line decimal decimal_from new_req_data valid valid_as
kept_one =
    store_log-StoresLogs init_data_manager one_log no_logs init-StoresLogs refl one_log-IsLine
      (ground arith) (ground arith) (omega (arith, init_units))

abbrev one_kept : DataManager
one_kept = kept_one.0

abbrev its_logs : List (List Entry)
its_logs = kept_one.1

getkey_log-found_example :
    let ls = with_key under_key.key (newest_first its_logs) in
    (m' : DataManager) × (getkey_log one_kept under_key 3
      ≡ some (
        m',
        finish_results
            (noted ls
              (append_lines (new_results under_key.client_id) (take (max_num_result + 1) ls)))
            3,
      ))
    × StoresLogs m' its_logs
    × (m'.free_units ≡ one_kept.free_units)
unfolding new_req_data valid valid_as
getkey_log-found_example = getkey_log-found one_kept under_key its_logs 3 kept_one.3 refl refl

abbrev two_stored : DataManager
two_stored = record {
  handlers = two_logs ∷ [];
  log_serial = 0;
  free_units = 62;
  global_trie = new_trie;
}

two_stored-Stores : Stores two_stored (two_lines ∷ [])
unfolding AllHold total
two_stored-Stores = record {
  some_bulk = omega arith;
  held = (two_logs-Holds, refl, tt);
  serial = refl;
}

persistence-Stores_example :
    (h' : Handler) × (persistence two_logs ≡ some (h', true))
    × Stores
        (record two_stored { handlers = set_handler two_stored.handlers 0 h' })
        (two_lines ∷ [])
unfolding handler_at
persistence-Stores_example =
    persistence-Stores two_stored 0 two_logs text (two_lines ∷ []) two_stored-Stores refl
      two_logs-IsLoaded
