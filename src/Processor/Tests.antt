-- ===== src/Processor/Tests.antt =====
-- Two logs, and requests for the last one and for those of a key.
use log_service.Prelude.{ℕ, List, [], ◌∷◌, Bytes, codes, arith}
use log_service.ReqData.{ReqData, new_req_data, append, recent, getkey}
use log_service.Decimal.{decimal, decimal_from}
use log_service.DataManager.{init_data_manager, log_line}
use log_service.DataManager.Stored.{newest_first}
use log_service.DataManager.Logs.{init-StoresLogs}
use log_service.Processor.{process_all}
use log_service.Processor.Service.{Keeps, serve_all, process_all-Keeps}

abbrev log_of : Bytes → ReqData
log_of text = record new_req_data { type = append; key = codes "k"; time = 7; content = text }

abbrev last_one : ReqData
last_one = record new_req_data { type = recent; count = 1; client_id = 5 }

abbrev under_key : ReqData
under_key = record new_req_data { type = getkey; key = codes "k"; client_id = 5 }

abbrev requests : List (ReqData × ℕ)
requests =
    (log_of (codes "one"), 3) ∷ (log_of (codes "two"), 3) ∷ (last_one, 3) ∷ (under_key, 3) ∷ []

process_all-Keeps_example :
    Keeps (process_all init_data_manager requests) (serve_all (newest_first ([] ∷ [])) requests)
unfolding newest_first log_line decimal decimal_from new_req_data init_data_manager
process_all-Keeps_example =
    process_all-Keeps requests init_data_manager ([] ∷ []) init-StoresLogs (ground arith)
      (ground arith) (omega arith)
