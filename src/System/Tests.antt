-- ===== src/System/Tests.antt =====
-- One log on its way to a new log processor.
use log_service.Prelude.{◌≡◌, refl, false, List, [], ◌∷◌, ◌++◌, codes, arith}
use log_service.Decimal.{decimal}
use log_service.Client.{cody_log_string}
use log_service.Client.Sample.{
  client, text, client_key, client_time, sample_key-IsKey, message_fits,
}
use log_service.LogServer.{Connections, write_msgs}
use log_service.DataManager.{init_data_manager}
use log_service.DataManager.Stored.{newest_first}
use log_service.DataManager.Logs.{init-StoresLogs}
use log_service.DataManager.Keys.Entries.{Entry}
use log_service.Processor.{process_req}
use log_service.Processor.Service.{Keeps}
use log_service.System.{log_request, log-stored}

abbrev nobody : Connections
nobody = record { client_id_fd_map = []; fd_client_id_map = []; fd_result_map = [] }

abbrev empty : List (List Entry)
empty = [] ∷ []

log-stored_example :
    (write_msgs 5 ((cody_log_string client text).1 ∷ []) nobody
      ≡ (log_request (codes "user7") 100 text ∷ [], nobody, false))
    × Keeps (process_req init_data_manager (log_request (codes "user7") 100 text) 3) (
      (
        codes "user7",
        codes "[key: "
            ++ (codes "user7"
                ++ (codes ", time: " ++ (decimal 100 ++ (codes "] " ++ (text ++ (10 ∷ [])))))),
      )
          ∷ newest_first empty,
      [],
    )
unfolding newest_first init_data_manager
log-stored_example =
    log-stored client (codes "user7") text 100 5 3 nobody init_data_manager empty client_key
      client_time sample_key-IsKey refl (ground arith) (omega arith) (omega arith) (ground arith)
      (ground arith) message_fits init-StoresLogs (omega arith) (omega arith)
