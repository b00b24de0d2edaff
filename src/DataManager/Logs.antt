-- ===== src/DataManager/Logs.antt =====
-- The logs that a manager stores, each with its key: what storing one and listing some make of them.
use mathlib.Core.Path.{subst}
use log_service.Prelude.{
  ℕ, ◌+◌, ◌^◌, ◌<◌, ◌≤◌, ◌≡◌, refl, sym, ap, ◌∙◌, true, List, [], ◌∷◌, some, Bytes, arith, length,
  take, map,
}
use log_service.Config.{bulksize}
use log_service.ReqData.{ReqData, recent, valid}
use log_service.QueryResult.Blocks.{blocks_of}
use log_service.DataManager.{DataManager, init_data_manager, store_log, log_line}
use log_service.DataManager.Lines.{IsLine}
use log_service.DataManager.Stored.{
  Stores, newest_first, put_in, newest_first-put_in, length-newest_first, init-Stores,
}
use log_service.DataManager.Stores.{store_log-Puts}
use log_service.DataManager.Queries.{get_recent_log}
use log_service.DataManager.Recent.{get_recent_log-Answers}
use log_service.DataManager.Keys.Stored.{StoresKeys, AllSame-AllHoldKeys, init-StoresKeys}
use log_service.DataManager.Keys.Entries.{
  Entry, key_of, line_of, map-put_in, newest_first-map, total-map,
}

-- A manager that stores logs, with their keys in memory.
pub record StoresLogs (m : DataManager) (ess : List (List Entry)) : Type 0 where
  pub lines : Stores m (map (map line_of) ess)
  pub keys : StoresKeys m (map (map key_of) ess)

pub init-StoresLogs : StoresLogs init_data_manager ([] ∷ [])
init-StoresLogs = record { lines = init-Stores; keys = init-StoresKeys }

pub store_log-StoresLogs :
    (m : DataManager) (r : ReqData) (ess : List (List Entry))
    → StoresLogs m ess
    → valid r ≡ true
    → IsLine (log_line r)
    → length (log_line r) + 1 < bulksize
    → length (newest_first ess) + 1 < 2 ^ 31
    → 0 < m.free_units
    → (m' : DataManager) × (ess' : List (List Entry)) × (store_log m r ≡ some (m', true))
      × StoresLogs m' ess'
      × (newest_first ess' ≡ (r.key, log_line r) ∷ newest_first ess)
      × (m.free_units ≤ m'.free_units + 1)
store_log-StoresLogs m r ess s ok line small few room =
    let put =
      store_log-Puts m r (map (map line_of) ess) s.lines ok line small
        (omega (arith, few, total-map line_of ess, length-newest_first ess)) room in
    let e : Entry = (r.key, log_line r) in
    (
      put.manager,
      put_in put.fresh e ess,
      put.done,
      record {
        lines = subst (Stores put.manager) (sym (map-put_in line_of put.fresh e ess)) put.stores;
        keys =
            subst (StoresKeys put.manager) (sym (map-put_in key_of put.fresh e ess))
              (put.keys (map (map key_of) ess) s.keys);
      },
      newest_first-put_in put.fresh e ess,
      put.units,
    )

pub get_recent_log-StoresLogs :
    (m : DataManager) (r : ReqData) (ess : List (List Entry)) (used : ℕ)
    → StoresLogs m ess
    → valid r ≡ true
    → r.type ≡ recent
    → r.count < 2 ^ 31
    → (m' : DataManager) × (get_recent_log m r used
        ≡ some (m', blocks_of r.client_id (take r.count (map line_of (newest_first ess))) used))
      × StoresLogs m' ess
      × (m'.free_units ≡ m.free_units)
get_recent_log-StoresLogs m r ess used s ok e small =
    let a = get_recent_log-Answers m r (map (map line_of) ess) used s.lines ok e small in
    let m' = record m { handlers = a.handlers } in
    (
      m',
      a.returned
          ∙ ap (λ (ls : List Bytes). some (m', blocks_of r.client_id (take r.count ls) used))
              (newest_first-map line_of ess),
      record {
        lines = a.stores;
        keys = record {
          held =
              AllSame-AllHoldKeys m.handlers a.handlers (map (map key_of) ess) a.reads s.keys.held;
          listed = s.keys.listed;
        };
      },
      refl,
    )
