-- ===== src/DataManager/ByKey.antt =====
-- `Getkey_log` of src/log_processor/data_manager.cpp against the sequence of the logs stored.
use log_service.Prelude.{
  ℕ, ◌+◌, ◌-◌, ◌≡◌, refl, ap, ◌∙◌, true, List, [], Bytes, codes, arith, length, ◌==◌, if◌then◌else◌,
  take, map, Option, none, some,
}
use log_service.Config.{max_num_result}
use log_service.ReqData.{ReqData, getkey, valid}
use log_service.Trie.{search}
use log_service.Trie.Map.{found}
use log_service.QueryResult.{ResultHandler, new_results, append_lines, finish_results}
use log_service.DataManager.{DataManager}
use log_service.DataManager.Notes.{append_note}
use log_service.DataManager.Stored.{newest_first}
use log_service.DataManager.Logs.{StoresLogs}
use log_service.DataManager.Queries.{getkey_log, ids_of, answer_down, note_if_zero}
use log_service.DataManager.Keys.{ids_with}
use log_service.DataManager.Keys.Entries.{Entry, key_of, with_key}
use log_service.DataManager.Keys.Loop.{send_ids-Holds}

ids_of-found : (o : Option (List ℕ)) → ids_of o ≡ found o
unfolding found
ids_of-found none = refl
ids_of-found (some l) = refl

-- The note that no log was found stands behind the logs where there are exactly as many as the
-- loop counts down from.
abbrev pub noted : List Bytes → ResultHandler → ResultHandler
noted ls rs = if length ls == max_num_result then append_note rs (codes "No result found\n") else rs

note_if_zero-noted :
    (ls : List Bytes) (rs : ResultHandler)
    → note_if_zero (max_num_result + 1 - length ls) rs ≡ noted ls rs
note_if_zero-noted ls rs = ground arith

-- A valid request for a key is answered with the logs stored under that key, newest first, over all
-- bulks, up to one more than the limit; with as many as the limit, the note that none was found
-- follows. The manager stores what it stored, with as many units of the pool. The key tries of the bulks
-- are in memory, as before their first save.
pub getkey_log-found :
    (m : DataManager) (r : ReqData) (ess : List (List Entry)) (used : ℕ)
    → StoresLogs m ess
    → valid r ≡ true
    → r.type ≡ getkey
    → let ls = with_key r.key (newest_first ess) in
      (m' : DataManager) × (getkey_log m r used
        ≡ some (
          m',
          finish_results
              (noted ls (append_lines (new_results r.client_id) (take (max_num_result + 1) ls)))
              used,
        ))
      × StoresLogs m' ess
      × (m'.free_units ≡ m.free_units)
unfolding getkey_log
getkey_log-found m r ess used s ok e =
    let ls = with_key r.key (newest_first ess) in
    let rs = append_lines (new_results r.client_id) (take (max_num_result + 1) ls) in
    let (hs, sent, lines, keys, size) =
      send_ids-Holds r.key (max_num_result + 1) [] m.handlers ess (new_results r.client_id)
        s.lines.held s.keys.held in
    let ids : ids_of (search m.global_trie r.key) ≡ ids_with r.key (map (map key_of) ess) =
      ids_of-found (search m.global_trie r.key) ∙ s.keys.listed.lists r.key in
    (
      record m { handlers = hs },
      rw (getkey_log, ok)
          (rw (e, ids)
            (ap (answer_down m used) sent
              ∙ ap (λ (k : ResultHandler). some (record m { handlers = hs }, finish_results k used))
                  (note_if_zero-noted ls rs))),
      record {
        lines = record {
          some_bulk = omega (arith, s.lines.some_bulk, size);
          held = lines;
          serial = s.lines.serial;
        };
        keys = record { held = keys; listed = s.keys.listed };
      },
      refl,
    )
