-- ===== src/PersistenceWorker/Tests.antt =====
-- A pool of 48 buffers, two of which belong to new bulks.
use log_service.Prelude.{
  ℕ, zero, suc, ◌+◌, ◌-◌, ◌≡◌, ◌≢◌, Bytes, refl, List, [], ◌∷◌, Option, none, some, length, take,
  replicate, arith,
}
use log_service.Config.{persistence_threshold}
use log_service.Trie.{new_trie}
use log_service.Trie.Map.{new_trie-IsValid, new_trie-valid}
use log_service.Bulk.{new_bulk}
use log_service.Handler.{Handler, new_handler}
use log_service.Handler.Calls.Saved.{IsLoaded}
use log_service.TimerWheel.{new_wheel_set}
use log_service.Handler.Calls.Sample.{two_logs, text, two_logs-IsLoaded}
use log_service.DataManager.{DataManager, handler_at}
use log_service.DataManager.Stored.{Stores, AllHold, total}
use log_service.DataManager.Grown.{IsNew-Holds}
use log_service.LogFile.Names.{file_path, log_content_file}
use log_service.DataManager.Files.{file_path-apart}
use log_service.DataManager.Sample.{two_lines, two_logs-Holds}
use log_service.Handler.Calls.Grows.{new_handler-IsNew}
use log_service.PersistenceWorker.{Worker, check_bulk_data_queue_full}
use log_service.PersistenceWorker.Saves.{
  AllSaved, AllLoaded, check_bulk_data_queue_full-saves, check_bulk_data_queue_full-Stores,
}

abbrev empty_handler : ℕ → Handler
empty_handler serial = new_handler (new_bulk serial)

empty_handler-IsLoaded : (serial : ℕ) → IsLoaded (empty_handler serial) []
unfolding new_handler new_bulk
empty_handler-IsLoaded serial = record {
  goes_on = refl;
  has_text = refl;
  offsets_in = refl;
  times_in = refl;
  keys_in = refl;
  words_in = refl;
  keys_IsValid = new_trie-IsValid ℕ;
  keys_valid = new_trie-valid ℕ;
  words_IsValid = new_trie-IsValid ℕ;
  words_valid = new_trie-valid ℕ;
}

abbrev two_handlers : List Handler
two_handlers = empty_handler 5 ∷ empty_handler 0 ∷ []

abbrev full_pool : List (Option ℕ)
full_pool = some 0 ∷ some 1 ∷ replicate 46 none

abbrev worker : Worker
worker = record {
  handlers = two_handlers;
  bulk_data_queue = full_pool;
  bulk_data_timer_wheel = new_wheel_set;
  bulk_auto_persistence_timer_wheel = new_wheel_set;
}

-- The bulk of number 0, and the ones from number 1 on.
abbrev first_then {ℓ} : {A : Type ℓ} → A → A → ℕ → A
first_then a b zero = a
first_then a b (suc n) = b

abbrev no_text : ℕ → Bytes
no_text id = []

all_loaded :
    AllLoaded (first_then (empty_handler 0) (empty_handler 5)) no_text full_pool two_handlers
unfolding handler_at
all_loaded = (
  record { found = refl; loaded = empty_handler-IsLoaded 0 },
  (record { found = refl; loaded = empty_handler-IsLoaded 5 }, tt),
)

check_bulk_data_queue_full-saves_example :
    (w' : Worker) × (check_bulk_data_queue_full worker ≡ some w')
    × AllSaved
        (first_then (empty_handler 0) (empty_handler 5))
        no_text
        (take (persistence_threshold - 1) full_pool)
        w'.handlers
    × AllLoaded
        (first_then (empty_handler 0) (empty_handler 5))
        no_text
        w'.bulk_data_queue
        w'.handlers
    × (length w'.bulk_data_queue + (persistence_threshold - 1) ≡ length full_pool)
check_bulk_data_queue_full-saves_example =
    check_bulk_data_queue_full-saves (first_then (empty_handler 0) (empty_handler 5)) no_text worker
      (omega arith) all_loaded

-- The same pool, of a bulk of two logs and a new one after it.
abbrev two_bulks : DataManager
two_bulks = record {
  handlers = empty_handler 2 ∷ two_logs ∷ [];
  log_serial = 2;
  free_units = 61;
  global_trie = new_trie;
}

abbrev its_worker : Worker
its_worker = record worker { handlers = two_bulks.handlers }

two_bulks-Stores : Stores two_bulks ([] ∷ two_lines ∷ [])
unfolding AllHold total new_handler new_bulk
two_bulks-Stores =
    let new = new_handler-IsNew 2 in
    record {
      some_bulk = omega arith;
      held = (IsNew-Holds (empty_handler 2) 2 new, refl, (two_logs-Holds, refl, tt));
      serial = refl;
    }

two_bulks-AllLoaded :
    AllLoaded
      (first_then two_logs (empty_handler 2))
      (first_then text [])
      full_pool
      two_bulks.handlers
unfolding handler_at
two_bulks-AllLoaded = (
  record { found = refl; loaded = two_logs-IsLoaded },
  (record { found = refl; loaded = empty_handler-IsLoaded 2 }, tt),
)

check_bulk_data_queue_full-Stores_example :
    (w' : Worker) × (check_bulk_data_queue_full its_worker ≡ some w')
    × AllSaved
        (first_then two_logs (empty_handler 2))
        (first_then text [])
        (take (persistence_threshold - 1) full_pool)
        w'.handlers
    × Stores (record two_bulks { handlers = w'.handlers }) ([] ∷ two_lines ∷ [])
check_bulk_data_queue_full-Stores_example =
    check_bulk_data_queue_full-Stores (first_then two_logs (empty_handler 2)) (first_then text [])
      its_worker two_bulks ([] ∷ two_lines ∷ []) (omega arith) two_bulks-AllLoaded refl
      two_bulks-Stores

file_path-apart_example : file_path log_content_file 2 ≢ file_path log_content_file 0
unfolding new_handler new_bulk handler_at total
file_path-apart_example =
    file_path-apart two_bulks ([] ∷ two_lines ∷ []) 1 0 (empty_handler 2) two_logs log_content_file
      log_content_file two_bulks-Stores (omega arith, tt) (omega arith) refl refl (λ e. cc)
