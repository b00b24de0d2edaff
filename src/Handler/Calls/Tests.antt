-- ===== src/Handler/Calls/Tests.antt =====
-- A bulk of two logs: each theorem at an input.
use log_service.Handler.{append_log, in_queue}
use log_service.Handler.Closing.{TextIn, append_log-outcome}
use log_service.Prelude.{
  ◌+◌, ◌++◌, take, arith, ◌≤◌, ◌<◌, ◌⊎◌, length, ℕ, ◌≡◌, refl, true, false, none, some, Bytes,
  codes,
}
use log_service.Config.{release_time, autosave_time, bulksize}
use log_service.Handler.{Handler, appending, in_memory, get_data}
use log_service.Handler.Calls.{persistence, offset_by_serial}
use log_service.Handler.Calls.Saved.{persistence-answers}
use log_service.Handler.Calls.Sample.{text, two_logs, two_logs-IsLoaded}

persistence-answers_example :
    (h' : Handler) × (persistence two_logs ≡ some (h', true))
    × (persistence h' ≡ some (h', false))
    × ((get_data h').1 ≡ some text)
    × ((get_data h').0.state ≡ in_memory)
    × ((get_data h').0.bulk_timeout ≡ some release_time)
    × ((serial : ℕ) → (offset_by_serial h' serial).1 ≡ (offset_by_serial two_logs serial).1)
persistence-answers_example = persistence-answers two_logs text two_logs-IsLoaded

append_log-outcome_example :
    let (h', ret) = append_log two_logs (codes "z\n") in
    ((two_logs.bulk.offset + length (codes "z\n") + 1 < bulksize)
      × (ret ≡ some two_logs.bulk.offset)
      × (h'.state ≡ appending)
      × (h'.bulk.offset ≡ two_logs.bulk.offset + length (codes "z\n"))
      × TextIn h' (take two_logs.bulk.offset text ++ codes "z\n")
      × (h'.bulk_auto_persistence ≡ some autosave_time))
    ⊎ ((bulksize ≤ two_logs.bulk.offset + length (codes "z\n") + 1)
        × (ret ≡ none)
        × (h'.state ≡ in_queue)
        × (h'.bulk ≡ two_logs.bulk)
        × ((more : Bytes) → append_log h' more ≡ (h', none)))
append_log-outcome_example = append_log-outcome two_logs (codes "z\n") text refl refl (omega arith)
