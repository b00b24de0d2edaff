-- ===== src/PersistenceWorker.antt =====
-- src/log_processor/Persistence_worker.cpp: the thread that saves the bulks of a pool of buffers that
-- fills up, and drives the timers of the handlers.
pub mod Saves
mod Tests
use log_service.Prelude.{
  ℕ, zero, suc, ◌-◌, Bool, true, false, List, [], ◌∷◌, Option, none, some, leb, ◌==◌, length, map,
  if◌then◌else◌,
}
use log_service.Config.{persistence_threshold}
use log_service.Handler.{Handler}
use log_service.Handler.Calls.{persistence, release_space}
use log_service.TimerWheel.{TimerUnit, TimerWheelSet, tick}
use log_service.DataManager.{handler_at, set_handler}

-- `bulk_data_queue` holds for each of its units, the front one first, `bulk_handler_`: the number
-- of the handler, as in the list of handlers. A member of a timer is that of the handler it belongs to.
pub record Worker : Type 0 where
  pub handlers : List Handler
  pub bulk_data_queue : List (Option ℕ)
  pub bulk_data_timer_wheel : TimerWheelSet
  pub bulk_auto_persistence_timer_wheel : TimerWheelSet

-- `bulk_->data_->bulk_handler_ = nullptr`
pub give_up : ℕ → Option ℕ → Option ℕ
give_up id none = none
give_up id (some i) = if i == id then none else some i

abbrev pub put_saved : Worker → ℕ → Option (Handler × Bool) → Option Worker
put_saved w id none = none
put_saved w id (some (h, false)) = some w
put_saved w id (some (h, true)) = some (record w {
  handlers = set_handler w.handlers id h;
  bulk_data_queue = map (give_up id) w.bulk_data_queue;
})

-- `Persistence` of a handler, with its buffer given up; `none` where it does not return.
pub persist : Worker → ℕ → Option Worker
unfolding give_up
persist w id = elim (handler_at w.handlers id) [
  | none ↦ none
  | some h ↦ put_saved w id (persistence h)
]

abbrev pub rest_of : List (Option ℕ) → List (Option ℕ)
rest_of [] = []
rest_of (u ∷ us) = us

-- `Release_front_unit`
pub release_front : Worker → Worker
release_front w = record w { bulk_data_queue = rest_of w.bulk_data_queue }

-- The loop of `Check_bulk_data_queue_full` for the units in front; `none` reads a null pointer.
pub save_front : ℕ → Worker → Option Worker
unfolding persist release_front
save_front zero w = some w
save_front (suc n) w = elim w.bulk_data_queue [
  | [] ↦ none
  | none ∷ us ↦ save_front n (release_front w)
  | some id ∷ us ↦ elim (persist w id) [ none ↦ none | some w' ↦ save_front n (release_front w') ]
]

-- `Check_bulk_data_queue_full`
pub check_bulk_data_queue_full : Worker → Option Worker
unfolding save_front
check_bulk_data_queue_full w =
    if leb persistence_threshold (length w.bulk_data_queue)
    then save_front (persistence_threshold - 1) w
    else some w

-- `BulkTimeout::Act` of the timers that are over.
pub act_timeouts : List TimerUnit → Worker → Option Worker
act_timeouts [] w = some w
act_timeouts (u ∷ us) w = elim (handler_at w.handlers u.member) [
  | none ↦ none
  | some h ↦
      act_timeouts us (record w { handlers = set_handler w.handlers u.member (release_space h) })
]

-- `BulkAutoPersistence::Act`, which drops what `Persistence` returns.
pub act_auto_persistence : List TimerUnit → Worker → Option Worker
unfolding persist
act_auto_persistence [] w = some w
act_auto_persistence (u ∷ us) w = elim (persist w u.member) [
  | none ↦ none
  | some w' ↦ act_auto_persistence us w'
]

-- The two ticks of a round. `Act` uses no timer.
pub tick_timeouts : Worker → Option Worker
unfolding act_timeouts
tick_timeouts w =
    let (wheel, acted) = tick w.bulk_data_timer_wheel in
    act_timeouts acted (record w { bulk_data_timer_wheel = wheel })

pub tick_auto_persistence : Worker → Option Worker
unfolding act_auto_persistence
tick_auto_persistence w =
    let (wheel, acted) = tick w.bulk_auto_persistence_timer_wheel in
    act_auto_persistence acted (record w { bulk_auto_persistence_timer_wheel = wheel })

-- One round of `Main_loop`, behind its sleep.
pub main_round : Worker → Option Worker
unfolding check_bulk_data_queue_full tick_timeouts tick_auto_persistence
main_round w = elim (check_bulk_data_queue_full w) [
  | none ↦ none
  | some w1 ↦ elim (tick_timeouts w1) [ none ↦ none | some w2 ↦ tick_auto_persistence w2 ]
]
