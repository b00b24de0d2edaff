-- ===== src/TimerWheel/Tests.antt =====
-- Timers of half a second and of three seconds, and one of half a minute.
use log_service.Prelude.{◌+◌, ◌*◌, ◌/◌, ◌≡◌, refl, arith}
use log_service.TimerWheel.{TimerWheelSet, add_10, put_10, new_wheel, new_wheel_set, add_timer}
use log_service.TimerWheel.Wheel.{count}
use log_service.TimerWheel.Units.{AllValid, total}
use log_service.TimerWheel.Waits.{IsRunning}
use log_service.TimerWheel.Exact.{add_timer-on_time}
use log_service.TimerWheel.Run.{run, run-kept, add_timer-exact}

new_wheel_set-AllValid : AllValid new_wheel_set
unfolding new_wheel_set new_wheel
new_wheel_set-AllValid = record {
  valid_1 = record { slots = refl; index = omega arith };
  valid_10 = record { slots = refl; index = omega arith };
  valid_100 = record { slots = refl; index = omega arith };
}

abbrev two_timers : TimerWheelSet
two_timers = add_timer (add_timer new_wheel_set 1 500) 2 3000

two_timers-AllValid : AllValid two_timers
unfolding new_wheel_set new_wheel add_timer add_10 put_10
two_timers-AllValid = record {
  valid_1 = record { slots = refl; index = omega arith };
  valid_10 = record { slots = refl; index = omega arith };
  valid_100 = record { slots = refl; index = omega arith };
}

run-kept_example :
    total 2 (run 21 two_timers).0 + count 2 (run 21 two_timers).1 ≡ total 2 two_timers
run-kept_example = run-kept 21 2 two_timers two_timers-AllValid

add_timer-exact_example :
    (count 3 (run 4 (add_timer two_timers 3 600)).1 ≡ 0)
    × (count 3 (run (600 / 100) (add_timer two_timers 3 600)).1 ≡ 1)
unfolding new_wheel_set new_wheel add_timer add_10 put_10
add_timer-exact_example =
    add_timer-exact two_timers 3 600 4 two_timers-AllValid refl (omega arith) (omega arith)
      (omega arith) (omega arith)

two_timers-IsRunning : IsRunning two_timers
unfolding new_wheel_set new_wheel add_timer add_10 put_10
two_timers-IsRunning = record {
  all_valid = two_timers-AllValid;
  interval_1 = refl;
  interval_10 = refl;
}

-- The time after which a bulk is saved.
add_timer-on_time_example :
    (count 3 (run 299 (add_timer two_timers 3 (100 * 300))).1 ≡ 0)
    × (count 3 (run 300 (add_timer two_timers 3 (100 * 300))).1 ≡ 1)
unfolding new_wheel_set new_wheel add_timer add_10 put_10
add_timer-on_time_example =
    add_timer-on_time two_timers 3 300 299 two_timers-IsRunning refl (omega arith) (omega arith)
      (omega arith)
