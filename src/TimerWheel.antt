-- ===== src/TimerWheel.antt =====
-- include/TimerWheel.h: the three wheels of a `TimerWheelSet`. A slot is the list of its units, its
-- first unit at the head; times are not negative.
pub mod Wheel
pub mod Units
pub mod Run
pub mod Kept
pub mod Moved
pub mod Waits
pub mod Exact
mod Tests
use log_service.Prelude.{
  ℕ, ◌+◌, ◌-◌, ◌*◌, ◌/◌, ◌%◌, Bool, true, false, not, ◌||◌, List, [], ◌∷◌, ◌++◌, Option, none, some,
  ltb, leb, ◌==◌, length, get_or, set, map, replicate, if◌then◌else◌,
}
use log_service.Config.{persistence_sleep_time}

-- `id` is the address of the unit.
pub record TimerUnit : Type 0 where
  pub id : ℕ
  pub member : ℕ
  pub time : ℕ
  pub past_time : ℕ

-- `N` of the wheels.
abbrev pub num_slots : ℕ
num_slots = 20

pub record TimerWheel : Type 0 where
  pub slot_list : List (List TimerUnit)
  pub current_index : ℕ
  pub interval : ℕ

pub new_wheel : ℕ → TimerWheel
new_wheel interval = record {
  slot_list = replicate num_slots [];
  current_index = 0;
  interval = interval;
}

-- What is left of a timer's time.
abbrev pub time_left : TimerUnit → ℕ
time_left u = u.time - u.past_time

abbrev pub slot_offset : ℕ → ℕ → ℕ
slot_offset left interval =
    let offset = left / interval in
    if leb num_slots offset then num_slots - 1 else if ltb offset 1 then 1 else offset

-- The unit at the front of the slot that its offset leads to.
pub insert_unit : TimerWheel → ℕ → TimerUnit → TimerWheel
insert_unit w offset u =
    let index = (w.current_index + offset) % num_slots in
    record w { slot_list = set w.slot_list index (u ∷ get_or w.slot_list index []) }

-- `time - past_time_ < N*interval_ || next_timer_wheel_ == NULL`
abbrev pub stays : Bool → TimerWheel → TimerUnit → Bool
stays has_next w u = ltb (time_left u) (num_slots * w.interval) || not has_next

-- What goes to the next wheel.
abbrev pub forwarded : TimerWheel → TimerUnit → TimerUnit
forwarded w u = record u { past_time = u.past_time + (num_slots - w.current_index) * w.interval }

-- `AddTimer(TimerUnit<T>*)`: the wheel, and the unit that goes to the next one.
pub place : Bool → TimerWheel → TimerUnit → TimerWheel × Option TimerUnit
unfolding insert_unit
place has_next w u =
    let offset = slot_offset (time_left u) w.interval in
    let later = record u { past_time = u.past_time + (offset - 1) * w.interval } in
    if stays has_next w u then (insert_unit w offset later, none) else (w, some (forwarded w u))

-- The same in `AddTimer(T*, int)`, which leaves `past_time_`.
pub place_new : Bool → TimerWheel → TimerUnit → TimerWheel × Option TimerUnit
unfolding insert_unit
place_new has_next w u =
    if stays has_next w u
    then (insert_unit w (slot_offset (time_left u) w.interval) u, none)
    else (w, some (forwarded w u))

-- The step of `Tick` to the next slot, with all its units popped. A unit that the loop gives back
-- goes to another slot.
pub advance : TimerWheel → TimerWheel × List TimerUnit
advance w =
    let index = (w.current_index + 1) % num_slots in
    (
      record w { current_index = index; slot_list = set w.slot_list index [] },
      get_or w.slot_list index [],
    )

-- `Delete` in the slot that holds the unit.
abbrev pub without : ℕ → List TimerUnit → List TimerUnit
without id [] = []
without id (u ∷ us) = if u.id == id then us else u ∷ without id us

pub remove_unit : ℕ → TimerWheel → TimerWheel
remove_unit id w = record w { slot_list = map (without id) w.slot_list }

abbrev pub in_slot : ℕ → List TimerUnit → Bool
in_slot id [] = false
in_slot id (u ∷ us) = (u.id == id) || in_slot id us

-- Whether a slot is the location of the unit.
abbrev pub in_slots : ℕ → List (List TimerUnit) → Bool
in_slots id [] = false
in_slots id (s ∷ ss) = in_slot id s || in_slots id ss

-- `timer_unit` is `timer_unit_p` of each member, `next_id` an address that is free.
pub record TimerWheelSet : Type 0 where
  pub wheel_1 : TimerWheel
  pub wheel_10 : TimerWheel
  pub wheel_100 : TimerWheel
  pub timer_unit : ℕ → Option ℕ
  pub next_id : ℕ

pub new_wheel_set : TimerWheelSet
unfolding new_wheel
new_wheel_set = record {
  wheel_1 = new_wheel persistence_sleep_time;
  wheel_10 = new_wheel (persistence_sleep_time * 20);
  wheel_100 = new_wheel (persistence_sleep_time * 20 * 20);
  timer_unit = λ m. none;
  next_id = 0;
}

-- `Set_timer_unit`
pub set_timer_unit : ℕ → Option ℕ → TimerWheelSet → TimerWheelSet
set_timer_unit member p s = record s { timer_unit = λ m. if m == member then p else s.timer_unit m }

abbrev pub put_100 : TimerWheelSet → TimerWheel × Option TimerUnit → TimerWheelSet
put_100 s (w, rest) = record s { wheel_100 = w }

-- `AddTimer` of a unit, from each wheel on; the last one has no next wheel.
pub add_100 : TimerWheelSet → TimerUnit → TimerWheelSet
unfolding place
add_100 s u = put_100 s (place false s.wheel_100 u)

abbrev pub put_10 : TimerWheelSet → TimerWheel × Option TimerUnit → TimerWheelSet
unfolding add_100
put_10 s (w, none) = record s { wheel_10 = w }
put_10 s (w, some u) = add_100 (record s { wheel_10 = w }) u

pub add_10 : TimerWheelSet → TimerUnit → TimerWheelSet
unfolding place
add_10 s u = put_10 s (place true s.wheel_10 u)

abbrev pub put_1 : TimerWheelSet → TimerWheel × Option TimerUnit → TimerWheelSet
put_1 s (w, none) = record s { wheel_1 = w }
put_1 s (w, some u) = add_10 (record s { wheel_1 = w }) u

pub add_1 : TimerWheelSet → TimerUnit → TimerWheelSet
unfolding place add_10
add_1 s u = put_1 s (place true s.wheel_1 u)

-- `TimerWheelSet::AddTimer`
pub add_timer : TimerWheelSet → ℕ → ℕ → TimerWheelSet
unfolding place_new set_timer_unit
add_timer s member time =
    let u : TimerUnit = record { id = s.next_id; member = member; time = time; past_time = 0 } in
    let s' = set_timer_unit member (some s.next_id) (record s { next_id = s.next_id + 1 }) in
    if time == 0 then s else put_1 s' (place_new true s'.wheel_1 u)

-- `TimerWheelSet::DelTimer`
pub del_timer : TimerWheelSet → ℕ → TimerWheelSet
unfolding remove_unit set_timer_unit
del_timer s member = elim (s.timer_unit member) [
  | none ↦ s
  | some id ↦
      let held =
        in_slots id s.wheel_1.slot_list
        || in_slots id s.wheel_10.slot_list
        || in_slots id s.wheel_100.slot_list in
      if held
      then set_timer_unit member none (record s {
        wheel_1 = remove_unit id s.wheel_1;
        wheel_10 = remove_unit id s.wheel_10;
        wheel_100 = remove_unit id s.wheel_100;
      })
      else s
]

-- `Act` of a unit, whose member then has no unit; the calls are listed in their order.
pub act_all : List TimerUnit → TimerWheelSet → TimerWheelSet
unfolding set_timer_unit
act_all [] s = s
act_all (u ∷ us) s = act_all us (set_timer_unit u.member none s)

abbrev pub is_due : ℕ → TimerUnit → Bool
is_due interval u = (time_left u == 0) || ((time_left u % (num_slots * interval)) == 0)

-- The loop of `Tick` in an upper wheel: each unit acts, or goes to the wheel below by `add`.
pub move_all :
    (TimerWheelSet → TimerUnit → TimerWheelSet)
    → ℕ
    → List TimerUnit
    → TimerWheelSet
    → TimerWheelSet × List TimerUnit
unfolding set_timer_unit
move_all add interval [] s = (s, [])
move_all add interval (u ∷ us) s =
    let acted = move_all add interval us (set_timer_unit u.member none s) in
    let moved = move_all add interval us (add s u) in
    if is_due interval u then (acted.0, u ∷ acted.1) else moved

-- `Tick` of each wheel: the set, and the units that act.
pub tick_100 : TimerWheelSet → TimerWheelSet × List TimerUnit
unfolding advance add_10 move_all
tick_100 s =
    let (w, units) = advance s.wheel_100 in
    move_all add_10 w.interval units (record s { wheel_100 = w })

-- The carry to the next wheel.
abbrev pub carry :
    (TimerWheelSet → TimerWheelSet × List TimerUnit)
    → ℕ
    → TimerWheelSet × List TimerUnit
    → TimerWheelSet × List TimerUnit
carry next index done =
    let after = next done.0 in if index == 0 then (after.0, done.1 ++ after.1) else done

pub tick_10 : TimerWheelSet → TimerWheelSet × List TimerUnit
unfolding advance add_1 move_all tick_100
tick_10 s =
    let (w, units) = advance s.wheel_10 in
    carry tick_100 w.current_index (move_all add_1 w.interval units (record s { wheel_10 = w }))

pub tick : TimerWheelSet → TimerWheelSet × List TimerUnit
unfolding advance act_all tick_10
tick s =
    let (w, units) = advance s.wheel_1 in
    carry tick_10 w.current_index (act_all units (record s { wheel_1 = w }), units)
