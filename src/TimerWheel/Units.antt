-- ===== src/TimerWheel/Units.antt =====
-- Adding a unit to the wheels, and the ticks, against the units that the wheels hold.
use mathlib.Core.Path.{subst}
use log_service.Prelude.{
  ℕ, ◌+◌, ◌-◌, ◌*◌, ◌≤◌, ◌≡◌, refl, sym, ◌∙◌, true, false, List, [], ◌∷◌, Option, none, arith, ◌==◌,
  Bool-cases, inl, inr,
}
use log_service.TimerWheel.{
  TimerUnit, TimerWheel, TimerWheelSet, slot_offset, time_left, stays, forwarded, advance, add_100,
  add_10, add_1, put_100, put_10, put_1, set_timer_unit, move_all, is_due, tick_100, tick_10, carry,
}
use log_service.TimerWheel.Wheel.{
  IsValid, one_if, count, count-append, count_all, count_at, insert_unit-Inserted, place-stays,
  place-goes, stays_last, advance-Advanced,
}

pub record AllValid (s : TimerWheelSet) : Type 0 where
  pub valid_1 : IsValid s.wheel_1
  pub valid_10 : IsValid s.wheel_10
  pub valid_100 : IsValid s.wheel_100

-- The units of a member in the three wheels.
abbrev pub total : ℕ → TimerWheelSet → ℕ
total m s =
    count_all m s.wheel_1.slot_list
    + (count_all m s.wheel_10.slot_list + count_all m s.wheel_100.slot_list)

-- One unit more, and none taken from the first wheel.
pub record Added (s s' : TimerWheelSet) (u : TimerUnit) : Type 0 where
  pub all_valid : AllValid s'
  pub same_index : s'.wheel_1.current_index ≡ s.wheel_1.current_index
  pub one_more : (m : ℕ) → total m s' ≡ total m s + one_if m u
  pub none_lost : (m k : ℕ) → count_at m k s.wheel_1 ≤ count_at m k s'.wheel_1

-- The unit as it is put in its slot.
abbrev placed : TimerWheel → TimerUnit → TimerUnit
placed w u = record u {
  past_time = u.past_time + (slot_offset (time_left u) w.interval - 1) * w.interval;
}

add_100-Added : (s : TimerWheelSet) (u : TimerUnit) → AllValid s → Added s (add_100 s u) u
unfolding add_100
add_100-Added s u v =
    let w = s.wheel_100 in
    let i =
      insert_unit-Inserted w (slot_offset (time_left u) w.interval) (placed w u) v.valid_100 in
    subst (λ (p : TimerWheel × Option TimerUnit). Added s (put_100 s p) u)
      (sym (place-stays false w u (stays_last w u)))
      (record {
        all_valid = record { valid_1 = v.valid_1; valid_10 = v.valid_10; valid_100 = i.valid };
        same_index = refl;
        one_more = λ m. omega (arith, i.one_more m);
        none_lost = λ m k. omega arith;
      })

pub add_10-Added : (s : TimerWheelSet) (u : TimerUnit) → AllValid s → Added s (add_10 s u) u
unfolding add_10 put_10
add_10-Added s u v =
    let w = s.wheel_10 in
    let i = insert_unit-Inserted w (slot_offset (time_left u) w.interval) (placed w u) v.valid_10 in
    elim (Bool-cases (stays true w u)) [
      | inl e ↦
          subst (λ (p : TimerWheel × Option TimerUnit). Added s (put_10 s p) u)
            (sym (place-stays true w u e))
            (record {
              all_valid = record {
                valid_1 = v.valid_1;
                valid_10 = i.valid;
                valid_100 = v.valid_100;
              };
              same_index = refl;
              one_more = λ m. omega (arith, i.one_more m);
              none_lost = λ m k. omega arith;
            })
      | inr e ↦
          let later = add_100-Added s (forwarded w u) v in
          subst (λ (p : TimerWheel × Option TimerUnit). Added s (put_10 s p) u)
            (sym (place-goes true w u e))
            (record {
              all_valid = later.all_valid;
              same_index = later.same_index;
              one_more = later.one_more;
              none_lost = later.none_lost;
            })
    ]

pub add_1-Added : (s : TimerWheelSet) (u : TimerUnit) → AllValid s → Added s (add_1 s u) u
unfolding add_1
add_1-Added s u v =
    let w = s.wheel_1 in
    let i = insert_unit-Inserted w (slot_offset (time_left u) w.interval) (placed w u) v.valid_1 in
    elim (Bool-cases (stays true w u)) [
      | inl e ↦
          subst (λ (p : TimerWheel × Option TimerUnit). Added s (put_1 s p) u)
            (sym (place-stays true w u e))
            (record {
              all_valid = record {
                valid_1 = i.valid;
                valid_10 = v.valid_10;
                valid_100 = v.valid_100;
              };
              same_index = i.same_index;
              one_more = λ m. omega (arith, i.one_more m);
              none_lost = i.none_lost;
            })
      | inr e ↦
          let later = add_10-Added s (forwarded w u) v in
          subst (λ (p : TimerWheel × Option TimerUnit). Added s (put_1 s p) u)
            (sym (place-goes true w u e))
            (record {
              all_valid = later.all_valid;
              same_index = later.same_index;
              one_more = later.one_more;
              none_lost = later.none_lost;
            })
    ]

-- From units taken out of a set of wheels to those that act: the others are in the wheels.
pub record Flow (s : TimerWheelSet) (us : List TimerUnit) (r : TimerWheelSet × List TimerUnit)
    : Type 0 where
  pub all_valid : AllValid r.0
  pub same_index : r.0.wheel_1.current_index ≡ s.wheel_1.current_index
  pub kept : (m : ℕ) → total m r.0 + count m r.1 ≡ total m s + count m us
  pub none_lost : (m k : ℕ) → count_at m k s.wheel_1 ≤ count_at m k r.0.wheel_1

move_all-Flow :
    (add : TimerWheelSet → TimerUnit → TimerWheelSet)
    (adds : (s : TimerWheelSet) (u : TimerUnit) → AllValid s → Added s (add s u) u) (interval : ℕ)
    (us : List TimerUnit) (s : TimerWheelSet)
    → AllValid s
    → Flow s us (move_all add interval us s)
unfolding move_all set_timer_unit
move_all-Flow add adds interval [] s v = record {
  all_valid = v;
  same_index = refl;
  kept = λ m. omega arith;
  none_lost = λ m k. omega arith;
}
move_all-Flow add adds interval (u ∷ us) s v = elim (Bool-cases (is_due interval u)) [
  | inl due ↦
      let f =
        move_all-Flow add adds interval us (set_timer_unit u.member none s)
          (record { valid_1 = v.valid_1; valid_10 = v.valid_10; valid_100 = v.valid_100 }) in
      rw due (record {
        all_valid = f.all_valid;
        same_index = f.same_index;
        kept = λ m. omega (arith, f.kept m);
        none_lost = f.none_lost;
      })
  | inr waits ↦
      let a = adds s u v in
      let f = move_all-Flow add adds interval us (add s u) a.all_valid in
      rw waits (record {
        all_valid = f.all_valid;
        same_index = f.same_index ∙ a.same_index;
        kept = λ m. omega (arith, f.kept m, a.one_more m);
        none_lost = λ m k. omega (arith, f.none_lost m k, a.none_lost m k);
      })
]

pub carry-Flow :
    (next : TimerWheelSet → TimerWheelSet × List TimerUnit)
    (ticks : (s : TimerWheelSet) → AllValid s → Flow s [] (next s)) (index : ℕ) (s : TimerWheelSet)
    (us : List TimerUnit) (done : TimerWheelSet × List TimerUnit)
    → Flow s us done
    → Flow s us (carry next index done)
carry-Flow next ticks index s us done f = elim (Bool-cases (index == 0)) [
  | inl e ↦
      let g = ticks done.0 f.all_valid in
      rw e (record {
        all_valid = g.all_valid;
        same_index = g.same_index ∙ f.same_index;
        kept = λ m. omega (arith, f.kept m, g.kept m, count-append m done.1 (next done.0).1);
        none_lost = λ m k. omega (arith, f.none_lost m k, g.none_lost m k);
      })
  | inr e ↦ rw e f
]

tick_100-Flow : (s : TimerWheelSet) → AllValid s → Flow s [] (tick_100 s)
unfolding tick_100
tick_100-Flow s v =
    let a = advance-Advanced s.wheel_100 v.valid_100 in
    let f =
      move_all-Flow add_10 add_10-Added (advance s.wheel_100).0.interval (advance s.wheel_100).1
        (record s { wheel_100 = (advance s.wheel_100).0 })
        (record { valid_1 = v.valid_1; valid_10 = v.valid_10; valid_100 = a.valid }) in
    record {
      all_valid = f.all_valid;
      same_index = f.same_index;
      kept = λ m. omega (arith, f.kept m, a.none_lost m);
      none_lost = f.none_lost;
    }

pub tick_10-Flow : (s : TimerWheelSet) → AllValid s → Flow s [] (tick_10 s)
unfolding tick_10
tick_10-Flow s v =
    let a = advance-Advanced s.wheel_10 v.valid_10 in
    let w = (advance s.wheel_10).0 in
    let us = (advance s.wheel_10).1 in
    let s' = record s { wheel_10 = w } in
    let f =
      carry-Flow tick_100 tick_100-Flow w.current_index s' us (move_all add_1 w.interval us s') (
        move_all-Flow add_1 add_1-Added w.interval us s'
          (record { valid_1 = v.valid_1; valid_10 = a.valid; valid_100 = v.valid_100 })) in
    record {
      all_valid = f.all_valid;
      same_index = f.same_index;
      kept = λ m. omega (arith, f.kept m, a.none_lost m);
      none_lost = f.none_lost;
    }
