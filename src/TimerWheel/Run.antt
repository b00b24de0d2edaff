-- ===== src/TimerWheel/Run.antt =====
-- Several ticks of the wheels against the timers that wait in them.
use mathlib.Core.Path.{subst}
use native.Mathlib.Nat.{div-lt_iff_lt-mul, le-div_iff_mul-le}
use log_service.Prelude.{
  some, ℕ, zero, suc, ◌+◌, ◌-◌, ◌*◌, ◌/◌, ◌%◌, ◌<◌, ◌≤◌, ◌≡◌, ◌≢◌, refl, ap, ◌∙◌, true, false, none,
  List, [], ◌∷◌, ◌++◌, arith, ◌==◌, Bool-cases, inl, inr,
}
use log_service.TimerWheel.{
  num_slots, TimerUnit, TimerWheelSet, slot_offset, time_left, insert_unit, stays, place_new,
  advance, act_all, add_timer, set_timer_unit, tick_10, tick, carry, put_1,
}
use log_service.TimerWheel.Wheel.{
  count_all-ge, one_if, count, count-append, count_at, insert_unit-Inserted, insert_unit-count_at,
  advance-Advanced,
}
use log_service.TimerWheel.Units.{AllValid, total, Flow, carry-Flow, tick_10-Flow}

-- What a tick does to the units that wait and to those of the slot it comes to.
pub record Ticked (s : TimerWheelSet) (r : TimerWheelSet × List TimerUnit) : Type 0 where
  pub all_valid : AllValid r.0
  pub next : r.0.wheel_1.current_index ≡ (s.wheel_1.current_index + 1) % num_slots
  pub kept : (m : ℕ) → total m r.0 + count m r.1 ≡ total m s
  pub waits :
      (m k : ℕ)
      → k ≢ (s.wheel_1.current_index + 1) % num_slots
      → count_at m k s.wheel_1 ≤ count_at m k r.0.wheel_1
  pub acts :
      (m : ℕ) → count_at m ((s.wheel_1.current_index + 1) % num_slots) s.wheel_1 ≤ count m r.1

-- Those of the slot act, whether the next wheel ticks or not.
carry-acts :
    (m index : ℕ) (s : TimerWheelSet) (us : List TimerUnit)
    → count m us ≤ count m (carry tick_10 index (s, us)).1
carry-acts m index s us = elim (Bool-cases (index == 0)) [
  | inl e ↦ rw e (omega (arith, count-append m us (tick_10 s).1))
  | inr e ↦ rw e (omega arith)
]

pub act_all-Flow :
    (us : List TimerUnit) (s : TimerWheelSet) → AllValid s → Flow s us (act_all us s, us)
unfolding act_all set_timer_unit
act_all-Flow [] s v = record {
  all_valid = v;
  same_index = refl;
  kept = λ m. refl;
  none_lost = λ m k. omega arith;
}
act_all-Flow (u ∷ us) s v =
    let f =
      act_all-Flow us (set_timer_unit u.member none s)
        (record { valid_1 = v.valid_1; valid_10 = v.valid_10; valid_100 = v.valid_100 }) in
    record {
      all_valid = f.all_valid;
      same_index = f.same_index;
      kept = λ m. omega (arith, f.kept m);
      none_lost = f.none_lost;
    }

pub tick-Ticked : (s : TimerWheelSet) → AllValid s → Ticked s (tick s)
unfolding tick
tick-Ticked s v =
    let a = advance-Advanced s.wheel_1 v.valid_1 in
    let w = (advance s.wheel_1).0 in
    let us = (advance s.wheel_1).1 in
    let s' = record s { wheel_1 = w } in
    let f =
      carry-Flow tick_10 tick_10-Flow w.current_index s' us (act_all us s', us)
        (act_all-Flow us s'
          (record { valid_1 = a.valid; valid_10 = v.valid_10; valid_100 = v.valid_100 })) in
    record {
      all_valid = f.all_valid;
      next = f.same_index ∙ a.next;
      kept = λ m. omega (arith, f.kept m, a.none_lost m);
      waits = λ m k ne. omega (arith, f.none_lost m k, a.others m k (λ e. ne (e ∙ a.next)));
      acts = λ m.
          let here = ap (count m) a.taken ∙ ap (λ (i : ℕ). count_at m i s.wheel_1) a.next in
          omega (arith, here, carry-acts m w.current_index (act_all us s') us);
    }

-- So many ticks: the wheels, and the units that have acted.
unfoldable pub run : ℕ → TimerWheelSet → TimerWheelSet × List TimerUnit
run zero s = (s, [])
run (suc n) s = let after = run n (tick s).0 in (after.0, (tick s).1 ++ after.1)

-- However many ticks there are, every timer of a member waits in a wheel or has acted, once.
pub run-kept :
    (n m : ℕ) (s : TimerWheelSet)
    → AllValid s
    → total m (run n s).0 + count m (run n s).1 ≡ total m s
unfolding run
run-kept zero m s v = omega arith
run-kept (suc n) m s v =
    let t = tick-Ticked s v in
    omega (
      arith,
      run-kept n m (tick s).0 t.all_valid,
      t.kept m,
      count-append m (tick s).1 (run n (tick s).0).1,
    )

-- A unit of the first wheel waits while its slot is ahead.
run-waits :
    (n d m k : ℕ) (s : TimerWheelSet)
    → AllValid s
    → n < d
    → d < num_slots
    → k ≡ (s.wheel_1.current_index + d) % num_slots
    → count_at m k s.wheel_1 ≤ count_at m k (run n s).0.wheel_1
unfolding run
run-waits zero d m k s v h g e = omega arith
run-waits (suc n) d m k s v h g e =
    let t = tick-Ticked s v in
    let behind : k ≢ (s.wheel_1.current_index + 1) % num_slots = omega (arith, e, h, g) in
    omega (
      arith,
      t.waits m k behind,
      run-waits n (d - 1) m k (tick s).0 t.all_valid (omega arith) (omega arith)
          (omega (arith, t.next, e)),
    )

-- It acts when the ticks come to its slot.
run-acts :
    (d m k : ℕ) (s : TimerWheelSet)
    → AllValid s
    → suc d < num_slots
    → k ≡ (s.wheel_1.current_index + suc d) % num_slots
    → count_at m k s.wheel_1 ≤ count m (run (suc d) s).1
unfolding run
run-acts zero m k s v g e =
    let t = tick-Ticked s v in
    let here = ap (λ (i : ℕ). count_at m i s.wheel_1) e in
    omega (arith, here, t.acts m, count-append m (tick s).1 [])
run-acts (suc d) m k s v g e =
    let t = tick-Ticked s v in
    let behind : k ≢ (s.wheel_1.current_index + 1) % num_slots = omega (arith, e, g) in
    let rest = run-acts d m k (tick s).0 t.all_valid (omega arith) (omega (arith, t.next, e)) in
    omega (arith, t.waits m k behind, rest, count-append m (tick s).1 (run (suc d) (tick s).0).1)

-- A timer that was added for the first wheel, at the slot of its offset.
pub record Started (s s' : TimerWheelSet) (member offset : ℕ) : Type 0 where
  pub all_valid : AllValid s'
  pub same_index : s'.wheel_1.current_index ≡ s.wheel_1.current_index
  pub one_more : total member s' ≡ total member s + 1
  pub in_slot : 0 < count_at member ((s.wheel_1.current_index + offset) % num_slots) s'.wheel_1

pub add_timer-Started :
    (s : TimerWheelSet) (member time : ℕ)
    → AllValid s
    → 0 < time
    → time < num_slots * s.wheel_1.interval
    → Started s (add_timer s member time) member (slot_offset time s.wheel_1.interval)
unfolding add_timer place_new set_timer_unit
add_timer-Started s member time v pos h =
    let u : TimerUnit = record { id = s.next_id; member = member; time = time; past_time = 0 } in
    let w = s.wheel_1 in
    let offset = slot_offset (time_left u) w.interval in
    let i = insert_unit-Inserted w offset u v.valid_1 in
    let mine : one_if member u ≡ 1 = ground arith in
    let whole : time - 0 ≡ time = omega arith in
    let some_time : (time == 0) ≡ false = ground arith in
    let here : stays true w u ≡ true = ground arith in
    rw some_time (
      rw here (
        subst
          (λ (t : ℕ).
            Started s
              (put_1 (set_timer_unit member (some s.next_id) (record s { next_id = s.next_id + 1 }))
                (insert_unit w offset u, none))
              member (slot_offset t w.interval))
          whole
          (record {
            all_valid = record {
              valid_1 = i.valid;
              valid_10 = v.valid_10;
              valid_100 = v.valid_100;
            };
            same_index = refl;
            one_more = omega (arith, i.one_more member, mine);
            in_slot = insert_unit-count_at w offset u v.valid_1;
          })))

-- A timer of a member that has none, for one interval at least and less than a round of the first wheel,
-- acts once: in the tick in which its intervals are over, and in none before.
pub add_timer-exact :
    (s : TimerWheelSet) (member time j : ℕ)
    → AllValid s
    → total member s ≡ 0
    → s.wheel_1.interval ≤ time
    → 0 < s.wheel_1.interval
    → time < num_slots * s.wheel_1.interval
    → j < time / s.wheel_1.interval
    → (count member (run j (add_timer s member time)).1 ≡ 0)
      × (count member (run (time / s.wheel_1.interval) (add_timer s member time)).1 ≡ 1)
add_timer-exact s member time j v free low pos high h =
    let I = s.wheel_1.interval in
    let n = time / I in
    let s' = add_timer s member time in
    let few : n < num_slots = (div-lt_iff_lt-mul pos).1 high in
    let some_ticks : 1 ≤ n = (le-div_iff_mul-le pos).1 (omega arith) in
    let exact : slot_offset time I ≡ n = ground arith in
    let started =
      subst (λ (o : ℕ). Started s s' member o) exact
        (add_timer-Started s member time v (omega arith) high) in
    let k = (s.wheel_1.current_index + n) % num_slots in
    let at : k ≡ (s'.wheel_1.current_index + n) % num_slots = omega (arith, started.same_index) in
    let waits = run-waits j n member k s' started.all_valid h few at in
    let held = count_all-ge member (run j s').0.wheel_1.slot_list k in
    let before = run-kept j member s' started.all_valid in
    let acts = acts_by n k s' member started.all_valid some_ticks few at in
    let after = run-kept n member s' started.all_valid in
    (
      omega (arith, waits, held, before, started.one_more, started.in_slot, free),
      omega (arith, acts, after, started.one_more, started.in_slot, free),
    )
  where
    acts_by :
        (n k : ℕ) (s : TimerWheelSet) (m : ℕ)
        → AllValid s
        → 1 ≤ n
        → n < num_slots
        → k ≡ (s.wheel_1.current_index + n) % num_slots
        → count_at m k s.wheel_1 ≤ count m (run n s).1
    acts_by zero k s m v h g e = absurd (omega arith)
    acts_by (suc d) k s m v h g e = run-acts d m k s v g e
