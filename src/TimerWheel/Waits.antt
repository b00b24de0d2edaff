-- ===== src/TimerWheel/Waits.antt =====
-- The ticks that a timer still has to wait, over the first and the second wheel.
use mathlib.Core.Path.{subst}
use log_service.Prelude.{
  ℕ, zero, suc, ◌+◌, ◌-◌, ◌*◌, ◌%◌, ◌<◌, ◌≡◌, ◌≢◌, ◌⊎◌, refl, sym, ap, ◌∙◌, true, false, List, [],
  ◌∷◌, ◌++◌, none, arith, ◌==◌, Bool-cases, inl, inr,
}
use log_service.TimerWheel.{
  TimerUnit, TimerWheel, TimerWheelSet, num_slots, advance, act_all, set_timer_unit, tick_10, tick,
  carry,
}
use log_service.TimerWheel.Wheel.{count, count_at, count_all-ge, count-append, advance-Advanced}
use log_service.TimerWheel.Units.{AllValid, total}
use log_service.TimerWheel.Run.{tick-Ticked, act_all-Flow}
use log_service.TimerWheel.Kept.{
  HasUnit, slot, HasUnit-count, KeptWheel, Kept, Kept-refl, Kept-trans, set_timer_unit-Kept,
}
use log_service.TimerWheel.Moved.{AtZero, Moved, tick_10-Stepped, tick_10-Moved}

-- Wheels with the intervals that the program sets.
pub record IsRunning (s : TimerWheelSet) : Type 0 where
  pub all_valid : AllValid s
  pub interval_1 : s.wheel_1.interval ≡ 100
  pub interval_10 : s.wheel_10.interval ≡ 2000

-- A unit of the first wheel waits for the wheel to come to its slot.
pub record WaitsFirst (m ticks : ℕ) (s : TimerWheelSet) : Type 0 where
  pub some_ticks : 0 < ticks
  pub ahead : ticks < num_slots
  pub unit : 0 < count_at m ((s.wheel_1.current_index + ticks) % num_slots) s.wheel_1

-- One of the second wheel waits for the first wheel's round to end, for the rounds up to its slot,
-- and for what is left of its time then.
pub record WaitsSecond (m ticks : ℕ) (s : TimerWheelSet) : Type 0 where
  pub slots : ℕ
  pub hundreds : ℕ
  pub some_slots : 0 < slots
  pub ahead : slots < num_slots
  pub few : hundreds < 40
  pub counted : ticks ≡ (num_slots - s.wheel_1.current_index) + ((slots - 1) * num_slots + hundreds)
  pub unit :
      HasUnit m (100 * hundreds) (slot ((s.wheel_10.current_index + slots) % num_slots) s.wheel_10)

abbrev pub Waits : ℕ → ℕ → TimerWheelSet → Type 0
Waits m ticks s = WaitsFirst m ticks s ⊎ WaitsSecond m ticks s

-- Such a member has a unit in the wheels.
pub Waits-total : (m ticks : ℕ) (s : TimerWheelSet) → Waits m ticks s → 0 < total m s
Waits-total m ticks s (inl w) = omega (arith, w.unit, count_all-ge m s.wheel_1.slot_list _)
Waits-total m ticks s (inr w) = omega (
  arith,
  HasUnit-count m (100 * w.hundreds) _ w.unit,
  count_all-ge m s.wheel_10.slot_list ((s.wheel_10.current_index + w.slots) % num_slots),
)

act_all-Kept : (us : List TimerUnit) (s : TimerWheelSet) → Kept s (act_all us s)
unfolding act_all
act_all-Kept [] s = Kept-refl s
act_all-Kept (u ∷ us) s =
    let t = set_timer_unit u.member none s in
    Kept-trans s t _ (set_timer_unit-Kept u.member none s) (act_all-Kept us t)

carry_no :
    (next : TimerWheelSet → TimerWheelSet × List TimerUnit) (index : ℕ)
    (done : TimerWheelSet × List TimerUnit)
    → (index == 0) ≡ false
    → carry next index done ≡ done
carry_no next index done e = rw e refl

carry_on :
    (next : TimerWheelSet → TimerWheelSet × List TimerUnit) (index : ℕ)
    (done : TimerWheelSet × List TimerUnit)
    → (index == 0) ≡ true
    → carry next index done ≡ ((next done.0).0, done.1 ++ (next done.0).1)
carry_on next index done e = rw e refl

-- The wheels when the first one has stepped and the units of its slot have acted.
abbrev stepped : TimerWheelSet → TimerWheelSet
stepped s = record s { wheel_1 = (advance s.wheel_1).0 }

first_step : TimerWheelSet → TimerWheelSet
first_step s = act_all (advance s.wheel_1).1 (stepped s)

first_step-Kept : (s : TimerWheelSet) → Kept (stepped s) (first_step s)
unfolding first_step
first_step-Kept s = act_all-Kept (advance s.wheel_1).1 (stepped s)

tick_within :
    (s : TimerWheelSet)
    → ((advance s.wheel_1).0.current_index == 0) ≡ false
    → tick s ≡ (first_step s, (advance s.wheel_1).1)
unfolding tick first_step
tick_within s e =
    carry_no tick_10 (advance s.wheel_1).0.current_index
      (act_all (advance s.wheel_1).1 (stepped s), (advance s.wheel_1).1) e

tick_round :
    (s : TimerWheelSet)
    → ((advance s.wheel_1).0.current_index == 0) ≡ true
    → tick s ≡ ((tick_10 (first_step s)).0, (advance s.wheel_1).1 ++ (tick_10 (first_step s)).1)
unfolding tick first_step
tick_round s e =
    carry_on tick_10 (advance s.wheel_1).0.current_index
      (act_all (advance s.wheel_1).1 (stepped s), (advance s.wheel_1).1) e

advance_interval : (w : TimerWheel) → (advance w).0.interval ≡ w.interval
unfolding advance
advance_interval w = refl

-- The first step in the two wheels.
record StepsFirst (s : TimerWheelSet) : Type 0 where
  all_valid : AllValid (first_step s)
  index_1 : (first_step s).wheel_1.current_index ≡ (s.wheel_1.current_index + 1) % num_slots
  interval_1 : (first_step s).wheel_1.interval ≡ s.wheel_1.interval
  wheel_10 : KeptWheel s.wheel_10 (first_step s).wheel_10

first_step-StepsFirst : (s : TimerWheelSet) → AllValid s → StepsFirst s
unfolding first_step
first_step-StepsFirst s v =
    let a = advance-Advanced s.wheel_1 v.valid_1 in
    let k = act_all-Kept (advance s.wheel_1).1 (stepped s) in
    record {
      all_valid =
          (act_all-Flow (advance s.wheel_1).1 (stepped s) (record {
            valid_1 = a.valid;
            valid_10 = v.valid_10;
            valid_100 = v.valid_100;
          })).all_valid;
      index_1 = k.wheel_1.index ∙ a.next;
      interval_1 = k.wheel_1.interval ∙ advance_interval s.wheel_1;
      wheel_10 = k.wheel_10;
    }

abbrev next_index : TimerWheelSet → ℕ
next_index s = (advance s.wheel_1).0.current_index

pub tick-IsRunning : (s : TimerWheelSet) → IsRunning s → IsRunning (tick s).0
tick-IsRunning s g =
    let f = first_step-StepsFirst s g.all_valid in
    let b = tick_10-Stepped (first_step s) in
    let valid = (tick-Ticked s g.all_valid).all_valid in
    elim (Bool-cases (next_index s == 0)) [
      | inr e ↦
          let now = ap (λ (r : TimerWheelSet × List TimerUnit). r.0) (tick_within s e) in
          record {
            all_valid = valid;
            interval_1 =
                ap (λ (t : TimerWheelSet). t.wheel_1.interval) now ∙ f.interval_1 ∙ g.interval_1;
            interval_10 =
                ap (λ (t : TimerWheelSet). t.wheel_10.interval) now
                ∙ f.wheel_10.interval
                ∙ g.interval_10;
          }
      | inl e ↦
          let now = ap (λ (r : TimerWheelSet × List TimerUnit). r.0) (tick_round s e) in
          record {
            all_valid = valid;
            interval_1 =
                ap (λ (t : TimerWheelSet). t.wheel_1.interval) now
                ∙ b.wheel_1.interval
                ∙ f.interval_1
                ∙ g.interval_1;
            interval_10 =
                ap (λ (t : TimerWheelSet). t.wheel_10.interval) now
                ∙ b.interval
                ∙ f.wheel_10.interval
                ∙ g.interval_10;
          }
    ]

-- Behind a tick the timer has acted, in the last of its ticks, or waits for the others.
abbrev pub After : ℕ → ℕ → TimerWheelSet × List TimerUnit → Type 0
After m ticks r = ((ticks ≡ 0) × (0 < count m r.1)) ⊎ ((0 < ticks) × Waits m ticks r.0)

wheel_1-After :
    (m ticks : ℕ) (s : TimerWheelSet)
    → AllValid s
    → WaitsFirst m (suc ticks) s
    → After m ticks (tick s)
wheel_1-After m zero s v w = let t = tick-Ticked s v in inl (refl, omega (arith, w.unit, t.acts m))
wheel_1-After m (suc n) s v w =
    let t = tick-Ticked s v in
    let c = s.wheel_1.current_index in
    let behind : (c + suc (suc n)) % num_slots ≢ (c + 1) % num_slots = omega (arith, w.ahead) in
    let place : ((tick s).0.wheel_1.current_index + suc n) % num_slots
        ≡ (c + suc (suc n)) % num_slots =
      omega (arith, t.next) in
    inr (
      omega arith,
      inl (record {
        some_ticks = omega arith;
        ahead = omega (arith, w.ahead);
        unit =
            subst (λ (k : ℕ). 0 < count_at m k (tick s).0.wheel_1) (sym place)
              (omega (arith, w.unit, t.waits m ((c + suc (suc n)) % num_slots) behind));
      }),
    )

-- Within a round of the first wheel the second one rests.
first_step-After :
    (m ticks : ℕ) (s : TimerWheelSet)
    → AllValid s
    → WaitsSecond m (suc ticks) s
    → (next_index s == 0) ≡ false
    → After m ticks (first_step s, (advance s.wheel_1).1)
first_step-After m ticks s v w e =
    let f = first_step-StepsFirst s v in
    let a = advance-Advanced s.wheel_1 v.valid_1 in
    let inside : s.wheel_1.current_index + 1 < num_slots =
      ground (arith, a.next, v.valid_1.index, e) in
    inr (
      omega (arith, w.counted, inside),
      inr (record {
        slots = w.slots;
        hundreds = w.hundreds;
        some_slots = w.some_slots;
        ahead = w.ahead;
        few = w.few;
        counted = omega (arith, w.counted, f.index_1, inside);
        unit =
            subst
              (λ (i : ℕ).
                HasUnit m (100 * w.hundreds)
                  (slot ((i + w.slots) % num_slots) (first_step s).wheel_10))
              (sym f.wheel_10.index) (f.wheel_10.units m (100 * w.hundreds) _ w.unit);
      }),
    )

-- The step to the next round, seen from the wheels whose first one has stepped to its slot 0.
tick_10-After :
    (m ticks : ℕ) (t : TimerWheelSet) (d a : ℕ)
    → AtZero t
    → 0 < d
    → d < num_slots
    → a < 40
    → ticks ≡ (d - 1) * num_slots + a
    → HasUnit m (100 * a) (slot ((t.wheel_10.current_index + d) % num_slots) t.wheel_10)
    → After m ticks (tick_10 t)
tick_10-After m ticks t zero a z p q few e h = absurd (omega arith)
tick_10-After m ticks t (suc (suc d)) a z p q few e h =
    let b = tick_10-Stepped t in
    let i = t.wheel_10.current_index in
    let at_zero : (tick_10 t).0.wheel_1.current_index ≡ 0 = b.wheel_1.index ∙ z.index in
    let ahead : (i + suc (suc d)) % num_slots ≢ (i + 1) % num_slots = omega arith in
    let place : ((tick_10 t).0.wheel_10.current_index + suc d) % num_slots
        ≡ (i + suc (suc d)) % num_slots =
      omega (arith, b.index) in
    inr (
      omega arith,
      inr (record {
        slots = suc d;
        hundreds = a;
        some_slots = omega arith;
        ahead = omega arith;
        few = few;
        counted = omega (arith, at_zero, e);
        unit =
            subst (λ (k : ℕ). HasUnit m (100 * a) (slot k (tick_10 t).0.wheel_10)) (sym place)
              (b.units m (100 * a) ((i + suc (suc d)) % num_slots) ahead h);
      }),
    )
tick_10-After m ticks t (suc zero) a z p q few e h =
    let b = tick_10-Stepped t in
    let at_zero : (tick_10 t).0.wheel_1.current_index ≡ 0 = b.wheel_1.index ∙ z.index in
    let left : ticks ≡ a = omega (arith, e) in by_moved at_zero left (tick_10-Moved m a t z few h)
  where
    by_moved :
        (tick_10 t).0.wheel_1.current_index ≡ 0
        → ticks ≡ a
        → Moved m a ((t.wheel_10.current_index + 1) % num_slots) (tick_10 t)
        → After m ticks (tick_10 t)
    by_moved at_zero left (inl (none_left, acted)) = inl (left ∙ none_left, acted)
    by_moved at_zero left (inr (inl (some_left, less, unit))) =
        let place : a ≡ ((tick_10 t).0.wheel_1.current_index + ticks) % num_slots =
          omega (arith, at_zero, left) in
        inr (
          omega (arith, left),
          inl (record {
            some_ticks = omega (arith, left);
            ahead = omega (arith, left);
            unit =
                subst (λ (k : ℕ). 0 < count_at m k (tick_10 t).0.wheel_1) place
                  (HasUnit-count m 100 (slot a (tick_10 t).0.wheel_1) unit);
          }),
        )
    by_moved at_zero left (inr (inr (more, unit))) =
        let b = tick_10-Stepped t in
        inr (
          omega (arith, left, more),
          inr (record {
            slots = 1;
            hundreds = a - 20;
            some_slots = omega arith;
            ahead = omega arith;
            few = omega arith;
            counted = omega (arith, at_zero, left, more);
            unit =
                subst
                  (λ (i : ℕ).
                    HasUnit m (100 * (a - 20)) (slot ((i + 1) % num_slots) (tick_10 t).0.wheel_10))
                  (sym b.index) unit;
          }),
        )

-- Units that act beside are more.
After-more :
    (m ticks : ℕ) (us : List TimerUnit) (r : TimerWheelSet × List TimerUnit)
    → After m ticks r
    → After m ticks (r.0, us ++ r.1)
After-more m ticks us r (inl (e, h)) = inl (e, omega (arith, h, count-append m us r.1))
After-more m ticks us r (inr h) = inr h

wheel_10-After :
    (m ticks : ℕ) (s : TimerWheelSet)
    → IsRunning s
    → WaitsSecond m (suc ticks) s
    → After m ticks (tick s)
wheel_10-After m ticks s g w = elim (Bool-cases (next_index s == 0)) [
  | inr e ↦
      subst (After m ticks) (sym (tick_within s e)) (first_step-After m ticks s g.all_valid w e)
  | inl e ↦
      let v = g.all_valid in
      let f = first_step-StepsFirst s v in
      let a = advance-Advanced s.wheel_1 v.valid_1 in
      let last : s.wheel_1.current_index ≡ 19 = ground (arith, a.next, v.valid_1.index, e) in
      let zero_at : AtZero (first_step s) = record {
        all_valid = f.all_valid;
        index = omega (arith, f.index_1, last);
        interval_1 = f.interval_1 ∙ g.interval_1;
        interval_10 = f.wheel_10.interval ∙ g.interval_10;
      } in
      subst (After m ticks) (sym (tick_round s e)) (
        After-more m ticks (advance s.wheel_1).1 (tick_10 (first_step s)) (
          tick_10-After m ticks (first_step s) w.slots w.hundreds zero_at w.some_slots w.ahead w.few
            (omega (arith, w.counted, last))
            (subst
              (λ (i : ℕ).
                HasUnit m (100 * w.hundreds)
                  (slot ((i + w.slots) % num_slots) (first_step s).wheel_10))
              (sym f.wheel_10.index) (f.wheel_10.units m (100 * w.hundreds) _ w.unit))))
]

-- A tick of the time that a timer waits.
pub tick-After :
    (m ticks : ℕ) (s : TimerWheelSet) → IsRunning s → Waits m (suc ticks) s → After m ticks (tick s)
tick-After m ticks s g (inl w) = wheel_1-After m ticks s g.all_valid w
tick-After m ticks s g (inr w) = wheel_10-After m ticks s g w
