-- ===== src/TimerWheel/Exact.antt =====
-- A timer of whole hundreds of milliseconds, up to the range of the second wheel.
use mathlib.Core.Path.{subst}
use log_service.Prelude.{
  ℕ, zero, suc, ◌+◌, ◌-◌, ◌*◌, ◌%◌, ◌≤◌, ◌<◌, ◌≡◌, refl, sym, ap, ◌∙◌, true, false, none, some,
  arith, ◌==◌, ltb, ltb→lt, Bool-cases, inl, inr,
}
use log_service.TimerWheel.{
  TimerUnit, TimerWheel, TimerWheelSet, num_slots, slot_offset, time_left, insert_unit, stays,
  forwarded, place_new, put_1, add_10, set_timer_unit, add_timer, tick,
}
use log_service.TimerWheel.Wheel.{one_if, count, count_at, count-append}
use log_service.TimerWheel.Units.{AllValid, total, add_10-Added}
use log_service.TimerWheel.Run.{run, run-kept, add_timer-Started}
use log_service.TimerWheel.Kept.{HasUnit, slot, add_10-puts, add_10-Kept}
use log_service.TimerWheel.Moved.{inserted-HasUnit, stays_round, goes_round, slot_offset-hundreds}
use log_service.TimerWheel.Waits.{IsRunning, Waits, Waits-total, tick-IsRunning, tick-After}

-- A timer waits while its ticks are not over.
run-Waits :
    (n m ticks : ℕ) (s : TimerWheelSet)
    → IsRunning s
    → Waits m ticks s
    → n < ticks
    → 0 < total m (run n s).0
unfolding run
run-Waits zero m ticks s g w h = Waits-total m ticks s w
run-Waits (suc n) m zero s g w h = absurd (omega arith)
run-Waits (suc n) m (suc ticks) s g w h = elim (tick-After m ticks s g w) [
  | inl (e, acted) ↦ absurd (omega (arith, e, h))
  | inr (p, w') ↦ run-Waits n m ticks (tick s).0 (tick-IsRunning s g) w' (omega (arith, h))
]

-- In the last of its ticks it acts.
run-acts :
    (m ticks : ℕ) (s : TimerWheelSet)
    → IsRunning s
    → Waits m ticks s
    → 0 < ticks
    → 0 < count m (run ticks s).1
unfolding run
run-acts m zero s g w h = absurd (omega arith)
run-acts m (suc ticks) s g w h = elim (tick-After m ticks s g w) [
  | inl (e, acted) ↦ omega (arith, acted, count-append m (tick s).1 (run ticks (tick s).0).1)
  | inr (p, w') ↦ omega (
    arith,
    run-acts m ticks (tick s).0 (tick-IsRunning s g) w' p,
    count-append m (tick s).1 (run ticks (tick s).0).1,
  )
]

-- A timer that was added for so many ticks.
record Added (s s' : TimerWheelSet) (m ticks : ℕ) : Type 0 where
  running : IsRunning s'
  one_more : total m s' ≡ total m s + 1
  waits : Waits m ticks s'

-- The unit that is added.
abbrev new_unit : TimerWheelSet → ℕ → ℕ → TimerUnit
new_unit s m time = record { id = s.next_id; member = m; time = time; past_time = 0 }

abbrev with_unit : TimerWheelSet → ℕ → TimerWheelSet
with_unit s m = set_timer_unit m (some s.next_id) (record s { next_id = s.next_id + 1 })

add_timer-places :
    (s : TimerWheelSet) (m time : ℕ)
    → 0 < time
    → add_timer s m time ≡ put_1 (with_unit s m) (place_new true s.wheel_1 (new_unit s m time))
unfolding add_timer set_timer_unit
add_timer-places s m time h =
    let some_time : (time == 0) ≡ false = ground arith in rw some_time refl

place_new-stays :
    (w : TimerWheel) (u : TimerUnit)
    → stays true w u ≡ true
    → place_new true w u ≡ (insert_unit w (slot_offset (time_left u) w.interval) u, none)
unfolding place_new
place_new-stays w u e = rw (place_new, e) refl

place_new-goes :
    (w : TimerWheel) (u : TimerUnit)
    → stays true w u ≡ false
    → place_new true w u ≡ (w, some (forwarded w u))
unfolding place_new
place_new-goes w u e = rw (place_new, e) refl

add_short :
    (s : TimerWheelSet) (m k : ℕ)
    → IsRunning s
    → 0 < k
    → k < num_slots
    → Added s (add_timer s m (100 * k)) m k
unfolding set_timer_unit insert_unit
add_short s m k g p q =
    let w = s.wheel_1 in
    let time = 100 * k in
    let u = new_unit s m time in
    let started =
      add_timer-Started s m time g.all_valid (omega arith) (omega (arith, g.interval_1)) in
    let offset : slot_offset time w.interval ≡ k =
      ap (slot_offset time) g.interval_1 ∙ slot_offset-hundreds k p q in
    let here = stays_round w u 100 g.interval_1 (omega arith) in
    let put : add_timer s m time
        ≡ put_1 (with_unit s m) (insert_unit w (slot_offset (time_left u) w.interval) u, none) =
      add_timer-places s m time (omega arith)
      ∙ ap (put_1 (with_unit s m)) (place_new-stays w u here) in
    record {
      running = record {
        all_valid = started.all_valid;
        interval_1 = ap (λ (t : TimerWheelSet). t.wheel_1.interval) put ∙ g.interval_1;
        interval_10 = ap (λ (t : TimerWheelSet). t.wheel_10.interval) put ∙ g.interval_10;
      };
      one_more = started.one_more;
      waits = inl (record {
        some_ticks = p;
        ahead = q;
        unit =
            subst (λ (i : ℕ). 0 < count_at m ((i + k) % num_slots) (add_timer s m time).wheel_1)
              (sym started.same_index)
              (subst
                (λ (o : ℕ).
                  0 < count_at m ((w.current_index + o) % num_slots) (add_timer s m time).wheel_1)
                offset started.in_slot);
      });
    }

-- Where the second wheel puts a timer: its slot and what is left behind that.
rounds_lem :
    (a : ℕ)
    → a < 400
    → let d = slot_offset (100 * a) 2000 in
      (0 < d) × (d < 20) × ((d - 1) * 20 ≤ a) × (a - (d - 1) * 20 < 40)
rounds_lem a h = ground arith

add_long :
    (s : TimerWheelSet) (m k : ℕ)
    → IsRunning s
    → num_slots ≤ k
    → k ≤ 400
    → Added s (add_timer s m (100 * k)) m k
unfolding set_timer_unit
add_long s m k g p q =
    let w = s.wheel_1 in
    let c = w.current_index in
    let time = 100 * k in
    let u = new_unit s m time in
    let f = forwarded w u in
    let t : TimerWheelSet = record (with_unit s m) { wheel_1 = w } in
    let inside = g.all_valid.valid_1.index in
    let put : add_timer s m time ≡ add_10 t f =
      add_timer-places s m time (omega arith)
      ∙ ap (put_1 (with_unit s m))
          (place_new-goes w u (goes_round w u 100 g.interval_1 (omega arith))) in
    let a = k - 20 + c in
    let left : time_left f ≡ 100 * a =
      ap (λ (i : ℕ). time - (0 + (num_slots - c) * i)) g.interval_1 ∙ omega arith in
    let d = slot_offset (100 * a) 2000 in
    let (pos, ahead, reached, few) = rounds_lem a (omega arith) in
    let rest = a - (d - 1) * 20 in
    let unit =
      inserted-HasUnit s.wheel_10 f d (100 * rest) 2000 g.all_valid.valid_10 g.interval_10
        (ap (λ (l : ℕ). slot_offset l 2000) left) (omega (arith, left)) in
    let here = stays_round s.wheel_10 f 2000 g.interval_10 (omega (arith, left)) in
    let kept = add_10-Kept t f in
    let v : AllValid t = record {
      valid_1 = g.all_valid.valid_1;
      valid_10 = g.all_valid.valid_10;
      valid_100 = g.all_valid.valid_100;
    } in
    let more = add_10-Added t f v in
    let mine : one_if m f ≡ 1 = ground arith in
    subst (λ (x : TimerWheelSet). Added s x m k) (sym put)
      (record {
        running = record {
          all_valid = more.all_valid;
          interval_1 = kept.wheel_1.interval ∙ g.interval_1;
          interval_10 = kept.wheel_10.interval ∙ g.interval_10;
        };
        one_more = omega (arith, more.one_more m, mine);
        waits = inr (record {
          slots = d;
          hundreds = rest;
          some_slots = pos;
          ahead = ahead;
          few = few;
          counted = omega (arith, kept.wheel_1.index, reached);
          unit =
              subst
                (λ (i : ℕ).
                  HasUnit m (100 * rest) (slot ((i + d) % num_slots) (add_10 t f).wheel_10))
                (sym kept.wheel_10.index)
                (subst
                  (λ (x : TimerWheelSet).
                    HasUnit m (100 * rest)
                      (slot ((s.wheel_10.current_index + d) % num_slots) x.wheel_10))
                  (sym (add_10-puts t f here)) unit);
        });
      })

-- On wheels with the intervals that the program sets, a timer of a member that has none, for whole
-- hundreds of milliseconds up to forty seconds, acts once: in the tick in which its time is over, and in
-- none before.
pub add_timer-on_time :
    (s : TimerWheelSet) (member k n : ℕ)
    → IsRunning s
    → total member s ≡ 0
    → 0 < k
    → k ≤ 400
    → n < k
    → (count member (run n (add_timer s member (100 * k))).1 ≡ 0)
      × (count member (run k (add_timer s member (100 * k))).1 ≡ 1)
add_timer-on_time s member k n g free p q early =
    let a = added s member k g p q in
    let s' = add_timer s member (100 * k) in
    (
      omega (
        arith,
        run-kept n member s' a.running.all_valid,
        run-Waits n member k s' a.running a.waits early,
        a.one_more,
        free,
      ),
      omega (
        arith,
        run-kept k member s' a.running.all_valid,
        run-acts member k s' a.running a.waits p,
        a.one_more,
        free,
      ),
    )
  where
    added :
        (s : TimerWheelSet) (m k : ℕ)
        → IsRunning s
        → 0 < k
        → k ≤ 400
        → Added s (add_timer s m (100 * k)) m k
    added s m k g p q = elim (Bool-cases (ltb k 20)) [
      | inl e ↦ add_short s m k g p (ltb→lt k 20 e)
      | inr e ↦ add_long s m k g (ground (arith, e)) q
    ]
