-- ===== src/TimerWheel/Moved.antt =====
-- The second wheel's step to its next slot: the unit there acts, or goes to the slot for what is left
-- of its time.
use mathlib.Core.Path.{subst}
use log_service.Prelude.{
  ℕ, zero, suc, ◌+◌, ◌-◌, ◌*◌, ◌%◌, ◌≤◌, ◌<◌, ◌≡◌, ◌≢◌, ◌⊎◌, refl, sym, ap, ◌∙◌, true, false, List,
  [], ◌∷◌, Option, none, arith, ◌==◌, ltb, ltb→lt, get_or-set_ne, Bool-cases, inl, inr,
}
use log_service.TimerWheel.{
  TimerUnit, TimerWheel, TimerWheelSet, num_slots, slot_offset, time_left, stays, forwarded,
  advance, add_1, set_timer_unit, move_all, is_due, tick_100, tick_10, carry,
}
use log_service.TimerWheel.Wheel.{IsValid, count, count-append, advance-Advanced}
use log_service.TimerWheel.Units.{AllValid, add_1-Added}
use log_service.TimerWheel.Kept.{
  HasUnit, slot, insert_unit-HasUnit, KeptWheel, Kept, Kept-refl, Kept-trans, placed, inserted,
  add_10-puts, add_1-puts, add_1-hands, add_1-Kept, set_timer_unit-Kept, move_all-Kept,
  tick_100-Kept,
}

-- The first wheel at its slot 0, with the intervals that the program sets.
pub record AtZero (s : TimerWheelSet) : Type 0 where
  pub all_valid : AllValid s
  pub index : s.wheel_1.current_index ≡ 0
  pub interval_1 : s.wheel_1.interval ≡ 100
  pub interval_10 : s.wheel_10.interval ≡ 2000

AtZero-Kept : (s s' : TimerWheelSet) → AtZero s → AllValid s' → Kept s s' → AtZero s'
AtZero-Kept s s' z v k = record {
  all_valid = v;
  index = k.wheel_1.index ∙ z.index;
  interval_1 = k.wheel_1.interval ∙ z.interval_1;
  interval_10 = k.wheel_10.interval ∙ z.interval_10;
}

-- Where a unit is behind the step, by the hundreds of its time that were left; `i` is the index of
-- the second wheel.
abbrev pub Moved : ℕ → ℕ → ℕ → TimerWheelSet × List TimerUnit → Type 0
Moved m a i r =
    ((a ≡ 0) × (0 < count m r.1))
    ⊎ (((0 < a) × (a < 20) × HasUnit m 100 (slot a r.0.wheel_1))
        ⊎ ((20 ≤ a) × HasUnit m (100 * (a - 20)) (slot ((i + 1) % num_slots) r.0.wheel_10)))

pub Moved-Kept :
    (m a i : ℕ) (r r' : TimerWheelSet × List TimerUnit)
    → Kept r.0 r'.0
    → count m r.1 ≤ count m r'.1
    → Moved m a i r
    → Moved m a i r'
Moved-Kept m a i r r' k le (inl (e, h)) = inl (e, omega (arith, h, le))
Moved-Kept m a i r r' k le (inr (inl (p, q, h))) = inr (inl (p, q, k.wheel_1.units m 100 a h))
Moved-Kept m a i r r' k le (inr (inr (p, h))) =
    inr (inr (p, k.wheel_10.units m (100 * (a - 20)) ((i + 1) % num_slots) h))

pub slot_offset-hundreds : (a : ℕ) → 0 < a → a < 20 → slot_offset (100 * a) 100 ≡ a
slot_offset-hundreds a p q = ground arith

slot_offset-short : (l : ℕ) → l < 2000 → slot_offset l 2000 ≡ 1
slot_offset-short l h = ground arith

-- A unit that is put into a wheel, by its offset and what is left of its time behind that.
pub inserted-HasUnit :
    (w : TimerWheel) (u : TimerUnit) (offset left interval : ℕ)
    → IsValid w
    → w.interval ≡ interval
    → slot_offset (time_left u) interval ≡ offset
    → time_left u - (offset - 1) * interval ≡ left
    → HasUnit u.member left (slot ((w.current_index + offset) % num_slots) (inserted w u))
inserted-HasUnit w u offset left interval v i e l =
    let here : slot_offset (time_left u) w.interval ≡ offset =
      ap (slot_offset (time_left u)) i ∙ e in
    let rest : time_left (placed w u) ≡ left =
      ap (λ (o : ℕ). u.time - (u.past_time + (o - 1) * w.interval)) here
      ∙ ap (λ (n : ℕ). u.time - (u.past_time + (offset - 1) * n)) i
      ∙ behind u.time u.past_time ((offset - 1) * interval)
      ∙ l in
    subst
      (λ (o : ℕ). HasUnit u.member left (slot ((w.current_index + o) % num_slots) (inserted w u)))
      here
      (subst
        (λ (t : ℕ). HasUnit u.member t (
          slot ((w.current_index + slot_offset (time_left u) w.interval) % num_slots)
            (inserted w u)))
        rest (insert_unit-HasUnit w (slot_offset (time_left u) w.interval) (placed w u) v))
  where
    behind : (t p d : ℕ) → t - (p + d) ≡ t - p - d
    behind t p d = omega arith

-- A unit stays where less than a round is left.
pub stays_round :
    (w : TimerWheel) (u : TimerUnit) (interval : ℕ)
    → w.interval ≡ interval
    → time_left u < num_slots * interval
    → stays true w u ≡ true
stays_round w u interval i h = rw i (ground (arith, h))

pub goes_round :
    (w : TimerWheel) (u : TimerUnit) (interval : ℕ)
    → w.interval ≡ interval
    → num_slots * interval ≤ time_left u
    → stays true w u ≡ false
goes_round w u interval i h = rw i (ground (arith, h))

-- With less than a round of the first wheel left, the unit is put into it.
add_1-short :
    (a : ℕ) (s : TimerWheelSet) (u : TimerUnit)
    → AtZero s
    → time_left u ≡ 100 * a
    → 0 < a
    → a < 20
    → HasUnit u.member 100 (slot a (add_1 s u).wheel_1)
add_1-short a s u z e p q =
    let w = s.wheel_1 in
    let offset : slot_offset (time_left u) 100 ≡ a =
      ap (λ (l : ℕ). slot_offset l 100) e ∙ slot_offset-hundreds a p q in
    let place : (w.current_index + a) % num_slots ≡ a = omega (arith, z.index) in
    subst (λ (t : TimerWheelSet). HasUnit u.member 100 (slot a t.wheel_1))
      (sym (add_1-puts s u (stays_round w u 100 z.interval_1 (omega (arith, e)))))
      (subst (λ (k : ℕ). HasUnit u.member 100 (slot k (inserted w u))) place
        (inserted-HasUnit w u a 100 100 z.all_valid.valid_1 z.interval_1 offset (omega (arith, e))))

-- With more, it goes to the next slot of the second wheel.
add_1-long :
    (a : ℕ) (s : TimerWheelSet) (u : TimerUnit)
    → AtZero s
    → time_left u ≡ 100 * a
    → 20 ≤ a
    → a < 40
    → HasUnit u.member
        (100 * (a - 20))
        (slot ((s.wheel_10.current_index + 1) % num_slots) (add_1 s u).wheel_10)
add_1-long a s u z e p q =
    let away = goes_round s.wheel_1 u 100 z.interval_1 (omega (arith, e)) in
    let f = forwarded s.wheel_1 u in
    let left : time_left f ≡ 100 * (a - 20) =
      ap (λ (n : ℕ). u.time - (u.past_time + (num_slots - n) * s.wheel_1.interval)) z.index
      ∙ ap (λ (n : ℕ). u.time - (u.past_time + 20 * n)) z.interval_1
      ∙ omega (arith, e) in
    let here = stays_round s.wheel_10 f 2000 z.interval_10 (omega (arith, left)) in
    subst
      (λ (t : TimerWheelSet).
        HasUnit u.member (100 * (a - 20))
          (slot ((s.wheel_10.current_index + 1) % num_slots) t.wheel_10))
      (sym (add_1-hands s u away ∙ add_10-puts s f here))
      (inserted-HasUnit s.wheel_10 f 1 (100 * (a - 20)) 2000 z.all_valid.valid_10 z.interval_10
        (slot_offset-short (time_left f) (omega (arith, left))) (omega (arith, left)))

set_timer_unit-AllValid :
    (member : ℕ) (p : Option ℕ) (s : TimerWheelSet)
    → AllValid s
    → AllValid (set_timer_unit member p s)
unfolding set_timer_unit
set_timer_unit-AllValid member p s v = record {
  valid_1 = v.valid_1;
  valid_10 = v.valid_10;
  valid_100 = v.valid_100;
}

-- A unit of the slot that is not due.
add_1-Moved :
    (a : ℕ) (s : TimerWheelSet) (u : TimerUnit)
    → AtZero s
    → time_left u ≡ 100 * a
    → 0 < a
    → a < 40
    → Moved u.member a s.wheel_10.current_index (add_1 s u, [])
add_1-Moved a s u z e p q = elim (Bool-cases (ltb a 20)) [
  | inl few ↦ let less = ltb→lt a 20 few in inr (inl (p, less, add_1-short a s u z e p less))
  | inr many ↦ let more : 20 ≤ a = ground arith in inr (inr (more, add_1-long a s u z e more q))
]

not_due : (a : ℕ) (u : TimerUnit) → time_left u ≡ 100 * a → 0 < a → a < 40 → is_due 2000 u ≡ false
not_due a u e p q = rw e (ground arith)

due_now : (u : TimerUnit) → time_left u ≡ 0 → is_due 2000 u ≡ true
due_now u e = ground arith

pub move_all-Moved :
    (m a : ℕ) (us : List TimerUnit) (s : TimerWheelSet)
    → AtZero s
    → a < 40
    → HasUnit m (100 * a) us
    → Moved m a s.wheel_10.current_index (move_all add_1 2000 us s)
unfolding move_all
move_all-Moved m a [] s z q h = absurd h
move_all-Moved m zero (u ∷ us) s z q (inl (e, f)) = rw (due_now u f) (inl (refl, ground (arith, e)))
move_all-Moved m (suc a) (u ∷ us) s z q (inl (e, f)) =
    let b = suc a in
    rw (not_due b u f (omega arith) q) (
      Moved-Kept m b s.wheel_10.current_index (add_1 s u, []) (move_all add_1 2000 us (add_1 s u))
        (move_all-Kept add_1 add_1-Kept 2000 us (add_1 s u)) (omega arith)
        (subst (λ (n : ℕ). Moved n b s.wheel_10.current_index (add_1 s u, [])) e
          (add_1-Moved b s u z f (omega arith) q)))
move_all-Moved m a (u ∷ us) s z q (inr h) = elim (Bool-cases (is_due 2000 u)) [
  | inl due ↦
      let t = set_timer_unit u.member none s in
      let r = move_all add_1 2000 us t in
      let z' =
        AtZero-Kept s t z (set_timer_unit-AllValid u.member none s z.all_valid)
          (set_timer_unit-Kept u.member none s) in
      rw due (
        Moved-Kept m a s.wheel_10.current_index r (r.0, u ∷ r.1) (Kept-refl r.0) (omega arith)
          (subst (λ (i : ℕ). Moved m a i r) (set_timer_unit-Kept u.member none s).wheel_10.index
            (move_all-Moved m a us t z' q h)))
  | inr waits ↦
      let t = add_1 s u in
      let r = move_all add_1 2000 us t in
      let k = add_1-Kept s u in
      rw waits (
        subst (λ (i : ℕ). Moved m a i r) k.wheel_10.index
          (move_all-Moved m a us t (AtZero-Kept s t z (add_1-Added s u z.all_valid).all_valid k) q
            h))
]

-- What the step of the second wheel leaves in the two lower wheels.
pub record Stepped (s s' : TimerWheelSet) : Type 0 where
  pub wheel_1 : KeptWheel s.wheel_1 s'.wheel_1
  pub index : s'.wheel_10.current_index ≡ (s.wheel_10.current_index + 1) % num_slots
  pub interval : s'.wheel_10.interval ≡ s.wheel_10.interval
  pub units :
      (m left k : ℕ)
      → k ≢ (s.wheel_10.current_index + 1) % num_slots
      → HasUnit m left (slot k s.wheel_10)
      → HasUnit m left (slot k s'.wheel_10)

pub advance-units :
    (w : TimerWheel) (m left k : ℕ)
    → k ≢ (w.current_index + 1) % num_slots
    → HasUnit m left (slot k w)
    → HasUnit m left (slot k (advance w).0)
unfolding advance
advance-units w m left k ne h =
    subst (HasUnit m left)
      (sym
        (get_or-set_ne w.slot_list ((w.current_index + 1) % num_slots) k [] [] (λ e. ne (sym e))))
      h

-- The slots that the carry to the third wheel leaves.
carry-Kept :
    (m index : ℕ) (done : TimerWheelSet × List TimerUnit)
    → let r = carry tick_100 index done in Kept done.0 r.0 × (count m done.1 ≤ count m r.1)
carry-Kept m index done = elim (Bool-cases (index == 0)) [
  | inl e ↦ rw e (tick_100-Kept done.0, omega (arith, count-append m done.1 (tick_100 done.0).1))
  | inr e ↦ rw e (Kept-refl done.0, omega arith)
]

pub tick_10-Stepped : (s : TimerWheelSet) → Stepped s (tick_10 s).0
unfolding tick_10 advance
tick_10-Stepped s =
    let w = (advance s.wheel_10).0 in
    let s' = record s { wheel_10 = w } in
    let done = move_all add_1 w.interval (advance s.wheel_10).1 s' in
    let moved = move_all-Kept add_1 add_1-Kept w.interval (advance s.wheel_10).1 s' in
    let k = Kept-trans s' done.0 _ moved (carry-Kept 0 w.current_index done).0 in
    record {
      wheel_1 = k.wheel_1;
      index = k.wheel_10.index;
      interval = k.wheel_10.interval;
      units = λ m left j ne h. k.wheel_10.units m left j (advance-units s.wheel_10 m left j ne h);
    }

-- The unit of the slot that the second wheel steps to.
pub tick_10-Moved :
    (m a : ℕ) (s : TimerWheelSet)
    → AtZero s
    → a < 40
    → HasUnit m (100 * a) (slot ((s.wheel_10.current_index + 1) % num_slots) s.wheel_10)
    → Moved m a ((s.wheel_10.current_index + 1) % num_slots) (tick_10 s)
unfolding tick_10 advance
tick_10-Moved m a s z q h =
    let w = (advance s.wheel_10).0 in
    let us = (advance s.wheel_10).1 in
    let s' = record s { wheel_10 = w } in
    let c = advance-Advanced s.wheel_10 z.all_valid.valid_10 in
    let z' : AtZero s' = record {
      all_valid = record {
        valid_1 = z.all_valid.valid_1;
        valid_10 = c.valid;
        valid_100 = z.all_valid.valid_100;
      };
      index = z.index;
      interval_1 = z.interval_1;
      interval_10 = z.interval_10;
    } in
    let moved : Moved m a w.current_index (move_all add_1 s.wheel_10.interval us s') =
      subst (λ (i : ℕ). Moved m a w.current_index (move_all add_1 i us s')) (sym z.interval_10)
        (move_all-Moved m a us s' z' q h) in
    let done = move_all add_1 s.wheel_10.interval us s' in
    let (k, le) = carry-Kept m w.current_index done in
    Moved-Kept m a w.current_index done (carry tick_100 w.current_index done) k le moved
