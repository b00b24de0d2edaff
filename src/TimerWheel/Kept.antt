-- ===== src/TimerWheel/Kept.antt =====
-- What the wheels keep while units are added to them, moved between them, or act.
use mathlib.Core.Path.{subst}
use log_service.Prelude.{
  ℕ, zero, suc, ◌+◌, ◌-◌, ◌*◌, ◌%◌, ◌<◌, ◌≡◌, ◌⊎◌, refl, sym, ◌∙◌, true, false, List, [], ◌∷◌,
  Option, none, arith, length, get_or, set, get_or-set_self, Bool-cases, inl, inr,
}
use log_service.TimerWheel.{
  TimerUnit, TimerWheel, TimerWheelSet, num_slots, slot_offset, time_left, insert_unit, stays,
  forwarded, advance, add_100, add_10, add_1, put_10, set_timer_unit, move_all, is_due, tick_100,
}
use log_service.TimerWheel.Wheel.{IsValid, count, place-stays, place-goes, stays_last}

-- A unit of the member with so much time left is in the slot.
abbrev pub HasUnit : ℕ → ℕ → List TimerUnit → Type 0
HasUnit m left [] = ⊥
HasUnit m left (u ∷ us) = ((u.member ≡ m) × (time_left u ≡ left)) ⊎ HasUnit m left us

abbrev pub slot : ℕ → TimerWheel → List TimerUnit
slot k w = get_or w.slot_list k []

pub HasUnit-count : (m left : ℕ) (us : List TimerUnit) → HasUnit m left us → 0 < count m us
HasUnit-count m left [] h = absurd h
HasUnit-count m left (u ∷ us) (inl (e, f)) = ground (arith, e)
HasUnit-count m left (u ∷ us) (inr h) = omega (arith, HasUnit-count m left us h)

set_keeps :
    (m left : ℕ) (ss : List (List TimerUnit)) (i k : ℕ) (u : TimerUnit)
    → HasUnit m left (get_or ss k [])
    → HasUnit m left (get_or (set ss i (u ∷ get_or ss i [])) k [])
set_keeps m left [] i k u h = absurd h
set_keeps m left (s ∷ ss) zero zero u h = inr h
set_keeps m left (s ∷ ss) zero (suc k) u h = h
set_keeps m left (s ∷ ss) (suc i) zero u h = h
set_keeps m left (s ∷ ss) (suc i) (suc k) u h = set_keeps m left ss i k u h

-- One wheel with units of its own and possibly more.
pub record KeptWheel (w w' : TimerWheel) : Type 0 where
  pub index : w'.current_index ≡ w.current_index
  pub interval : w'.interval ≡ w.interval
  pub units : (m left k : ℕ) → HasUnit m left (slot k w) → HasUnit m left (slot k w')

KeptWheel-refl : (w : TimerWheel) → KeptWheel w w
KeptWheel-refl w = record { index = refl; interval = refl; units = λ m left k h. h }

insert_unit-KeptWheel :
    (w : TimerWheel) (offset : ℕ) (u : TimerUnit) → KeptWheel w (insert_unit w offset u)
unfolding insert_unit
insert_unit-KeptWheel w offset u = record {
  index = refl;
  interval = refl;
  units = λ m left k h. set_keeps m left w.slot_list ((w.current_index + offset) % num_slots) k u h;
}

pub insert_unit-HasUnit :
    (w : TimerWheel) (offset : ℕ) (u : TimerUnit)
    → IsValid w
    → HasUnit u.member
        (time_left u)
        (slot ((w.current_index + offset) % num_slots) (insert_unit w offset u))
unfolding insert_unit
insert_unit-HasUnit w offset u v =
    let i = (w.current_index + offset) % num_slots in
    let inside : i < length w.slot_list = omega (arith, v.slots) in
    subst (HasUnit u.member (time_left u))
      (sym (get_or-set_self w.slot_list i (u ∷ get_or w.slot_list i []) [] inside))
      (inl (refl, refl))

-- The two lower wheels of a set.
pub record Kept (s s' : TimerWheelSet) : Type 0 where
  pub wheel_1 : KeptWheel s.wheel_1 s'.wheel_1
  pub wheel_10 : KeptWheel s.wheel_10 s'.wheel_10

pub Kept-refl : (s : TimerWheelSet) → Kept s s
Kept-refl s = record { wheel_1 = KeptWheel-refl s.wheel_1; wheel_10 = KeptWheel-refl s.wheel_10 }

KeptWheel-trans : (w x y : TimerWheel) → KeptWheel w x → KeptWheel x y → KeptWheel w y
KeptWheel-trans w x y a b = record {
  index = b.index ∙ a.index;
  interval = b.interval ∙ a.interval;
  units = λ m left k h. b.units m left k (a.units m left k h);
}

pub Kept-trans : (s t r : TimerWheelSet) → Kept s t → Kept t r → Kept s r
Kept-trans s t r a b = record {
  wheel_1 = KeptWheel-trans s.wheel_1 t.wheel_1 r.wheel_1 a.wheel_1 b.wheel_1;
  wheel_10 = KeptWheel-trans s.wheel_10 t.wheel_10 r.wheel_10 a.wheel_10 b.wheel_10;
}

pub set_timer_unit-Kept :
    (member : ℕ) (p : Option ℕ) (s : TimerWheelSet) → Kept s (set_timer_unit member p s)
unfolding set_timer_unit
set_timer_unit-Kept member p s = record {
  wheel_1 = KeptWheel-refl s.wheel_1;
  wheel_10 = KeptWheel-refl s.wheel_10;
}

-- The unit as it is put in its slot.
abbrev pub placed : TimerWheel → TimerUnit → TimerUnit
placed w u = record u {
  past_time = u.past_time + (slot_offset (time_left u) w.interval - 1) * w.interval;
}

abbrev pub inserted : TimerWheel → TimerUnit → TimerWheel
inserted w u = insert_unit w (slot_offset (time_left u) w.interval) (placed w u)

-- Each wheel keeps the unit or hands it on.
pub add_100-puts :
    (s : TimerWheelSet) (u : TimerUnit)
    → add_100 s u ≡ record s { wheel_100 = inserted s.wheel_100 u }
unfolding add_100
add_100-puts s u = rw (add_100, place-stays false s.wheel_100 u (stays_last s.wheel_100 u)) refl

pub add_10-puts :
    (s : TimerWheelSet) (u : TimerUnit)
    → stays true s.wheel_10 u ≡ true
    → add_10 s u ≡ record s { wheel_10 = inserted s.wheel_10 u }
unfolding add_10 put_10
add_10-puts s u e = rw (add_10, place-stays true s.wheel_10 u e) refl

add_10-hands :
    (s : TimerWheelSet) (u : TimerUnit)
    → stays true s.wheel_10 u ≡ false
    → add_10 s u ≡ add_100 s (forwarded s.wheel_10 u)
unfolding add_10 put_10
add_10-hands s u e = rw (add_10, place-goes true s.wheel_10 u e) refl

pub add_1-puts :
    (s : TimerWheelSet) (u : TimerUnit)
    → stays true s.wheel_1 u ≡ true
    → add_1 s u ≡ record s { wheel_1 = inserted s.wheel_1 u }
unfolding add_1
add_1-puts s u e = rw (add_1, place-stays true s.wheel_1 u e) refl

pub add_1-hands :
    (s : TimerWheelSet) (u : TimerUnit)
    → stays true s.wheel_1 u ≡ false
    → add_1 s u ≡ add_10 s (forwarded s.wheel_1 u)
unfolding add_1
add_1-hands s u e = rw (add_1, place-goes true s.wheel_1 u e) refl

add_100-Kept : (s : TimerWheelSet) (u : TimerUnit) → Kept s (add_100 s u)
add_100-Kept s u =
    subst (Kept s) (sym (add_100-puts s u))
      (record { wheel_1 = KeptWheel-refl s.wheel_1; wheel_10 = KeptWheel-refl s.wheel_10 })

pub add_10-Kept : (s : TimerWheelSet) (u : TimerUnit) → Kept s (add_10 s u)
add_10-Kept s u = elim (Bool-cases (stays true s.wheel_10 u)) [
  | inl e ↦ subst (Kept s) (sym (add_10-puts s u e)) (record {
    wheel_1 = KeptWheel-refl s.wheel_1;
    wheel_10 = insert_unit-KeptWheel s.wheel_10 _ (placed s.wheel_10 u);
  })
  | inr e ↦ subst (Kept s) (sym (add_10-hands s u e)) (add_100-Kept s (forwarded s.wheel_10 u))
]

pub add_1-Kept : (s : TimerWheelSet) (u : TimerUnit) → Kept s (add_1 s u)
add_1-Kept s u = elim (Bool-cases (stays true s.wheel_1 u)) [
  | inl e ↦ subst (Kept s) (sym (add_1-puts s u e)) (record {
    wheel_1 = insert_unit-KeptWheel s.wheel_1 _ (placed s.wheel_1 u);
    wheel_10 = KeptWheel-refl s.wheel_10;
  })
  | inr e ↦ subst (Kept s) (sym (add_1-hands s u e)) (add_10-Kept s (forwarded s.wheel_1 u))
]

pub move_all-Kept :
    (add : TimerWheelSet → TimerUnit → TimerWheelSet)
    (adds : (s : TimerWheelSet) (u : TimerUnit) → Kept s (add s u)) (interval : ℕ)
    (us : List TimerUnit) (s : TimerWheelSet)
    → Kept s (move_all add interval us s).0
unfolding move_all
move_all-Kept add adds interval [] s = Kept-refl s
move_all-Kept add adds interval (u ∷ us) s = elim (Bool-cases (is_due interval u)) [
  | inl due ↦
      let t = set_timer_unit u.member none s in
      rw due (
        Kept-trans s t _ (set_timer_unit-Kept u.member none s)
          (move_all-Kept add adds interval us t))
  | inr waits ↦
      rw waits (Kept-trans s (add s u) _ (adds s u) (move_all-Kept add adds interval us (add s u)))
]

pub tick_100-Kept : (s : TimerWheelSet) → Kept s (tick_100 s).0
unfolding tick_100
tick_100-Kept s =
    let s' = record s { wheel_100 = (advance s.wheel_100).0 } in
    let k =
      move_all-Kept add_10 add_10-Kept (advance s.wheel_100).0.interval (advance s.wheel_100).1
        s' in
    record { wheel_1 = k.wheel_1; wheel_10 = k.wheel_10 }
