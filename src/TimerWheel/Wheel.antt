-- ===== src/TimerWheel/Wheel.antt =====
-- One wheel: its slots stay within bounds, and where the units of a member are.
use log_service.Prelude.{
  ◌*◌, ℕ, zero, suc, ◌+◌, ◌-◌, ◌%◌, ◌<◌, ◌≤◌, ◌≡◌, ◌≢◌, refl, sym, ap, ◌∙◌, Bool, true, false, List,
  [], ◌∷◌, ◌++◌, none, some, arith, length, get_or, set, length-set, get_or-set_self, get_or-set_ne,
  ◌==◌, if◌then◌else◌,
}
use log_service.TimerWheel.{
  TimerUnit, TimerWheel, num_slots, slot_offset, time_left, insert_unit, stays, forwarded, place,
  advance,
}

-- The slots are `N`, and the index is that of one of them.
pub record IsValid (w : TimerWheel) : Type 0 where
  pub slots : length w.slot_list ≡ num_slots
  pub index : w.current_index < num_slots

abbrev pub one_if : ℕ → TimerUnit → ℕ
one_if m u = if u.member == m then 1 else 0

-- The units of a member in a slot.
abbrev pub count : ℕ → List TimerUnit → ℕ
count m [] = 0
count m (u ∷ us) = one_if m u + count m us

pub count-append : (m : ℕ) (us vs : List TimerUnit) → count m (us ++ vs) ≡ count m us + count m vs
count-append m [] vs = omega arith
count-append m (u ∷ us) vs = omega (arith, count-append m us vs)

-- In all slots.
abbrev pub count_all : ℕ → List (List TimerUnit) → ℕ
count_all m [] = 0
count_all m (s ∷ ss) = count m s + count_all m ss

count_all-set :
    (m : ℕ) (ss : List (List TimerUnit)) (i : ℕ) (new : List TimerUnit)
    → i < length ss
    → count_all m (set ss i new) + count m (get_or ss i []) ≡ count_all m ss + count m new
count_all-set m [] i new h = absurd (omega arith)
count_all-set m (s ∷ ss) zero new h = omega arith
count_all-set m (s ∷ ss) (suc i) new h = omega (arith, count_all-set m ss i new (omega arith))

pub count_all-ge :
    (m : ℕ) (ss : List (List TimerUnit)) (k : ℕ) → count m (get_or ss k []) ≤ count_all m ss
count_all-ge m [] k = omega arith
count_all-ge m (s ∷ ss) zero = omega arith
count_all-ge m (s ∷ ss) (suc k) = omega (arith, count_all-ge m ss k)

-- In one slot.
abbrev pub count_at : ℕ → ℕ → TimerWheel → ℕ
count_at m k w = count m (get_or w.slot_list k [])

count-set :
    (m : ℕ) (ss : List (List TimerUnit)) (i k : ℕ) (u : TimerUnit)
    → count m (get_or ss k []) ≤ count m (get_or (set ss i (u ∷ get_or ss i [])) k [])
count-set m [] i k u = omega arith
count-set m (s ∷ ss) zero zero u = omega arith
count-set m (s ∷ ss) zero (suc k) u = omega arith
count-set m (s ∷ ss) (suc i) zero u = omega arith
count-set m (s ∷ ss) (suc i) (suc k) u = count-set m ss i k u

-- A wheel with units of its own and one more, which is behind the current slot.
pub record Inserted (w w' : TimerWheel) (u : TimerUnit) : Type 0 where
  pub valid : IsValid w'
  pub same_index : w'.current_index ≡ w.current_index
  pub one_more : (m : ℕ) → count_all m w'.slot_list ≡ count_all m w.slot_list + one_if m u
  pub none_lost : (m k : ℕ) → count_at m k w ≤ count_at m k w'

pub insert_unit-Inserted :
    (w : TimerWheel) (offset : ℕ) (u : TimerUnit)
    → IsValid w
    → Inserted w (insert_unit w offset u) u
unfolding insert_unit
insert_unit-Inserted w offset u v =
    let i = (w.current_index + offset) % num_slots in
    let inside : i < length w.slot_list = omega (arith, v.slots) in
    let s = get_or w.slot_list i [] in
    record {
      valid = record { slots = length-set w.slot_list i (u ∷ s) ∙ v.slots; index = v.index };
      same_index = refl;
      one_more = λ m. omega (arith, count_all-set m w.slot_list i (u ∷ s) inside);
      none_lost = λ m k. count-set m w.slot_list i k u;
    }

-- In its slot the unit is one more.
pub insert_unit-count_at :
    (w : TimerWheel) (offset : ℕ) (u : TimerUnit)
    → IsValid w
    → 0 < count_at u.member ((w.current_index + offset) % num_slots) (insert_unit w offset u)
unfolding insert_unit
insert_unit-count_at w offset u v =
    let i = (w.current_index + offset) % num_slots in
    let s = get_or w.slot_list i [] in
    let inside : i < length w.slot_list = omega (arith, v.slots) in
    let same = ap (count u.member) (get_or-set_self w.slot_list i (u ∷ s) [] inside) in
    ground (arith, same)

-- `place` in a wheel: the unit is in it, or goes to the next.
pub place-stays :
    (b : Bool) (w : TimerWheel) (u : TimerUnit)
    → stays b w u ≡ true
    → let offset = slot_offset (time_left u) w.interval in
      place b w u ≡ (
        insert_unit w offset (record u { past_time = u.past_time + (offset - 1) * w.interval }),
        none,
      )
unfolding place
place-stays b w u e = rw (place, e) refl

pub place-goes :
    (b : Bool) (w : TimerWheel) (u : TimerUnit)
    → stays b w u ≡ false
    → place b w u ≡ (w, some (forwarded w u))
unfolding place
place-goes b w u e = rw (place, e) refl

pub stays_last : (w : TimerWheel) (u : TimerUnit) → stays false w u ≡ true
stays_last w u = ground arith

-- The step to the next slot takes out its units and no other.
pub record Advanced (w w' : TimerWheel) (us : List TimerUnit) : Type 0 where
  pub valid : IsValid w'
  pub next : w'.current_index ≡ (w.current_index + 1) % num_slots
  pub taken : us ≡ get_or w.slot_list w'.current_index []
  pub none_lost : (m : ℕ) → count_all m w'.slot_list + count m us ≡ count_all m w.slot_list
  pub others : (m k : ℕ) → k ≢ w'.current_index → count_at m k w' ≡ count_at m k w

pub advance-Advanced : (w : TimerWheel) → IsValid w → Advanced w (advance w).0 (advance w).1
unfolding advance
advance-Advanced w v =
    let i = (w.current_index + 1) % num_slots in
    let inside : i < length w.slot_list = omega (arith, v.slots) in
    record {
      valid = record { slots = length-set w.slot_list i [] ∙ v.slots; index = omega arith };
      next = refl;
      taken = refl;
      none_lost = λ m. omega (arith, count_all-set m w.slot_list i [] inside);
      others = λ m k ne. ap (count m) (get_or-set_ne w.slot_list i k [] [] (λ e. ne (sym e)));
    }
