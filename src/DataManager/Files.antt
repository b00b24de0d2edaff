-- ===== src/DataManager/Files.antt =====
-- The files of the bulks: LogFile.cpp makes their paths from the start serials.
use log_service.Prelude.{
  ℕ, zero, suc, ◌-◌, ◌^◌, ◌<◌, ◌≤◌, ◌≡◌, ◌≢◌, ◌⊎◌, inl, inr, ap, List, [], ◌∷◌, Option, none, some,
  Bytes, arith, length, get_elem?,
}
use log_service.LogFile.Names.{LogFile, file_path, file_path_distinct}
use log_service.Handler.{Handler}
use log_service.DataManager.{DataManager, handler_at}
use log_service.DataManager.Numbers.{handler_at-lt, handler_at-place}
use log_service.DataManager.Stored.{Stores, AllHold, total, rest}

-- Every bulk holds a line.
abbrev pub AllSome : List (List Bytes) → Type 0
AllSome [] = Unit
AllSome (ls ∷ bs) = (0 < length ls) × AllSome bs

start_of : Option Handler → ℕ
start_of none = 0
start_of (some h) = h.bulk.start_serial

-- The bulks hold serials in falling order.
start-below :
    (hs : List Handler) (bs : List (List Bytes)) (p : ℕ)
    → AllHold hs bs
    → AllSome bs
    → p < length hs
    → start_of (get_elem? hs p) < total bs
unfolding AllHold total start_of
start-below [] bs p held some_lines inside = absurd (omega (arith, inside))
start-below (h ∷ hs) [] p held some_lines inside = absurd held
start-below (h ∷ hs) (ls ∷ bs) zero (here, at, older) (some_line, more) inside =
    omega (arith, at, some_line)
start-below (h ∷ hs) (ls ∷ bs) (suc p) (here, at, older) (some_line, more) inside =
    omega (arith, start-below hs bs p older more (omega (arith, inside)))

start-falls :
    (hs : List Handler) (bs : List (List Bytes)) (p q : ℕ)
    → AllHold hs bs
    → AllSome (rest bs)
    → p < q
    → q < length hs
    → start_of (get_elem? hs q) < start_of (get_elem? hs p)
unfolding AllHold total start_of
start-falls [] bs p q held some_lines lt inside = absurd (omega (arith, inside))
start-falls (h ∷ hs) [] p q held some_lines lt inside = absurd held
start-falls (h ∷ hs) (ls ∷ bs) p zero held some_lines lt inside = absurd (omega (arith, lt))
start-falls (h ∷ hs) (ls ∷ bs) zero (suc q) (here, at, older) some_lines lt inside =
    omega (arith, at, start-below hs bs q older some_lines (omega (arith, inside)))
start-falls (h ∷ hs) (ls ∷ []) (suc p) (suc q) (here, at, older) some_lines lt inside =
    start-falls hs [] p q older tt (omega (arith, lt)) (omega (arith, inside))
start-falls (h ∷ hs) (ls ∷ ks ∷ bs) (suc p) (suc q) (here, at, older) some_lines lt inside =
    start-falls hs (ks ∷ bs) p q older some_lines.1 (omega (arith, lt)) (omega (arith, inside))

start-at_most :
    (hs : List Handler) (bs : List (List Bytes)) (p : ℕ)
    → AllHold hs bs
    → start_of (get_elem? hs p) ≤ total bs
unfolding AllHold total start_of
start-at_most [] bs p held = omega arith
start-at_most (h ∷ hs) [] p held = absurd held
start-at_most (h ∷ hs) (ls ∷ bs) zero (here, at, older) = omega (arith, at)
start-at_most (h ∷ hs) (ls ∷ bs) (suc p) (here, at, older) =
    omega (arith, start-at_most hs bs p older)

lt_or_gt : (i j : ℕ) → i ≢ j → (i < j) ⊎ (j < i)
lt_or_gt i j h = grind arith

-- The start serial of the handler of a number.
placed :
    (hs : List Handler) (id : ℕ) (h : Handler)
    → handler_at hs id ≡ some h
    → start_of (get_elem? hs (length hs - 1 - id)) ≡ h.bulk.start_serial
unfolding start_of
placed hs id h e = ap start_of (handler_at-place hs id h e)

-- Two handlers of a manager have no file of the same path, of whatever class, while every bulk but the
-- newest holds a line and less than 2^31 lines are stored.
pub file_path-apart :
    (m : DataManager) (bulks : List (List Bytes)) (i j : ℕ) (h k : Handler) (f g : LogFile)
    → Stores m bulks
    → AllSome (rest bulks)
    → total bulks < 2 ^ 31
    → handler_at m.handlers i ≡ some h
    → handler_at m.handlers j ≡ some k
    → i ≢ j
    → file_path f h.bulk.start_serial ≢ file_path g k.bulk.start_serial
file_path-apart m bulks i j h k f g s some_lines few ei ej apart =
    let hs = m.handlers in
    let p = length hs - 1 - i in
    let q = length hs - 1 - j in
    let hi = handler_at-lt hs i h ei in
    let hj = handler_at-lt hs j k ej in
    let pi = placed hs i h ei in
    let pj = placed hs j k ej in
    let differ : h.bulk.start_serial ≢ k.bulk.start_serial = elim (lt_or_gt i j apart) [
      | inl lt ↦
          let falls =
            start-falls hs bulks q p s.held some_lines (omega (arith, lt, hj))
              (omega (arith, hi)) in
          λ e. omega (arith, falls, pi, pj, e)
      | inr gt ↦
          let falls =
            start-falls hs bulks p q s.held some_lines (omega (arith, gt, hi))
              (omega (arith, hj)) in
          λ e. omega (arith, falls, pi, pj, e)
    ] in
    file_path_distinct f g h.bulk.start_serial k.bulk.start_serial
      (omega (arith, start-at_most hs bulks p s.held, pi, few))
      (omega (arith, start-at_most hs bulks q s.held, pj, few)) (inr differ)
