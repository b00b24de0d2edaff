-- ===== src/TimeSearch.antt =====
-- The binary searches of src/log_processor/data_manager.cpp over serials in order of time.
pub mod Bisect
pub mod Serials
pub mod Bulks
mod Tests
use log_service.Prelude.{
  ℕ, zero, suc, ◌+◌, ◌-◌, ◌/◌, Bool, true, false, List, [], Option, none, some, ltb, leb, ◌==◌,
  if◌then◌else◌, length, get_or,
}

-- `while (left <= right)`: `test mid` sends the search to the left half. At the middle 0 every caller
-- goes right, since it has tested the first element before the loop, so `right` stays above -1.
-- The pair holds `left` and `right` at the end.
pub bisect : (ℕ → Bool) → ℕ → ℕ → ℕ → ℕ × ℕ
bisect test zero left right = (left, right)
bisect test (suc fuel) left right =
    let mid = left + (right - left) / 2 in
    let to_left = bisect test fuel left (mid - 1) in
    let to_right = bisect test fuel (mid + 1) right in
    let rest = if test mid then to_left else to_right in
    if leb left right then rest else (left, right)

-- `timestamp_list[array[i]]`
abbrev pub time_at : List ℕ → List ℕ → ℕ → ℕ
time_at times serials i = get_or times (get_or serials i 0) 0

-- `none` for -1. The rounds halve the range, so as many as there are serials are enough fuel.
pub find_start_time_serial : ℕ → List ℕ → List ℕ → Option ℕ
unfolding bisect
find_start_time_serial start_time serials times =
    let n = length serials in
    let found = some (bisect (λ i. leb start_time (time_at times serials i)) (n + 1) 0 (n - 1)).0 in
    if n == 0
    then none
    else if leb start_time (time_at times serials 0)
    then some 0
    else if ltb (time_at times serials (n - 1)) start_time
    then none
    else found

pub find_end_time_serial : ℕ → List ℕ → List ℕ → Option ℕ
unfolding bisect
find_end_time_serial end_time serials times =
    let n = length serials in
    let found = some (bisect (λ i. ltb end_time (time_at times serials i)) (n + 1) 0 (n - 1)).1 in
    if n == 0
    then none
    else if ltb end_time (time_at times serials 0)
    then none
    else if leb (time_at times serials (n - 1)) end_time
    then some (n - 1)
    else found

-- Over the `end_time_` fields of the handlers.
pub find_start_time_bulkhandler : ℕ → List ℕ → Option ℕ
unfolding bisect
find_start_time_bulkhandler start_time ends =
    let n = length ends in
    let found = some (bisect (λ i. ltb start_time (get_or ends i 0)) (n + 1) 0 (n - 1)).1 in
    if n == 0
    then none
    else if ltb start_time (get_or ends 0 0)
    then some 0
    else if ltb (get_or ends (n - 1) 0) start_time
    then some (n - 1)
    else found
