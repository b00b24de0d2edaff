-- ===== src/TimeSearch/Tests.antt =====
-- Runs of the searches over times: each theorem at an input.
use log_service.Prelude.{ℕ, zero, suc, List, [], ◌∷◌, arith}
use log_service.TimeSearch.{
  find_start_time_serial, find_end_time_serial, find_start_time_bulkhandler,
}
use log_service.TimeSearch.Serials.{
  InOrder, FirstFrom, LastUpTo, find_start_time_serial-FirstFrom, find_end_time_serial-LastUpTo,
}
use log_service.TimeSearch.Bulks.{EndsInOrder, StartsAt, find_start_time_bulkhandler-StartsAt}

-- Logs of two keys, at six times; the second key's are at the serials 1, 3 and 4.
abbrev times : List ℕ
times = 10 ∷ 12 ∷ 12 ∷ 15 ∷ 19 ∷ 20 ∷ []

abbrev serials : List ℕ
serials = 1 ∷ 3 ∷ 4 ∷ []

times_InOrder : InOrder times serials
times_InOrder zero zero p q = ground arith
times_InOrder zero (suc zero) p q = ground arith
times_InOrder zero (suc (suc zero)) p q = ground arith
times_InOrder (suc zero) zero p q = ground arith
times_InOrder (suc zero) (suc zero) p q = ground arith
times_InOrder (suc zero) (suc (suc zero)) p q = ground arith
times_InOrder (suc (suc zero)) zero p q = ground arith
times_InOrder (suc (suc zero)) (suc zero) p q = ground arith
times_InOrder (suc (suc zero)) (suc (suc zero)) p q = ground arith
times_InOrder i (suc (suc (suc j))) p q = absurd (omega arith)
times_InOrder (suc (suc (suc i))) j p q = absurd (omega arith)

ends : List ℕ
ends = 10 ∷ 30 ∷ []

ends_EndsInOrder : EndsInOrder ends
unfolding ends
ends_EndsInOrder zero zero p q = ground arith
ends_EndsInOrder zero (suc zero) p q = ground arith
ends_EndsInOrder (suc zero) zero p q = ground arith
ends_EndsInOrder (suc zero) (suc zero) p q = ground arith
ends_EndsInOrder i (suc (suc j)) p q = absurd (omega arith)
ends_EndsInOrder (suc (suc i)) j p q = absurd (omega arith)

find_start_time_serial-FirstFrom_example :
    FirstFrom times serials 13 (find_start_time_serial 13 serials times)
find_start_time_serial-FirstFrom_example =
    find_start_time_serial-FirstFrom times serials times_InOrder 13

find_end_time_serial-LastUpTo_example :
    LastUpTo times serials 18 (find_end_time_serial 18 serials times)
find_end_time_serial-LastUpTo_example = find_end_time_serial-LastUpTo times serials times_InOrder 18

find_start_time_bulkhandler-StartsAt_example :
    StartsAt ends 17 (find_start_time_bulkhandler 17 ends)
find_start_time_bulkhandler-StartsAt_example =
    find_start_time_bulkhandler-StartsAt ends ends_EndsInOrder 17
