-- ===== src/Join/Tests.antt =====
-- The join of two lists: each theorem at an input.
use log_service.Prelude.{ℕ, ◌≡◌, List, [], ◌∷◌, arith}
use log_service.Join.{join}
use log_service.Join.Common.{count, min_count}
use log_service.Join.Count.{count-join}

abbrev lists : List (List ℕ)
lists = (1 ∷ 2 ∷ 2 ∷ 5 ∷ []) ∷ (2 ∷ 5 ∷ 7 ∷ []) ∷ []

count-join_example : count 2 (join lists) ≡ min_count 2 lists
count-join_example = count-join 2 lists (omega arith) (ground arith)
