-- ===== src/Join.antt =====
-- The k-way join of src/log_processor/data_manager.cpp: `Find_smallest_iterator`,
-- `Are_the_iterator_serial_equal` and the loop of `MemoryBulk::Join_search`.
-- An iterator into a vector is the rest of the vector from it on.
pub mod Smallest
pub mod Common
pub mod Count
mod Tests
use log_service.Prelude.{
  ℕ, zero, suc, ◌+◌, Bool, true, false, ◌&&◌, ◌||◌, List, [], ◌∷◌, ◌++◌, ltb, ◌==◌, if◌then◌else◌,
  length,
}

-- `*iter`, 0 at the end of the vector, where no caller reads.
abbrev pub deref : List ℕ → ℕ
deref [] = 0
deref (x ∷ rest) = x

-- `iter++`
abbrev pub next : List ℕ → List ℕ
next [] = []
next (x ∷ rest) = rest

-- The loop from index `i` on, with `smallest` and `smallest_serial`.
pub smallest_from : ℕ → ℕ → ℕ → List (List ℕ) → ℕ
smallest_from i smallest serial [] = smallest
smallest_from i smallest serial (l ∷ ls) =
    let less = ltb (deref l) serial in
    smallest_from (i + 1) (if less then i else smallest) (if less then deref l else serial) ls

pub find_smallest_iterator : List (List ℕ) → ℕ
unfolding smallest_from
find_smallest_iterator [] = 0
find_smallest_iterator (l ∷ ls) = smallest_from 1 0 (deref l) ls

pub all_equal : ℕ → List (List ℕ) → Bool
all_equal serial [] = true
all_equal serial (l ∷ ls) = (deref l == serial) && all_equal serial ls

pub are_the_iterator_serial_equal : List (List ℕ) → Bool
unfolding all_equal
are_the_iterator_serial_equal [] = true
are_the_iterator_serial_equal (l ∷ ls) = all_equal (deref l) (l ∷ ls)

-- The loop that looks for an iterator at its end.
pub any_end : List (List ℕ) → Bool
any_end [] = false
any_end ([] ∷ ls) = true
any_end ((x ∷ l) ∷ ls) = any_end ls

pub advance_all : List (List ℕ) → List (List ℕ)
advance_all [] = []
advance_all (l ∷ ls) = next l ∷ advance_all ls

-- `iterator_list[i]++`
pub advance_at : ℕ → List (List ℕ) → List (List ℕ)
advance_at i [] = []
advance_at zero (l ∷ ls) = next l ∷ ls
advance_at (suc i) (l ∷ ls) = l ∷ advance_at i ls

abbrev pub first_serial : List (List ℕ) → ℕ
first_serial [] = 0
first_serial (l ∷ ls) = deref l

pub total_length : List (List ℕ) → ℕ
total_length [] = 0
total_length (l ∷ ls) = length l + total_length ls

-- `while(1)`: every round takes one element at least, so one round more than there are elements
-- is enough fuel.
pub join_loop : ℕ → List (List ℕ) → List ℕ
join_loop zero its = []
join_loop (suc fuel) its =
    let matched = first_serial its ∷ join_loop fuel (advance_all its) in
    let skipped = join_loop fuel (advance_at (find_smallest_iterator its) its) in
    if any_end its then [] else if are_the_iterator_serial_equal its then matched else skipped

pub join : List (List ℕ) → List ℕ
unfolding join_loop total_length
join its = join_loop (total_length its + 1) its
