-- ===== src/Join/Count.antt =====
-- `Join_search` returns the serials common to all lists: each as often as in the list that has it
-- least often.
use log_service.Prelude.{
  ℕ, zero, suc, ◌+◌, ◌<◌, ◌≡◌, refl, inl, inr, false, List, [], ◌∷◌, arith, length, Bool-cases, ◌∙◌,
  sym,
}
use log_service.Join.{
  deref, find_smallest_iterator, all_equal, are_the_iterator_serial_equal, any_end, advance_all,
  advance_at, total_length, join_loop, join,
}
use log_service.Join.Smallest.{find_smallest_iterator-least}
use log_service.Join.Common.{
  count, AllSorted, min_count, advance_all-AllSorted, advance_at-AllSorted, min_count-ended,
  min_count-advance_all, length-advance_at, min_count-skip,
}

total_length-advance_all :
    (its : List (List ℕ))
    → any_end its ≡ false
    → total_length (advance_all its) + length its ≡ total_length its
unfolding any_end advance_all total_length
total_length-advance_all [] e = refl
total_length-advance_all ([] ∷ ls) e = cc
total_length-advance_all ((x ∷ l) ∷ ls) e = omega (arith, total_length-advance_all ls e)

total_length-advance_at :
    (i : ℕ) (its : List (List ℕ))
    → any_end its ≡ false
    → i < length its
    → total_length (advance_at i its) + 1 ≡ total_length its
unfolding any_end advance_at total_length
total_length-advance_at i [] e h = absurd (omega arith)
total_length-advance_at i ([] ∷ ls) e h = cc
total_length-advance_at zero ((x ∷ l) ∷ ls) e h = omega arith
total_length-advance_at (suc i) ((x ∷ l) ∷ ls) e h =
    omega (arith, total_length-advance_at i ls e (omega arith))

advance_all-cons : (its : List (List ℕ)) → 0 < length its → 0 < length (advance_all its)
unfolding advance_all
advance_all-cons [] h = h
advance_all-cons (l ∷ ls) h = omega arith

count-join_loop :
    (x fuel : ℕ) (its : List (List ℕ))
    → 0 < length its
    → AllSorted its
    → total_length its < fuel
    → count x (join_loop fuel its) ≡ min_count x its
unfolding join_loop are_the_iterator_serial_equal
count-join_loop x zero its pos sorted h = absurd (omega arith)
count-join_loop x (suc fuel) [] pos sorted h = absurd (omega arith)
count-join_loop x (suc fuel) (l ∷ ls) pos sorted h = elim (Bool-cases (any_end (l ∷ ls))) [
  | inl e ↦ rw e (sym (min_count-ended x (l ∷ ls) e))
  | inr e ↦ elim (Bool-cases (all_equal (deref l) (l ∷ ls))) [
    | inl same ↦
        rw
          (
            e,
            same,
            count-join_loop x fuel (advance_all (l ∷ ls)) (advance_all-cons (l ∷ ls) pos)
                (advance_all-AllSorted (l ∷ ls) sorted)
                (omega (arith, total_length-advance_all (l ∷ ls) e)),
          )
          (sym (min_count-advance_all x (deref l) l ls e same))
    | inr other ↦
        let k = find_smallest_iterator (l ∷ ls) in
        let inside = (find_smallest_iterator-least l ls).0 in
        rw (e, other)
          (count-join_loop x fuel (advance_at k (l ∷ ls))
              (omega (arith, length-advance_at k (l ∷ ls))) (advance_at-AllSorted k (l ∷ ls) sorted)
              (omega (arith, total_length-advance_at k (l ∷ ls) e inside))
            ∙ min_count-skip x l ls sorted other)
  ]
]

-- For sorted lists, one at least, `Join_search` returns each serial as often as the list that holds
-- it least often: the serials common to all lists.
pub count-join :
    (x : ℕ) (its : List (List ℕ))
    → 0 < length its
    → AllSorted its
    → count x (join its) ≡ min_count x its
unfolding join
count-join x its pos sorted = count-join_loop x (total_length its + 1) its pos sorted (omega arith)
