-- ===== src/TimeSearch/Bulks.antt =====
-- `Find_start_time_bulkhandler` on handlers in order of their ends.
use log_service.Prelude.{
  ℕ, ◌+◌, ◌-◌, ◌≤◌, ◌<◌, ◌≡◌, refl, ◌⊎◌, inl, inr, false, List, Option, none, some, ltb, ◌==◌,
  arith, length, get_or, Bool-cases, ltb→lt,
}
use log_service.TimeSearch.{find_start_time_bulkhandler}
use log_service.TimeSearch.Bisect.{Rises, bisect-Splits, bisect-right}

module _ (ends : List ℕ) where
  abbrev pub EndsInOrder : Type 0
  EndsInOrder = (i j : ℕ) → i ≤ j → j < length ends → get_or ends i 0 ≤ get_or ends j 0

  -- -1 for no handlers; otherwise a handler behind which all end later than the time, and which,
  -- unless it is the first one, does not.
  abbrev pub StartsAt : ℕ → Option ℕ → Type 0
  StartsAt start none = length ends ≡ 0
  StartsAt start (some k) =
      (k < length ends)
      × ((k ≡ 0) ⊎ (get_or ends k 0 ≤ start))
      × ((i : ℕ) → k < i → i < length ends → start < get_or ends i 0)

  module _ (order : EndsInOrder) where
    later-Rises : (start : ℕ) → Rises (λ i. ltb start (get_or ends i 0)) (length ends)
    later-Rises start i j le lt h = ground (arith, order i j le lt)

    ended : (start i : ℕ) → ltb start (get_or ends i 0) ≡ false → get_or ends i 0 ≤ start
    ended start i h = ground arith

    -- On handlers in order of their ends, the search returns -1 for no handlers, and otherwise the
    -- last handler that ends at the time or earlier, or the first one where there is none such:
    -- all handlers behind it end later.
    pub find_start_time_bulkhandler-StartsAt :
        (start : ℕ) → StartsAt start (find_start_time_bulkhandler start ends)
    unfolding find_start_time_bulkhandler
    find_start_time_bulkhandler-StartsAt start = elim (Bool-cases (length ends == 0)) [
      | inl e ↦ rw e (ground arith)
      | inr e ↦ elim (Bool-cases (ltb start (get_or ends 0 0))) [
        | inl f ↦ rw (e, f) (ground arith, inl refl, λ i h k. ground (arith, order 0 i))
        | inr f ↦ elim (Bool-cases (ltb (get_or ends (length ends - 1) 0) start)) [
          | inl g ↦ rw (e, f, g) (ground arith, inr (ground arith), λ i h k. absurd (ground arith))
          | inr g ↦
              let (s, apart) =
                bisect-Splits (λ i. ltb start (get_or ends i 0)) (length ends) (length ends + 1) 0
                  (length ends - 1) (later-Rises start) f (ground arith) (omega arith)
                  (ground arith) (λ i h. absurd (omega arith)) (λ i h k. absurd (omega arith)) in
              let inside =
                bisect-right (λ i. ltb start (get_or ends i 0)) (length ends + 1) 0
                  (length ends - 1) in
              rw (e, f, g)
                (
                  ground (arith, inside),
                  inr (ended start _ (s.below _ (omega (arith, apart)))),
                  λ i h k. ltb→lt start _ (s.above i (omega (arith, apart)) k),
                )
        ]
      ]
    ]
