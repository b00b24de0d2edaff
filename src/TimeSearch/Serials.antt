-- ===== src/TimeSearch/Serials.antt =====
-- `Find_start_time_serial` and `Find_end_time_serial` on serials in order of time.
use log_service.Prelude.{
  ℕ, ◌-◌, ◌≤◌, ◌<◌, ◌≡◌, inl, inr, false, List, Option, none, some, ltb, leb, ◌==◌, arith, length,
  Bool-cases, leb→le, ltb→lt,
}
use log_service.TimeSearch.{time_at, find_start_time_serial, find_end_time_serial}
use log_service.TimeSearch.Bisect.{Rises, bisect-Border}

-- The times of a key's serials do not fall.
abbrev pub InOrder : List ℕ → List ℕ → Type 0
InOrder times serials =
    (i j : ℕ) → i ≤ j → j < length serials → time_at times serials i ≤ time_at times serials j

module _ (times serials : List ℕ) where
  -- The first position whose time is `start` or later; -1 if there is none.
  abbrev pub FirstFrom : ℕ → Option ℕ → Type 0
  FirstFrom start none = (i : ℕ) → i < length serials → time_at times serials i < start
  FirstFrom start (some k) =
      (k < length serials)
      × (start ≤ time_at times serials k)
      × ((i : ℕ) → i < k → time_at times serials i < start)

  -- The last position whose time is `end` or earlier; -1 if there is none.
  abbrev pub LastUpTo : ℕ → Option ℕ → Type 0
  LastUpTo end none = (i : ℕ) → i < length serials → end < time_at times serials i
  LastUpTo end (some k) =
      (k < length serials)
      × (time_at times serials k ≤ end)
      × ((i : ℕ) → k < i → i < length serials → end < time_at times serials i)

  module _ (order : InOrder times serials) where
    from-Rises : (start : ℕ) → Rises (λ i. leb start (time_at times serials i)) (length serials)
    from-Rises start i j le lt h = ground (arith, order i j le lt)

    past-Rises : (end : ℕ) → Rises (λ i. ltb end (time_at times serials i)) (length serials)
    past-Rises end i j le lt h = ground (arith, order i j le lt)

    before :
        (start i : ℕ)
        → leb start (time_at times serials i) ≡ false
        → time_at times serials i < start
    before start i h = ground arith

    upto : (end i : ℕ) → ltb end (time_at times serials i) ≡ false → time_at times serials i ≤ end
    upto end i h = ground arith

    -- On serials in order of time the search returns the first position of the time or later, and
    -- -1 exactly where there is none.
    pub find_start_time_serial-FirstFrom :
        (start : ℕ) → FirstFrom start (find_start_time_serial start serials times)
    unfolding find_start_time_serial
    find_start_time_serial-FirstFrom start = elim (Bool-cases (length serials == 0)) [
      | inl e ↦ rw e (λ i h. absurd (ground arith))
      | inr e ↦ elim (Bool-cases (leb start (time_at times serials 0))) [
        | inl f ↦
            rw (e, f)
              (ground arith, leb→le start (time_at times serials 0) f, λ i h. absurd (omega arith))
        | inr f ↦ elim (Bool-cases (ltb (time_at times serials (length serials - 1)) start)) [
          | inl g ↦ rw (e, f, g) (λ i h. ground (arith, order i (length serials - 1)))
          | inr g ↦
              let b =
                bisect-Border (λ i. leb start (time_at times serials i)) (length serials)
                  (from-Rises start) (ground arith) f (ground arith) in
              rw (e, f, g)
                (b.inside, leb→le start _ b.passes, λ i h. before start i (b.splits.below i h))
        ]
      ]
    ]

    -- Likewise the last position of the time or earlier.
    pub find_end_time_serial-LastUpTo :
        (end : ℕ) → LastUpTo end (find_end_time_serial end serials times)
    unfolding find_end_time_serial
    find_end_time_serial-LastUpTo end = elim (Bool-cases (length serials == 0)) [
      | inl e ↦ rw e (λ i h. absurd (ground arith))
      | inr e ↦ elim (Bool-cases (ltb end (time_at times serials 0))) [
        | inl f ↦ rw (e, f) (λ i h. ground (arith, order 0 i))
        | inr f ↦ elim (Bool-cases (leb (time_at times serials (length serials - 1)) end)) [
          | inl g ↦ rw (e, f, g) (ground arith, leb→le _ end g, λ i h k. absurd (ground arith))
          | inr g ↦
              let b =
                bisect-Border (λ i. ltb end (time_at times serials i)) (length serials)
                  (past-Rises end) (ground arith) f (ground arith) in
              rw (e, f, g)
                (
                  omega (arith, b.inside, b.apart),
                  upto end _ b.fails,
                  λ i h k. ltb→lt end _ (b.splits.above i (omega (arith, b.apart)) k),
                )
        ]
      ]
    ]
