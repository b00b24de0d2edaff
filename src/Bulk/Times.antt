-- ===== src/Bulk/Times.antt =====
-- `Search_time_key` finds the logs of a key in a span of time.
use log_service.Prelude.{
  ℕ, ◌≤◌, ◌<◌, ◌≡◌, refl, ◌↔◌, inl, inr, List, Option, none, some, Bytes, ltb, arith, length,
  if◌then◌else◌, Bool-cases,
}
use log_service.TimeSearch.{time_at, find_start_time_serial, find_end_time_serial}
use log_service.TimeSearch.Serials.{
  InOrder, FirstFrom, LastUpTo, find_start_time_serial-FirstFrom, find_end_time_serial-LastUpTo,
}
use log_service.Bulk.{
  MemoryBulk, TimeRange, past, nothing, range, key_range, search_key, search_time_key,
}

module _ (times serials : List ℕ) (start end : ℕ) where
  abbrev Within : ℕ → Type 0
  Within k = (start ≤ time_at times serials k) × (time_at times serials k ≤ end)

  -- A range holds the positions in the span and no others; without one there is none in the span.
  abbrev pub IsExact : TimeRange → Type 0
  IsExact past = (k : ℕ) → k < length serials → Within k → ⊥
  IsExact nothing = (k : ℕ) → k < length serials → Within k → ⊥
  IsExact (range l i j) =
      (l ≡ serials)
      × (j < length serials)
      × ((k : ℕ) → k < length serials → ((i ≤ k) × (k ≤ j)) ↔ Within k)

  range-IsExact :
      (order : InOrder times serials) (i j : ℕ)
      → FirstFrom times serials start (some i)
      → LastUpTo times serials end (some j)
      → IsExact (if ltb j i then nothing else range serials i j)
  range-IsExact order i j (in_i, from, before) (in_j, upto, behind) = elim (Bool-cases (ltb j i)) [
    | inl e ↦ rw e (λ k h w. ground (arith, before k, behind k))
    | inr e ↦ rw e (
      refl,
      in_j,
      λ k h. (
        λ p. (omega (arith, order i k p.0 h, from), omega (arith, order k j p.1 in_j, upto)),
        λ w. ground (arith, before k, behind k),
      ),
    )
  ]

  range_or_nothing :
      (order : InOrder times serials) (o p : Option ℕ)
      → FirstFrom times serials start o
      → LastUpTo times serials end p
      → IsExact (elim o [
        | none ↦ nothing
        | some i ↦ elim p [
          | none ↦ nothing
          | some j ↦ if ltb j i then nothing else range serials i j
        ]
      ])
  range_or_nothing order none p f l = λ k h w. omega (arith, f k h)
  range_or_nothing order (some i) none f l = λ k h w. omega (arith, l k h)
  range_or_nothing order (some i) (some j) f l = range-IsExact order i j f l

  key_range-IsExact : InOrder times serials → IsExact (key_range start end times (some serials))
  key_range-IsExact order =
      range_or_nothing order (find_start_time_serial start serials times)
        (find_end_time_serial end serials times)
        (find_start_time_serial-FirstFrom times serials order start)
        (find_end_time_serial-LastUpTo times serials order end)

-- `Search_time_key` of a bulk finds exactly the positions of the key's serials whose times lie in the
-- span asked for, ends included, where the times do not fall, and lie between the bulk's own two.
pub search_time_key-IsExact :
    (b : MemoryBulk) (start end : ℕ) (key : Bytes) (serials : List ℕ)
    → search_key b key ≡ some serials
    → InOrder b.index.timestamp_list serials
    → ((k : ℕ) → k < length serials → b.start_time ≤ time_at b.index.timestamp_list serials k)
    → ((k : ℕ) → k < length serials → time_at b.index.timestamp_list serials k ≤ b.end_time)
    → IsExact b.index.timestamp_list serials start end (search_time_key b start end key)
unfolding search_time_key search_key
search_time_key-IsExact b start end key serials found order lo hi =
    elim (Bool-cases (ltb b.end_time start)) [
      | inl e ↦ rw (search_time_key, e) (λ k h w. ground (arith, hi k h))
      | inr e ↦ elim (Bool-cases (ltb end b.start_time)) [
        | inl f ↦ rw (search_time_key, e, f) (λ k h w. ground (arith, lo k h))
        | inr f ↦
            rw (search_time_key, e, f, found)
              (key_range-IsExact b.index.timestamp_list serials start end order)
      ]
    ]
