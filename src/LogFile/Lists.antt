-- ===== src/LogFile/Lists.antt =====
-- The lists of a bulk read back as they were saved.
use log_service.Prelude.{
  ℕ, ◌+◌, ◌≡◌, refl, ap, ◌⊎◌, inl, inr, List, [], ◌∷◌, ◌++◌, Bytes, length, arith,
}
use log_service.Decimal.{decimal}
use log_service.Decimal.RoundTrip.{scan-decimal, Ends, skip_space-decimal, skip_space-space}
use log_service.LogFile.{
  read_number, entry_lines, save_index_file, read_entries, read_index_file, save_timestamp_file,
  read_timestamp_file,
}

read_number-decimal :
    (n : ℕ) (rest : Bytes) → Ends rest → read_number (decimal n ++ rest) ≡ (n, rest)
unfolding read_number
read_number-decimal n rest h = rw (skip_space-decimal n rest) (scan-decimal n rest h)

read_number-space :
    (c n : ℕ) (rest : Bytes)
    → (c ≡ b' ') ⊎ (c ≡ 10)
    → Ends rest
    → read_number (c ∷ (decimal n ++ rest)) ≡ (n, rest)
unfolding read_number
read_number-space c n rest space h =
    rw (skip_space-space c (decimal n ++ rest) space, skip_space-decimal n rest)
      (scan-decimal n rest h)

read_entries-entry_lines :
    (i c : ℕ) (xs : List ℕ)
    → (c ≡ b' ') ⊎ (c ≡ 10)
    → read_entries (length xs) (c ∷ entry_lines i xs) ≡ xs
unfolding read_entries entry_lines
read_entries-entry_lines i c [] space = refl
read_entries-entry_lines i c (x ∷ xs) space =
    rw
      (
        read_number-space c i (b' ' ∷ (decimal x ++ (10 ∷ entry_lines (i + 1) xs))) space
            (omega arith),
        read_number-space b' ' x (10 ∷ entry_lines (i + 1) xs) (inl refl) (omega arith),
      )
      (ap (◌∷◌ x) (read_entries-entry_lines (i + 1) 10 xs (inr refl)))

-- The offsets that are saved read back, with their number, and the list in memory is dropped.
pub read_index_file-save_index_file :
    (l : List ℕ)
    → (read_index_file (save_index_file l).0 ≡ (l, length l))
      × ((save_index_file l).1 ≡ [])
      × ((save_index_file l).2 ≡ length l)
unfolding read_index_file save_index_file
read_index_file-save_index_file l = (
  rw (read_number-decimal (length l) (10 ∷ entry_lines 0 l) (omega arith))
      (ap (λ (k : List ℕ). (k, length l)) (read_entries-entry_lines 0 10 l (inr refl))),
  refl,
  refl,
)

-- Likewise the times.
pub read_timestamp_file-save_timestamp_file :
    (l : List ℕ)
    → (read_timestamp_file (save_timestamp_file l).0 ≡ (l, length l))
      × ((save_timestamp_file l).1 ≡ [])
      × ((save_timestamp_file l).2 ≡ length l)
unfolding read_timestamp_file save_timestamp_file
read_timestamp_file-save_timestamp_file l = (
  rw (read_number-decimal (length l) (10 ∷ entry_lines 0 l) (omega arith))
      (ap (λ (k : List ℕ). (k, length l)) (read_entries-entry_lines 0 10 l (inr refl))),
  refl,
  refl,
)
