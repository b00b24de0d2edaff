-- ===== src/LogFile.antt =====
-- src/log_processor/LogFile.cpp: the files that a bulk is saved to. A file is the text in it.
-- The files of the offsets and of the times have the same format: the number of entries on a line,
-- then a line for each entry with its index and its value.
pub mod Lists
pub mod Tries
pub mod Names
mod Tests
use log_service.Prelude.{ℕ, zero, suc, ◌+◌, Bool, List, [], ◌∷◌, ◌++◌, Bytes, length}
use log_service.Decimal.{decimal, scan, skip_space}

-- `file >> n` of the standard library, at a number without a sign, and what is left to read.
pub read_number : Bytes → ℕ × Bytes
read_number s = scan 10 0 (skip_space s)

-- The lines from the entry `i` on.
pub entry_lines : ℕ → List ℕ → Bytes
entry_lines i [] = []
entry_lines i (x ∷ xs) = decimal i ++ (b' ' ∷ (decimal x ++ (10 ∷ entry_lines (i + 1) xs)))

-- `Save_index_file`: the file, the list that is left, and the value returned.
pub save_index_file : List ℕ → Bytes × List ℕ × ℕ
unfolding entry_lines
save_index_file offset_list =
    (decimal (length offset_list) ++ (10 ∷ entry_lines 0 offset_list), [], length offset_list)

-- The loop over `file_ >> index >> tmp[i]`.
pub read_entries : ℕ → Bytes → List ℕ
unfolding read_number
read_entries zero file = []
read_entries (suc n) file =
    let (index, rest) = read_number file in
    let (value, rest') = read_number rest in value ∷ read_entries n rest'

-- `Read_index_file`: the list, and the value returned.
pub read_index_file : Bytes → List ℕ × ℕ
unfolding read_entries
read_index_file file = let (len, rest) = read_number file in (read_entries len rest, len)

pub save_timestamp_file : List ℕ → Bytes × List ℕ × ℕ
unfolding entry_lines
save_timestamp_file timestamp_list = (
  decimal (length timestamp_list) ++ (10 ∷ entry_lines 0 timestamp_list),
  [],
  length timestamp_list,
)

pub read_timestamp_file : Bytes → List ℕ × ℕ
unfolding read_entries
read_timestamp_file file = let (len, rest) = read_number file in (read_entries len rest, len)
