-- ===== src/Bulk/Indexed.antt =====
-- The index of a bulk stays in step with its logs.
use log_service.Prelude.{
  ℕ, ◌+◌, ◌<◌, ◌≡◌, refl, sym, ap, ◌∙◌, true, false, List, [], ◌∷◌, ◌++◌, Option, none, some, Bytes,
  arith, length, length-append, Bool-cases, leb, get_or, inl, inr,
}
use log_service.Config.{bulksize}
use log_service.Trie.{insert, new_trie}
use log_service.Bulk.{
  MemoryBulk, new_index, new_bulk, write_data, append, build_index, get_offset_by_serial,
}

-- One offset and one time for each log; a time that lies in the span.
pub record IsIndexed (b : MemoryBulk) : Type 0 where
  pub offsets : length b.index.offset_list ≡ b.size
  pub times : length b.index.timestamp_list ≡ b.size
  pub room : b.offset < bulksize

pub new_bulk-IsIndexed : (start_serial : ℕ) → IsIndexed (new_bulk start_serial)
unfolding new_bulk new_index
new_bulk-IsIndexed start_serial = record { offsets = refl; times = refl; room = ground arith }

-- The bulk behind an append that fits.
abbrev pub written : MemoryBulk → Bytes → MemoryBulk
written b str = record b {
  data_buffer = write_data b.offset str b.data_buffer;
  offset = b.offset + length str;
}

pub append_full :
    (b : MemoryBulk) (str : Bytes)
    → leb bulksize (b.offset + length str + 1) ≡ true
    → append b str ≡ (b, none)
unfolding append
append_full b str e = rw e refl

pub append_fits :
    (b : MemoryBulk) (str : Bytes)
    → leb bulksize (b.offset + length str + 1) ≡ false
    → append b str ≡ (written b str, some b.offset)
unfolding append
append_fits b str e = rw e refl

-- What `Append_log` does with the outcome of the append: a log with an offset is put in the index.
abbrev index_stored : MemoryBulk × Option ℕ → Bytes → Bytes → ℕ → MemoryBulk
index_stored (b, none) content key time = b
index_stored (b, some offset) content key time = build_index b offset content key time

pub log_one : MemoryBulk → Bytes → Bytes → Bytes → ℕ → MemoryBulk
unfolding append build_index
log_one b str content key time = index_stored (append b str) content key time

length-snoc {ℓ} : {A : Type ℓ} (xs : List A) (x : A) → length (xs ++ (x ∷ [])) ≡ length xs + 1
length-snoc xs x = length-append xs (x ∷ [])

get_or-snoc {ℓ} : {A : Type ℓ} (xs : List A) (x d : A) → get_or (xs ++ (x ∷ [])) (length xs) d ≡ x
get_or-snoc [] x d = refl
get_or-snoc (y ∷ xs) x d = get_or-snoc xs x d

-- Appending a log and putting it in the index keep, on both branches of the append, one offset and
-- one time in the index for each log, and the text within the buffer.
pub log_one-IsIndexed :
    (b : MemoryBulk) (str content key : Bytes) (time : ℕ)
    → IsIndexed b
    → IsIndexed (log_one b str content key time)
unfolding log_one build_index
log_one-IsIndexed b str content key time i =
    elim (Bool-cases (leb bulksize (b.offset + length str + 1))) [
      | inl e ↦ rw (log_one, append_full b str e) i
      | inr e ↦
          rw (log_one, append_fits b str e)
            (record {
              offsets = length-snoc b.index.offset_list b.offset ∙ ap (λ n. n + 1) i.offsets;
              times = length-snoc b.index.timestamp_list time ∙ ap (λ n. n + 1) i.times;
              room = ground arith;
            })
    ]

-- The offset of a log that fits is found by its serial number, which is the number of logs before
-- it: it is the end of the text before it.
pub get_offset_by_serial-log_one :
    (b : MemoryBulk) (str content key : Bytes) (time : ℕ)
    → IsIndexed b
    → b.offset + length str + 1 < bulksize
    → get_offset_by_serial (log_one b str content key time) b.size ≡ some b.offset
unfolding log_one build_index get_offset_by_serial
get_offset_by_serial-log_one b str content key time i fits =
    let small : leb bulksize (b.offset + length str + 1) ≡ false = ground arith in
    let held : leb (b.size + 1) b.size ≡ false = ground arith in
    let here : get_or (b.index.offset_list ++ (b.offset ∷ [])) b.size 0 ≡ b.offset =
      ap (λ n. get_or (b.index.offset_list ++ (b.offset ∷ [])) n 0) (sym i.offsets)
      ∙ get_or-snoc b.index.offset_list b.offset 0 in
    rw (log_one, append_fits b str small, held, here) refl

-- The offsets and the number of logs are all that finds an offset.
pub get_offset_by_serial-same :
    (b b' : MemoryBulk) (serial : ℕ)
    → b.size ≡ b'.size
    → b.index.offset_list ≡ b'.index.offset_list
    → get_offset_by_serial b serial ≡ get_offset_by_serial b' serial
unfolding get_offset_by_serial
get_offset_by_serial-same b b' serial size offsets = rw (get_offset_by_serial, size, offsets) refl

pub get_offset_by_serial-lt :
    (b : MemoryBulk) (serial : ℕ)
    → serial < b.size
    → get_offset_by_serial b serial ≡ some (get_or b.index.offset_list serial 0)
unfolding get_offset_by_serial
get_offset_by_serial-lt b serial h = ground arith

-- What putting a log in the index changes and leaves, but for the keywords and the times.
pub record Indexes (b b' : MemoryBulk) (offset : ℕ) (key : Bytes) : Type 0 where
  pub keys : b'.index.key_serial_trie ≡ insert false b.index.key_serial_trie key b.size
  pub offsets : b'.index.offset_list ≡ b.index.offset_list ++ (offset ∷ [])
  pub size : b'.size ≡ b.size + 1
  pub start_serial : b'.start_serial ≡ b.start_serial
  pub text : b'.data_buffer ≡ b.data_buffer
  pub end : b'.offset ≡ b.offset

pub build_index-Indexes :
    (b : MemoryBulk) (offset : ℕ) (content key : Bytes) (time : ℕ)
    → Indexes b (build_index b offset content key time) offset key
unfolding build_index
build_index-Indexes b offset content key time = record {
  keys = refl;
  offsets = refl;
  size = refl;
  start_serial = refl;
  text = refl;
  end = refl;
}

-- A new bulk is empty.
pub new_bulk-fields :
    (n : ℕ)
    → ((new_bulk n).start_serial ≡ n)
      × ((new_bulk n).size ≡ 0)
      × ((new_bulk n).offset ≡ 0)
      × ((new_bulk n).index.offset_list ≡ [])
      × ((new_bulk n).index.key_serial_trie ≡ new_trie)
unfolding new_bulk new_index
new_bulk-fields n = (refl, refl, refl, refl, refl)
