-- ===== src/Bulk.antt =====
-- The classes `BulkIndex` and `MemoryBulk` of include/Data_manager.h, with their methods in
-- src/log_processor/data_manager.cpp: one block of log text and the index over it.
pub mod Words
pub mod Indexed
pub mod Times
mod Tests
use log_service.Prelude.{
  ℕ, zero, suc, ◌+◌, ◌-◌, ◌≡◌, Bool, true, false, ◌&&◌, ◌||◌, List, [], ◌∷◌, ◌++◌, Option, none,
  some, Bytes, ltb, leb, ◌==◌, if◌then◌else◌, length, take, drop, get_or,
}
use log_service.Config.{bulksize}
use log_service.Join.{join}
use log_service.TimeSearch.{find_start_time_serial, find_end_time_serial}
use log_service.Trie.{Trie, new_trie, insert, search}
use Words.{split_words}

pub record BulkIndex : Type 0 where
  pub key_serial_trie : Trie ℕ
  pub keyword_serial_trie : Trie ℕ
  pub offset_list : List ℕ
  pub timestamp_list : List ℕ

-- `data` is the buffer `data_->buffer_` up to the bytes that are still NUL; `none` for the null
-- pointer. Only a bulk whose handler is appending is written to, and it has a buffer.
pub record MemoryBulk : Type 0 where
  pub start_serial : ℕ
  pub start_time : ℕ
  pub end_time : ℕ
  pub size : ℕ
  pub index : BulkIndex
  pub offset : ℕ
  pub data_buffer : Option Bytes

pub new_index : BulkIndex
new_index = record {
  key_serial_trie = new_trie;
  keyword_serial_trie = new_trie;
  offset_list = [];
  timestamp_list = [];
}

-- The constructor.
unfoldable pub new_bulk : ℕ → MemoryBulk
unfolding new_index
new_bulk start_serial = record {
  start_serial = start_serial;
  start_time = 0;
  end_time = 0;
  size = 0;
  index = new_index;
  offset = 0;
  data_buffer = none;
}

-- `strncpy(buffer + offset, str, strlen(str))`
abbrev pub write_at : ℕ → Bytes → Bytes → Bytes
write_at offset str buffer = take offset buffer ++ (str ++ drop (offset + length str) buffer)

abbrev pub write_data : ℕ → Bytes → Option Bytes → Option Bytes
write_data offset str none = none
write_data offset str (some buffer) = some (write_at offset str buffer)

-- `MemoryBulk::Append`: `none` for -1.
pub append : MemoryBulk → Bytes → MemoryBulk × Option ℕ
append b str = if leb bulksize (b.offset + length str + 1) then (b, none) else (
  record b { data_buffer = write_data b.offset str b.data_buffer; offset = b.offset + length str },
  some b.offset,
)

pub insert_words : List Bytes → Trie ℕ → ℕ → Trie ℕ
insert_words [] t serial = t
insert_words (w ∷ ws) t serial = insert_words ws (insert true t w serial) serial

-- The two tests that keep the span of time.
abbrev pub earlier : ℕ → ℕ → ℕ
earlier start_time timestamp =
    if ltb timestamp start_time || (start_time == 0) then timestamp else start_time

abbrev pub later : ℕ → ℕ → ℕ
later end_time timestamp = if ltb end_time timestamp then timestamp else end_time

-- `MemoryBulk::Build_index`
pub build_index : MemoryBulk → ℕ → Bytes → Bytes → ℕ → MemoryBulk
unfolding insert_words
build_index b offset content key timestamp = record b {
  index = record {
    key_serial_trie = insert false b.index.key_serial_trie key b.size;
    keyword_serial_trie = insert_words (split_words content) b.index.keyword_serial_trie b.size;
    offset_list = b.index.offset_list ++ (offset ∷ []);
    timestamp_list = b.index.timestamp_list ++ (timestamp ∷ []);
  };
  start_time = earlier b.start_time timestamp;
  end_time = later b.end_time timestamp;
  size = b.size + 1;
}

-- `Get_offset_by_serial`: `none` for -1.
pub get_offset_by_serial : MemoryBulk → ℕ → Option ℕ
get_offset_by_serial b serial =
    if leb b.size serial then none else some (get_or b.index.offset_list serial 0)

pub search_keyword : MemoryBulk → Bytes → Option (List ℕ)
search_keyword b keyword = search b.index.keyword_serial_trie keyword

unfoldable pub search_key : MemoryBulk → Bytes → Option (List ℕ)
search_key b key = search b.index.key_serial_trie key

-- The loop that collects a list for each word, and gives up at a word without one.
pub lists_for : MemoryBulk → List Bytes → Option (List (List ℕ))
unfolding search_keyword
lists_for b [] = some []
lists_for b (w ∷ ws) =
    let rest = lists_for b ws in
    elim (search_keyword b w) [
      | none ↦ none
      | some l ↦ elim rest [ none ↦ none | some ls ↦ some (l ∷ ls) ]
    ]

-- `Join_search`
pub join_search : MemoryBulk → List Bytes → List ℕ
unfolding lists_for
join_search b words = elim (lists_for b words) [ none ↦ [] | some ls ↦ join ls ]

-- What `Search_time_key` leaves behind: the list it returns with `start_index` and `end_index`,
-- or the null pointer, and whether it has set `end_search`.
pub data TimeRange : Type 0 where
  past : TimeRange
  nothing : TimeRange
  range : List ℕ → ℕ → ℕ → TimeRange

abbrev pub key_range : ℕ → ℕ → List ℕ → Option (List ℕ) → TimeRange
key_range start end times none = nothing
key_range start end times (some serials) = elim (find_start_time_serial start serials times) [
  | none ↦ nothing
  | some i ↦ elim (find_end_time_serial end serials times) [
    | none ↦ nothing
    | some j ↦ if ltb j i then nothing else range serials i j
  ]
]

-- `Search_time_key`
pub search_time_key : MemoryBulk → ℕ → ℕ → Bytes → TimeRange
search_time_key b start end key =
    if ltb b.end_time start
    then past
    else if ltb end b.start_time
    then nothing
    else key_range start end b.index.timestamp_list (search b.index.key_serial_trie key)
