-- ===== src/Handler.antt =====
-- The class `MemoryBulkHandler` of include/Data_manager.h, src/log_processor/MemoryBulkHandler.cpp and
-- src/log_processor/data_manager.cpp: a bulk, what of it is in memory, and its files.
-- The lock is modelled in `RwLock`, the wheels in `TimerWheel`: here `bulk_timeout` and
-- `bulk_auto_persistence` hold the time that the handler's timer was last started with.
pub mod Calls
pub mod Closing
use log_service.Prelude.{
  ℕ, ◌+◌, Bool, true, false, not, ◌&&◌, ◌||◌, List, [], ◌∷◌, Option, none, some, Bytes, ltb, ◌==◌,
  if◌then◌else◌,
}
use log_service.Config.{release_time, autosave_time}
use log_service.Trie.{Trie, delete_tree}
use log_service.LogFile.{save_index_file, read_index_file, save_timestamp_file, read_timestamp_file}
use log_service.LogFile.Tries.{
  save_trie_file, read_trie_file, save_word_trie_file, read_word_trie_file,
}
use log_service.Bulk.{
  BulkIndex, MemoryBulk, TimeRange, past, nothing, earlier, later, write_at, append, build_index,
  get_offset_by_serial, search_key, search_keyword, join_search, search_time_key,
}

pub data MemoryBulkState : Type 0 where
  init appending in_queue in_memory saved : MemoryBulkState

-- The files by their text. Each handler has its own, as where the start serials of the bulks differ: the
-- paths are made from them.
pub record Handler : Type 0 where
  pub state : MemoryBulkState
  pub offset_read : Bool
  pub timestamp_read : Bool
  pub key_read : Bool
  pub word_read : Bool
  pub bulk : MemoryBulk
  pub content_file : Bytes
  pub index_file : Bytes
  pub timestamp_file : Bytes
  pub key_file : Bytes
  pub word_file : Bytes
  pub start_time : ℕ
  pub end_time : ℕ
  pub bulk_timeout : Option ℕ
  pub bulk_auto_persistence : Option ℕ

abbrev pub is_appending : MemoryBulkState → Bool
is_appending appending = true
is_appending s = false

abbrev pub is_saved : MemoryBulkState → Bool
is_saved saved = true
is_saved s = false

abbrev pub in_queue_state : MemoryBulkState → Bool
in_queue_state in_queue = true
in_queue_state s = false

-- The states that `Persistence` goes on from.
abbrev pub persists : MemoryBulkState → Bool
persists in_memory = true
persists in_queue = true
persists appending = true
persists s = false

abbrev pub with_index : Handler → (BulkIndex → BulkIndex) → Handler
with_index h f = record h { bulk = record h.bulk { index = f h.bulk.index } }

abbrev pub with_data : Handler → Option Bytes → Handler
with_data h d = record h { bulk = record h.bulk { data_buffer = d } }

-- The constructor, with the buffer that it gets from the pool, which is empty. The wait for it is
-- `DataManager.add_handler`, as every caller that can wait is there.
unfoldable pub new_handler : MemoryBulk → Handler
new_handler b = record {
  state = appending;
  offset_read = true;
  timestamp_read = true;
  key_read = true;
  word_read = true;
  bulk = record b { data_buffer = some [] };
  content_file = [];
  index_file = [];
  timestamp_file = [];
  key_file = [];
  word_file = [];
  start_time = 0;
  end_time = 0;
  bulk_timeout = none;
  bulk_auto_persistence = none;
}

pub set_timer : Handler → Handler
set_timer h =
    if is_appending h.state || in_queue_state h.state
    then h
    else record h { bulk_timeout = some release_time }

pub set_auto_persistence_timer : Handler → Handler
set_auto_persistence_timer h =
    if is_appending h.state then record h { bulk_auto_persistence = some autosave_time } else h

-- `Append`: `none` for -1, which closes the bulk to further logs.
abbrev closes : Option ℕ → MemoryBulkState
closes none = in_queue
closes (some offset) = appending

pub append_log : Handler → Bytes → Handler × Option ℕ
unfolding set_auto_persistence_timer
append_log h str =
    let (b, ret) = append h.bulk str in
    if is_appending h.state
    then (set_auto_persistence_timer (record h { bulk = b; state = closes ret }), ret)
    else (h, none)

pub index_log : Handler → ℕ → Bytes → Bytes → ℕ → Handler
index_log h offset content key timestamp =
    if is_appending h.state
    then record h {
      start_time = earlier h.start_time timestamp;
      end_time = later h.end_time timestamp;
      bulk = build_index h.bulk offset content key timestamp;
    }
    else h

-- `file_ << buffer_` reads through the null pointer where there is no buffer: `none`.
pub save_content : Handler → Option Handler
save_content h = elim h.bulk.data_buffer [
  | none ↦ none
  | some d ↦ some (record h { state = saved; content_file = d })
]

-- `file_.read` into the buffer, a new one where there is none.
abbrev pub refill : Bytes → Option Bytes → Bytes
refill file none = file
refill file (some buffer) = write_at 0 file buffer

pub read_content : Handler → Handler
read_content h = record (with_data h (some (refill h.content_file h.bulk.data_buffer))) {
  state = in_memory;
}

-- `Get_data`
pub get_data : Handler → Handler × Option Bytes
unfolding set_timer read_content
get_data h =
    let h' = if is_saved h.state then set_timer (read_content h) else h in (h', h'.bulk.data_buffer)

pub save_index : Handler → Handler
save_index h =
    let (file, left, len) = save_index_file h.bulk.index.offset_list in
    if not h.offset_read then h else record (with_index h (λ x. record x { offset_list = left })) {
      offset_read = false;
      index_file = file;
    }

pub read_index : Handler → Handler
read_index h =
    let (l, len) = read_index_file h.index_file in
    record (with_index h (λ x. record x { offset_list = l })) { offset_read = true }

pub save_timestamp : Handler → Handler
save_timestamp h =
    let (file, left, len) = save_timestamp_file h.bulk.index.timestamp_list in
    if not h.timestamp_read
    then h
    else record (with_index h (λ x. record x { timestamp_list = left })) {
      timestamp_read = false;
      timestamp_file = file;
    }

pub read_timestamp : Handler → Handler
read_timestamp h =
    let (l, len) = read_timestamp_file h.timestamp_file in
    record (with_index h (λ x. record x { timestamp_list = l })) { timestamp_read = true }

pub save_key_trie : Handler → Option Handler
save_key_trie h =
    if not h.key_read then some h else elim (save_trie_file h.bulk.index.key_serial_trie) [
      | none ↦ none
      | some (file, left, count) ↦
          some (record (with_index h (λ x. record x { key_serial_trie = left })) {
            key_read = false;
            key_file = file;
          })
    ]

pub read_key_trie : Handler → Option Handler
read_key_trie h = elim (read_trie_file h.key_file h.bulk.index.key_serial_trie) [
  | none ↦ none
  | some (t, n) ↦
      some (record (with_index h (λ x. record x { key_serial_trie = t })) { key_read = true })
]

pub save_word_trie : Handler → Option Handler
save_word_trie h =
    if not h.word_read
    then some h
    else elim (save_word_trie_file h.bulk.index.keyword_serial_trie) [
      | none ↦ none
      | some (file, left, count) ↦
          some (record (with_index h (λ x. record x { keyword_serial_trie = left })) {
            word_read = false;
            word_file = file;
          })
    ]

pub read_word_trie : Handler → Option Handler
read_word_trie h = elim (read_word_trie_file h.word_file h.bulk.index.keyword_serial_trie) [
  | none ↦ none
  | some (t, n) ↦
      some (record (with_index h (λ x. record x { keyword_serial_trie = t })) { word_read = true })
]
