-- ===== src/Handler/Calls.antt =====
-- The calls of `MemoryBulkHandler` that save a bulk, drop it from memory, and search it.
pub mod Steps
pub mod Reads
pub mod Grows
pub mod Saved
pub mod Sample
mod Tests
use log_service.Prelude.{
  ℕ, ◌+◌, Bool, true, false, not, ◌&&◌, ◌||◌, List, [], ◌∷◌, Option, none, some, Bytes, ltb, ◌==◌,
  if◌then◌else◌,
}
use log_service.Trie.{Trie, delete_tree}
use log_service.Bulk.{
  BulkIndex, MemoryBulk, TimeRange, past, nothing, get_offset_by_serial, search_key, search_keyword,
  join_search, search_time_key,
}
use log_service.Handler.{
  MemoryBulkState, appending, saved, Handler, is_appending, is_saved, persists, with_index,
  with_data, set_timer, save_content, save_index, read_index, save_timestamp, read_timestamp,
  save_key_trie, read_key_trie, save_word_trie, read_word_trie,
}

-- What `Persistence` does under the write lock; `none` where it does not return.
pub save_all : Handler → Option Handler
save_all h = elim (save_content h) [
  | none ↦ none
  | some h1 ↦ elim (save_key_trie (save_timestamp (save_index h1))) [
    | none ↦ none
    | some h2 ↦ elim (save_word_trie h2) [ none ↦ none | some h3 ↦ some (with_data h3 none) ]
  ]
]

-- `Persistence`: the handler, and whether it returns 1 rather than -1.
pub persistence : Handler → Option (Handler × Bool)
persistence h =
    if persists h.state
    then elim (save_all h) [ none ↦ none | some h' ↦ some (h', true) ]
    else some (h, false)

-- `Delete_Content`; what it does not free belongs to the pool of buffers.
pub delete_content : Handler → Handler
delete_content h = if is_saved h.state then h else record (with_data h none) { state = saved }

pub delete_index : Handler → Handler
delete_index h =
    record (if h.offset_read then with_index h (λ x. record x { offset_list = [] }) else h) {
      offset_read = false;
    }

pub delete_timestamp : Handler → Handler
delete_timestamp h =
    record (if h.timestamp_read then with_index h (λ x. record x { timestamp_list = [] }) else h) {
      timestamp_read = false;
    }

pub delete_key_trie : Handler → Handler
delete_key_trie h =
    record (if h.key_read
      then with_index h (λ x. record x { key_serial_trie = delete_tree x.key_serial_trie })
      else h) { key_read = false }

pub delete_word_trie : Handler → Handler
delete_word_trie h =
    record (if h.word_read
      then with_index h (λ x. record x { keyword_serial_trie = delete_tree x.keyword_serial_trie })
      else h) { word_read = false }

-- `Release_space`
pub release_space : Handler → Handler
unfolding delete_content delete_index delete_timestamp delete_key_trie delete_word_trie
release_space h =
    delete_word_trie (delete_key_trie (delete_timestamp (delete_index (delete_content h))))

abbrev pub loaded_index : Handler → Handler
loaded_index h = if h.offset_read then h else read_index h

abbrev pub loaded_timestamp : Handler → Handler
loaded_timestamp h = if h.timestamp_read then h else read_timestamp h

abbrev pub loaded_key : Handler → Option Handler
loaded_key h = if h.key_read then some h else read_key_trie h

abbrev pub loaded_word : Handler → Option Handler
loaded_word h = if h.word_read then some h else read_word_trie h

-- `Get_offset_by_serial`
pub offset_by_serial : Handler → ℕ → Handler × Option ℕ
unfolding read_index
offset_by_serial h serial = let h' = loaded_index h in (h', get_offset_by_serial h'.bulk serial)

-- The searches: `none` where reading the trie ends the process.
pub serials_of_key : Handler → Bytes → Option (Handler × Option (List ℕ))
unfolding set_timer
serials_of_key h key = elim (loaded_key h) [
  | none ↦ none
  | some h' ↦ some (set_timer h', search_key h'.bulk key)
]

pub serials_of_keyword : Handler → Bytes → Option (Handler × Option (List ℕ))
unfolding set_timer
serials_of_keyword h keyword = elim (loaded_word h) [
  | none ↦ none
  | some h' ↦ some (set_timer h', search_keyword h'.bulk keyword)
]

pub serials_of_words : Handler → List Bytes → Option (Handler × List ℕ)
unfolding set_timer
serials_of_words h words = elim (loaded_word h) [
  | none ↦ none
  | some h' ↦ some (set_timer h', join_search h'.bulk words)
]

-- `Search_time_key`
pub serials_in_time : Handler → ℕ → ℕ → Bytes → Option (Handler × TimeRange)
unfolding set_timer
serials_in_time h start end key =
    if ltb h.end_time start
    then some (h, past)
    else if ltb end h.start_time
    then some (h, nothing)
    else elim (loaded_key h) [
      | none ↦ none
      | some h1 ↦
          let h2 = loaded_timestamp h1 in some (set_timer h2, search_time_key h2.bulk start end key)
    ]
