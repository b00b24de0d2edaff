-- ===== src/DataManager.antt =====
-- src/log_processor/data_manager.cpp: the list of bulks, and storing a log in it. The locks, which
-- each call takes around its access to a handler, are modelled in `RwLock`.
pub mod Lines
pub mod Holds
pub mod Grown
pub mod Stored
pub mod Stores
pub mod Numbers
pub mod Sent
pub mod Recent
mod Tests
pub mod Written
pub mod Notes
pub mod Sending
pub mod Queries
pub mod Keys
pub mod ByKey
pub mod Logs
pub mod Sample
pub mod Files
pub mod Saved
pub mod Times
use log_service.Prelude.{
  ℕ, zero, suc, ◌+◌, ◌-◌, ◌%◌, ◌^◌, Bool, true, false, List, [], ◌∷◌, ◌++◌, Option, none, some,
  Bytes, codes, ◌==◌, ltb, length, get_elem?, set, take, drop, if◌then◌else◌,
}
use log_service.Config.{bulk_pool_len}
use log_service.Decimal.{decimal}
use log_service.ReqData.{ReqData, valid}
use log_service.Trie.{Trie, new_trie, insert, search, modify}
use log_service.Bulk.{MemoryBulk, new_bulk}
use log_service.Handler.{Handler, new_handler, append_log, index_log, get_data}
use log_service.Handler.Calls.{offset_by_serial}

-- `bulk_handler_list`, newest handler first: `back()` is the head, and from `rbegin()` on the
-- order is that of the list. `LogSerial` is `log_serial`. A pointer to a handler, as the global trie
-- holds it, is the number of handlers made before it. `free_units` is how many more times
-- `bulk_data_queue.Get_Unit()` gives a unit: for the units that are free, and for those that the thread of
-- Persistence_worker.cpp gives back while a call waits.
pub record DataManager : Type 0 where
  pub handlers : List Handler
  pub log_serial : ℕ
  pub free_units : ℕ
  pub global_trie : Trie ℕ

unfoldable pub handler_at : List Handler → ℕ → Option Handler
handler_at handlers id =
    if ltb id (length handlers) then get_elem? handlers (length handlers - 1 - id) else none

unfoldable pub set_handler : List Handler → ℕ → Handler → List Handler
set_handler handlers id h = set handlers (length handlers - 1 - id) h

-- `Init_data_manager`. One slot of the pool's ring is always empty, and the first bulk takes a unit.
unfoldable pub init_data_manager : DataManager
init_data_manager = record {
  handlers = new_handler (new_bulk 0) ∷ [];
  log_serial = 0;
  free_units = bulk_pool_len - 2;
  global_trie = new_trie;
}

-- `list->size() > 0 && list->back() == bulk_handler`
pub ends_with : List ℕ → ℕ → Bool
ends_with [] id = false
ends_with (i ∷ []) id = i == id
ends_with (i ∷ j ∷ l) id = ends_with (j ∷ l) id

-- `Add_key_global_trie`; the list is changed through the pointer that `Search` returned.
pub add_key_global_trie : Bytes → ℕ → Trie ℕ → Trie ℕ
unfolding ends_with
add_key_global_trie key id t = elim (search t key) [
  | none ↦ insert false t key id
  | some l ↦ if ends_with l id then t else modify (λ ids. ids ++ (id ∷ [])) t key
]

-- `uint64_t` to `int`, and back by the extension of the sign.
abbrev pub as_int : ℕ → ℕ
as_int n = let low = n % 2 ^ 32 in if ltb low (2 ^ 31) then low else 2 ^ 64 - 2 ^ 32 + low

-- A handler for a new bulk, which takes a unit of the pool; `none` where there is none to take, and the
-- loop of `New_BulkData_init` does not end.
pub add_handler : MemoryBulk → DataManager → Option DataManager
add_handler b m = elim m.free_units [
  | zero ↦ none
  | suc n ↦ some (record m { handlers = new_handler b ∷ m.handlers; free_units = n })
]

-- `New_memory_bulk`, with `LogSerialAdd` of the size of the newest bulk. `start_serial` is an `int`.
pub new_memory_bulk : DataManager → Option DataManager
unfolding add_handler
new_memory_bulk m = elim m.handlers [
  | [] ↦ add_handler (new_bulk 0) m
  | h ∷ hs ↦
      let serial = (m.log_serial + h.bulk.size) % 2 ^ 64 in
      add_handler (new_bulk (as_int serial)) (record m { log_serial = serial })
]

-- `Get_available_memory_bulk`: a manager with a newest handler.
pub available : DataManager → Option DataManager
unfolding new_memory_bulk
available m = elim m.handlers [ [] ↦ new_memory_bulk m | h ∷ hs ↦ some m ]

-- The line that is stored for a request.
unfoldable pub log_line : ReqData → Bytes
log_line r =
    codes "[key: "
    ++ (r.key ++ (codes ", time: " ++ (decimal r.time ++ (codes "] " ++ (r.content ++ (10 ∷ []))))))

-- The append to the newest handler; `none` for -1.
abbrev pub put_back : DataManager → List Handler → Handler × Option ℕ → DataManager × Option ℕ
put_back m hs (h, ret) = (record m { handlers = h ∷ hs }, ret)

pub append_newest : DataManager → Bytes → DataManager × Option ℕ
append_newest m str = elim m.handlers [ [] ↦ (m, none) | h ∷ hs ↦ put_back m hs (append_log h str) ]

-- The log at `offset` of the newest handler, put in its index and in the global trie.
pub index_newest : DataManager → ReqData → ℕ → DataManager
unfolding add_key_global_trie
index_newest m r offset = elim m.handlers [
  | [] ↦ m
  | h ∷ hs ↦ record m {
    handlers = index_log h offset r.content r.key r.time ∷ hs;
    global_trie = add_key_global_trie r.key (length hs) m.global_trie;
  }
]

-- The second attempt, in a new bulk; `none` where the process ends with an error.
abbrev pub index_or_fail : ReqData → DataManager × Option ℕ → Option (DataManager × Bool)
index_or_fail r (m, none) = none
index_or_fail r (m, some offset) = some (index_newest m r offset, true)

-- What follows the first attempt.
abbrev pub index_or_retry : ReqData → DataManager × Option ℕ → Option (DataManager × Bool)
index_or_retry r (m, none) = elim (new_memory_bulk m) [
  | none ↦ none
  | some m' ↦ index_or_fail r (append_newest m' (log_line r))
]
index_or_retry r (m, some offset) = some (index_newest m r offset, true)

-- `Append_log`: the manager, and whether it returns 1 rather than -1; `none` where it does not return.
pub store_log : DataManager → ReqData → Option (DataManager × Bool)
store_log m r =
    if valid r
    then elim (available m) [
      | none ↦ none
      | some m' ↦ index_or_retry r (append_newest m' (log_line r))
    ]
    else some (m, false)

abbrev one_more : Option ℕ → Option ℕ
one_more none = none
one_more (some n) = some (n + 1)

-- `Find_char` for a line feed, up to the NUL: `none` for -1.
pub find_line_feed : Bytes → Option ℕ
find_line_feed [] = none
find_line_feed (c ∷ s) =
    let rest = one_more (find_line_feed s) in
    if c == 10 then some 0 else if c == 0 then none else rest

-- The line at the front of a text, with its line feed.
pub first_line : Bytes → Option Bytes
unfolding find_line_feed
first_line s = elim (find_line_feed s) [ none ↦ none | some len ↦ some (take (len + 1) s) ]

-- `LogHandler` with `Get_content_ref`: the handler, and the bytes that a query copies; `none`
-- where no log has the serial number or the process ends with an error.
pub read_line : Handler → ℕ → Option (Handler × Bytes)
unfolding first_line
read_line h serial =
    let (h1, found) = offset_by_serial h serial in
    let (h2, text) = get_data h1 in
    elim found [
      | none ↦ none
      | some offset ↦ elim text [
        | none ↦ none
        | some d ↦ elim (first_line (drop offset d)) [ none ↦ none | some l ↦ some (h2, l) ]
      ]
    ]
