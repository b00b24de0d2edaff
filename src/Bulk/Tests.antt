-- ===== src/Bulk/Tests.antt =====
-- Bulks with one log and with three: each theorem at an input.
use log_service.Trie.{new_trie, search}
use log_service.Trie.Node.{node, nil, edge, find, search_node, values_of}
use log_service.TimeSearch.{time_at}
use log_service.TimeSearch.Serials.{InOrder}
use log_service.Bulk.Times.{IsExact, search_time_key-IsExact}
use log_service.Prelude.{
  ℕ, List, ◌<◌, true, false, suc, zero, ◌≤◌, length, ◌≡◌, refl, [], ◌∷◌, some, codes, arith,
}
use log_service.Bulk.{search_key, search_time_key, MemoryBulk, new_bulk, new_index}
use log_service.Bulk.Indexed.{IsIndexed, log_one, log_one-IsIndexed}

abbrev started : MemoryBulk
started = record (new_bulk 0) {
  size = 1;
  index = record new_index { offset_list = 0 ∷ []; timestamp_list = 9 ∷ [] };
  offset = 6;
  data_buffer = some (codes "hello\n");
}

log_one-IsIndexed_example :
    IsIndexed (log_one started (codes "next\n") (codes "next") (codes "k") 11)
log_one-IsIndexed_example =
    log_one-IsIndexed started (codes "next\n") (codes "next") (codes "k") 11
      (record { offsets = refl; times = refl; room = omega arith })

-- Three logs of a key, at the serials 0, 1 and 2.
abbrev timed : MemoryBulk
timed = record (new_bulk 0) {
  start_time = 9;
  end_time = 14;
  size = 3;
  index = record {
    key_serial_trie = record {
      root = some (node b'@' (edge b'k' (node b'k' nil (0 ∷ 1 ∷ 2 ∷ [])) nil) []);
      size = 2;
      valid = true;
      store_in_array = false;
      read_only = false;
    };
    keyword_serial_trie = new_trie;
    offset_list = 0 ∷ 6 ∷ 12 ∷ [];
    timestamp_list = 9 ∷ 11 ∷ 14 ∷ [];
  };
}

abbrev three : List ℕ
three = 0 ∷ 1 ∷ 2 ∷ []

timed_found : search_key timed (codes "k") ≡ some three
unfolding search_key search search_node find values_of
timed_found = refl

timed-InOrder : InOrder timed.index.timestamp_list three
timed-InOrder zero zero p q = ground arith
timed-InOrder zero (suc zero) p q = ground arith
timed-InOrder zero (suc (suc zero)) p q = ground arith
timed-InOrder (suc zero) zero p q = ground arith
timed-InOrder (suc zero) (suc zero) p q = ground arith
timed-InOrder (suc zero) (suc (suc zero)) p q = ground arith
timed-InOrder (suc (suc zero)) zero p q = ground arith
timed-InOrder (suc (suc zero)) (suc zero) p q = ground arith
timed-InOrder (suc (suc zero)) (suc (suc zero)) p q = ground arith
timed-InOrder i (suc (suc (suc j))) p q = absurd (omega arith)
timed-InOrder (suc (suc (suc i))) j p q = absurd (omega arith)

timed_from : (k : ℕ) → k < length three → 9 ≤ time_at timed.index.timestamp_list three k
timed_from zero p = omega arith
timed_from (suc zero) p = omega arith
timed_from (suc (suc zero)) p = omega arith
timed_from (suc (suc (suc k))) p = absurd (omega arith)

timed_upto : (k : ℕ) → k < length three → time_at timed.index.timestamp_list three k ≤ 14
timed_upto zero p = omega arith
timed_upto (suc zero) p = omega arith
timed_upto (suc (suc zero)) p = omega arith
timed_upto (suc (suc (suc k))) p = absurd (omega arith)

search_time_key-IsExact_example :
    IsExact timed.index.timestamp_list three 10 14 (search_time_key timed 10 14 (codes "k"))
search_time_key-IsExact_example =
    search_time_key-IsExact timed 10 14 (codes "k") three timed_found timed-InOrder timed_from
      timed_upto
