-- ===== src/Handler/Calls/Sample.antt =====
-- A bulk of two logs.
use log_service.Prelude.{ℕ, refl, true, [], ◌∷◌, none, some, Bytes, codes}
use log_service.Trie.{new_trie}
use log_service.Trie.Map.{new_trie-IsValid, new_trie-valid}
use log_service.Handler.{Handler, appending}
use log_service.Handler.Calls.Saved.{IsLoaded}

abbrev pub text : Bytes
text = codes "[key: a] x\n[key: b] y\n"

abbrev pub two_logs : Handler
two_logs = record {
  state = appending;
  offset_read = true;
  timestamp_read = true;
  key_read = true;
  word_read = true;
  bulk = record {
    start_serial = 0;
    start_time = 5;
    end_time = 8;
    size = 2;
    index = record {
      key_serial_trie = new_trie;
      keyword_serial_trie = new_trie;
      offset_list = 0 ∷ 11 ∷ [];
      timestamp_list = 5 ∷ 8 ∷ [];
    };
    offset = 22;
    data_buffer = some text;
  };
  content_file = [];
  index_file = [];
  timestamp_file = [];
  key_file = [];
  word_file = [];
  start_time = 5;
  end_time = 8;
  bulk_timeout = none;
  bulk_auto_persistence = some 30000;
}

pub two_logs-IsLoaded : IsLoaded two_logs text
two_logs-IsLoaded = record {
  goes_on = refl;
  has_text = refl;
  offsets_in = refl;
  times_in = refl;
  keys_in = refl;
  words_in = refl;
  keys_IsValid = new_trie-IsValid ℕ;
  keys_valid = new_trie-valid ℕ;
  words_IsValid = new_trie-IsValid ℕ;
  words_valid = new_trie-valid ℕ;
}
