-- ===== src/LogFile/Tests.antt =====
-- A list of offsets and a trie: each theorem at an input.
use log_service.Prelude.{ℕ, ◌≡◌, ◌≢◌, inl, arith, List, [], ◌∷◌}
use log_service.LogFile.Names.{log_index_file, log_word_trie_file, file_path, file_path_distinct}
use log_service.LogFile.{save_index_file, read_index_file}
use log_service.LogFile.Lists.{read_index_file-save_index_file}

abbrev offsets : List ℕ
offsets = 0 ∷ 31 ∷ 1207 ∷ []

read_index_file-save_index_file_example :
    (read_index_file (save_index_file offsets).0 ≡ (offsets, 3))
    × ((save_index_file offsets).1 ≡ [])
    × ((save_index_file offsets).2 ≡ 3)
read_index_file-save_index_file_example = read_index_file-save_index_file offsets

file_path_distinct_example : file_path log_index_file 7 ≢ file_path log_word_trie_file 7
file_path_distinct_example =
    file_path_distinct log_index_file log_word_trie_file 7 7 (omega arith) (omega arith)
      (inl (λ e. cc))
