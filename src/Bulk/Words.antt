-- ===== src/Bulk/Words.antt =====
-- `Split_key_word` of src/log_processor/data_manager.cpp, and the same loop in
-- `MemoryBulk::Build_index`: `strtok_r` over the delimiters.
use log_service.Prelude.{
  ℕ, Bool, false, ◌||◌, List, [], ◌∷◌, ◌++◌, Bytes, codes, ◌==◌, if◌then◌else◌,
}

-- `delimiters`; the array ends with a backslash, a tab and a line feed.
abbrev delimiters : Bytes
delimiters = codes " ~`!@#$%^&*()+={}[]\":;,.<>?/" ++ (92 ∷ 9 ∷ 10 ∷ [])

has : Bytes → ℕ → Bool
has [] c = false
has (d ∷ ds) c = (d == c) || has ds c

pub is_delimiter : ℕ → Bool
unfolding has
is_delimiter c = has delimiters c

abbrev emit : Bytes → List Bytes → List Bytes
emit [] ws = ws
emit (c ∷ w) ws = (c ∷ w) ∷ ws

-- The words, with the front of the current word in `word`.
pub words_from : Bytes → Bytes → List Bytes
words_from word [] = emit word []
words_from word (c ∷ s) =
    let done = emit word (words_from [] s) in
    let more = words_from (word ++ (c ∷ [])) s in if is_delimiter c then done else more

pub split_words : Bytes → List Bytes
unfolding words_from
split_words s = words_from [] s
