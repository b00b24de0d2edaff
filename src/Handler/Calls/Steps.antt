-- ===== src/Handler/Calls/Steps.antt =====
-- The saves of `Persistence`, one by one.
use log_service.Prelude.{ℕ, ◌≡◌, refl, true, false, ◌∷◌, ◌++◌, none, some, Bytes}
use log_service.Decimal.{decimal}
use log_service.LogFile.{save_index_file, save_timestamp_file}
use log_service.LogFile.Tries.{save_trie_file}
use log_service.LogFile.Tries.Counted.{save_trie_file-size}
use log_service.Trie.{Trie, delete_tree, set_read_only}
use log_service.Trie.Map.{IsValid}
use log_service.Handler.{
  saved, Handler, persists, with_index, with_data, save_content, save_index, save_timestamp,
  save_key_trie, save_word_trie,
}
use log_service.Handler.Calls.{save_all, persistence}

pub content_step :
    (h : Handler) (text : Bytes)
    → h.bulk.data_buffer ≡ some text
    → save_content h ≡ some (record h { state = saved; content_file = text })
unfolding save_content
content_step h text e = rw e refl

pub index_step :
    (h : Handler)
    → h.offset_read ≡ true
    → save_index h
      ≡ record (with_index h
          (λ x. record x { offset_list = (save_index_file h.bulk.index.offset_list).1 })) {
            offset_read = false;
            index_file = (save_index_file h.bulk.index.offset_list).0;
          }
unfolding save_index
index_step h e = rw e refl

pub timestamp_step :
    (h : Handler)
    → h.timestamp_read ≡ true
    → save_timestamp h
      ≡ record (with_index h (λ x. record x {
        timestamp_list = (save_timestamp_file h.bulk.index.timestamp_list).1;
      })) {
        timestamp_read = false;
        timestamp_file = (save_timestamp_file h.bulk.index.timestamp_list).0;
      }
unfolding save_timestamp
timestamp_step h e = rw e refl

pub key_step :
    (h : Handler) (k : Bytes × Trie ℕ × ℕ)
    → h.key_read ≡ true
    → save_trie_file h.bulk.index.key_serial_trie ≡ some k
    → save_key_trie h
      ≡ some (record (with_index h (λ x. record x { key_serial_trie = k.1 })) {
        key_read = false;
        key_file = k.0;
      })
unfolding save_key_trie
key_step h k e s = rw (e, s) refl

pub word_step :
    (h : Handler) (w : Bytes × Trie ℕ × ℕ)
    → h.word_read ≡ true
    → save_trie_file h.bulk.index.keyword_serial_trie ≡ some w
    → save_word_trie h
      ≡ some (record (with_index h (λ x. record x { keyword_serial_trie = w.1 })) {
        word_read = false;
        word_file = w.0;
      })
unfolding save_word_trie
word_step h w e s = rw (e, s) refl

pub save_all-steps :
    (h h1 h2 h3 h4 : Handler)
    → save_content h ≡ some h1
    → save_timestamp (save_index h1) ≡ h2
    → save_key_trie h2 ≡ some h3
    → save_word_trie h3 ≡ some h4
    → save_all h ≡ some (with_data h4 none)
unfolding save_all
save_all-steps h h1 h2 h3 h4 a b c d = rw (save_all, a, b, c, d) refl

pub persistence-saves :
    (h h' : Handler)
    → persists h.state ≡ true
    → save_all h ≡ some h'
    → persistence h ≡ some (h', true)
unfolding persistence
persistence-saves h h' a b = rw (persistence, a, b) refl

pub trie_saves :
    (t : Trie ℕ)
    → IsValid t
    → t.valid ≡ true
    → (k : Bytes × Trie ℕ × ℕ) × (save_trie_file t ≡ some k)
trie_saves t h v =
    let (text, e) = save_trie_file-size t h v in
    ((decimal t.size ++ (10 ∷ text), set_read_only (delete_tree t), t.size), e)
