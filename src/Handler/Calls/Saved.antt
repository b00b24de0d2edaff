-- ===== src/Handler/Calls/Saved.antt =====
-- A saved bulk answers as it did in memory.
use log_service.Prelude.{ℕ, ◌≡◌, refl, ap, ◌∙◌, true, false, List, [], Option, none, some, Bytes}
use log_service.Config.{release_time}
use log_service.LogFile.{save_index_file, save_timestamp_file}
use log_service.LogFile.Lists.{
  read_index_file-save_index_file, read_timestamp_file-save_timestamp_file,
}
use log_service.LogFile.Tries.{save_trie_file}
use log_service.Trie.{Trie}
use log_service.Trie.Map.{IsValid}
use log_service.Bulk.Indexed.{get_offset_by_serial-same}
use log_service.Handler.{
  in_memory, saved, Handler, persists, with_data, set_timer, read_content, get_data, read_index,
  save_timestamp, read_timestamp,
}
use log_service.Handler.Calls.Steps.{
  content_step, index_step, timestamp_step, key_step, word_step, save_all-steps, persistence-saves,
  trie_saves,
}
use log_service.Handler.Calls.{persistence, offset_by_serial}

-- All of a bulk is in memory, as while it is appended to: its text, and tries that can be saved.
pub record IsLoaded (h : Handler) (text : Bytes) : Type 0 where
  pub goes_on : persists h.state ≡ true
  pub has_text : h.bulk.data_buffer ≡ some text
  pub offsets_in : h.offset_read ≡ true
  pub times_in : h.timestamp_read ≡ true
  pub keys_in : h.key_read ≡ true
  pub words_in : h.word_read ≡ true
  pub keys_IsValid : IsValid h.bulk.index.key_serial_trie
  pub keys_valid : h.bulk.index.key_serial_trie.valid ≡ true
  pub words_IsValid : IsValid h.bulk.index.keyword_serial_trie
  pub words_valid : h.bulk.index.keyword_serial_trie.valid ≡ true

-- What `Persistence` leaves: files that hold the bulk, and nothing of it in memory.
pub record IsSaved (h h' : Handler) (text : Bytes) : Type 0 where
  pub state_saved : h'.state ≡ saved
  pub no_text : h'.bulk.data_buffer ≡ none
  pub same_size : h'.bulk.size ≡ h.bulk.size
  pub same_serial : h'.bulk.start_serial ≡ h.bulk.start_serial
  pub text_file : h'.content_file ≡ text
  pub offsets_out : h'.offset_read ≡ false
  pub times_out : h'.timestamp_read ≡ false
  pub offsets_left : h'.bulk.index.offset_list ≡ []
  pub times_left : h'.bulk.index.timestamp_list ≡ []
  pub offsets_back : (read_index h').bulk.index.offset_list ≡ h.bulk.index.offset_list
  pub times_back : (read_timestamp h').bulk.index.timestamp_list ≡ h.bulk.index.timestamp_list

-- The handler behind `Persistence`, with what became of the two tries.
abbrev behind : Handler → Bytes → Bytes × Trie ℕ × ℕ → Bytes × Trie ℕ × ℕ → Handler
behind h text k w = record h {
  state = saved;
  offset_read = false;
  timestamp_read = false;
  key_read = false;
  word_read = false;
  content_file = text;
  index_file = (save_index_file h.bulk.index.offset_list).0;
  timestamp_file = (save_timestamp_file h.bulk.index.timestamp_list).0;
  key_file = k.0;
  word_file = w.0;
  bulk = record h.bulk {
    data_buffer = none;
    index = record {
      key_serial_trie = k.1;
      keyword_serial_trie = w.1;
      offset_list = (save_index_file h.bulk.index.offset_list).1;
      timestamp_list = (save_timestamp_file h.bulk.index.timestamp_list).1;
    };
  };
}

persistence-behind :
    (h : Handler) (text : Bytes) (k w : Bytes × Trie ℕ × ℕ)
    → IsLoaded h text
    → save_trie_file h.bulk.index.key_serial_trie ≡ some k
    → save_trie_file h.bulk.index.keyword_serial_trie ≡ some w
    → persistence h ≡ some (behind h text k w, true)
persistence-behind h text k w l ke we =
    let a = content_step h text l.has_text in
    persistence-saves h _ l.goes_on (
      save_all-steps h _ _ _ _ a
        (ap save_timestamp (index_step _ l.offsets_in) ∙ timestamp_step _ l.times_in)
        (key_step _ k l.keys_in ke) (word_step _ w l.words_in we))

-- `Persistence` of a bulk in memory returns 1, and leaves the bulk saved: its buffer is given up, and
-- the text, the offsets and the times are in the files, from which they read back.
pub persistence-IsSaved :
    (h : Handler) (text : Bytes)
    → IsLoaded h text
    → (h' : Handler) × (persistence h ≡ some (h', true)) × IsSaved h h' text
unfolding read_index read_timestamp
persistence-IsSaved h text l =
    let (k, ke) = trie_saves h.bulk.index.key_serial_trie l.keys_IsValid l.keys_valid in
    let (w, we) = trie_saves h.bulk.index.keyword_serial_trie l.words_IsValid l.words_valid in
    let (back, dropped, len) = read_index_file-save_index_file h.bulk.index.offset_list in
    let (back', dropped', len') =
      read_timestamp_file-save_timestamp_file h.bulk.index.timestamp_list in
    (
      behind h text k w,
      persistence-behind h text k w l ke we,
      record {
        state_saved = refl;
        no_text = refl;
        same_size = refl;
        same_serial = refl;
        text_file = refl;
        offsets_out = refl;
        times_out = refl;
        offsets_left = dropped;
        times_left = dropped';
        offsets_back = ap (λ (p : List ℕ × ℕ). p.0) back;
        times_back = ap (λ (p : List ℕ × ℕ). p.0) back';
      },
    )

refuses : (h : Handler) → h.state ≡ saved → persistence h ≡ some (h, false)
unfolding persistence
refuses h e = rw (e, persistence) refl

pub data_back :
    (h : Handler)
    → h.state ≡ saved
    → h.bulk.data_buffer ≡ none
    → get_data h ≡ (
      record (with_data h (some h.content_file)) {
        state = in_memory;
        bulk_timeout = some release_time;
      },
      some h.content_file,
    )
unfolding get_data read_content set_timer
data_back h e d = rw (get_data, e, read_content, d, set_timer) refl

offset_back :
    (h h' : Handler) (text : Bytes) (serial : ℕ)
    → h.offset_read ≡ true
    → IsSaved h h' text
    → (offset_by_serial h' serial).1 ≡ (offset_by_serial h serial).1
unfolding offset_by_serial read_index
offset_back h h' text serial e i =
    rw (i.offsets_out, e)
      (get_offset_by_serial-same (read_index h').bulk h.bulk serial i.same_size i.offsets_back)

-- A bulk that was saved answers as before: a second `Persistence` refuses, the text is read back, with
-- the bulk in memory again and its timer started, and every log is found at its old offset.
pub persistence-answers :
    (h : Handler) (text : Bytes)
    → IsLoaded h text
    → (h' : Handler) × (persistence h ≡ some (h', true))
      × (persistence h' ≡ some (h', false))
      × ((get_data h').1 ≡ some text)
      × ((get_data h').0.state ≡ in_memory)
      × ((get_data h').0.bulk_timeout ≡ some release_time)
      × ((serial : ℕ) → (offset_by_serial h' serial).1 ≡ (offset_by_serial h serial).1)
persistence-answers h text l =
    let (h', e, i) = persistence-IsSaved h text l in
    let back = data_back h' i.state_saved i.no_text in
    (
      h',
      e,
      refuses h' i.state_saved,
      ap (λ (p : Handler × Option Bytes). p.1) back ∙ ap some i.text_file,
      ap (λ (p : Handler × Option Bytes). p.0.state) back,
      ap (λ (p : Handler × Option Bytes). p.0.bulk_timeout) back,
      λ serial. offset_back h h' text serial l.offsets_in i,
    )
