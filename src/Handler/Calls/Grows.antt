-- ===== src/Handler/Calls/Grows.antt =====
-- A log that is appended and put in the index, seen from outside the handler.
use mathlib.Core.Path.{subst}
use log_service.Prelude.{
  ℕ, ◌+◌, ◌≡◌, ◌≢◌, refl, sym, ap, ◌∙◌, true, false, [], ◌∷◌, ◌++◌, none, some, Bytes, leb, length,
}
use log_service.Config.{bulksize, autosave_time}
use log_service.Trie.{insert, new_trie}
use log_service.Bulk.{new_bulk, write_data, build_index, earlier, later}
use log_service.Bulk.Indexed.{
  append_full, append_fits, written, build_index-Indexes, new_bulk-fields,
}
use log_service.Handler.{
  appending, in_queue, Handler, is_appending, is_saved, append_log, index_log, new_handler,
}
use log_service.Handler.Closing.{append_log-appending, append_log-closed}
use log_service.Handler.Calls.Reads.{text_in, offsets_in, text_in-open, offsets_in-read}

-- The handler behind a log that fits.
pub record Grows (h h' : Handler) (str key : Bytes) : Type 0 where
  pub still_open : h'.state ≡ appending
  pub buffer : h'.bulk.data_buffer ≡ write_data h.bulk.offset str h.bulk.data_buffer
  pub end : h'.bulk.offset ≡ h.bulk.offset + length str
  pub read : h'.offset_read ≡ h.offset_read
  pub listed : h'.bulk.index.offset_list ≡ h.bulk.index.offset_list ++ (h.bulk.offset ∷ [])
  pub size : h'.bulk.size ≡ h.bulk.size + 1
  pub keys :
      h'.bulk.index.key_serial_trie ≡ insert false h.bulk.index.key_serial_trie key h.bulk.size
  pub key_read : h'.key_read ≡ h.key_read
  pub start_serial : h'.bulk.start_serial ≡ h.bulk.start_serial

index_log-appending :
    (h : Handler) (offset : ℕ) (content key : Bytes) (time : ℕ)
    → h.state ≡ appending
    → index_log h offset content key time ≡ record h {
      start_time = earlier h.start_time time;
      end_time = later h.end_time time;
      bulk = build_index h.bulk offset content key time;
    }
unfolding index_log
index_log-appending h offset content key time e = rw (index_log, e) refl

-- The handler between the append and the index.
abbrev appended : Handler → Bytes → Handler
appended h str = record h {
  bulk = written h.bulk str;
  bulk_auto_persistence = some autosave_time;
  state = appending;
}

pub append_log-fits :
    (h : Handler) (str : Bytes)
    → h.state ≡ appending
    → leb bulksize (h.bulk.offset + length str + 1) ≡ false
    → append_log h str ≡ (appended h str, some h.bulk.offset)
append_log-fits h str a f = append_log-appending h str _ _ a (append_fits h.bulk str f)

pub index_log-Grows :
    (h : Handler) (str content key : Bytes) (time : ℕ)
    → Grows h (index_log (appended h str) h.bulk.offset content key time) str key
index_log-Grows h str content key time =
    let i = build_index-Indexes (written h.bulk str) h.bulk.offset content key time in
    subst (λ (k : Handler). Grows h k str key)
      (sym (index_log-appending (appended h str) h.bulk.offset content key time refl))
      (record {
        still_open = refl;
        buffer = i.text;
        end = i.end;
        read = refl;
        listed = i.offsets;
        size = i.size;
        keys = i.keys;
        key_read = refl;
        start_serial = i.start_serial;
      })

-- The handler behind a log that it refuses: closed, with the logs that it had.
pub record Refuses (h h' : Handler) : Type 0 where
  pub closed : h'.state ≢ appending
  pub same_text : text_in h' ≡ text_in h
  pub same_offsets : offsets_in h' ≡ offsets_in h
  pub same_size : h'.bulk.size ≡ h.bulk.size
  pub same_serial : h'.bulk.start_serial ≡ h.bulk.start_serial
  pub same_keys : h'.bulk.index.key_serial_trie ≡ h.bulk.index.key_serial_trie
  pub same_key_read : h'.key_read ≡ h.key_read

pub append_log-closed_Refuses :
    (h : Handler) (str : Bytes)
    → is_appending h.state ≡ false
    → (h' : Handler) × (append_log h str ≡ (h', none)) × Refuses h h'
append_log-closed_Refuses h str c = (
  h,
  append_log-closed h str c,
  record {
    closed = λ e. cc (ap is_appending e);
    same_text = refl;
    same_offsets = refl;
    same_size = refl;
    same_serial = refl;
    same_keys = refl;
    same_key_read = refl;
  },
)

pub append_log-full_Refuses :
    (h : Handler) (str : Bytes)
    → h.state ≡ appending
    → h.offset_read ≡ true
    → leb bulksize (h.bulk.offset + length str + 1) ≡ true
    → (h' : Handler) × (append_log h str ≡ (h', none)) × Refuses h h'
append_log-full_Refuses h str a r f =
    let h' = record h { bulk = h.bulk; state = in_queue } in
    (
      h',
      append_log-appending h str _ _ a (append_full h.bulk str f),
      record {
        closed = λ e. cc;
        same_text = text_in-open h' refl ∙ sym (text_in-open h (ap is_saved a));
        same_offsets = offsets_in-read h' r ∙ sym (offsets_in-read h r);
        same_size = refl;
        same_serial = refl;
        same_keys = refl;
        same_key_read = refl;
      },
    )

-- A new handler, over a buffer of the pool.
pub record IsNew (h : Handler) (n : ℕ) : Type 0 where
  pub opened : h.state ≡ appending
  pub buffer : h.bulk.data_buffer ≡ some []
  pub end : h.bulk.offset ≡ 0
  pub read : h.offset_read ≡ true
  pub listed : h.bulk.index.offset_list ≡ []
  pub size : h.bulk.size ≡ 0
  pub keys : h.bulk.index.key_serial_trie ≡ new_trie
  pub key_read : h.key_read ≡ true
  pub start_serial : h.bulk.start_serial ≡ n

pub new_handler-IsNew : (n : ℕ) → IsNew (new_handler (new_bulk n)) n
unfolding new_handler
new_handler-IsNew n =
    let (serial, size, end, listed, keys) = new_bulk-fields n in
    record {
      opened = refl;
      buffer = refl;
      end = end;
      read = refl;
      listed = listed;
      size = size;
      keys = keys;
      key_read = refl;
      start_serial = serial;
    }
