-- ===== src/Handler/Calls/Reads.antt =====
-- Reading a bulk's text and offsets back into memory changes neither.
use log_service.Prelude.{
  ◌<◌, get_or, ℕ, ◌≡◌, refl, sym, ap, ◌∙◌, true, false, Option, some, Bytes, List, if◌then◌else◌,
  arith, ◌||◌, inl, inr, Bool-cases,
}
use mathlib.Core.Path.{subst}
use log_service.Config.{release_time}
use log_service.Trie.{search}
use log_service.Bulk.{search_key}
use log_service.Bulk.Indexed.{get_offset_by_serial-lt}
use log_service.Handler.{
  appending, in_memory, Handler, is_saved, is_appending, in_queue_state, with_data, set_timer,
  refill, read_content, get_data, read_index,
}
use log_service.Handler.Calls.{loaded_index, offset_by_serial, serials_of_key}

pub text_in : Handler → Option Bytes
text_in h = (get_data h).1

pub offsets_in : Handler → List ℕ
offsets_in h = (loaded_index h).bulk.index.offset_list

-- What a read leaves alone.
pub record SameLogs (h h' : Handler) : Type 0 where
  pub same_text : text_in h' ≡ text_in h
  pub same_offsets : offsets_in h' ≡ offsets_in h
  pub same_size : h'.bulk.size ≡ h.bulk.size
  pub same_serial : h'.bulk.start_serial ≡ h.bulk.start_serial
  pub same_keys : h'.bulk.index.key_serial_trie ≡ h.bulk.index.key_serial_trie
  pub same_key_read : h'.key_read ≡ h.key_read
  -- A bulk that is written to is in memory already.
  pub untouched : h.state ≡ appending → h.offset_read ≡ true → h' ≡ h
  pub not_reopened : h'.state ≡ appending → h.state ≡ appending

pub SameLogs-refl : (h : Handler) → SameLogs h h
SameLogs-refl h = record {
  same_text = refl;
  same_offsets = refl;
  same_size = refl;
  same_serial = refl;
  same_keys = refl;
  same_key_read = refl;
  untouched = λ a r. refl;
  not_reopened = λ a. a;
}

-- The text by the state.
abbrev shown : Handler → Option Bytes
shown h =
    if is_saved h.state then some (refill h.content_file h.bulk.data_buffer) else h.bulk.data_buffer

-- What `Get_data` makes of a saved bulk.
abbrev filled : Handler → Handler
filled h = record (with_data h (some (refill h.content_file h.bulk.data_buffer))) {
  state = in_memory;
  bulk_timeout = some release_time;
}

get_data-open : (h : Handler) → is_saved h.state ≡ false → (get_data h).0 ≡ h
unfolding get_data
get_data-open h e = ground arith

get_data-saved : (h : Handler) → is_saved h.state ≡ true → (get_data h).0 ≡ filled h
unfolding get_data read_content set_timer
get_data-saved h e = rw (get_data, e, read_content, set_timer) refl

text_in-shown : (h : Handler) → text_in h ≡ shown h
unfolding text_in get_data read_content set_timer
text_in-shown h = elim (Bool-cases (is_saved h.state)) [
  | inl e ↦ rw (text_in, get_data, e, read_content, set_timer) refl
  | inr e ↦ rw (text_in, get_data, e) refl
]

pub loaded_index-read : (h : Handler) → h.offset_read ≡ true → loaded_index h ≡ h
loaded_index-read h e = ground arith

loaded_index-unread : (h : Handler) → h.offset_read ≡ false → loaded_index h ≡ read_index h
loaded_index-unread h e = ground arith

read_index-SameLogs : (h : Handler) → h.offset_read ≡ false → SameLogs h (read_index h)
unfolding offsets_in read_index
read_index-SameLogs h e = record {
  same_text = text_in-shown (read_index h) ∙ sym (text_in-shown h);
  same_offsets = sym (ap (λ (k : Handler). k.bulk.index.offset_list) (loaded_index-unread h e));
  same_size = refl;
  same_serial = refl;
  same_keys = refl;
  same_key_read = refl;
  untouched = λ a r. cc;
  not_reopened = λ a. a;
}

pub loaded_index-SameLogs : (h : Handler) → SameLogs h (loaded_index h)
loaded_index-SameLogs h = elim (Bool-cases h.offset_read) [
  | inl e ↦ subst (SameLogs h) (sym (loaded_index-read h e)) (SameLogs-refl h)
  | inr e ↦ subst (SameLogs h) (sym (loaded_index-unread h e)) (read_index-SameLogs h e)
]

-- Starting the timer of a bulk that is not written to.
timed : Handler → Handler
timed h = record h { bulk_timeout = some release_time }

timed_offsets : (h : Handler) → offsets_in (timed h) ≡ offsets_in h
unfolding offsets_in timed read_index
timed_offsets h = elim (Bool-cases h.offset_read) [
  | inl e ↦
      ap (λ (k : Handler). k.bulk.index.offset_list) (loaded_index-read (timed h) e)
      ∙ sym (ap (λ (k : Handler). k.bulk.index.offset_list) (loaded_index-read h e))
  | inr e ↦
      ap (λ (k : Handler). k.bulk.index.offset_list) (loaded_index-unread (timed h) e)
      ∙ sym (ap (λ (k : Handler). k.bulk.index.offset_list) (loaded_index-unread h e))
]

timed-SameLogs : (h : Handler) → is_appending h.state ≡ false → SameLogs h (timed h)
unfolding timed
timed-SameLogs h e = record {
  same_text = text_in-shown (timed h) ∙ sym (text_in-shown h);
  same_offsets = timed_offsets h;
  same_size = refl;
  same_serial = refl;
  same_keys = refl;
  same_key_read = refl;
  untouched = λ a r. cc (ap is_appending a);
  not_reopened = λ a. a;
}

set_timer-off :
    (h : Handler) → is_appending h.state || in_queue_state h.state ≡ true → set_timer h ≡ h
unfolding set_timer
set_timer-off h e = rw (set_timer, e) refl

set_timer-on :
    (h : Handler) → is_appending h.state || in_queue_state h.state ≡ false → set_timer h ≡ timed h
unfolding set_timer timed
set_timer-on h e = rw (set_timer, e) refl

pub set_timer-SameLogs : (h : Handler) → SameLogs h (set_timer h)
set_timer-SameLogs h = elim (Bool-cases (is_appending h.state || in_queue_state h.state)) [
  | inl e ↦ subst (SameLogs h) (sym (set_timer-off h e)) (SameLogs-refl h)
  | inr e ↦ subst (SameLogs h) (sym (set_timer-on h e)) (timed-SameLogs h (ground arith))
]

filled_offsets : (h : Handler) → offsets_in (filled h) ≡ offsets_in h
unfolding offsets_in read_index
filled_offsets h = elim (Bool-cases h.offset_read) [
  | inl e ↦
      ap (λ (k : Handler). k.bulk.index.offset_list) (loaded_index-read (filled h) e)
      ∙ sym (ap (λ (k : Handler). k.bulk.index.offset_list) (loaded_index-read h e))
  | inr e ↦
      ap (λ (k : Handler). k.bulk.index.offset_list) (loaded_index-unread (filled h) e)
      ∙ sym (ap (λ (k : Handler). k.bulk.index.offset_list) (loaded_index-unread h e))
]

filled-SameLogs : (h : Handler) → is_saved h.state ≡ true → SameLogs h (filled h)
filled-SameLogs h e = record {
  same_text = text_in-shown (filled h) ∙ sym (text_in-shown h ∙ shown_saved e);
  same_offsets = filled_offsets h;
  same_size = refl;
  same_serial = refl;
  same_keys = refl;
  same_key_read = refl;
  untouched = λ a r. cc (ap is_saved a);
  not_reopened = λ a. cc;
}
  where
    shown_saved :
        is_saved h.state ≡ true → shown h ≡ some (refill h.content_file h.bulk.data_buffer)
    shown_saved e = ground arith

pub get_data-SameLogs : (h : Handler) → SameLogs h (get_data h).0
get_data-SameLogs h = elim (Bool-cases (is_saved h.state)) [
  | inl e ↦ subst (SameLogs h) (sym (get_data-saved h e)) (filled-SameLogs h e)
  | inr e ↦ subst (SameLogs h) (sym (get_data-open h e)) (SameLogs-refl h)
]

pub SameLogs-trans : (h k l : Handler) → SameLogs h k → SameLogs k l → SameLogs h l
SameLogs-trans h k l a b = record {
  same_text = b.same_text ∙ a.same_text;
  same_offsets = b.same_offsets ∙ a.same_offsets;
  same_size = b.same_size ∙ a.same_size;
  same_serial = b.same_serial ∙ a.same_serial;
  same_keys = b.same_keys ∙ a.same_keys;
  same_key_read = b.same_key_read ∙ a.same_key_read;
  untouched = λ p r.
      let e = a.untouched p r in
      b.untouched (ap (λ (x : Handler). x.state) e ∙ p) (ap (λ (x : Handler). x.offset_read) e ∙ r)
      ∙ e;
  not_reopened = λ p. a.not_reopened (b.not_reopened p);
}

pub offset_by_serial-in :
    (h : Handler) (serial : ℕ) → (offset_by_serial h serial).0 ≡ loaded_index h
unfolding offset_by_serial
offset_by_serial-in h serial = refl

-- The offset of a log that there is.
pub offset_by_serial-found :
    (h : Handler) (serial : ℕ)
    → serial < h.bulk.size
    → (offset_by_serial h serial).1 ≡ some (get_or (offsets_in h) serial 0)
unfolding offset_by_serial offsets_in
offset_by_serial-found h serial lt =
    let same = (loaded_index-SameLogs h).same_size in
    get_offset_by_serial-lt (loaded_index h).bulk serial (omega (arith, same))

pub get_data-text_in : (h : Handler) → (get_data h).1 ≡ text_in h
unfolding text_in
get_data-text_in h = refl

pub text_in-open : (h : Handler) → is_saved h.state ≡ false → text_in h ≡ h.bulk.data_buffer
text_in-open h e = text_in-shown h ∙ ground arith

pub offsets_in-read : (h : Handler) → h.offset_read ≡ true → offsets_in h ≡ h.bulk.index.offset_list
unfolding offsets_in
offsets_in-read h e = ap (λ (k : Handler). k.bulk.index.offset_list) (loaded_index-read h e)

-- The search for a key whose trie is in memory.
pub serials_of_key-read :
    (h : Handler) (q : Bytes)
    → h.key_read ≡ true
    → serials_of_key h q ≡ some (set_timer h, search h.bulk.index.key_serial_trie q)
unfolding serials_of_key search_key
serials_of_key-read h q e = rw (serials_of_key, e) refl

pub offsets_in-unread :
    (h : Handler) → h.offset_read ≡ false → offsets_in h ≡ (read_index h).bulk.index.offset_list
unfolding offsets_in
offsets_in-unread h e = ap (λ (k : Handler). k.bulk.index.offset_list) (loaded_index-unread h e)
