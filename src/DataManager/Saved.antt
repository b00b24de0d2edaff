-- ===== src/DataManager/Saved.antt =====
-- The bulks of src/log_processor/data_manager.cpp behind a save by `Persistence`.
use mathlib.Core.Path.{subst}
use log_service.Prelude.{
  ℕ, zero, suc, ◌-◌, ◌≡◌, sym, ap, ◌∙◌, true, false, List, [], ◌∷◌, Option, some, Bytes, arith,
  length, length-set, get_elem?, set,
}
use log_service.Handler.{Handler, persists, is_saved}
use log_service.Handler.Calls.{persistence}
use log_service.Handler.Calls.Reads.{
  text_in-open, offsets_in-read, offsets_in-unread, get_data-text_in,
}
use log_service.Handler.Calls.Saved.{IsLoaded, IsSaved, persistence-IsSaved, data_back}
use log_service.QueryResult.Complete.{joined}
use log_service.DataManager.{DataManager, handler_at, set_handler}
use log_service.DataManager.Numbers.{handler_at-place}
use log_service.DataManager.Holds.{Holds}
use log_service.DataManager.Stored.{Stores, AllHold}

persists_unsaved : (h : Handler) → persists h.state ≡ true → is_saved h.state ≡ false
persists_unsaved h e = ground arith

-- What the files of a saved bulk hold is what it held.
IsSaved-Holds :
    (h h' : Handler) (text : Bytes) (ls : List Bytes)
    → IsLoaded h text
    → IsSaved h h' text
    → Holds h ls
    → Holds h' ls
IsSaved-Holds h h' text ls l i p =
    let shown : some text ≡ some (joined ls) =
      sym (text_in-open h (persists_unsaved h l.goes_on) ∙ l.has_text) ∙ p.text in
    record {
      text =
          sym (get_data-text_in h')
          ∙ ap (λ (d : Handler × Option Bytes). d.1) (data_back h' i.state_saved i.no_text)
          ∙ ap some i.text_file
          ∙ shown;
      offsets =
          offsets_in-unread h' i.offsets_out
          ∙ i.offsets_back
          ∙ sym (offsets_in-read h l.offsets_in)
          ∙ p.offsets;
      size = i.same_size ∙ p.size;
      all_lines = p.all_lines;
      open_end = λ a. cc (i.state_saved);
    }

-- One of the handlers in place of another that holds the same.
AllHold-set :
    (hs : List Handler) (bulks : List (List Bytes)) (i : ℕ) (h h' : Handler)
    → AllHold hs bulks
    → get_elem? hs i ≡ some h
    → ((ls : List Bytes) → Holds h ls → Holds h' ls)
    → h'.bulk.start_serial ≡ h.bulk.start_serial
    → AllHold (set hs i h') bulks
unfolding AllHold
AllHold-set [] bulks i h h' a e keeps at = a
AllHold-set (k ∷ hs) [] i h h' a e keeps at = absurd a
AllHold-set (k ∷ hs) (ls ∷ bs) zero h h' (p, serial, older) e keeps at =
    let same : k ≡ h = cc e in
    (
      keeps ls (subst (λ (x : Handler). Holds x ls) same p),
      at ∙ ap (λ (x : Handler). x.bulk.start_serial) (sym same) ∙ serial,
      older,
    )
AllHold-set (k ∷ hs) (ls ∷ bs) (suc i) h h' (p, serial, older) e keeps at =
    (p, serial, AllHold-set hs bs i h h' older e keeps at)

pub set_handler-AllHold :
    (hs : List Handler) (id : ℕ) (h h' : Handler) (text : Bytes) (bulks : List (List Bytes))
    → handler_at hs id ≡ some h
    → IsLoaded h text
    → IsSaved h h' text
    → AllHold hs bulks
    → AllHold (set_handler hs id h') bulks
unfolding set_handler
set_handler-AllHold hs id h h' text bulks at l i a =
    AllHold-set hs bulks (length hs - 1 - id) h h' a (handler_at-place hs id h at)
      (λ ls p. IsSaved-Holds h h' text ls l i p) i.same_serial

pub length-set_handler :
    (hs : List Handler) (id : ℕ) (h : Handler) → length (set_handler hs id h) ≡ length hs
unfolding set_handler
length-set_handler hs id h = length-set hs (length hs - 1 - id) h

-- `Persistence` of any handler of a manager, whose bulk is in memory, returns 1, and with the saved bulk in
-- its place the manager stores the same lines in the same bulks: their texts and offsets read back from
-- the files. Nothing is said of the tries.
pub persistence-Stores :
    (m : DataManager) (id : ℕ) (h : Handler) (text : Bytes) (bulks : List (List Bytes))
    → Stores m bulks
    → handler_at m.handlers id ≡ some h
    → IsLoaded h text
    → (h' : Handler) × (persistence h ≡ some (h', true))
      × Stores (record m { handlers = set_handler m.handlers id h' }) bulks
persistence-Stores m id h text bulks s at l =
    let (h', e, i) = persistence-IsSaved h text l in
    (
      h',
      e,
      record {
        some_bulk = omega (arith, s.some_bulk, length-set_handler m.handlers id h');
        held = set_handler-AllHold m.handlers id h h' text bulks at l i s.held;
        serial = s.serial;
      },
    )
