-- ===== src/DataManager/Stores.antt =====
-- `Append_log` against the sequence of the lines stored.

use log_service.Prelude.{
  ℕ, zero, suc, ◌+◌, ◌≤◌, ◌%◌, ◌^◌, ◌<◌, ◌≡◌, refl, ap, ◌∙◌, Bool, true, false, List, [], ◌∷◌,
  Option, none, some, Bytes, arith, length, leb, inl, inr, Bool-cases,
}
use log_service.Config.{bulksize}
use log_service.ReqData.{ReqData, valid}
use log_service.Trie.{Trie}
use log_service.Bulk.{new_bulk}
use log_service.Handler.{
  MemoryBulkState, init, in_queue, in_memory, saved, Handler, appending, is_appending, append_log,
  index_log, new_handler,
}
use log_service.Handler.Calls.Grows.{
  Refuses, append_log-fits, append_log-closed_Refuses, append_log-full_Refuses, index_log-Grows,
  new_handler-IsNew,
}
use log_service.DataManager.{
  as_int, DataManager, store_log, available, append_newest, index_or_retry, index_or_fail, put_back,
  index_newest, new_memory_bulk, add_handler, log_line, add_key_global_trie,
}
use log_service.DataManager.Lines.{IsLine}
use log_service.DataManager.Holds.{Holds}
use log_service.DataManager.Grown.{Grows-Holds, Refuses-Holds, IsNew-Holds}
use log_service.DataManager.Keys.Stored.{StoresKeys, StoresKeys-grown, StoresKeys-fresh}
use log_service.DataManager.Stored.{
  newest_first, total, AllHold, made, put_in, newest_first-put_in, total-put_in, Stores, not_held,
  held_parts,
}

appending_of : (s : MemoryBulkState) → is_appending s ≡ true → s ≡ appending
appending_of init e = cc
appending_of appending e = refl
appending_of in_queue e = cc
appending_of in_memory e = cc
appending_of saved e = cc

-- The manager behind a log that is stored, and what of the lines and keys that holds.
pub record Puts (m : DataManager) (r : ReqData) (bulks : List (List Bytes)) : Type 0 where
  pub manager : DataManager
  pub fresh : Bool
  pub done : store_log m r ≡ some (manager, true)
  pub stores : Stores manager (put_in fresh (log_line r) bulks)
  pub units : m.free_units ≤ manager.free_units + 1
  pub keys :
      (kss : List (List Bytes)) → StoresKeys m kss → StoresKeys manager (put_in fresh r.key kss)

module _ (r : ReqData) (ok : valid r ≡ true) (u : ℕ) (h : Handler) (hs : List Handler) (n : ℕ)
    (t : Trie ℕ) where
  store_log-in_newest :
      (h' : Handler) (offset : ℕ)
      → append_log h (log_line r) ≡ (h', some offset)
      → store_log (made u (h ∷ hs) n t) r
        ≡ some (
          made u
              (index_log h' offset r.content r.key r.time ∷ hs)
              n
              (add_key_global_trie r.key (length hs) t),
          true,
        )
  unfolding store_log available append_newest index_newest
  store_log-in_newest h' offset e =
      rw (store_log, ok)
        (ap (λ (p : Handler × Option ℕ). index_or_retry r (put_back (made u (h ∷ hs) n t) hs p)) e)

  store_log-in_fresh :
      (v : ℕ) (h' h'' : Handler) (offset : ℕ)
      → append_log h (log_line r) ≡ (h', none)
      → append_log (new_handler (new_bulk (as_int ((n + h'.bulk.size) % 2 ^ 64)))) (log_line r)
        ≡ (h'', some offset)
      → store_log (made (suc v) (h ∷ hs) n t) r
        ≡ some (
          made v
              (index_log h'' offset r.content r.key r.time ∷ h' ∷ hs)
              ((n + h'.bulk.size) % 2 ^ 64)
              (add_key_global_trie r.key (length (h' ∷ hs)) t),
          true,
        )
  unfolding store_log available append_newest index_newest new_memory_bulk add_handler
  store_log-in_fresh v h' h'' offset e f =
      let serial = (n + h'.bulk.size) % 2 ^ 64 in
      rw (store_log, ok)
        (ap
            (λ (p : Handler × Option ℕ).
              index_or_retry r (put_back (made (suc v) (h ∷ hs) n t) hs p))
            e
          ∙ ap
              (λ (p : Handler × Option ℕ). index_or_fail r (
                put_back (made v (new_handler (new_bulk (as_int serial)) ∷ h' ∷ hs) serial t)
                  (h' ∷ hs) p))
              f)

  module _ (ls : List Bytes) (bs : List (List Bytes)) (p : Holds h ls)
      (at : h.bulk.start_serial ≡ total bs) (older : AllHold hs bs) (serial : n ≡ total bs)
      (line : IsLine (log_line r)) where
    stored_in_newest :
        h.state ≡ appending
        → leb bulksize (h.bulk.offset + length (log_line r) + 1) ≡ false
        → Puts (made u (h ∷ hs) n t) r (ls ∷ bs)
    unfolding AllHold total put_in
    stored_in_newest a fits =
        let str = log_line r in
        let g = index_log-Grows h str r.content r.key r.time in
        record {
          manager = _;
          fresh = false;
          done = store_log-in_newest _ h.bulk.offset (append_log-fits h str a fits);
          stores = record {
            some_bulk = omega arith;
            held = (Grows-Holds h _ ls str r.key a line p g, g.start_serial ∙ at, older);
            serial = serial;
          };
          units = omega arith;
          keys = λ kss. StoresKeys-grown u u h hs n n t str r.key _ kss g;
        }

    stored_in_fresh :
        (v : ℕ) (h' : Handler)
        → append_log h (log_line r) ≡ (h', none)
        → Refuses h h'
        → length (log_line r) + 1 < bulksize
        → total (ls ∷ bs) + 1 < 2 ^ 31
        → Puts (made (suc v) (h ∷ hs) n t) r (ls ∷ bs)
    unfolding AllHold total put_in
    stored_in_fresh v h' e w small few =
        let str = log_line r in
        let next = (n + h'.bulk.size) % 2 ^ 64 in
        let k = new_handler (new_bulk (as_int next)) in
        let new = new_handler-IsNew (as_int next) in
        let g = index_log-Grows k str r.content r.key r.time in
        let fits : leb bulksize (k.bulk.offset + length str + 1) ≡ false =
          ground (arith, new.end) in
        let as_int_small : next ≡ total (ls ∷ bs) → as_int next ≡ total (ls ∷ bs) = ground arith in
        let numbered : next ≡ total (ls ∷ bs) = omega (arith, w.same_size, p.size) in
        record {
          manager = _;
          fresh = true;
          done = store_log-in_fresh v h' _ k.bulk.offset e (append_log-fits k str new.opened fits);
          stores = record {
            some_bulk = omega arith;
            held = (
              Grows-Holds k _ [] str r.key new.opened line (IsNew-Holds k (as_int next) new) g,
              g.start_serial ∙ new.start_serial ∙ as_int_small numbered,
              (Refuses-Holds h h' ls w p, w.same_serial ∙ at, older),
            );
            serial = numbered;
          };
          units = omega arith;
          keys = λ kss.
              StoresKeys-fresh (suc v) v h hs n next t str r.key h' k _ (as_int next) kss w new g;
        }

    stored_with_room :
        (w : ℕ) (h' : Handler)
        → 0 < w
        → append_log h (log_line r) ≡ (h', none)
        → Refuses h h'
        → length (log_line r) + 1 < bulksize
        → total (ls ∷ bs) + 1 < 2 ^ 31
        → Puts (made w (h ∷ hs) n t) r (ls ∷ bs)
    stored_with_room zero h' room = absurd (omega (arith, room))
    stored_with_room (suc v) h' room = stored_in_fresh v h'

    stored :
        length (log_line r) + 1 < bulksize
        → total (ls ∷ bs) + 1 < 2 ^ 31
        → 0 < u
        → Puts (made u (h ∷ hs) n t) r (ls ∷ bs)
    stored small few room = elim (Bool-cases (is_appending h.state)) [
      | inr c ↦
          let (h', e, w) = append_log-closed_Refuses h (log_line r) c in
          stored_with_room u h' room e w small few
      | inl a ↦ elim (Bool-cases (leb bulksize (h.bulk.offset + length (log_line r) + 1))) [
        | inr fits ↦ stored_in_newest (appending_of h.state a) fits
        | inl full ↦
            let s = appending_of h.state a in
            let (h', e, w) = append_log-full_Refuses h (log_line r) s (p.open_end s).read full in
            stored_with_room u h' room e w small few
      ]
    ]

pub store_log-Puts :
    (m : DataManager) (r : ReqData) (bulks : List (List Bytes))
    → Stores m bulks
    → valid r ≡ true
    → IsLine (log_line r)
    → length (log_line r) + 1 < bulksize
    → total bulks + 1 < 2 ^ 31
    → 0 < m.free_units
    → Puts m r bulks
store_log-Puts m r bulks s ok line small few room = by_handlers m.handlers bulks s few
  where
    by_handlers :
        (hs : List Handler) (bulks : List (List Bytes))
        → Stores (made m.free_units hs m.log_serial m.global_trie) bulks
        → total bulks + 1 < 2 ^ 31
        → Puts (made m.free_units hs m.log_serial m.global_trie) r bulks
    by_handlers [] bulks s few = absurd (omega (arith, s.some_bulk))
    by_handlers (h ∷ hs) [] s few = absurd (not_held h hs s.held)
    by_handlers (h ∷ hs) (ls ∷ bs) s few =
        let (p, at, older) = held_parts h hs ls bs s.held in
        stored r ok m.free_units h hs m.log_serial m.global_trie ls bs p at older s.serial line
          small few room

-- While less than 2^31 lines are stored and the pool has a unit for one more bulk, a valid request to
-- append, whose line is a single one and fits a bulk, is stored: `Append_log` returns 1, and the lines stored, in the newest bulk or a new one, are
-- those from before with its line in front. It takes one unit of the pool at most.
pub store_log-Stores :
    (m : DataManager) (r : ReqData) (bulks : List (List Bytes))
    → Stores m bulks
    → valid r ≡ true
    → IsLine (log_line r)
    → length (log_line r) + 1 < bulksize
    → total bulks + 1 < 2 ^ 31
    → 0 < m.free_units
    → (m' : DataManager) × (bulks' : List (List Bytes)) × (store_log m r ≡ some (m', true))
      × Stores m' bulks'
      × (newest_first bulks' ≡ log_line r ∷ newest_first bulks)
      × (total bulks' ≡ total bulks + 1)
      × (m.free_units ≤ m'.free_units + 1)
store_log-Stores m r bulks s ok line small few room =
    let put = store_log-Puts m r bulks s ok line small few room in
    (
      put.manager,
      put_in put.fresh (log_line r) bulks,
      put.done,
      put.stores,
      newest_first-put_in put.fresh (log_line r) bulks,
      total-put_in put.fresh (log_line r) bulks,
      put.units,
    )
