-- ===== src/DataManager/Keys/Reads.antt =====
-- `Getkey_log` of src/log_processor/data_manager.cpp: what the handler of one bulk sends for a key.

use log_service.Prelude.{
  ℕ, zero, suc, ◌-◌, ◌≡◌, refl, sym, ap, ◌∙◌, true, List, [], ◌∷◌, Option, some, Bytes, length,
  take, map, reverse, Option-cases, inl, inr,
}
use log_service.Trie.{search}
use log_service.Trie.Map.{found}
use log_service.Handler.{Handler, set_timer}
use log_service.Handler.Calls.{serials_of_key}
use log_service.Handler.Calls.Reads.{
  SameLogs, SameLogs-trans, set_timer-SameLogs, serials_of_key-read,
}
use log_service.QueryResult.{ResultHandler, append_lines}
use log_service.DataManager.{handler_at, set_handler}
use log_service.DataManager.Holds.{Holds, SameLogs-Holds}
use log_service.DataManager.Sending.{send_serials, send_ids}
use log_service.DataManager.Sent.{lines_at, length-lines_at, send_serials-Holds}
use log_service.DataManager.Keys.{positions, has_key}
use log_service.DataManager.Keys.Held.{HoldsKeys, SameLogs-HoldsKeys}
use log_service.DataManager.Keys.Entries.{
  Entry, key_of, line_of, with_key, lines_at-newest, newest-AllBelow, positions-present,
}

-- A handler with the logs of its bulk, and their keys.
abbrev pub HoldsBoth : Handler → List Entry → Type 0
HoldsBoth h es = Holds h (map line_of es) × HoldsKeys h (map key_of es)

module _ (q : Bytes) where
  pub serials_of_key-held :
      (h : Handler) (es : List Entry)
      → HoldsKeys h (map key_of es)
      → has_key q (map key_of es) ≡ true
      → serials_of_key h q ≡ some (set_timer h, some (positions q 0 (map key_of es)))
  unfolding found
  serials_of_key-held h es p has =
      serials_of_key-read h q p.key_read
      ∙ ap (λ (o : Option (List ℕ)). some (set_timer h, o))
          (elim (Option-cases (search h.bulk.index.key_serial_trie q)) [
            | inl e ↦
                absurd
                  (positions-present q 0 (map key_of es) has (sym (p.trie.finds q) ∙ ap found e))
            | inr (l, e) ↦ e ∙ ap some (ap found (sym e) ∙ p.trie.finds q)
          ])

  -- What the handler of one bulk sends.
  pub sent_of_bulk :
      (left : ℕ) (h : Handler) (es : List Entry) (rs : ResultHandler)
      → HoldsBoth h es
      → (h' : Handler) × (send_serials left
            (reverse (positions q 0 (map key_of es)))
            (set_timer h)
            rs
          ≡ some (
            left - length (with_key q (reverse es)),
            h',
            append_lines rs (take left (with_key q (reverse es))),
          ))
        × HoldsBoth h' es
        × SameLogs h h'
  sent_of_bulk left h es rs (p, k) =
      let timed = set_timer-SameLogs h in
      let is = reverse (positions q 0 (map key_of es)) in
      let (h', e, p', same) =
        send_serials-Holds is left (set_timer h) (map line_of es) rs
          (SameLogs-Holds h (set_timer h) (map line_of es) timed p) (newest-AllBelow q es) in
      let all = SameLogs-trans h (set_timer h) h' timed same in
      (
        h',
        e
            ∙ ap
                (λ (n : ℕ).
                  some (left - n, h', append_lines rs (take left (lines_at (map line_of es) is))))
                (sym (length-lines_at (map line_of es) is))
            ∙ ap (λ (ls : List Bytes). some (left - length ls, h', append_lines rs (take left ls)))
                (lines_at-newest q es),
        (p', SameLogs-HoldsKeys h h' (map key_of es) all k),
        all,
      )

  -- The loop over the numbers of the bulks, once a step is known.
  pub send_ids-none :
      (ids : List ℕ) (hs : List Handler) (rs : ResultHandler)
      → send_ids q zero ids hs rs ≡ some (zero, hs, rs)
  unfolding send_ids
  send_ids-none [] hs rs = refl
  send_ids-none (id ∷ ids) hs rs = refl

  pub send_ids-step :
      (left left' id : ℕ) (ids serials : List ℕ) (hs : List Handler) (h h1 h2 : Handler)
      (rs rs' : ResultHandler)
      → handler_at hs id ≡ some h
      → serials_of_key h q ≡ some (h1, some serials)
      → send_serials (suc left) (reverse serials) h1 rs ≡ some (left', h2, rs')
      → send_ids q (suc left) (id ∷ ids) hs rs ≡ send_ids q left' ids (set_handler hs id h2) rs'
  unfolding send_ids
  send_ids-step left left' id ids serials hs h h1 h2 rs rs' a b c = rw (send_ids, a, b, c) refl
