-- ===== src/DataManager/Keys/Loop.antt =====
-- `Getkey_log` of src/log_processor/data_manager.cpp: the loop over the bulks of a key.

use log_service.Prelude.{
  ℕ, zero, suc, ◌-◌, ◌≡◌, refl, sym, ap, ap₂, ◌∙◌, true, false, List, [], ◌∷◌, ◌++◌, Option, some,
  Bytes, arith, length, take, take-++, map, reverse, reverse-append, append_assoc, append-nil,
  Bool-cases, inl, inr, length-append,
}
use log_service.Handler.{Handler, set_timer}
use log_service.QueryResult.{ResultHandler, append_lines}
use log_service.DataManager.Numbers.{handler_at-middle, set_handler-middle}
use log_service.DataManager.Sending.{send_ids}
use log_service.DataManager.Sent.{append_lines-append}
use log_service.DataManager.Stored.{AllHold, newest_first, total}
use log_service.DataManager.Keys.{positions, has_key, ids_with}
use log_service.DataManager.Keys.Stored.{AllHoldKeys, length-AllHoldKeys}
use log_service.DataManager.Keys.Entries.{
  Entry, key_of, line_of, with_key, with_key-append, with_key-absent,
}
use log_service.DataManager.Keys.Reads.{
  HoldsBoth, serials_of_key-held, sent_of_bulk, send_ids-none, send_ids-step,
}

module _ (q : Bytes) where
  -- What the loop leaves behind.
  abbrev pub Sent : ℕ → List Handler → List Handler → List (List Entry) → ResultHandler → Type 0
  Sent left newer hs es rs =
      let ls = with_key q (newest_first es) in
      (hs' : List Handler) × (send_ids q left (reverse (ids_with q (map (map key_of) es)))
          (newer ++ hs) rs
        ≡ some (left - length ls, newer ++ hs', append_lines rs (take left ls)))
      × AllHold hs' (map (map line_of) es)
      × AllHoldKeys hs' (map (map key_of) es)
      × (length hs' ≡ length hs)

  abbrev pub outcome : ℕ → List Handler → ResultHandler → Option (ℕ × List Handler × ResultHandler)
  outcome left hs rs = some (left, hs, rs)

  -- The loop goes on behind the newest of the bulks: what is sent of it stands in front.
  sent_further :
      (left : ℕ) (es : List Entry) (ess : List (List Entry)) (rs : ResultHandler)
      (hs : List Handler)
      → let ls = with_key q (reverse es) in
        let ks = with_key q (newest_first ess) in
        let all = with_key q (newest_first (es ∷ ess)) in
        outcome
          (left - length ls - length ks)
          hs
          (append_lines (append_lines rs (take left ls)) (take (left - length ls) ks))
        ≡ outcome (left - length all) hs (append_lines rs (take left all))
  unfolding newest_first
  sent_further left es ess rs hs =
      let ls = with_key q (reverse es) in
      let ks = with_key q (newest_first ess) in
      let size : left - length ls - length ks ≡ left - length (ls ++ ks) =
        omega (arith, length-append ls ks) in
      let lines : append_lines (append_lines rs (take left ls)) (take (left - length ls) ks)
          ≡ append_lines rs (take left (ls ++ ks)) =
        sym (append_lines-append rs (take left ls) (take (left - length ls) ks))
        ∙ ap (append_lines rs) (sym (take-++ left ls ks)) in
      ap₂ (λ (n : ℕ) (k : ResultHandler). outcome n hs k) size lines
      ∙ ap (λ (l : List Bytes). outcome (left - length l) hs (append_lines rs (take left l)))
          (sym (with_key-append q (reverse es) (newest_first ess)))

  ids_with-none :
      (es : List Entry) (ess : List (List Entry))
      → has_key q (map key_of es) ≡ false
      → ids_with q (map (map key_of) (es ∷ ess)) ≡ ids_with q (map (map key_of) ess)
  unfolding ids_with
  ids_with-none es ess e = rw (ids_with, e) (append-nil (ids_with q (map (map key_of) ess)))

  ids_with-newest :
      (hs : List Handler) (es : List Entry) (ess : List (List Entry))
      → has_key q (map key_of es) ≡ true
      → AllHoldKeys hs (map (map key_of) ess)
      → reverse (ids_with q (map (map key_of) (es ∷ ess)))
        ≡ length hs ∷ reverse (ids_with q (map (map key_of) ess))
  unfolding ids_with
  ids_with-newest hs es ess e keys =
      rw (ids_with, e)
        (reverse-append (ids_with q (map (map key_of) ess)) _
          ∙ ap (λ (n : ℕ). n ∷ reverse (ids_with q (map (map key_of) ess)))
              (sym (length-AllHoldKeys hs (map (map key_of) ess) keys)))

  module _ (left : ℕ) (newer : List Handler) (h : Handler) (hs : List Handler) (es : List Entry)
      (ess : List (List Entry)) (rs : ResultHandler) (p : HoldsBoth h es)
      (at : h.bulk.start_serial ≡ total (map (map line_of) ess))
      (keys : AllHoldKeys hs (map (map key_of) ess))
      (go : (left : ℕ) (newer : List Handler) (rs : ResultHandler)
        → Sent left newer hs ess rs) where
    send_ids-present :
        has_key q (map key_of es) ≡ true → Sent (suc left) newer (h ∷ hs) (es ∷ ess) rs
    unfolding AllHold AllHoldKeys
    send_ids-present has =
        let ids = reverse (ids_with q (map (map key_of) ess)) in
        let (h', e, both, same) = sent_of_bulk q (suc left) h es rs p in
        let left' = suc left - length (with_key q (reverse es)) in
        let rs' = append_lines rs (take (suc left) (with_key q (reverse es))) in
        let (hs', f, lines, kept, size) = go left' (newer ++ (h' ∷ [])) rs' in
        (
          h' ∷ hs',
          ap (λ (l : List ℕ). send_ids q (suc left) l (newer ++ (h ∷ hs)) rs)
                (ids_with-newest hs es ess has keys)
              ∙ send_ids-step q left left' (length hs) ids (positions q 0 (map key_of es))
                  (newer ++ (h ∷ hs)) h (set_timer h) h' rs rs' (handler_at-middle newer hs h)
                  (serials_of_key-held q h es p.1 has) e
              ∙ ap (λ (l : List Handler). send_ids q left' ids l rs')
                  (set_handler-middle newer hs h h' ∙ sym (append_assoc newer (h' ∷ []) hs))
              ∙ f
              ∙ sent_further (suc left) es ess rs ((newer ++ (h' ∷ [])) ++ hs')
              ∙ ap
                  (λ (l : List Handler).
                    outcome (suc left - length (with_key q (newest_first (es ∷ ess)))) l
                      (append_lines rs (take (suc left) (with_key q (newest_first (es ∷ ess))))))
                  (append_assoc newer (h' ∷ []) hs'),
          (both.0, same.same_serial ∙ at, lines),
          (both.1, kept),
          ap suc size,
        )

    send_ids-absent :
        has_key q (map key_of es) ≡ false → Sent (suc left) newer (h ∷ hs) (es ∷ ess) rs
    unfolding AllHold AllHoldKeys newest_first
    send_ids-absent e =
        let (hs', f, lines, kept, size) = go (suc left) (newer ++ (h ∷ [])) rs in
        let same : with_key q (newest_first ess) ≡ with_key q (newest_first (es ∷ ess)) = sym (
          with_key-append q (reverse es) (newest_first ess)
          ∙ ap (λ (l : List Bytes). l ++ with_key q (newest_first ess)) (with_key-absent q es e)) in
        (
          h ∷ hs',
          ap (λ (l : List ℕ). send_ids q (suc left) (reverse l) (newer ++ (h ∷ hs)) rs)
                (ids_with-none es ess e)
              ∙ ap
                  (λ (l : List Handler).
                    send_ids q (suc left) (reverse (ids_with q (map (map key_of) ess))) l rs)
                  (sym (append_assoc newer (h ∷ []) hs))
              ∙ f
              ∙ ap₂
                  (λ (l : List Handler) (ls : List Bytes).
                    outcome (suc left - length ls) l (append_lines rs (take (suc left) ls)))
                  (append_assoc newer (h ∷ []) hs') same,
          (p.0, at, lines),
          (p.1, kept),
          ap suc size,
        )

  pub send_ids-Holds :
      (left : ℕ) (newer hs : List Handler) (es : List (List Entry)) (rs : ResultHandler)
      → AllHold hs (map (map line_of) es)
      → AllHoldKeys hs (map (map key_of) es)
      → Sent left newer hs es rs
  unfolding AllHold AllHoldKeys ids_with newest_first with_key append_lines send_ids
  send_ids-Holds left newer [] [] rs a b =
      let all_left : left ≡ left - 0 = omega arith in
      let sent : append_lines rs (take left []) ≡ rs = none_to_take left in
      (
        [],
        ap₂ (λ (n : ℕ) (k : ResultHandler). outcome n (newer ++ []) k) all_left (sym sent),
        tt,
        tt,
        refl,
      )
    where
      none_to_take : (n : ℕ) → append_lines rs (take n []) ≡ rs
      none_to_take zero = refl
      none_to_take (suc n) = refl
  send_ids-Holds left newer [] (es ∷ ess) rs a b = absurd a
  send_ids-Holds left newer (h ∷ hs) [] rs a b = absurd a
  send_ids-Holds zero newer (h ∷ hs) (es ∷ ess) rs a b =
      let none_left : 0 ≡ 0 - length (with_key q (newest_first (es ∷ ess))) = omega arith in
      (
        h ∷ hs,
        send_ids-none q (reverse (ids_with q (map (map key_of) (es ∷ ess)))) (newer ++ (h ∷ hs)) rs
            ∙ ap (λ (n : ℕ). outcome n (newer ++ (h ∷ hs)) rs) none_left,
        a,
        b,
        refl,
      )
  send_ids-Holds (suc left) newer (h ∷ hs) (es ∷ ess) rs (p, at, older) (k, keys) =
      let go : (left : ℕ) (newer : List Handler) (rs : ResultHandler) → Sent left newer hs ess rs =
        λ left newer rs. send_ids-Holds left newer hs ess rs older keys in
      elim (Bool-cases (has_key q (map key_of es))) [
        | inl e ↦ send_ids-present left newer h hs es ess rs (p, k) at keys go e
        | inr e ↦ send_ids-absent left newer h hs es ess rs (p, k) at keys go e
      ]
