-- ===== src/Handler/Closing.antt =====
-- `MemoryBulkHandler::Append` closes a bulk at the first log that does not fit.
use log_service.Prelude.{
  ℕ, ◌+◌, ◌≤◌, ◌<◌, ◌≡◌, refl, sym, ap, ap₂, ◌∙◌, ◌++◌, ◌⊎◌, inl, inr, false, Option, none, some,
  Bytes, leb, arith, length, take, length-append, length-take, take-append, append_assoc,
  Bool-cases, leb→le,
}
use log_service.Config.{bulksize, autosave_time}
use log_service.Bulk.{MemoryBulk, append, write_at, write_data}
use log_service.Bulk.Indexed.{append_full, append_fits}
use log_service.Handler.{
  appending, in_queue, Handler, is_appending, set_auto_persistence_timer, append_log,
}

pub append_log-appending :
    (h : Handler) (str : Bytes) (b : MemoryBulk) (ret : Option ℕ)
    → h.state ≡ appending
    → append h.bulk str ≡ (b, ret)
    → append_log h str ≡ elim ret [
      | none ↦ (record h { bulk = b; state = in_queue }, none)
      | some offset ↦ (
        record h { bulk = b; bulk_auto_persistence = some autosave_time; state = appending },
        some offset,
      )
    ]
unfolding append_log set_auto_persistence_timer
append_log-appending h str b none s e = rw (append_log, s, e, set_auto_persistence_timer) refl
append_log-appending h str b (some offset) s e =
    rw (append_log, s, e, set_auto_persistence_timer) refl

pub append_log-closed :
    (h : Handler) (str : Bytes) → is_appending h.state ≡ false → append_log h str ≡ (h, none)
unfolding append_log
append_log-closed h str e = rw (append_log, e) refl

-- The text of a handler's buffer, up to its offset.
pub record TextIn (h : Handler) (s : Bytes) : Type 0 where
  pub buffer : Bytes
  pub held : h.bulk.data_buffer ≡ some buffer
  pub text : take h.bulk.offset buffer ≡ s

take-write_at :
    (offset : ℕ) (str d : Bytes)
    → offset ≤ length d
    → take (offset + length str) (write_at offset str d) ≡ take offset d ++ str
take-write_at offset str d h =
    let front = take offset d ++ str in
    let size : length front ≡ offset + length str =
      omega (arith, length-append (take offset d) str, length-take offset d) in
    ap₂ take (sym size) (sym (append_assoc (take offset d) str _)) ∙ take-append front _

-- On a handler that appends, with a buffer that reaches to its offset, a log that fits is written at the
-- end of the text in the buffer, the bulk stays open, and the timer that saves it is started. One that
-- does not fit closes the bulk, which it leaves as it is, to every further log.
pub append_log-outcome :
    (h : Handler) (str d : Bytes)
    → h.state ≡ appending
    → h.bulk.data_buffer ≡ some d
    → h.bulk.offset ≤ length d
    → let (h', ret) = append_log h str in
      ((h.bulk.offset + length str + 1 < bulksize)
        × (ret ≡ some h.bulk.offset)
        × (h'.state ≡ appending)
        × (h'.bulk.offset ≡ h.bulk.offset + length str)
        × TextIn h' (take h.bulk.offset d ++ str)
        × (h'.bulk_auto_persistence ≡ some autosave_time))
      ⊎ ((bulksize ≤ h.bulk.offset + length str + 1)
          × (ret ≡ none)
          × (h'.state ≡ in_queue)
          × (h'.bulk ≡ h.bulk)
          × ((more : Bytes) → append_log h' more ≡ (h', none)))
append_log-outcome h str d s buffer inside =
    elim (Bool-cases (leb bulksize (h.bulk.offset + length str + 1))) [
      | inr f ↦
          let e = append_log-appending h str _ _ s (append_fits h.bulk str f) in
          inl (
            ground arith,
            ap (λ (p : Handler × Option ℕ). p.1) e,
            ap (λ (p : Handler × Option ℕ). p.0.state) e,
            ap (λ (p : Handler × Option ℕ). p.0.bulk.offset) e,
            record {
              buffer = write_at h.bulk.offset str d;
              held =
                  ap (λ (p : Handler × Option ℕ). p.0.bulk.data_buffer) e
                  ∙ ap (write_data h.bulk.offset str) buffer;
              text =
                  ap
                    (λ (p : Handler × Option ℕ).
                      take p.0.bulk.offset (write_at h.bulk.offset str d))
                    e
                  ∙ take-write_at h.bulk.offset str d inside;
            },
            ap (λ (p : Handler × Option ℕ). p.0.bulk_auto_persistence) e,
          )
      | inl f ↦
          let e = append_log-appending h str _ _ s (append_full h.bulk str f) in
          inr (
            leb→le bulksize _ f,
            ap (λ (p : Handler × Option ℕ). p.1) e,
            ap (λ (p : Handler × Option ℕ). p.0.state) e,
            ap (λ (p : Handler × Option ℕ). p.0.bulk) e,
            λ more.
                append_log-closed (append_log h str).0 more
                  (ap (λ (p : Handler × Option ℕ). is_appending p.0.state) e),
          )
    ]
