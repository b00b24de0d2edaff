-- ===== src/MsgQueue/Wait.antt =====
-- `WriteToMsgQueue_Wait`: the writer that spins while the queue is full.
use log_service.Prelude.{
  ℕ, ◌≡◌, ◌⊎◌, inl, inr, refl, ◌∙◌, true, false, List, [], ◌∷◌, Option, none, some, arith, Bytes,
  Bool-cases,
}
use log_service.MsgQueue.{
  MsgQueue, empty, full, clip_len, store, front, release, Reader, idle, reads, reader_step,
  write_to_msg_queue_wait,
}
use log_service.MsgQueue.Invariant.{IsValid}
use log_service.MsgQueue.Refine.{contents, get_busy, contents-release, full-advance}

-- Somewhere in the schedule the reader takes a message.
abbrev pub HasRead : List Reader → Type 0
HasRead [] = ⊥
HasRead (reads ∷ rs) = Unit
HasRead (idle ∷ rs) = HasRead rs

-- The queue that the write finds: the one at the start, or that less its oldest message.
abbrev pub Drained : MsgQueue → MsgQueue → Type 0
Drained q p = (p ≡ q) ⊎ ((m : Bytes) × (contents q ≡ m ∷ contents p))

full-not_empty : (q : MsgQueue) → IsValid q → full q ≡ true → empty q ≡ false
unfolding empty
full-not_empty q v f = ground (arith, full-advance q v)

room_after : (q : MsgQueue) → IsValid q → full q ≡ true → full (release q) ≡ false
room_after q v f = full-advance (release q) (ground arith) ∙ ground (arith, full-advance q v)

reader_step-full : (q : MsgQueue) → IsValid q → full q ≡ true → reader_step reads q ≡ release q
unfolding reader_step
reader_step-full q v f = rw (get_busy q v (full-not_empty q v f), reader_step)

reader_step-idle : (q : MsgQueue) → reader_step idle q ≡ q
unfolding reader_step
reader_step-idle q = refl

wait_now :
    (rs : List Reader) (q : MsgQueue) (buf : Option Bytes) (len : ℕ)
    → full q ≡ false
    → write_to_msg_queue_wait rs q buf len ≡ some (store q buf (clip_len q len), clip_len q len)
unfolding write_to_msg_queue_wait
wait_now [] q buf len f = rw f
wait_now (r ∷ rs) q buf len f = rw f

-- The writer stores its message as soon as the reader has taken one, and takes nothing from the
-- queue itself.
pub wait_returns :
    (rs : List Reader) (q : MsgQueue) (buf : Option Bytes) (len : ℕ)
    → IsValid q
    → HasRead rs
    → (p : MsgQueue) × (write_to_msg_queue_wait rs q buf len
        ≡ some (store p buf (clip_len p len), clip_len p len))
      × (full p ≡ false)
      × Drained q p
unfolding write_to_msg_queue_wait
wait_returns [] q buf len v h = absurd h
wait_returns (reads ∷ rs) q buf len v h = elim (Bool-cases (full q)) [
  | inl f ↦ (
    release q,
    rw (f, reader_step-full q v f) (wait_now rs (release q) buf len (room_after q v f)),
    room_after q v f,
    inr (front q, contents-release q v (full-not_empty q v f)),
  )
  | inr f ↦ (q, wait_now (reads ∷ rs) q buf len f, f, inl refl)
]
wait_returns (idle ∷ rs) q buf len v h = elim (Bool-cases (full q)) [
  | inl f ↦ rw (f, reader_step-idle q) (wait_returns rs q buf len v h)
  | inr f ↦ (q, wait_now (idle ∷ rs) q buf len f, f, inl refl)
]

-- Against a reader that takes nothing it spins for the whole schedule.
pub wait_spins :
    (rs : List Reader) (q : MsgQueue) (buf : Option Bytes) (len : ℕ)
    → full q ≡ true
    → ¬ HasRead rs
    → write_to_msg_queue_wait rs q buf len ≡ none
unfolding write_to_msg_queue_wait reader_step
wait_spins [] q buf len f h = rw f
wait_spins (reads ∷ rs) q buf len f h = absurd (h tt)
wait_spins (idle ∷ rs) q buf len f h = rw f (wait_spins rs q buf len f h)
