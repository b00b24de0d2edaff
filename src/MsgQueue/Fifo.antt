-- ===== src/MsgQueue/Fifo.antt =====
-- The specification: a FIFO that holds fewer than `size` messages of `width` bytes, and the
-- sequences of calls that it shares with the queue.
pub mod Trace
use log_service.Prelude.{
  ℕ, ◌+◌, Bool, true, false, List, [], ◌∷◌, ◌++◌, Option, none, some, Bytes, length, ◌==◌,
  if◌then◌else◌,
}
use log_service.MsgQueue.{MsgQueue, write_to_msg_queue, read_and_delete_from_msg_queue}

-- A write of a whole message, and a read.
pub data Op : Type 0 where
  put : Bytes → Op
  get : Op

-- The value that the call returns, and the bytes that a read copies out.
abbrev pub Reply : Type 0
Reply = ℕ × Option Bytes

module _ (size width : ℕ) where
  pub spec_run : List Bytes → List Op → List Reply
  spec_run ms [] = []
  spec_run ms (put m ∷ ops) =
      if length ms + 1 == size
      then (0, none) ∷ spec_run ms ops
      else (width, none) ∷ spec_run (ms ++ (m ∷ [])) ops
  spec_run [] (get ∷ ops) = (0, none) ∷ spec_run [] ops
  spec_run (m ∷ ms) (get ∷ ops) = (width, some m) ∷ spec_run ms ops

-- The same calls on the queue; `none` where one blocks.
pub run : MsgQueue → List Op → Option (List Reply)
run q [] = some []
run q (put m ∷ ops) =
    let (p, n) = write_to_msg_queue q (some m) 0 in
    elim (run p ops) [ none ↦ none | some rs ↦ some ((n, none) ∷ rs) ]
run q (get ∷ ops) = elim (read_and_delete_from_msg_queue q) [
  | none ↦ none
  | some (p, n, out) ↦ elim (run p ops) [ none ↦ none | some rs ↦ some ((n, out) ∷ rs) ]
]
