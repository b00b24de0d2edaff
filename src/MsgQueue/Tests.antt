-- ===== src/MsgQueue/Tests.antt =====
-- The queue at small sizes: runs that can be followed in the source, and each theorem at an input.
use log_service.Prelude.{◌≡◌, refl, false, List, [], ◌∷◌, some, arith, Bytes}
use log_service.MsgQueue.{
  MsgQueue, new, full, size_of, store, clip_len, write_to_msg_queue_wait, idle, reads,
}
use log_service.MsgQueue.Invariant.{IsValid, new-IsValid}
use log_service.MsgQueue.Calls.{Keeps, step, step-Keeps, writes}
use log_service.MsgQueue.Fifo.{Op, put, get, spec_run, run}
use log_service.MsgQueue.Fifo.Trace.{run_refines}
use log_service.MsgQueue.Wait.{Drained, wait_returns}

abbrev memory : List Bytes
memory = (0 ∷ 0 ∷ []) ∷ (0 ∷ 0 ∷ []) ∷ (0 ∷ 0 ∷ []) ∷ []

-- One message, behind the end of the array.
abbrev wrapped : MsgQueue
wrapped = record {
  size = 3;
  one_msg_size = 2;
  write_position = 0;
  read_position = 2;
  read_sem = 1;
  write_sem = 1;
  msg_queue = (1 ∷ 1 ∷ []) ∷ (2 ∷ 2 ∷ []) ∷ (3 ∷ 3 ∷ []) ∷ [];
}

-- Two messages, as many as three slots hold.
abbrev crowded : MsgQueue
crowded = record wrapped { write_position = 1 }

abbrev script : List Op
script = put (8 ∷ 9 ∷ []) ∷ put (7 ∷ 7 ∷ []) ∷ get ∷ get ∷ get ∷ []

new-IsValid_example : IsValid (new 3 2 memory)
new-IsValid_example = new-IsValid 3 2 memory (omega arith) refl

-- A write of more bytes than a slot has.
step-Keeps_example :
    Keeps
      (writes (some (5 ∷ 6 ∷ 7 ∷ [])) 3)
      wrapped
      (step (writes (some (5 ∷ 6 ∷ 7 ∷ [])) 3) wrapped)
step-Keeps_example =
    step-Keeps wrapped (omega arith) (refl, (refl, (refl, tt))) (writes (some (5 ∷ 6 ∷ 7 ∷ [])) 3)
      (omega arith)

run_refines_example : run wrapped script ≡ some (spec_run 3 2 ((3 ∷ 3 ∷ []) ∷ []) script)
unfolding size_of
run_refines_example = run_refines script wrapped (omega arith) (omega arith) (omega arith)

wait_returns_example :
    (p : MsgQueue) × (write_to_msg_queue_wait (idle ∷ reads ∷ []) crowded (some (5 ∷ 5 ∷ [])) 0
      ≡ some (store p (some (5 ∷ 5 ∷ [])) (clip_len p 0), clip_len p 0))
    × (full p ≡ false)
    × Drained crowded p
wait_returns_example =
    wait_returns (idle ∷ reads ∷ []) crowded (some (5 ∷ 5 ∷ [])) 0 (omega arith) tt
