-- ===== src/MsgQueue/Invariant.antt =====
-- A queue of include/MsgQueue.h whose positions and array fit each other.
use log_service.Prelude.{ℕ, ◌≤◌, ◌<◌, ◌≡◌, List, arith, Bytes, length}
use log_service.MsgQueue.{MsgQueue, new, size_of}

-- Two slots at least, and both positions inside the array.
pub record IsValid (q : MsgQueue) : Type 0 where
  pub roomy : 2 ≤ q.size
  pub storage : length q.msg_queue ≡ q.size
  pub write_in : q.write_position < q.size
  pub read_in : q.read_position < q.size
  pub read_open : 0 < q.read_sem

pub new-IsValid :
    (n k : ℕ) (memory : List Bytes) → 2 ≤ n → length memory ≡ n → IsValid (new n k memory)
unfolding new
new-IsValid n k memory h e = ground arith

pub size_of-bound : (q : MsgQueue) → IsValid q → size_of q < q.size
unfolding size_of
size_of-bound q v = ground arith
