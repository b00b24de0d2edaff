-- ===== src/MsgQueue.antt =====
-- include/MsgQueue.h: the ring of fixed-size messages in shared memory.
-- Every access of the byte array `msg_queue_` is to a whole slot, at `one_msg_size_ * position`,
-- so the array is the list of its slots, each a list of `one_msg_size_` bytes.
pub mod Invariant
pub mod Refine
pub mod Fifo
pub mod Wait
pub mod Calls
mod Tests
use log_service.Prelude.{
  ℕ, zero, suc, ◌+◌, ◌-◌, ◌%◌, Bool, true, false, ◌||◌, List, [], ◌∷◌, ◌++◌, Option, none, some,
  Bytes, ltb, leb, ◌==◌, if◌then◌else◌, get_or, set, take, drop, replicate,
}

pub record MsgQueue : Type 0 where
  pub size : ℕ
  pub one_msg_size : ℕ
  pub write_position : ℕ
  pub read_position : ℕ
  pub read_sem : ℕ
  pub write_sem : ℕ
  pub msg_queue : List Bytes

-- The constructor, over the memory that it is placed in.
pub new : ℕ → ℕ → List Bytes → MsgQueue
new queue_len msg_size memory = record {
  size = queue_len;
  one_msg_size = msg_size;
  write_position = 0;
  read_position = 0;
  read_sem = 1;
  write_sem = 1;
  msg_queue = memory;
}

pub is_init : MsgQueue → Bool
is_init q = if q.size == 0 then false else true

pub empty : MsgQueue → Bool
empty q = q.write_position == q.read_position

pub full : MsgQueue → Bool
full q = ((q.write_position + 1) % q.size) == q.read_position

pub size_of : MsgQueue → ℕ
size_of q =
    if leb q.read_position q.write_position
    then q.write_position - q.read_position
    else q.write_position + q.size - q.read_position

-- `position++; if(position >= size_) position = 0;`
abbrev pub advance : ℕ → ℕ → ℕ
advance size p = if leb size (p + 1) then 0 else p + 1

-- `if(len == 0 || len > one_msg_size_) len = one_msg_size_;`
abbrev pub clip_len : MsgQueue → ℕ → ℕ
clip_len q len = if (len == 0) || ltb q.one_msg_size len then q.one_msg_size else len

-- `memcpy` of the first `len` bytes of the message over a slot, skipped at a null `buf`.
abbrev pub overlay : Option Bytes → ℕ → Bytes → Bytes
overlay none len slot = slot
overlay (some buf) len slot = take len buf ++ drop len slot

-- The part of both writers behind the test of `Full`.
pub store : MsgQueue → Option Bytes → ℕ → MsgQueue
store q buf len = record q {
  msg_queue =
      set q.msg_queue q.write_position (overlay buf len (get_or q.msg_queue q.write_position []));
  write_position = advance q.size q.write_position;
}

-- A full queue posts `write_sem_`, which nothing waits for, and takes no message.
pub write_to_msg_queue : MsgQueue → Option Bytes → ℕ → MsgQueue × ℕ
write_to_msg_queue q buf len =
    if full q
    then (record q { write_sem = q.write_sem + 1 }, 0)
    else (store q buf (clip_len q len), clip_len q len)

-- `sem_wait(&read_sem_)`: `none` where it blocks.
abbrev pub wait_read_sem : MsgQueue → Option MsgQueue
wait_read_sem q = if q.read_sem == 0 then none else some (record q { read_sem = q.read_sem - 1 })

abbrev pub post_read_sem : MsgQueue → MsgQueue
post_read_sem q = record q { read_sem = q.read_sem + 1 }

abbrev pub release : MsgQueue → MsgQueue
release q = record q { read_position = advance q.size q.read_position }

-- The slot at the read position, as `memcpy` copies it out.
abbrev pub front : MsgQueue → Bytes
front q = get_or q.msg_queue q.read_position []

-- `none` where the call blocks; otherwise the queue, the value returned and the bytes copied out.
pub read_and_delete_from_msg_queue : MsgQueue → Option (MsgQueue × ℕ × Option Bytes)
read_and_delete_from_msg_queue q = elim (wait_read_sem q) [
  | none ↦ none
  | some p ↦ some (
      if empty p
      then (post_read_sem p, 0, none)
      else (post_read_sem (release p), p.one_msg_size, some (front p)))
]

-- The pointers returned are the positions of the slots that they point to.
pub get_unit : MsgQueue → MsgQueue × Option ℕ
get_unit q = if full q then (record q { write_sem = q.write_sem + 1 }, none) else (
  record q {
    msg_queue = set q.msg_queue q.write_position (replicate q.one_msg_size 0);
    write_position = advance q.size q.write_position;
  },
  some q.write_position,
)

pub front_unit : MsgQueue → Option (MsgQueue × Option ℕ)
front_unit q = elim (wait_read_sem q) [
  | none ↦ none
  | some p ↦
      some (if empty p then (post_read_sem p, none) else (post_read_sem p, some p.read_position))
]

pub release_front_unit : MsgQueue → Option (MsgQueue × Option ℕ)
release_front_unit q = elim (wait_read_sem q) [
  | none ↦ none
  | some p ↦ some (
      if empty p
      then (post_read_sem p, none)
      else (post_read_sem (release p), some p.read_position))
]

-- What the reading process does between two polls of `while(Full());`.
pub data Reader : Type 0 where
  idle reads : Reader

pub reader_step : Reader → MsgQueue → MsgQueue
unfolding read_and_delete_from_msg_queue
reader_step idle q = q
reader_step reads q = elim (read_and_delete_from_msg_queue q) [ none ↦ q | some (p, _, _) ↦ p ]

-- `while(Full());` and the write behind it, against a schedule of the reader: `none` where the
-- schedule ends and the writer still spins.
pub write_to_msg_queue_wait : List Reader → MsgQueue → Option Bytes → ℕ → Option (MsgQueue × ℕ)
write_to_msg_queue_wait [] q buf len =
    if full q then none else some (store q buf (clip_len q len), clip_len q len)
write_to_msg_queue_wait (r ∷ rs) q buf len =
    let later = write_to_msg_queue_wait rs (reader_step r q) buf len in
    if full q then later else some (store q buf (clip_len q len), clip_len q len)
