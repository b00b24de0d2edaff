-- ===== src/MsgQueue/Calls.antt =====
-- What every call of MsgQueue.h keeps: the positions, the slots at their size, and the messages.
use log_service.Prelude.{
  ℕ, zero, suc, ◌+◌, ◌-◌, ◌≤◌, ◌<◌, ◌≡◌, refl, ap, ◌∙◌, true, false, inl, inr, List, [], ◌∷◌,
  Option, none, some, arith, Bytes, length, length-set, length-append, length-take, length-drop,
  take, drop, get_or, set, replicate, ◌==◌, if◌then◌else◌, Bool-cases,
}
use log_service.MsgQueue.{
  MsgQueue, size_of, clip_len, overlay, full, store, advance, empty, release, write_to_msg_queue,
  write_to_msg_queue_wait, get_unit, read_and_delete_from_msg_queue, front_unit, release_front_unit,
}
use log_service.MsgQueue.Invariant.{IsValid}
use log_service.MsgQueue.Refine.{full-advance}

-- The operations, as one type; `polls` is one test of the loop of `WriteToMsgQueue_Wait`, and the write
-- where it ends the loop.
pub data Call : Type 0 where
  writes polls : Option Bytes → ℕ → Call
  reads_front gets_unit looks releases : Call

-- A call that blocks leaves the queue as it was.
abbrev after {ℓ} : {A : Type ℓ} → MsgQueue → Option (MsgQueue × A) → MsgQueue
after q none = q
after q (some (p, _)) = p

after_read : MsgQueue → Option (MsgQueue × ℕ × Option Bytes) → MsgQueue
after_read q none = q
after_read q (some (p, _, _)) = p

pub step : Call → MsgQueue → MsgQueue
unfolding after_read
step (writes buf len) q = (write_to_msg_queue q buf len).0
step (polls buf len) q = after q (write_to_msg_queue_wait [] q buf len)
step reads_front q = after_read q (read_and_delete_from_msg_queue q)
step gets_unit q = (get_unit q).0
step looks q = after q (front_unit q)
step releases q = after q (release_front_unit q)

-- Every slot has the size of one message.
abbrev pub AllSized : ℕ → List Bytes → Type 0
AllSized w [] = Unit
AllSized w (s ∷ ss) = (length s ≡ w) × AllSized w ss

abbrev posted : MsgQueue → MsgQueue
posted q = record q { read_sem = q.read_sem - 1 + 1 }

-- The bytes that a call copies from its buffer are there.
abbrev pub Readable : MsgQueue → Call → Type 0
Readable q (writes (some buf) len) = clip_len q len ≤ length buf
Readable q (polls (some buf) len) = clip_len q len ≤ length buf
Readable q _ = Unit

-- The number of messages behind a call on a queue that holds `n`.
abbrev pub count_after : ℕ → Call → ℕ → ℕ
count_after size reads_front n = n - 1
count_after size releases n = n - 1
count_after size looks n = n
count_after size _ n = if (n + 1) == size then n else n + 1

set-AllSized :
    (w i : ℕ) (ss : List Bytes) (s : Bytes) → AllSized w ss → length s ≡ w → AllSized w (set ss i s)
set-AllSized w i [] s a e = tt
set-AllSized w zero (x ∷ ss) s (p, a) e = (e, a)
set-AllSized w (suc i) (x ∷ ss) s (p, a) e = (p, set-AllSized w i ss s a e)

length-get_or :
    (w i : ℕ) (ss : List Bytes) → i < length ss → AllSized w ss → length (get_or ss i []) ≡ w
length-get_or w i [] h a = absurd (omega (arith, h))
length-get_or w zero (s ∷ ss) h (p, a) = p
length-get_or w (suc i) (s ∷ ss) h (p, a) = length-get_or w i ss (omega (arith, h)) a

clip_len-bound : (q : MsgQueue) (len : ℕ) → clip_len q len ≤ q.one_msg_size
clip_len-bound q len = ground arith

length-overlay :
    (buf : Bytes) (n : ℕ) (slot : Bytes)
    → n ≤ length buf
    → n ≤ length slot
    → length (overlay (some buf) n slot) ≡ length slot
length-overlay buf n slot h k =
    omega
      (arith, h, k, length-append (take n buf) (drop n slot), length-take n buf, length-drop n slot)

length-replicate : (n : ℕ) → length {A = ℕ} (replicate n 0) ≡ n
length-replicate zero = refl
length-replicate (suc n) = ap suc (length-replicate n)

-- What a call keeps, and the count.
pub record Keeps (c : Call) (q p : MsgQueue) : Type 0 where
  pub valid : IsValid p
  pub same_size : p.size ≡ q.size
  pub same_msg_size : p.one_msg_size ≡ q.one_msg_size
  pub slots : AllSized p.one_msg_size p.msg_queue
  pub count : size_of p ≡ count_after q.size c (size_of q)

module _ (q : MsgQueue) (v : IsValid q) (a : AllSized q.one_msg_size q.msg_queue) where
  overlaid :
      (buf : Option Bytes) (len : ℕ)
      → Readable q (writes buf len)
      → length (overlay buf (clip_len q len) (get_or q.msg_queue q.write_position []))
        ≡ q.one_msg_size
  overlaid none len r =
      length-get_or q.one_msg_size q.write_position q.msg_queue
        (omega (arith, v.storage, v.write_in)) a
  overlaid (some buf) len r =
      let slot =
        length-get_or q.one_msg_size q.write_position q.msg_queue
          (omega (arith, v.storage, v.write_in)) a in
      length-overlay buf (clip_len q len) _ r (omega (arith, clip_len-bound q len, slot)) ∙ slot

  overlaid_poll :
      (buf : Option Bytes) (len : ℕ)
      → Readable q (polls buf len)
      → length (overlay buf (clip_len q len) (get_or q.msg_queue q.write_position []))
        ≡ q.one_msg_size
  overlaid_poll none len r = overlaid none len tt
  overlaid_poll (some buf) len r = overlaid (some buf) len r

  stored :
      (c : Call) (s : Bytes)
      → full q ≡ false
      → length s ≡ q.one_msg_size
      → count_after q.size c (size_of q)
        ≡ (if (size_of q + 1) == q.size then size_of q else size_of q + 1)
      → Keeps c q (record q {
        msg_queue = set q.msg_queue q.write_position s;
        write_position = advance q.size q.write_position;
      })
  unfolding size_of
  stored c s room e n = record {
    valid = ground (arith, length-set q.msg_queue q.write_position s);
    same_size = refl;
    same_msg_size = refl;
    slots = set-AllSized q.one_msg_size q.write_position q.msg_queue s a e;
    count = ground (arith, full-advance q v, n);
  }

  refused :
      (c : Call) (w : ℕ)
      → full q ≡ true
      → count_after q.size c (size_of q)
        ≡ (if (size_of q + 1) == q.size then size_of q else size_of q + 1)
      → Keeps c q (record q { write_sem = w })
  unfolding size_of
  refused c w no_room n = record {
    valid = ground arith;
    same_size = refl;
    same_msg_size = refl;
    slots = a;
    count = ground (arith, full-advance q v, n);
  }

  -- The queue as a reader leaves it, which waits for its semaphore and posts it.
  looked : (c : Call) → size_of q ≡ count_after q.size c (size_of q) → Keeps c q (posted q)
  unfolding size_of
  looked c n = record {
    valid = ground arith;
    same_size = refl;
    same_msg_size = refl;
    slots = a;
    count = n;
  }

  released :
      (c : Call)
      → (q.write_position == q.read_position) ≡ false
      → size_of q - 1 ≡ count_after q.size c (size_of q)
      → Keeps c q (posted (release q))
  unfolding size_of
  released c e n = record {
    valid = ground arith;
    same_size = refl;
    same_msg_size = refl;
    slots = a;
    count = ground (arith, n);
  }

  opens : (q.read_sem == 0) ≡ false
  opens = ground arith

  none_waits : (q.write_position == q.read_position) ≡ true → size_of q ≡ size_of q - 1
  unfolding size_of
  none_waits e = ground arith

  -- Every call, of a buffer with the bytes that it copies, keeps the positions inside the array, the array
  -- and its slots at their sizes and the reader's semaphore open. A write, also behind the loop of
  -- `WriteToMsgQueue_Wait`, and `Get_Unit` take one message more but in a full queue, a read or a release
  -- gives up one, if there is one, and nothing else changes their number.
  pub step-Keeps : (c : Call) → Readable q c → Keeps c q (step c q)
  unfolding step write_to_msg_queue write_to_msg_queue_wait get_unit store empty
      read_and_delete_from_msg_queue front_unit release_front_unit after_read
  step-Keeps (writes buf len) r = elim (Bool-cases (full q)) [
    | inl e ↦ rw (step, write_to_msg_queue, e) (refused (writes buf len) _ e refl)
    | inr e ↦
        rw (step, write_to_msg_queue, e) (stored (writes buf len) _ e (overlaid buf len r) refl)
  ]
  step-Keeps (polls buf len) r = elim (Bool-cases (full q)) [
    | inl e ↦ rw (step, write_to_msg_queue_wait, e) (refused (polls buf len) _ e refl)
    | inr e ↦
        rw (step, write_to_msg_queue_wait, e)
          (stored (polls buf len) _ e (overlaid_poll buf len r) refl)
  ]
  step-Keeps gets_unit r = elim (Bool-cases (full q)) [
    | inl e ↦ rw (step, get_unit, e) (refused gets_unit _ e refl)
    | inr e ↦ rw (step, get_unit, e) (stored gets_unit _ e (length-replicate q.one_msg_size) refl)
  ]
  step-Keeps reads_front r = elim (Bool-cases (q.write_position == q.read_position)) [
    | inl e ↦
        rw (step, read_and_delete_from_msg_queue, opens, e) (looked reads_front (none_waits e))
    | inr e ↦ rw (step, read_and_delete_from_msg_queue, opens, e) (released reads_front e refl)
  ]
  step-Keeps looks r = elim (Bool-cases (q.write_position == q.read_position)) [
    | inl e ↦ rw (step, front_unit, opens, e) (looked looks refl)
    | inr e ↦ rw (step, front_unit, opens, e) (looked looks refl)
  ]
  step-Keeps releases r = elim (Bool-cases (q.write_position == q.read_position)) [
    | inl e ↦ rw (step, release_front_unit, opens, e) (looked releases (none_waits e))
    | inr e ↦ rw (step, release_front_unit, opens, e) (released releases e refl)
  ]
