-- ===== src/MsgQueue/Fifo/Trace.antt =====
-- No sequence of reads and writes tells a valid queue from the FIFO of its contents.
use log_service.Prelude.{
  ℕ, zero, suc, ◌+◌, ◌<◌, ◌≡◌, inl, inr, refl, ap, ◌∙◌, true, false, List, [], ◌∷◌, ◌++◌, some,
  arith, Bytes, length, get_or, set, length-set, Bool-cases,
}
use log_service.MsgQueue.{
  MsgQueue, empty, full, size_of, overlay, store, release, write_to_msg_queue,
}
use log_service.MsgQueue.Invariant.{IsValid}
use log_service.MsgQueue.Refine.{
  contents, overlay_whole, contents-store, contents-release, contents-sems, get_empty, get_busy,
  empty-full-length-contents,
}
use log_service.MsgQueue.Fifo.{Op, put, get, spec_run, run}

-- Every slot is as long as a message.
abbrev pub AllSlots : ℕ → List Bytes → Type 0
AllSlots w [] = Unit
AllSlots w (s ∷ ss) = (length s ≡ w) × AllSlots w ss

AllSlots-set :
    (w i : ℕ) (ss : List Bytes) (s : Bytes) → length s ≡ w → AllSlots w ss → AllSlots w (set ss i s)
AllSlots-set w i [] s h a = tt
AllSlots-set w zero (x ∷ ss) s h a = (h, a.1)
AllSlots-set w (suc i) (x ∷ ss) s h a = (a.0, AllSlots-set w i ss s h a.1)

AllSlots-get_or :
    (w i : ℕ) (ss : List Bytes) → i < length ss → AllSlots w ss → length (get_or ss i []) ≡ w
AllSlots-get_or w i [] h a = absurd (omega arith)
AllSlots-get_or w zero (x ∷ ss) h a = a.0
AllSlots-get_or w (suc i) (x ∷ ss) h a = AllSlots-get_or w i ss (omega arith) a.1

-- The messages written are whole messages.
abbrev pub AllWhole : ℕ → List Op → Type 0
AllWhole w [] = Unit
AllWhole w (put m ∷ ops) = (length m ≡ w) × AllWhole w ops
AllWhole w (get ∷ ops) = AllWhole w ops

put_full :
    (q : MsgQueue) (m : Bytes)
    → full q ≡ true
    → write_to_msg_queue q (some m) 0 ≡ (record q { write_sem = q.write_sem + 1 }, 0)
unfolding write_to_msg_queue
put_full q m h = rw h

put_room :
    (q : MsgQueue) (m : Bytes)
    → full q ≡ false
    → write_to_msg_queue q (some m) 0 ≡ (store q (some m) q.one_msg_size, q.one_msg_size)
unfolding write_to_msg_queue
put_room q m h = rw h

module _ (q : MsgQueue) where
  stored : (m : Bytes) → IsValid q → full q ≡ false → IsValid (store q (some m) q.one_msg_size)
  unfolding store
  stored m v f = ground (
    arith,
    length-set q.msg_queue q.write_position
        (overlay (some m) q.one_msg_size (get_or q.msg_queue q.write_position [])),
  )

  whole :
      (m : Bytes)
      → IsValid q
      → AllSlots q.one_msg_size q.msg_queue
      → length m ≡ q.one_msg_size
      → overlay (some m) q.one_msg_size (get_or q.msg_queue q.write_position []) ≡ m
  whole m v a e =
      overlay_whole q.one_msg_size m _ e
        (AllSlots-get_or q.one_msg_size q.write_position q.msg_queue (omega arith) a)

  AllSlots-store :
      (m : Bytes)
      → IsValid q
      → AllSlots q.one_msg_size q.msg_queue
      → length m ≡ q.one_msg_size
      → AllSlots q.one_msg_size (store q (some m) q.one_msg_size).msg_queue
  unfolding store
  AllSlots-store m v a e =
      AllSlots-set q.one_msg_size q.write_position q.msg_queue _ (rw (whole m v a e) e) a

  contents-put :
      (m : Bytes)
      → IsValid q
      → AllSlots q.one_msg_size q.msg_queue
      → length m ≡ q.one_msg_size
      → full q ≡ false
      → contents (store q (some m) q.one_msg_size) ≡ contents q ++ (m ∷ [])
  contents-put m v a e f =
      contents-store q (some m) q.one_msg_size v f
      ∙ ap (λ x. contents q ++ (x ∷ [])) (whole m v a e)

  no_contents : IsValid q → empty q ≡ true → contents q ≡ []
  unfolding empty size_of
  no_contents v e = let none_left : size_of q ≡ 0 = ground arith in rw none_left

-- On a valid queue whose slots and written messages have the size of a message, every sequence of
-- reads and writes returns, and returns the values and the bytes that the FIFO of the queue's
-- contents returns.
pub run_refines :
    (ops : List Op) (q : MsgQueue)
    → IsValid q
    → AllSlots q.one_msg_size q.msg_queue
    → AllWhole q.one_msg_size ops
    → run q ops ≡ some (spec_run q.size q.one_msg_size (contents q) ops)
unfolding run spec_run store
run_refines [] q v a h = refl
run_refines (put m ∷ ops) q v a h = elim (Bool-cases (full q)) [
  | inl f ↦ ground (
    arith,
    put_full q m f,
    run_refines ops (record q { write_sem = q.write_sem + 1 }) (ground arith) a h.1,
    contents-sems q q.read_sem (q.write_sem + 1),
    empty-full-length-contents q v,
  )
  | inr f ↦ ground (
    arith,
    put_room q m f,
    run_refines ops (store q (some m) q.one_msg_size) (stored q m v f) (AllSlots-store q m v a h.0)
        h.1,
    contents-put q m v a h.0 f,
    empty-full-length-contents q v,
  )
]
run_refines (get ∷ ops) q v a h = elim (Bool-cases (empty q)) [
  | inl e ↦ ground (arith, get_empty q v e, run_refines ops q v a h, no_contents q v e)
  | inr e ↦ ground (
    arith,
    get_busy q v e,
    run_refines ops (release q) (ground arith) a h,
    contents-release q v e,
  )
]
