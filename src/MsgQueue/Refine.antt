-- ===== src/MsgQueue/Refine.antt =====
-- A valid queue behaves as a FIFO of at most `size_ - 1` messages.
use log_service.Prelude.{
  ℕ, zero, suc, ◌+◌, ◌-◌, ◌%◌, ◌<◌, ◌≡◌, refl, ap, ap₂, ◌∙◌, true, false, List, [], ◌∷◌, ◌++◌,
  Option, none, some, arith, Bytes, length, get_or, set, get_or-set_self, get_or-set_ne, ltb, ◌==◌,
  if◌then◌else◌, take_all, drop_all, append-nil,
}
use native.Mathlib.Nat.{mod-eq_of_lt, mod_self}
use native.Mathlib.Decide.{dec_lt}
use log_service.MsgQueue.{
  MsgQueue, empty, full, size_of, advance, overlay, store, front, release,
  read_and_delete_from_msg_queue,
}
use log_service.MsgQueue.Invariant.{IsValid, size_of-bound}

module _ (slots : List Bytes) (size : ℕ) where
  -- The `n` slots from position `p` on, going round at `size`.
  abbrev pub window : ℕ → ℕ → List Bytes
  window p zero = []
  window p (suc n) = get_or slots p [] ∷ window (advance size p) n

-- The messages that the queue holds, oldest first.
abbrev pub contents : MsgQueue → List Bytes
contents q = window q.msg_queue q.size q.read_position (size_of q)

-- The position `n` steps behind `p`.
abbrev ahead : ℕ → ℕ → ℕ → ℕ
ahead size p n = if ltb (p + n) size then p + n else p + n - size

length-window : (slots : List Bytes) (size p n : ℕ) → length (window slots size p n) ≡ n
length-window slots size p zero = refl
length-window slots size p (suc n) = ap suc (length-window slots size (advance size p) n)

pub length-contents : (q : MsgQueue) → length (contents q) ≡ size_of q
length-contents q = length-window q.msg_queue q.size q.read_position (size_of q)

-- A write just behind a window extends it by the slot written.
window-set :
    (slots : List Bytes) (size : ℕ) (x : Bytes) (n p w : ℕ)
    → length slots ≡ size
    → p < size
    → n < size
    → w ≡ ahead size p n
    → window (set slots w x) size p (suc n) ≡ window slots size p n ++ (x ∷ [])
window-set slots size x zero p w hs hp hn e =
    let at_p : w ≡ p = ground arith in rw (at_p, get_or-set_self slots p x [] (omega arith))
window-set slots size x (suc n) p w hs hp hn e =
    ap₂ ◌∷◌ (get_or-set_ne slots w p x [] (ground arith))
      (window-set slots size x n (advance size p) w hs (ground arith) (omega arith) (ground arith))

mod-advance : (size p : ℕ) → p < size → (p + 1) % size ≡ advance size p
mod-advance size p h = elim (dec_lt (p + 1) size) [
  | yes more ↦ ground (arith, mod-eq_of_lt more)
  | no last ↦ let e : p + 1 ≡ size = omega arith in rw e (ground (arith, mod_self size))
]

pub full-advance :
    (q : MsgQueue) → IsValid q → full q ≡ (advance q.size q.write_position == q.read_position)
unfolding full
full-advance q v = rw (mod-advance q.size q.write_position v.write_in)

-- The queue is empty, and full, exactly when it holds no message, and `size_ - 1` messages.
pub empty-full-length-contents :
    (q : MsgQueue)
    → IsValid q
    → (empty q ≡ (length (contents q) == 0)) × (full q ≡ (length (contents q) + 1 == q.size))
unfolding empty size_of
empty-full-length-contents q v =
    rw (length-contents q) (ground arith, full-advance q v ∙ ground arith)

-- `memcpy` of a whole message leaves nothing of the slot's old bytes.
pub overlay_whole :
    (w : ℕ) (m slot : Bytes) → length m ≡ w → length slot ≡ w → overlay (some m) w slot ≡ m
overlay_whole w m slot hm hs =
    rw (take_all w m (omega arith), drop_all w slot (omega arith)) (append-nil m)

size_of-store :
    (q : MsgQueue) (buf : Option Bytes) (len : ℕ)
    → IsValid q
    → full q ≡ false
    → size_of (store q buf len) ≡ suc (size_of q)
unfolding store size_of
size_of-store q buf len v room = ground (arith, full-advance q v)

write_position-ahead :
    (q : MsgQueue) → IsValid q → q.write_position ≡ ahead q.size q.read_position (size_of q)
unfolding size_of
write_position-ahead q v = ground arith

pub contents-store :
    (q : MsgQueue) (buf : Option Bytes) (len : ℕ)
    → IsValid q
    → full q ≡ false
    → contents (store q buf len)
      ≡ contents q ++ (overlay buf len (get_or q.msg_queue q.write_position []) ∷ [])
unfolding store
contents-store q buf len v room = rw (size_of-store q buf len v room) (
    window-set q.msg_queue q.size _ (size_of q) q.read_position q.write_position v.storage v.read_in
      (size_of-bound q v) (write_position-ahead q v))

pub contents-release :
    (q : MsgQueue) → IsValid q → empty q ≡ false → contents q ≡ front q ∷ contents (release q)
unfolding empty size_of
contents-release q v busy = let e : size_of q ≡ suc (size_of (release q)) = ground arith in rw e

-- The semaphores are no part of the messages.
pub contents-sems :
    (q : MsgQueue) (r w : ℕ) → contents (record q { read_sem = r; write_sem = w }) ≡ contents q
unfolding size_of
contents-sems q r w = refl

-- A read of a valid queue never blocks.
pub get_empty :
    (q : MsgQueue)
    → IsValid q
    → empty q ≡ true
    → read_and_delete_from_msg_queue q ≡ some (q, 0, none)
unfolding read_and_delete_from_msg_queue empty
get_empty q v h = ground arith

pub get_busy :
    (q : MsgQueue)
    → IsValid q
    → empty q ≡ false
    → read_and_delete_from_msg_queue q ≡ some (release q, q.one_msg_size, some (front q))
unfolding read_and_delete_from_msg_queue empty
get_busy q v h = ground arith
