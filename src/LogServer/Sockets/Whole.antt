-- ===== src/LogServer/Sockets/Whole.antt =====
-- `MySend` against the answers of `send`.
use log_service.Prelude.{
  ℕ, zero, suc, ◌+◌, ◌≤◌, ◌<◌, ◌≡◌, refl, ap, ◌∙◌, List, [], ◌∷◌, ◌++◌, some, Bytes, arith, leb,
  length, take, drop, length-drop, Bool-cases, inl, inr,
}
use log_service.Epoll.{Sent, sent, later, broken}
use log_service.LogServer.Sockets.{behind, my_send}

-- The bytes that the answers take, and that none of them is an error.
unfoldable pub taken : List Sent → ℕ
taken [] = 0
taken (sent n ∷ answers) = n + taken answers
taken (later ∷ answers) = taken answers
taken (broken ∷ answers) = taken answers

abbrev pub NoneBroken : List Sent → Type 0
NoneBroken [] = Unit
NoneBroken (broken ∷ answers) = ⊥
NoneBroken (_ ∷ answers) = NoneBroken answers

take-drop : (n : ℕ) (s : Bytes) → take n s ++ drop n s ≡ s
take-drop zero s = refl
take-drop (suc n) [] = refl
take-drop (suc n) (c ∷ s) = ap (◌∷◌ c) (take-drop n s)

-- Where no call fails but those that are to be repeated, and the message is not empty, `MySend` returns
-- once the socket has taken as many bytes as the message has, and the socket has then taken the
-- message, whole and once.
pub my_send-whole :
    (answers : List Sent) (msg : Bytes)
    → NoneBroken answers
    → 0 < length msg
    → length msg ≤ taken answers
    → (left : List Sent) × (my_send answers msg ≡ some (msg, left))
unfolding my_send taken
my_send-whole [] msg ok some_bytes enough = absurd (omega arith)
my_send-whole (later ∷ answers) msg ok some_bytes enough =
    my_send-whole answers msg ok some_bytes enough
my_send-whole (broken ∷ answers) msg ok some_bytes enough = absurd ok
my_send-whole (sent n ∷ answers) msg ok some_bytes enough = elim (Bool-cases (leb (length msg) n)) [
  | inl e ↦ (answers, rw e refl)
  | inr e ↦
      let more : n < length msg = ground arith in
      let (left, f) =
        my_send-whole answers (drop n msg) ok (omega (arith, length-drop n msg))
          (omega (arith, length-drop n msg)) in
      (
        left,
        rw e (ap (behind (take n msg)) f ∙ ap (λ (s : Bytes). some (s, left)) (take-drop n msg)),
      )
]
