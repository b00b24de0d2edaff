-- ===== src/LogServer/Passing.antt =====
-- A message whose request needs no answer.
use log_service.Prelude.{ℕ, ◌≡◌, refl, false, [], ◌∷◌, some, Bytes}
use log_service.HttpParser.{parse_req}
use log_service.ReqData.{ReqData, need_send_back, is_positive}
use log_service.LogServer.{Connections, write_msgs}

-- The request goes to the queue, and the connections stay as they are.
pub write_msgs-unanswered :
    (fd : ℕ) (m : Bytes) (r : ReqData) (c : Connections)
    → parse_req m ≡ some r
    → is_positive (need_send_back r) ≡ false
    → write_msgs fd (m ∷ []) c ≡ (r ∷ [], c, false)
unfolding write_msgs
write_msgs-unanswered fd m r c p no_answer = rw (write_msgs, p, no_answer) refl
