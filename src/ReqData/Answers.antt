-- ===== src/ReqData/Answers.antt =====
-- Which requests the server has to answer.
use log_service.Prelude.{◌≡◌, ◌≢◌, ◌↔◌, refl, true, arith}
use log_service.ReqData.{
  ReqType, invalid, append, recent, getkey, search, search_time, log_count, persistence, ReqData,
  valid, valid_as, send_back_as, need_send_back, is_positive,
}

type_answers :
    (t : ReqType) (r : ReqData)
    → valid_as t r ≡ true
    → (is_positive (send_back_as t r) ≡ true) ↔ (t ≢ append)
unfolding valid_as send_back_as
type_answers append r v = (λ p. cc, λ n. absurd (n refl))
type_answers invalid r v = cc
type_answers recent r v = (λ p e. cc, λ n. ground arith)
type_answers getkey r v = (λ p e. cc, λ n. ground arith)
type_answers search r v = (λ p e. cc, λ n. ground arith)
type_answers search_time r v = (λ p e. cc, λ n. ground arith)
type_answers log_count r v = (λ p e. cc, λ n. v)
type_answers persistence r v = (λ p e. cc, λ n. v)

-- Of the valid requests the server waits for an answer to exactly those that are no appends.
pub need_send_back_iff :
    (r : ReqData) → valid r ≡ true → (is_positive (need_send_back r) ≡ true) ↔ (r.type ≢ append)
unfolding valid need_send_back
need_send_back_iff r v = type_answers r.type r v
