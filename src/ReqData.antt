-- ===== src/ReqData.antt =====
-- The class `ReqData` of include/Http_parser.h: one request, as the queue carries it.
pub mod Answers
use log_service.Prelude.{
  ℕ, ◌^◌, Bool, true, false, not, ◌&&◌, List, [], ◌∷◌, Bytes, ltb, leb, ◌==◌, if◌then◌else◌,
}

pub data ReqType : Type 0 where
  invalid append recent getkey search search_time log_count persistence : ReqType

-- The arrays are the C strings that they hold. `client_id` is the pattern of the `int32_t`;
-- `time`, `count`, `start` and `end` are `uint64_t`.
pub record ReqData : Type 0 where
  pub type : ReqType
  pub key : Bytes
  pub time : ℕ
  pub content : Bytes
  pub keyword : Bytes
  pub client_id : ℕ
  pub count : ℕ
  pub start : ℕ
  pub end : ℕ

-- The constructor.
unfoldable pub new_req_data : ReqData
new_req_data = record {
  type = invalid;
  key = [];
  time = 0;
  content = [];
  keyword = [];
  client_id = 0;
  count = 0;
  start = 0;
  end = 0;
}

-- `*s != '\0'`
abbrev pub is_set : Bytes → Bool
is_set [] = false
is_set (c ∷ s) = true

-- `client_id_ > 0` of a signed 32-bit pattern.
abbrev pub is_positive : ℕ → Bool
is_positive n = ltb 0 n && ltb n (2 ^ 31)

unfoldable pub valid_as : ReqType → ReqData → Bool
valid_as append r = is_set r.key && not (r.time == 0)
valid_as recent r = not (r.count == 0) && is_positive r.client_id
valid_as getkey r = is_set r.key && is_positive r.client_id
valid_as search r = is_set r.keyword && is_positive r.client_id
valid_as search_time r =
    is_set r.key && not (r.start == 0) && not (r.end == 0) && is_positive r.client_id
valid_as persistence r = is_positive r.client_id
valid_as log_count r = is_positive r.client_id
valid_as invalid r = false

unfoldable pub valid : ReqData → Bool
unfolding valid_as
valid r = valid_as r.type r

unfoldable pub send_back_as : ReqType → ReqData → ℕ
send_back_as invalid r = 0
send_back_as append r = 0
send_back_as _ r = r.client_id

unfoldable pub need_send_back : ReqData → ℕ
unfolding send_back_as
need_send_back r = send_back_as r.type r

pub set_client_id : ReqData → ℕ → ReqData
set_client_id r client_id = record r { client_id = client_id }
