-- ===== src/Client.antt =====
-- src/log_service/log_service.cpp: the library that a program links to send its log.
-- `key_l` is a parameter: its entries are copied out of an array that is not terminated.
pub mod Delivery
pub mod Sample
mod Tests
use log_service.Prelude.{
  ℕ, ◌+◌, ◌-◌, ◌/◌, ◌%◌, ◌^◌, List, [], ◌∷◌, ◌++◌, Bytes, codes, take, get_or,
}
use log_service.Config.{client_str_len}
use log_service.Decimal.{decimal}
use log_service.UrlEncode.{url_encode}

-- The globals `key`, `start` and `key_l`.
pub record Client : Type 0 where
  pub key : ℕ
  pub start : ℕ
  pub key_l : List Bytes

-- `key++; return key/3;`, a `uint64_t`.
pub get_time_sec : Client → Client × ℕ
get_time_sec c = let key = (c.key + 1) % 2 ^ 64 in (record c { key = key }, key / 3)

pub rand30 : Client → Client × ℕ
rand30 c = let start = (c.start + 4159) % 48413 in (record c { start = start }, start % 30)

pub get_key : Client → Client × Bytes
unfolding rand30
get_key c = let (c', i) = rand30 c in (c', get_or c'.key_l i [])

-- The text in the string stream.
pub request_line : Bytes → ℕ → Bytes → Bytes
request_line key time content =
    codes "GET /append?key="
    ++ (key
        ++ (codes "&time="
            ++ (decimal time ++ (codes "&content=" ++ (content ++ codes "& HTTP/1.1")))))

-- `cody_log_string`, up to the message that it writes to the queue; `cody_log` builds the same
-- message from its formatted text.
pub cody_log_string : Client → Bytes → Client × Bytes
unfolding get_key get_time_sec
cody_log_string c s =
    let (c', key) = get_key c in
    let (c'', time) = get_time_sec c' in
    (c'', take (client_str_len - 2) (request_line key time (url_encode s)))
