-- ===== src/Client/Sample.antt =====
-- A client whose state is written out, and a text for it.
use log_service.Prelude.{◌≡◌, refl, Bytes, codes, replicate, length, ◌-◌, ◌≤◌, arith}
use log_service.UrlEncode.{url_encode, url_decode, must_encode}
use log_service.Decimal.{decimal, decimal_from}
use log_service.UrlEncode.RoundTrip.{AllPlain, url_decode-NoPercent}
use log_service.HttpParser.Append.{c_string-whole}
use log_service.Config.{client_str_len}
use log_service.Client.{Client, get_key, get_time_sec, rand30, request_line}
use log_service.Client.Delivery.{IsKey}

abbrev pub client : Client
client = record { key = 299; start = 0; key_l = replicate 30 (codes "user7") }

abbrev pub text : Bytes
text = codes "disk full & hot"

pub client_key : (get_key client).1 ≡ codes "user7"
unfolding get_key rand30
client_key = refl

pub client_time : (get_time_sec (get_key client).0).1 ≡ 100
unfolding get_time_sec get_key rand30
client_time = refl

key_decoded : url_decode (codes "user7") ≡ codes "user7"
key_decoded = url_decode-NoPercent (codes "user7") (ground arith)

key_AllPlain : AllPlain (codes "user7")
key_AllPlain = ground arith

pub message_fits : length (request_line (codes "user7") 100 (url_encode text)) ≤ client_str_len - 2
unfolding request_line url_encode must_encode decimal decimal_from
message_fits = omega arith

abbrev pub sample_key : Bytes
sample_key = codes "user7"

pub sample_key-IsKey : IsKey sample_key
sample_key-IsKey = record {
  plain = key_AllPlain;
  decoded = key_decoded;
  whole = c_string-whole (codes "user7") (ground arith);
  short = omega arith;
}
