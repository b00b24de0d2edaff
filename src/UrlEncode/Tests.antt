-- ===== src/UrlEncode/Tests.antt =====
-- The encoding at a short text: each theorem at an input.
use log_service.Prelude.{◌≡◌, Bytes, codes, arith}
use log_service.UrlEncode.{url_encode, url_decode}
use log_service.UrlEncode.RoundTrip.{AllPlain, url_decode-url_encode, url_encode-AllPlain}

abbrev text : Bytes
text = codes "a b&c=\n"

url_decode-url_encode_example : url_decode (url_encode text) ≡ text
url_decode-url_encode_example = url_decode-url_encode text (ground arith)

url_encode-AllPlain_example : AllPlain (url_encode text)
url_encode-AllPlain_example = url_encode-AllPlain text (ground arith)
