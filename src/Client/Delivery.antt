-- ===== src/Client/Delivery.antt =====
-- What the server's parser makes of the client's message.
use log_service.Prelude.{
  ℕ, suc, ◌+◌, ◌-◌, ◌≤◌, ◌<◌, ◌≡◌, refl, ap, ◌∙◌, [], ◌∷◌, ◌++◌, some, Bytes, codes, length, arith,
  take_all, length-append, append_assoc,
}
use log_service.Client.{request_line, Client, cody_log_string, get_key, get_time_sec}
use log_service.Config.{key_len, str_len, client_str_len}
use log_service.Decimal.{decimal, long_max}
use log_service.Decimal.RoundTrip.{AllDigits, decimal-AllDigits}
use log_service.HttpParser.{c_string, text_value, parse_parameters, parse_req}
use log_service.HttpParser.Append.{
  append_query, NoNul, c_string-whole, number_value-decimal, parse_parameters-append,
  parse_req-append, text_value-fits,
}
use log_service.HttpParser.Find.{AllPass, AllPass-append, AllPlain-AllPass}
use log_service.ReqData.{ReqData, new_req_data, append}
use log_service.UrlEncode.{url_encode, url_decode}
use log_service.UrlEncode.RoundTrip.{
  AllBytes, AllPlain, url_decode-url_encode, url_encode-AllPlain, length-url_encode,
}

-- A key as the client holds it: it fits the field, has no separator, and decodes to itself.
pub record IsKey (key : Bytes) : Type 0 where
  pub plain : AllPlain key
  pub decoded : url_decode key ≡ key
  pub whole : c_string key ≡ key
  pub short : length key < key_len

digits-AllPlain : (s : Bytes) → AllDigits s → AllPlain s
digits-AllPlain [] h = tt
digits-AllPlain (c ∷ s) h = (ground arith, digits-AllPlain s h.2)

decimal-AllPlain : (n : ℕ) → AllPlain (decimal n)
decimal-AllPlain n = digits-AllPlain (decimal n) (decimal-AllDigits n)

line_shape :
    (k t c : Bytes)
    → codes "key="
        ++ (k ++ (codes "&time=" ++ (t ++ (codes "&content=" ++ (c ++ codes "& HTTP/1.1")))))
      ≡ append_query k t c ++ (b' ' ∷ codes "HTTP/1.1")
line_shape k t c = simp append_assoc

append_query-AllPass :
    (k t c : Bytes)
    → AllPass b' ' k
    → AllPass b' ' t
    → AllPass b' ' c
    → AllPass b' ' (append_query k t c)
append_query-AllPass k t c hk ht hc = AllPass-append b' ' (codes "key=") _ (omega arith) (
    AllPass-append b' ' k _ hk (
      AllPass-append b' ' (codes "&time=") _ (omega arith) (
        AllPass-append b' ' t _ ht (
          AllPass-append b' ' (codes "&content=") _ (omega arith)
            (AllPass-append b' ' c _ hc (omega arith))))))

parse_req-request_line :
    (key c : Bytes) (time : ℕ)
    → AllPlain key
    → AllPlain c
    → 0 < time
    → time < long_max
    → parse_req (request_line key time c)
      ≡ some (record new_req_data {
        type = append;
        key = text_value key_len key;
        time = time;
        content = text_value str_len c;
      })
unfolding request_line
parse_req-request_line key c time hk hc pos small =
    let t = decimal time in
    let query = append_query key t c in
    let line = query ++ (b' ' ∷ codes "HTTP/1.1") in
    let spaced =
      append_query-AllPass key t c (AllPlain-AllPass b' ' key refl hk)
        (AllPlain-AllPass b' ' t refl (decimal-AllPlain time)) (AllPlain-AllPass b' ' c refl hc) in
    let fuel : length line + 1 ≡ suc (suc (suc (suc (length line - 3)))) = omega arith in
    let parsed =
      parse_parameters-append (length line - 3) key t c time (AllPlain-AllPass b'&' key refl hk)
        (AllPlain-AllPass b'&' t refl (decimal-AllPlain time)) (AllPlain-AllPass b'&' c refl hc)
        (number_value-decimal time pos small) in
    ap (λ q. parse_req (codes "GET /append?" ++ q)) (line_shape key t c)
    ∙ parse_req-append query (codes "HTTP/1.1") spaced
    ∙ ap (λ n. some (record (parse_parameters n query new_req_data) { type = append })) fuel
    ∙ ap (λ (r : ReqData). some (record r { type = append })) parsed

pub line_fits :
    (key s : Bytes) (time : ℕ)
    → length key + (length (decimal time) + length (url_encode s))
      ≤ length (request_line key time (url_encode s))
unfolding request_line
line_fits key s time =
    let c = url_encode s in
    omega (
      arith,
      length-append key
          (codes "&time=" ++ (decimal time ++ (codes "&content=" ++ (c ++ codes "& HTTP/1.1")))),
      length-append (decimal time) (codes "&content=" ++ (c ++ codes "& HTTP/1.1")),
      length-append c (codes "& HTTP/1.1"),
    )

-- The log text that a client sends arrives as it was written: the server parses the message into
-- an append request with the client's key and time, and with the text as its content. The text is
-- any string of bytes without a NUL; the encoded message has to fit the client's buffer. The key, which
-- is not encoded, is plain text that decodes to itself and is shorter than the server's field; the time
-- is positive and less than LONG_MAX.
pub parse_req-cody_log_string :
    (c : Client) (key s : Bytes) (time : ℕ)
    → (get_key c).1 ≡ key
    → (get_time_sec (get_key c).0).1 ≡ time
    → IsKey key
    → 0 < time
    → time < long_max
    → AllBytes s
    → NoNul s
    → length (request_line key time (url_encode s)) ≤ client_str_len - 2
    → parse_req (cody_log_string c s).1
      ≡ some (record new_req_data { type = append; key = key; time = time; content = s })
unfolding cody_log_string
parse_req-cody_log_string c key s time ek et ok pos small bytes nonul fits =
    rw (ek, et, take_all (client_str_len - 2) (request_line key time (url_encode s)) fits)
      (parse_req-request_line key (url_encode s) time ok.plain (url_encode-AllPlain s bytes) pos
          small
        ∙ rw (
          text_value-fits key_len key key ok.decoded ok.whole ok.short,
          text_value-fits str_len (url_encode s) s (url_decode-url_encode s bytes)
              (c_string-whole s nonul) (omega (arith, line_fits key s time, length-url_encode s)),
        ))
