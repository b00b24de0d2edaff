-- ===== src/HttpParser/Append.antt =====
-- The parser on an `append` request with the parameters key, time and content.
use log_service.Prelude.{
  ℕ, suc, ◌+◌, ◌-◌, ◌<◌, ◌≡◌, refl, ap, ◌∙◌, sym, [], ◌∷◌, ◌++◌, some, Bytes, codes, length, arith,
  append-nil, take_all,
}
use log_service.Config.{key_len, str_len}
use log_service.Decimal.{strtol, long_max, decimal}
use log_service.Decimal.RoundTrip.{strtol-decimal}
use log_service.UrlEncode.{url_decode}
use log_service.HttpParser.{
  parameter_type, set_parameter, text_value, number_value, get_parameter, parse_parameters,
  parse_req, c_string,
}
use log_service.HttpParser.Find.{AllPass, AllPass-append}
use log_service.HttpParser.Line.{
  parse_parameters-next, parse_parameters-end, get_parameter-value, parse_query-line,
}
use log_service.ReqData.{ReqData, append, new_req_data}

abbrev pub append_query : Bytes → Bytes → Bytes → Bytes
append_query k t c =
    codes "key="
    ++ (k ++ (b'&' ∷ (codes "time=" ++ (t ++ (b'&' ∷ (codes "content=" ++ (c ++ (b'&' ∷ []))))))))

get_key-value :
    (k : Bytes) (r : ReqData)
    → (get_parameter (codes "key=" ++ k) r).0 ≡ record r { key = text_value key_len k }
unfolding parameter_type set_parameter
get_key-value k r = ap (λ p. p.0) (get_parameter-value (codes "key") k r (omega arith))

get_content-value :
    (c : Bytes) (r : ReqData)
    → (get_parameter (codes "content=" ++ c) r).0 ≡ record r { content = text_value str_len c }
unfolding parameter_type set_parameter
get_content-value c r = ap (λ p. p.0) (get_parameter-value (codes "content") c r (omega arith))

get_time-value :
    (t : Bytes) (n : ℕ) (r : ReqData)
    → number_value t ≡ some n
    → (get_parameter (codes "time=" ++ t) r).0 ≡ record r { time = n }
unfolding parameter_type set_parameter
get_time-value t n r e = ap (λ p. p.0) (get_parameter-value (codes "time") t r (omega arith)) ∙ rw e

pub parse_parameters-append :
    (fuel : ℕ) (k t c : Bytes) (n : ℕ)
    → AllPass b'&' k
    → AllPass b'&' t
    → AllPass b'&' c
    → number_value t ≡ some n
    → parse_parameters (suc (suc (suc (suc fuel)))) (append_query k t c) new_req_data
      ≡ record new_req_data { key = text_value key_len k; time = n; content = text_value str_len c }
parse_parameters-append fuel k t c n hk ht hc e =
    let r1 = record new_req_data { key = text_value key_len k } in
    let r2 = record r1 { time = n } in
    let r3 = record r2 { content = text_value str_len c } in
    parse_parameters-next (suc (suc (suc fuel))) b'k' (codes "ey=" ++ k) _ new_req_data
      (omega arith) (AllPass-append b'&' (codes "key=") k (omega arith) hk)
    ∙ ap (parse_parameters (suc (suc (suc fuel))) _) (get_key-value k new_req_data)
    ∙ parse_parameters-next (suc (suc fuel)) b't' (codes "ime=" ++ t) _ r1 (omega arith)
        (AllPass-append b'&' (codes "time=") t (omega arith) ht)
    ∙ ap (parse_parameters (suc (suc fuel)) _) (get_time-value t n r1 e)
    ∙ parse_parameters-next (suc fuel) b'c' (codes "ontent=" ++ c) [] r2 (omega arith)
        (AllPass-append b'&' (codes "content=") c (omega arith) hc)
    ∙ ap (parse_parameters (suc fuel) []) (get_content-value c r2)
    ∙ parse_parameters-end fuel r3

pub parse_req-append :
    (query rest : Bytes)
    → AllPass b' ' query
    → parse_req (codes "GET /append?" ++ (query ++ (b' ' ∷ rest)))
      ≡ some (record (parse_parameters (length (query ++ (b' ' ∷ rest)) + 1) query new_req_data) {
        type = append;
      })
unfolding parse_req
parse_req-append query rest h = parse_query-line append query rest h

-- A positive number below LONG_MAX is stored as it was printed.
pub number_value-decimal : (n : ℕ) → 0 < n → n < long_max → number_value (decimal n) ≡ some n
unfolding number_value
number_value-decimal n pos small =
    let e : strtol (decimal n) ≡ n =
      ap strtol (sym (append-nil (decimal n))) ∙ strtol-decimal n [] pos (omega arith) tt in
    rw e (ground arith)

-- A text that fits its field, and whose decoding holds no NUL, is stored as it decodes.
pub text_value-fits :
    (size : ℕ) (value s : Bytes)
    → url_decode value ≡ s
    → c_string s ≡ s
    → length s < size
    → text_value size value ≡ s
unfolding text_value
text_value-fits size value s d w h = rw (d, w) (take_all (size - 1) s (omega arith))

-- A C string holds no NUL.
abbrev pub NoNul : Bytes → Type 0
NoNul [] = Unit
NoNul (c ∷ s) = (0 < c) × NoNul s

pub c_string-whole : (s : Bytes) → NoNul s → c_string s ≡ s
unfolding c_string
c_string-whole [] h = refl
c_string-whole (c ∷ s) h = ground (arith, c_string-whole s h.1)
