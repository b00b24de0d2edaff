-- ===== src/HttpParser.antt =====
-- src/common/http_parser.cpp: a request line into a `ReqData`.
-- A pointer into the request is the rest of the string from it on, up to the NUL; where the code
-- writes a NUL at a separator, the string in front of it is cut there.
pub mod Find
pub mod Line
pub mod Append
use log_service.Prelude.{
  ℕ, zero, suc, ◌+◌, ◌-◌, ◌*◌, ◌%◌, ◌^◌, Bool, true, false, ◌&&◌, ◌||◌, List, [], ◌∷◌, ◌++◌, Option,
  none, some, Bytes, codes, ltb, leb, ◌==◌, if◌then◌else◌, take, drop, length,
}
use log_service.Config.{key_len, str_len, search_keyword_len}
use log_service.Decimal.{strtol, long_max}
use log_service.ReqData.{
  ReqType, append, recent, getkey, search, search_time, log_count, persistence, ReqData,
  new_req_data,
}
use log_service.UrlEncode.{url_decode}

abbrev one_more : Option ℕ → Option ℕ
one_more none = none
one_more (some i) = some (i + 1)

-- `Find_char`: `none` for -1. It stops at a space or a line feed in front of the character sought.
unfoldable pub find_char : Bytes → ℕ → Option ℕ
find_char [] c = none
find_char (x ∷ s) c =
    let rest = one_more (find_char s c) in
    if x == c then some 0 else if (x == 0) || (x == b' ') || (x == 10) then none else rest

-- `strncmp(s, p, strlen(p)) == 0`
unfoldable pub starts_with : Bytes → Bytes → Bool
starts_with s [] = true
starts_with [] (p ∷ ps) = false
starts_with (c ∷ s) (p ∷ ps) = (c == p) && starts_with s ps

pub data ParameterType : Type 0 where
  unknown key time content count keyword start end id : ParameterType

pub parameter_type : Bytes → ParameterType
unfolding starts_with
parameter_type s =
    if starts_with s (codes "keyword")
    then keyword
    else if starts_with s (codes "key")
    then key
    else if starts_with s (codes "time")
    then time
    else if starts_with s (codes "content")
    then content
    else if starts_with s (codes "count")
    then count
    else if starts_with s (codes "start")
    then start
    else if starts_with s (codes "end")
    then end
    else if starts_with s (codes "id")
    then id
    else unknown

-- The C string in a buffer: what stands in front of the first NUL.
pub c_string : Bytes → Bytes
c_string [] = []
c_string (c ∷ s) = let rest = c ∷ c_string s in if c == 0 then [] else rest

-- The value decoded, and copied by `lgy_strncpy(field, value, size - 1)`.
pub text_value : ℕ → Bytes → Bytes
unfolding c_string
text_value size value = take (size - 1) (c_string (url_decode value))

-- The number read, unless it is 0, LONG_MAX or LONG_MIN.
pub number_value : Bytes → Option ℕ
number_value value =
    let n = strtol value in if (n == 0) || (n == long_max) || (n == 2 ^ 63) then none else some n

-- `uint64_t` to `int`.
abbrev pub to_int : ℕ → ℕ
to_int n = n % 2 ^ 32

-- A number is stored by `put`; a refused one leaves the request as it is.
abbrev store_number : (ℕ → ReqData) → ReqData → Option ℕ → ReqData × Bool
store_number put r none = (r, false)
store_number put r (some n) = (put n, true)

pub set_parameter : ParameterType → Bytes → ReqData → ReqData × Bool
unfolding text_value number_value
set_parameter key v r = (record r { key = text_value key_len v }, true)
set_parameter time v r = store_number (λ n. record r { time = n }) r (number_value v)
set_parameter start v r = store_number (λ n. record r { start = n }) r (number_value v)
set_parameter end v r = store_number (λ n. record r { end = n }) r (number_value v)
set_parameter id v r = store_number (λ n. record r { client_id = to_int n }) r (number_value v)
set_parameter content v r = (record r { content = text_value str_len v }, true)
set_parameter count v r = store_number (λ n. record r { count = n }) r (number_value v)
set_parameter keyword v r = (record r { keyword = text_value search_keyword_len v }, true)
set_parameter unknown v r = (r, false)

pub get_parameter : Bytes → ReqData → ReqData × Bool
get_parameter s r = elim (find_char s b'=') [
  | none ↦ (r, false)
  | some index ↦ set_parameter (parameter_type s) (drop (index + 1) s) r
]

pub skip_ampersands : Bytes → Bytes
skip_ampersands [] = []
skip_ampersands (c ∷ s) = let rest = skip_ampersands s in if c == b'&' then rest else c ∷ s

-- The loop over the parameters: every round but the last passes a separator, so as many rounds as
-- there are bytes are enough.
pub parse_parameters : ℕ → Bytes → ReqData → ReqData
parse_parameters zero s r = r
parse_parameters (suc fuel) s r =
    let cur = skip_ampersands s in
    elim (find_char cur b'&') [
      | none ↦ (get_parameter cur r).0
      | some k ↦ parse_parameters fuel (drop (k + 1) cur) (get_parameter (take k cur) r).0
    ]

-- The request type, and the path behind its name. For `getkey` the code skips `strlen("recent")`.
unfoldable pub request_type : Bytes → Option (ReqType × Bytes)
unfolding starts_with
request_type s =
    if starts_with s (codes "append")
    then some (append, drop 6 s)
    else if starts_with s (codes "recent")
    then some (recent, drop 6 s)
    else if starts_with s (codes "getkey")
    then some (getkey, drop 6 s)
    else if starts_with s (codes "persistence")
    then some (persistence, drop 11 s)
    else if starts_with s (codes "searchtime")
    then some (search_time, drop 10 s)
    else if starts_with s (codes "search")
    then some (search, drop 6 s)
    else if starts_with s (codes "logcount")
    then some (log_count, drop 8 s)
    else none

-- Without a space behind the query there is no request.
abbrev cut_query : ReqType → Bytes → Option ℕ → Option ReqData
cut_query type query none = none
cut_query type query (some k) =
    some (record (parse_parameters (length query + 1) (take k query) new_req_data) { type = type })

-- Without a '?' there are no parameters.
abbrev behind_path : ReqType → Bytes → Option ℕ → Option ReqData
behind_path type s none = some (record new_req_data { type = type })
behind_path type s (some q) =
    let query = drop (q + 1) s in cut_query type query (find_char query b' ')

-- Behind the request type.
unfoldable pub parse_query : ReqType → Bytes → Option ReqData
parse_query type s = behind_path type s (find_char s b'?')

abbrev parse_path : Option (ReqType × Bytes) → Option ReqData
parse_path none = none
parse_path (some (type, s)) = parse_query type s

-- `ParseReq`: `none` for the null pointer. Behind "GET" one byte is skipped, whatever it is.
unfoldable pub parse_req : Bytes → Option ReqData
unfolding starts_with request_type parse_query
parse_req s =
    let path = drop 4 s in
    if starts_with s (codes "GET")
    then if starts_with path (codes "/") then parse_path (request_type (drop 1 path)) else none
    else none
