-- ===== src/HttpParser/Line.antt =====
-- The parser on a line whose parts hold no separator: which parameters it reads.
use log_service.Prelude.{
  ℕ, suc, ◌+◌, ◌≡◌, ◌≢◌, refl, ap, ap₂, ◌∙◌, List, [], ◌∷◌, ◌++◌, some, Bytes, length, arith, take,
  drop, take-append,
}
use log_service.HttpParser.{
  find_char, parse_parameters, skip_ampersands, get_parameter, parse_query, parameter_type,
  set_parameter,
}
use log_service.HttpParser.Find.{AllPass, find_char-append}
use log_service.ReqData.{ReqData, ReqType, new_req_data}

drop-append_suc {ℓ} :
    {A : Type ℓ} (xs : List A) (x : A) (ys : List A) → drop (length xs + 1) (xs ++ (x ∷ ys)) ≡ ys
drop-append_suc [] x ys = refl
drop-append_suc (y ∷ xs) x ys =
    let e : length (y ∷ xs) + 1 ≡ suc (length xs + 1) = omega arith in
    ap (λ k. drop k (y ∷ (xs ++ (x ∷ ys)))) e ∙ drop-append_suc xs x ys

skip_ampersands-ne : (c : ℕ) (t : Bytes) → c ≢ b'&' → skip_ampersands (c ∷ t) ≡ c ∷ t
unfolding skip_ampersands
skip_ampersands-ne c t h = ground arith

parse_parameters-round :
    (fuel k : ℕ) (s cur : Bytes) (r : ReqData)
    → skip_ampersands s ≡ cur
    → find_char cur b'&' ≡ some k
    → parse_parameters (suc fuel) s r
      ≡ parse_parameters fuel (drop (k + 1) cur) (get_parameter (take k cur) r).0
unfolding parse_parameters
parse_parameters-round fuel k s cur r e f = rw (e, f, parse_parameters) (rw e)

-- One round of the loop, at a parameter with a '&' behind it.
pub parse_parameters-next :
    (fuel c : ℕ) (s rest : Bytes) (r : ReqData)
    → c ≢ b'&'
    → AllPass b'&' (c ∷ s)
    → parse_parameters (suc fuel) ((c ∷ s) ++ (b'&' ∷ rest)) r
      ≡ parse_parameters fuel rest (get_parameter (c ∷ s) r).0
parse_parameters-next fuel c s rest r ne h =
    let text = (c ∷ s) ++ (b'&' ∷ rest) in
    parse_parameters-round fuel (length (c ∷ s)) text text r
      (skip_ampersands-ne c (s ++ (b'&' ∷ rest)) ne) (find_char-append b'&' (c ∷ s) rest h)
    ∙ ap₂ (λ t p. parse_parameters fuel t (get_parameter p r).0) (drop-append_suc (c ∷ s) b'&' rest)
        (take-append (c ∷ s) (b'&' ∷ rest))

-- At the end of the query the loop reads an empty parameter, which stores nothing.
pub parse_parameters-end : (fuel : ℕ) (r : ReqData) → parse_parameters (suc fuel) [] r ≡ r
unfolding parse_parameters skip_ampersands find_char get_parameter
parse_parameters-end fuel r = refl

-- A parameter `name=value`.
pub get_parameter-value :
    (name value : Bytes) (r : ReqData)
    → AllPass b'=' name
    → get_parameter (name ++ (b'=' ∷ value)) r
      ≡ set_parameter (parameter_type (name ++ (b'=' ∷ value))) value r
unfolding get_parameter
get_parameter-value name value r h =
    rw (find_char-append b'=' name value h, get_parameter, drop-append_suc name b'=' value)

-- Behind the type the query runs from the '?' to the first space.
pub parse_query-line :
    (type : ReqType) (query rest : Bytes)
    → AllPass b' ' query
    → parse_query type (b'?' ∷ (query ++ (b' ' ∷ rest)))
      ≡ some (record (parse_parameters (length (query ++ (b' ' ∷ rest)) + 1) query new_req_data) {
        type = type;
      })
unfolding parse_query
parse_query-line type query rest h =
    let found = find_char-append b' ' query rest h in
    let start = find_char-append b'?' [] (query ++ (b' ' ∷ rest)) tt in
    rw (start, found, take-append query (b' ' ∷ rest))
