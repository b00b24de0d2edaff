-- ===== src/Decimal.antt =====
-- Numbers as text, as the standard library prints and reads them for the program: `ostream << n`,
-- and `strtol` with base 0.
pub mod RoundTrip
use log_service.Prelude.{
  ℕ, zero, suc, ◌+◌, ◌-◌, ◌*◌, ◌/◌, ◌%◌, ◌^◌, Bool, true, false, ◌&&◌, ◌||◌, List, [], ◌∷◌, ◌++◌,
  Bytes, ltb, leb, ◌==◌, if◌then◌else◌,
}

-- The digits of `n` in front of `out`; each round divides by ten, so `n + 1` rounds are enough.
unfoldable pub decimal_from : ℕ → ℕ → Bytes → Bytes
decimal_from zero n out = out
decimal_from (suc fuel) n out =
    let more = decimal_from fuel (n / 10) ((b'0' + n % 10) ∷ out) in
    if ltb n 10 then (b'0' + n) ∷ out else more

unfoldable pub decimal : ℕ → Bytes
unfolding decimal_from
decimal n = decimal_from (n + 1) n []

-- The value of a digit in a base up to 36; 99 for any other byte.
abbrev pub digit_of : ℕ → ℕ
digit_of c =
    if leb b'0' c && leb c b'9'
    then c - b'0'
    else if leb b'a' c && leb c b'z'
    then c - b'a' + 10
    else if leb b'A' c && leb c b'Z'
    then c - b'A' + 10
    else 99

-- The digits at the front, and what is behind them.
unfoldable pub scan : ℕ → ℕ → Bytes → ℕ × Bytes
scan base acc [] = (acc, [])
scan base acc (c ∷ s) =
    let more = scan base (acc * base + digit_of c) s in
    if ltb (digit_of c) base then more else (acc, c ∷ s)

abbrev pub is_space : ℕ → Bool
is_space c = (c == b' ') || (leb 9 c && leb c 13)

pub skip_space : Bytes → Bytes
skip_space [] = []
skip_space (c ∷ s) = let rest = skip_space s in if is_space c then rest else c ∷ s

-- Base 0: `0x` and a hexadecimal digit, a leading `0`, or decimal.
pub magnitude : Bytes → ℕ
unfolding scan
magnitude [] = 0
magnitude (c ∷ []) = (scan 10 0 (c ∷ [])).0
magnitude (c ∷ x ∷ []) = if c == b'0' then (scan 8 0 (x ∷ [])).0 else (scan 10 0 (c ∷ x ∷ [])).0
magnitude (c ∷ x ∷ d ∷ s) =
    if (c == b'0') && ((x == b'x') || (x == b'X')) && ltb (digit_of d) 16
    then (scan 16 0 (d ∷ s)).0
    else if c == b'0'
    then (scan 8 0 (x ∷ d ∷ s)).0
    else (scan 10 0 (c ∷ x ∷ d ∷ s)).0

abbrev pub long_max : ℕ
long_max = 2 ^ 63 - 1

-- A positive result is held at LONG_MAX, a negative one at LONG_MIN, whose pattern is 2^63.
abbrev pub clamp : ℕ → ℕ
clamp m = if ltb long_max m then long_max else m

abbrev pub clamp_negated : ℕ → ℕ
clamp_negated m = if ltb long_max m then 2 ^ 63 else (2 ^ 64 - m) % 2 ^ 64

abbrev signed : Bytes → ℕ
signed [] = 0
signed (c ∷ s) =
    if c == b'-'
    then clamp_negated (magnitude s)
    else if c == b'+'
    then clamp (magnitude s)
    else clamp (magnitude (c ∷ s))

-- `(uint64_t) strtol(s, &end, 0)`: the 64-bit pattern of the result.
pub strtol : Bytes → ℕ
unfolding magnitude skip_space
strtol s = signed (skip_space s)
