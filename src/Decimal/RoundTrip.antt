-- ===== src/Decimal/RoundTrip.antt =====
-- What is printed reads back.
use log_service.Prelude.{
  ℕ, zero, suc, ◌+◌, ◌*◌, ◌/◌, ◌%◌, ◌≤◌, ◌<◌, ◌≡◌, ◌≢◌, refl, ◌∙◌, true, false, [], ◌∷◌, ◌++◌,
  Bytes, ltb, ◌==◌, arith, lt→ltb, ltb→lt, ap, sym, Bool-cases, inl, inr, ◌⊎◌,
}
use log_service.Decimal.{
  decimal_from, decimal, digit_of, scan, is_space, skip_space, magnitude, long_max, clamp, strtol,
}

decimal_from-append :
    (fuel n : ℕ) (out rest : Bytes)
    → decimal_from fuel n out ++ rest ≡ decimal_from fuel n (out ++ rest)
unfolding decimal_from
decimal_from-append zero n out rest = refl
decimal_from-append (suc fuel) n out rest =
    ground (arith, decimal_from-append fuel (n / 10) ((b'0' + n % 10) ∷ out) rest)

digit_of-digit : (n : ℕ) → n < 10 → digit_of (b'0' + n) ≡ n
digit_of-digit n h = ground arith

scan-digit :
    (acc n k : ℕ) (out : Bytes)
    → n < 10
    → acc * 10 + n ≡ k
    → scan 10 acc ((b'0' + n) ∷ out) ≡ scan 10 k out
unfolding scan
scan-digit acc n k out h e = rw (digit_of-digit n h, lt→ltb n 10 h) (ap (λ m. scan 10 m out) e)

scan-decimal_from :
    (fuel n : ℕ) (out : Bytes) → n < fuel → scan 10 0 (decimal_from fuel n out) ≡ scan 10 n out
unfolding decimal_from
scan-decimal_from zero n out h = absurd (omega arith)
scan-decimal_from (suc fuel) n out h = elim (Bool-cases (ltb n 10)) [
  | inl e ↦ rw e (scan-digit 0 n n out (ltb→lt n 10 e) (omega arith))
  | inr e ↦ rw e (
      scan-decimal_from fuel (n / 10) _ (ground arith)
      ∙ scan-digit (n / 10) (n % 10) n out (omega arith) (omega arith))
]

-- What is behind the digits does not go on with one.
abbrev pub Ends : Bytes → Type 0
Ends [] = Unit
Ends (c ∷ s) = 10 ≤ digit_of c

scan-Ends : (n : ℕ) (rest : Bytes) → Ends rest → scan 10 n rest ≡ (n, rest)
unfolding scan
scan-Ends n [] h = refl
scan-Ends n (c ∷ s) h = ground arith

-- A printed number reads back, and leaves what follows it.
pub scan-decimal : (n : ℕ) (rest : Bytes) → Ends rest → scan 10 0 (decimal n ++ rest) ≡ (n, rest)
unfolding decimal
scan-decimal n rest h =
    rw (decimal_from-append (n + 1) n [] rest)
      (scan-decimal_from (n + 1) n rest (omega arith) ∙ scan-Ends n rest h)

-- A positive number starts with a digit that is not 0.
pub decimal_front :
    (fuel n : ℕ) (out : Bytes)
    → n < fuel
    → 0 < n
    → (c : ℕ) × (s : Bytes) × (decimal_from fuel n out ≡ c ∷ s) × (b'1' ≤ c) × (c ≤ b'9')
unfolding decimal_from
decimal_front zero n out h p = absurd (omega arith)
decimal_front (suc fuel) n out h p = elim (Bool-cases (ltb n 10)) [
  | inl e ↦ (b'0' + n, out, rw e, omega arith, ground arith)
  | inr e ↦ rw e (decimal_front fuel (n / 10) _ (ground arith) (ground arith))
]

magnitude-scan : (c : ℕ) (s : Bytes) → c ≢ b'0' → magnitude (c ∷ s) ≡ (scan 10 0 (c ∷ s)).0
unfolding magnitude
magnitude-scan c [] h = refl
magnitude-scan c (x ∷ []) h = ground arith
magnitude-scan c (x ∷ d ∷ s) h = ground arith

==_false : (a b : ℕ) → a ≢ b → (a == b) ≡ false
==_false a b h = ground arith

space_no : (c : ℕ) → b'1' ≤ c → is_space c ≡ false
space_no c lo = ground arith

skip_space-digit : (c : ℕ) (s : Bytes) → b'1' ≤ c → skip_space (c ∷ s) ≡ c ∷ s
unfolding skip_space
skip_space-digit c s lo = rw (space_no c lo)

strtol-digits : (c : ℕ) (s : Bytes) → b'1' ≤ c → strtol (c ∷ s) ≡ clamp (scan 10 0 (c ∷ s)).0
unfolding strtol
strtol-digits c s lo = rw (
  skip_space-digit c s lo,
  ==_false c b'-' (omega arith),
  ==_false c b'+' (omega arith),
  magnitude-scan c s (omega arith),
)

-- `strtol` with base 0 reads back every positive `long` printed in decimal, up to LONG_MAX.
pub strtol-decimal :
    (n : ℕ) (rest : Bytes) → 0 < n → n ≤ long_max → Ends rest → strtol (decimal n ++ rest) ≡ n
unfolding decimal
strtol-decimal n rest pos small ends =
    let (c, s, e, lo, hi) = decimal_front (n + 1) n rest (omega arith) pos in
    rw (decimal_from-append (n + 1) n [] rest) (
      ap strtol e
      ∙ strtol-digits c s lo
      ∙ ap (λ t. clamp (scan 10 0 t).0) (sym e)
      ∙ rw (scan-decimal_from (n + 1) n rest (omega arith), scan-Ends n rest ends) (ground arith))

abbrev pub AllDigits : Bytes → Type 0
AllDigits [] = Unit
AllDigits (c ∷ s) = (b'0' ≤ c) × (c ≤ b'9') × AllDigits s

decimal_from-AllDigits :
    (fuel n : ℕ) (out : Bytes) → AllDigits out → AllDigits (decimal_from fuel n out)
unfolding decimal_from
decimal_from-AllDigits zero n out h = h
decimal_from-AllDigits (suc fuel) n out h = elim (Bool-cases (ltb n 10)) [
  | inl e ↦ rw e (omega arith, ground arith, h)
  | inr e ↦ rw e (decimal_from-AllDigits fuel (n / 10) _ (omega arith, omega arith, h))
]

pub decimal-AllDigits : (n : ℕ) → AllDigits (decimal n)
unfolding decimal
decimal-AllDigits n = decimal_from-AllDigits (n + 1) n [] tt

skip_space-front : (c : ℕ) (s : Bytes) → b'0' ≤ c → c ≤ b'9' → skip_space (c ∷ s) ≡ c ∷ s
unfolding skip_space
skip_space-front c s lo hi = let e : is_space c ≡ false = ground arith in rw e refl

-- A printed number stops the reader from skipping.
pub skip_space-decimal : (n : ℕ) (rest : Bytes) → skip_space (decimal n ++ rest) ≡ decimal n ++ rest
unfolding decimal decimal_from
skip_space-decimal zero rest = skip_space-front b'0' rest (omega arith) (omega arith)
skip_space-decimal (suc n) rest =
    let (c, s, e, lo, hi) = decimal_front (suc n + 1) (suc n) rest (omega arith) (omega arith) in
    let e' : decimal (suc n) ++ rest ≡ c ∷ s =
      decimal_from-append (suc n + 1) (suc n) [] rest ∙ e in
    ap skip_space e' ∙ skip_space-front c s (omega arith) (omega arith) ∙ sym e'

pub skip_space-space :
    (c : ℕ) (s : Bytes) → (c ≡ b' ') ⊎ (c ≡ 10) → skip_space (c ∷ s) ≡ skip_space s
unfolding skip_space
skip_space-space c s h = let e : is_space c ≡ true = ground (arith, h) in rw e refl
