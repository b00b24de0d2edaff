-- ===== src/UrlEncode/RoundTrip.antt =====
-- Decoding undoes encoding, and what is encoded can stand in a query string.
use log_service.Prelude.{
  if◌then◌else◌, ℕ, zero, suc, ◌/◌, ◌%◌, ◌≤◌, ◌<◌, ◌≡◌, ◌≢◌, refl, Bool, true, false, ◌&&◌, not, [],
  ◌∷◌, arith, Bytes, ◌==◌, get_or, length, Bool-cases, inl, inr,
}
use log_service.UrlEncode.{must_encode, url_encode, is_xdigit, htoi, url_decode, hexchars}

-- Whether a test passes on all numbers less than `k`.
passes_to : (ℕ → Bool) → ℕ → Bool
passes_to test zero = true
passes_to test (suc k) = if test k then passes_to test k else false

passes_to-at : (test : ℕ → Bool) (k c : ℕ) → c < k → passes_to test k ≡ true → test c ≡ true
unfolding passes_to
passes_to-at test zero c inside passed = absurd (omega arith)
passes_to-at test (suc k) c inside passed = ground (arith, passes_to-at test k c)

-- Over all bytes: the two digits of a byte read back as the byte.
digits_good : ℕ → Bool
digits_good c =
    is_xdigit (get_or hexchars (c / 16) 0)
    && is_xdigit (get_or hexchars (c % 16) 0)
    && (htoi (get_or hexchars (c / 16) 0) (get_or hexchars (c % 16) 0) % 256 == c)

digits_table : passes_to digits_good 256 ≡ true
unfolding passes_to digits_good is_xdigit htoi
digits_table = refl

abbrev pub AllBytes : Bytes → Type 0
AllBytes [] = Unit
AllBytes (c ∷ s) = (c < 256) × AllBytes s

-- No byte of a query's syntax, no white space and no NUL.
abbrev pub is_plain : ℕ → Bool
is_plain c =
    not (c == 0)
    && not (c == b' ')
    && not (c == b'&')
    && not (c == b'=')
    && not (c == b'?')
    && not (c == 10)

abbrev pub AllPlain : Bytes → Type 0
AllPlain [] = Unit
AllPlain (c ∷ s) = (is_plain c ≡ true) × AllPlain s

digits_good_lem :
    (c : ℕ)
    → c < 256
    → (is_xdigit (get_or hexchars (c / 16) 0) ≡ true)
      × (is_xdigit (get_or hexchars (c % 16) 0) ≡ true)
      × (htoi (get_or hexchars (c / 16) 0) (get_or hexchars (c % 16) 0) % 256 ≡ c)
unfolding digits_good
digits_good_lem c h = ground (arith, passes_to-at digits_good 256 c h digits_table)

decode_escape :
    (c : ℕ) (t : Bytes)
    → c < 256
    → url_decode (b'%' ∷ get_or hexchars (c / 16) 0 ∷ get_or hexchars (c % 16) 0 ∷ t)
      ≡ c ∷ url_decode t
unfolding url_decode
decode_escape c t h = let (p, q, r) = digits_good_lem c h in rw (p, q, r)

decode_plain : (c : ℕ) (t : Bytes) → c ≢ b'%' → url_decode (c ∷ t) ≡ c ∷ url_decode t
unfolding url_decode
decode_plain c [] h = refl
decode_plain c (a ∷ []) h = refl
decode_plain c (a ∷ b ∷ t) h = ground arith

decode_nil : url_decode [] ≡ []
unfolding url_decode
decode_nil = refl

percent_encoded : (c : ℕ) → must_encode c ≡ false → c ≢ b'%'
unfolding must_encode
percent_encoded c h = ground arith

-- Decoding the encoding of any string of bytes gives the string back.
pub url_decode-url_encode : (s : Bytes) → AllBytes s → url_decode (url_encode s) ≡ s
unfolding url_encode
url_decode-url_encode [] h = decode_nil
url_decode-url_encode (c ∷ s) h = elim (Bool-cases (must_encode c)) [
  | inl e ↦ rw (e, decode_escape c (url_encode s) h.0, url_decode-url_encode s h.1)
  | inr e ↦ rw (e, decode_plain c (url_encode s) (percent_encoded c e), url_decode-url_encode s h.1)
]

digits_plain : ℕ → Bool
digits_plain c = is_plain (get_or hexchars (c / 16) 0) && is_plain (get_or hexchars (c % 16) 0)

plain_table : passes_to digits_plain 256 ≡ true
unfolding passes_to digits_plain
plain_table = refl

digits_plain_lem :
    (c : ℕ)
    → c < 256
    → (is_plain (get_or hexchars (c / 16) 0) ≡ true)
      × (is_plain (get_or hexchars (c % 16) 0) ≡ true)
unfolding digits_plain
digits_plain_lem c h = ground (arith, passes_to-at digits_plain 256 c h plain_table)

plain_kept : (c : ℕ) → must_encode c ≡ false → is_plain c ≡ true
unfolding must_encode
plain_kept c h = ground arith

-- What is encoded holds no byte that the server's parser stops at or splits at.
pub url_encode-AllPlain : (s : Bytes) → AllBytes s → AllPlain (url_encode s)
unfolding url_encode
url_encode-AllPlain [] h = tt
url_encode-AllPlain (c ∷ s) h = elim (Bool-cases (must_encode c)) [
  | inl e ↦ let (p, q) = digits_plain_lem c h.0 in rw e (refl, (p, (q, url_encode-AllPlain s h.1)))
  | inr e ↦ rw e (plain_kept c e, url_encode-AllPlain s h.1)
]

pub length-url_encode : (s : Bytes) → length s ≤ length (url_encode s)
unfolding url_encode
length-url_encode [] = omega arith
length-url_encode (c ∷ s) = elim (Bool-cases (must_encode c)) [
  | inl e ↦ rw e (omega (arith, length-url_encode s))
  | inr e ↦ rw e (omega (arith, length-url_encode s))
]

abbrev pub NoPercent : Bytes → Type 0
NoPercent [] = Unit
NoPercent (c ∷ s) = (c ≢ b'%') × NoPercent s

pub url_decode-NoPercent : (s : Bytes) → NoPercent s → url_decode s ≡ s
url_decode-NoPercent [] h = decode_nil
url_decode-NoPercent (c ∷ s) h = rw (decode_plain c s h.0, url_decode-NoPercent s h.1)
