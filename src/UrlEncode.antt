-- ===== src/UrlEncode.antt =====
-- src/common/url_encode.cpp, over C strings as lists of bytes below 256, with no NUL.
pub mod RoundTrip
mod Tests
use log_service.Prelude.{
  ℕ, zero, suc, ◌+◌, ◌-◌, ◌*◌, ◌/◌, ◌%◌, Bool, true, false, not, ◌&&◌, ◌||◌, List, [], ◌∷◌, ◌++◌,
  Option, none, some, Bytes, codes, ltb, leb, ◌==◌, if◌then◌else◌, get_or,
}

-- `hexchars`
abbrev hexchars : Bytes
hexchars = codes "0123456789ABCDEF"

-- The code compares a `char`, which is signed on the program's platform: a byte of 128 or more
-- stands for `byte - 256`, below '0' and neither '-' nor '.'.
unfoldable pub must_encode : ℕ → Bool
must_encode c =
    leb 128 c
    || (ltb c b'0' && not (c == b'-') && not (c == b'.'))
    || (ltb c b'A' && ltb b'9' c)
    || (ltb b'Z' c && ltb c b'a' && not (c == b'_'))
    || ltb b'z' c

-- `url_encode(const char*)`: the loop over the bytes.
unfoldable pub url_encode : Bytes → Bytes
unfolding must_encode
url_encode [] = []
url_encode (c ∷ s) =
    if must_encode c
    then b'%' ∷ get_or hexchars (c / 16) 0 ∷ get_or hexchars (c % 16) 0 ∷ url_encode s
    else c ∷ url_encode s

-- `isupper`, `tolower` and `isxdigit` of the C locale.
is_upper : ℕ → Bool
is_upper c = leb b'A' c && leb c b'Z'

to_lower : ℕ → ℕ
unfolding is_upper
to_lower c = if is_upper c then c + 32 else c

pub is_xdigit : ℕ → Bool
is_xdigit c = (leb b'0' c && leb c b'9') || (leb b'a' c && leb c b'f') || (leb b'A' c && leb c b'F')

-- The value of one digit in `htoi`.
digit_value : ℕ → ℕ
unfolding to_lower
digit_value c = let d = to_lower c in if leb b'0' d && leb d b'9' then d - b'0' else d - b'a' + 10

pub htoi : ℕ → ℕ → ℕ
unfolding digit_value
htoi a b = digit_value a * 16 + digit_value b

-- `url_decode(const char*)`: `len >= 2` after the decrement says that two bytes follow the '%'.
pub url_decode : Bytes → Bytes
unfolding is_xdigit htoi
url_decode [] = []
url_decode (c ∷ []) = c ∷ []
url_decode (c ∷ a ∷ []) = c ∷ url_decode (a ∷ [])
url_decode (c ∷ a ∷ b ∷ s) =
    let escaped = (htoi a b % 256) ∷ url_decode s in
    let plain = c ∷ url_decode (a ∷ b ∷ s) in
    if (c == b'%') && is_xdigit a && is_xdigit b then escaped else plain
