-- ===== src/HttpParser/Find.antt =====
-- `Find_char` on text that holds no separator.
use log_service.Prelude.{
  ℕ, ◌≡◌, ◌≢◌, refl, ap, true, false, [], ◌∷◌, ◌++◌, none, some, Bytes, length, arith,
}
use log_service.HttpParser.{find_char}
use log_service.UrlEncode.RoundTrip.{is_plain, AllPlain}

-- The search for `c` goes on behind `x`.
abbrev pub Passes : ℕ → ℕ → Type 0
Passes c x = (x ≢ c) × (x ≢ 0) × (x ≢ b' ') × (x ≢ 10)

abbrev pub AllPass : ℕ → Bytes → Type 0
AllPass c [] = Unit
AllPass c (x ∷ s) = Passes c x × AllPass c s

pub AllPass-append : (c : ℕ) (s t : Bytes) → AllPass c s → AllPass c t → AllPass c (s ++ t)
AllPass-append c [] t h k = k
AllPass-append c (x ∷ s) t h k = (h.0, AllPass-append c s t h.1 k)

plain-ne : (c x : ℕ) → is_plain c ≡ false → is_plain x ≡ true → x ≢ c
plain-ne c x p h e = let same : is_plain x ≡ is_plain c = ap is_plain e in cc (same, p, h)

plain-Passes : (c x : ℕ) → is_plain c ≡ false → is_plain x ≡ true → Passes c x
plain-Passes c x p h = (plain-ne c x p h, ground arith, ground arith, ground arith)

pub AllPlain-AllPass : (c : ℕ) (s : Bytes) → is_plain c ≡ false → AllPlain s → AllPass c s
AllPlain-AllPass c [] p h = tt
AllPlain-AllPass c (x ∷ s) p h = (plain-Passes c x p h.0, AllPlain-AllPass c s p h.1)

-- The search finds the separator behind text that it passes.
pub find_char-append :
    (c : ℕ) (s rest : Bytes) → AllPass c s → find_char (s ++ (c ∷ rest)) c ≡ some (length s)
unfolding find_char
find_char-append c [] rest h = ground arith
find_char-append c (x ∷ s) rest h = ground (arith, find_char-append c s rest h.1)

-- Text that it passes to the end holds no separator.
pub find_char-none : (c : ℕ) (s : Bytes) → AllPass c s → find_char s c ≡ none
unfolding find_char
find_char-none c [] h = refl
find_char-none c (x ∷ s) h = ground (arith, find_char-none c s h.1)
