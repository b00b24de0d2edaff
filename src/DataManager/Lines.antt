-- ===== src/DataManager/Lines.antt =====
-- The text of a bulk as the lines of its logs, each found at its offset.
use log_service.Prelude.{
  ℕ, zero, suc, ◌+◌, ◌<◌, ◌≡◌, ◌≢◌, refl, sym, ap, ◌∙◌, List, [], ◌∷◌, ◌++◌, some, Bytes, arith,
  length, get_or, take, drop, length-append, append_assoc, append-nil, take-append, drop-append,
}
use log_service.QueryResult.Complete.{joined}
use log_service.DataManager.{find_line_feed, first_line}

abbrev pub NoFeed : Bytes → Type 0
NoFeed [] = Unit
NoFeed (c ∷ s) = (c ≢ 10) × (c ≢ 0) × NoFeed s

-- A line feed at its end, and none before.
pub record IsLine (l : Bytes) : Type 0 where
  pub words : Bytes
  pub ended : l ≡ words ++ (10 ∷ [])
  pub no_feed : NoFeed words

abbrev pub AllLines : List Bytes → Type 0
AllLines [] = Unit
AllLines (l ∷ ls) = IsLine l × AllLines ls

pub AllLines-append : (ls ks : List Bytes) → AllLines ls → AllLines ks → AllLines (ls ++ ks)
AllLines-append [] ks a b = b
AllLines-append (l ∷ ls) ks a b = (a.0, AllLines-append ls ks a.1 b)

pub NoFeed-append : (s t : Bytes) → NoFeed s → NoFeed t → NoFeed (s ++ t)
NoFeed-append [] t a b = b
NoFeed-append (c ∷ s) t a b = (a.0, a.1, NoFeed-append s t a.2 b)

-- The offsets of the lines, from `o` on.
unfoldable pub starts : ℕ → List Bytes → List ℕ
starts o [] = []
starts o (l ∷ ls) = o ∷ starts (o + length l) ls

pub starts-snoc :
    (o : ℕ) (ls : List Bytes) (l : Bytes)
    → starts o (ls ++ (l ∷ [])) ≡ starts o ls ++ ((o + length (joined ls)) ∷ [])
unfolding starts joined
starts-snoc o [] l = ap (λ (n : ℕ). n ∷ []) (omega arith)
starts-snoc o (k ∷ ls) l = ap (◌∷◌ o) (
    starts-snoc (o + length k) ls l
    ∙ ap (λ (n : ℕ). starts (o + length k) ls ++ (n ∷ []))
        (omega (arith, length-append k (joined ls))))

pub joined-snoc : (ls : List Bytes) (l : Bytes) → joined (ls ++ (l ∷ [])) ≡ joined ls ++ l
unfolding joined
joined-snoc [] l = append-nil l
joined-snoc (k ∷ ls) l = ap (◌++◌ k) (joined-snoc ls l) ∙ sym (append_assoc k (joined ls) l)

-- Behind any text, the lines from one on stand at its offset.
drop-starts :
    (pre : Bytes) (ls : List Bytes) (i : ℕ)
    → i < length ls
    → drop (get_or (starts (length pre) ls) i 0) (pre ++ joined ls)
      ≡ get_or ls i [] ++ joined (drop (suc i) ls)
unfolding starts joined
drop-starts pre [] i h = absurd (omega arith)
drop-starts pre (l ∷ ls) zero h = drop-append pre (l ++ joined ls)
drop-starts pre (l ∷ ls) (suc i) h =
    ap (λ (n : ℕ). drop (get_or (starts n ls) i 0) (pre ++ (l ++ joined ls)))
      (sym (length-append pre l))
    ∙ ap (drop (get_or (starts (length (pre ++ l)) ls) i 0)) (sym (append_assoc pre l (joined ls)))
    ∙ drop-starts (pre ++ l) ls i (omega arith)

find_line_feed-words :
    (s rest : Bytes) → NoFeed s → find_line_feed (s ++ (10 ∷ rest)) ≡ some (length s)
unfolding find_line_feed
find_line_feed-words [] rest h = refl
find_line_feed-words (c ∷ s) rest h = ground (arith, find_line_feed-words s rest h.2)

take-words : (s rest : Bytes) → take (length s + 1) (s ++ (10 ∷ rest)) ≡ s ++ (10 ∷ [])
take-words s rest =
    ap (λ (n : ℕ). take n (s ++ (10 ∷ rest))) (omega (arith, length-append s (10 ∷ [])))
    ∙ ap (take (length (s ++ (10 ∷ [])))) (sym (append_assoc s (10 ∷ []) rest))
    ∙ take-append (s ++ (10 ∷ [])) rest

first_line-words :
    (s rest : Bytes) → NoFeed s → first_line (s ++ (10 ∷ rest)) ≡ some (s ++ (10 ∷ []))
unfolding first_line
first_line-words s rest h =
    rw (first_line, find_line_feed-words s rest h) (ap some (take-words s rest))

first_line-append : (l rest : Bytes) → IsLine l → first_line (l ++ rest) ≡ some l
first_line-append l rest i =
    ap (λ (t : Bytes). first_line (t ++ rest)) i.ended
    ∙ ap first_line (append_assoc i.words (10 ∷ []) rest)
    ∙ first_line-words i.words rest i.no_feed
    ∙ ap some (sym i.ended)

AllLines-get : (ls : List Bytes) (i : ℕ) → i < length ls → AllLines ls → IsLine (get_or ls i [])
AllLines-get [] i h a = absurd (omega arith)
AllLines-get (l ∷ ls) zero h a = a.0
AllLines-get (l ∷ ls) (suc i) h a = AllLines-get ls i (omega arith) a.1

-- The line at an offset is the log's.
pub first_line-starts :
    (ls : List Bytes) (i : ℕ)
    → AllLines ls
    → i < length ls
    → first_line (drop (get_or (starts 0 ls) i 0) (joined ls)) ≡ some (get_or ls i [])
first_line-starts ls i a h =
    ap first_line (drop-starts [] ls i h)
    ∙ first_line-append (get_or ls i []) (joined (drop (suc i) ls)) (AllLines-get ls i h a)
