-- ===== src/DataManager/Written.antt =====
-- The line that is stored for a request is one line where the key and the text have no line feed.
use log_service.Prelude.{
  ℕ, zero, suc, ◌+◌, ◌/◌, refl, [], ◌∷◌, ◌++◌, Bytes, codes, arith, ltb, Bool-cases, inl, inr,
  append_assoc,
}
use log_service.Decimal.{decimal, decimal_from}
use log_service.ReqData.{ReqData}
use log_service.DataManager.{log_line}
use log_service.DataManager.Lines.{NoFeed, NoFeed-append, IsLine}

decimal_from-NoFeed : (fuel n : ℕ) (out : Bytes) → NoFeed out → NoFeed (decimal_from fuel n out)
unfolding decimal_from
decimal_from-NoFeed zero n out h = h
decimal_from-NoFeed (suc fuel) n out h = elim (Bool-cases (ltb n 10)) [
  | inl e ↦ rw e (omega arith, omega arith, h)
  | inr e ↦ rw e (decimal_from-NoFeed fuel (n / 10) _ (omega arith, omega arith, h))
]

decimal-NoFeed : (n : ℕ) → NoFeed (decimal n)
unfolding decimal
decimal-NoFeed n = decimal_from-NoFeed (n + 1) n [] tt

abbrev words_of : ReqData → Bytes
words_of r =
    codes "[key: " ++ (r.key ++ (codes ", time: " ++ (decimal r.time ++ (codes "] " ++ r.content))))

pub log_line-IsLine : (r : ReqData) → NoFeed r.key → NoFeed r.content → IsLine (log_line r)
unfolding log_line
log_line-IsLine r key content = record {
  words = words_of r;
  ended =
      rw
        (
          append_assoc r.key (codes ", time: " ++ (decimal r.time ++ (codes "] " ++ r.content)))
              (10 ∷ []),
          append_assoc (decimal r.time) (codes "] " ++ r.content) (10 ∷ []),
        )
        refl;
  no_feed = NoFeed-append (codes "[key: ") _ (ground arith) (
      NoFeed-append r.key _ key (
        NoFeed-append (codes ", time: ") _ (ground arith) (
          NoFeed-append (decimal r.time) _ (decimal-NoFeed r.time)
            (NoFeed-append (codes "] ") _ (ground arith) content))));
}
