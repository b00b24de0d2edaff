-- ===== src/TimeSearch/Bisect.antt =====
-- The loop finds the border of a test that, once passed, stays passed.
use log_service.Prelude.{
  ℕ, zero, suc, ◌+◌, ◌-◌, ◌/◌, ◌≤◌, ◌<◌, ◌≡◌, inl, inr, Bool, true, false, leb, arith, Bool-cases,
  leb→le,
}
use log_service.TimeSearch.{bisect}
use native.Mathlib.Decide.{dec_lt}

-- Where the test passes it passes further on.
abbrev pub Rises : (ℕ → Bool) → ℕ → Type 0
Rises test n = (i j : ℕ) → i ≤ j → j < n → test i ≡ true → test j ≡ true

-- The test fails below `k`, and passes from `k` on.
pub record Splits (test : ℕ → Bool) (n k : ℕ) : Type 0 where
  pub below : (i : ℕ) → i < k → test i ≡ false
  pub above : (i : ℕ) → k ≤ i → i < n → test i ≡ true

mid_pos : (test : ℕ → Bool) → test 0 ≡ false → (mid : ℕ) → test mid ≡ true → 0 < mid
mid_pos test first zero t = cc
mid_pos test first (suc mid) t = omega arith

fails_below :
    (test : ℕ → Bool) (n : ℕ)
    → Rises test n
    → (i j : ℕ) → i ≤ j
    → j < n
    → test j ≡ false
    → test i ≡ false
fails_below test n rise i j le lt f = elim (Bool-cases (test i)) [
  | inl t ↦ let up : test j ≡ true = rise i j le lt t in cc
  | inr t ↦ t
]

-- Enough fuel, a test that rises and fails at 0: the loop ends with `left` at the border, and
-- `right` one below it.
pub bisect-Splits :
    (test : ℕ → Bool) (n fuel left right : ℕ)
    → Rises test n
    → test 0 ≡ false
    → right < n
    → left ≤ right + 1
    → right + 1 - left < fuel
    → ((i : ℕ) → i < left → test i ≡ false)
    → ((i : ℕ) → right < i → i < n → test i ≡ true)
    → let (l, r) = bisect test fuel left right in Splits test n l × (l ≡ r + 1)
unfolding bisect
bisect-Splits test n zero left right rise first inside ordered fueled lo hi = absurd (omega arith)
bisect-Splits test n (suc fuel) left right rise first inside ordered fueled lo hi =
    elim (Bool-cases (leb left right)) [
      | inr e ↦ rw e (record { below = lo; above = λ i p q. hi i (ground arith) q }, ground arith)
      | inl e ↦
          let mid = left + (right - left) / 2 in
          let le : left ≤ right = leb→le left right e in
          elim (Bool-cases (test mid)) [
            | inl t ↦
                rw (e, t)
                  (bisect-Splits test n fuel left (mid - 1) rise first (omega arith)
                    (omega (arith, mid_pos test first mid t))
                    (omega (arith, mid_pos test first mid t)) lo
                    (λ i p q. rise mid i (omega arith) q t))
            | inr t ↦
                rw (e, t)
                  (bisect-Splits test n fuel (mid + 1) right rise first inside (omega arith)
                    (omega arith)
                    (λ i p. fails_below test n rise i mid (omega arith) (omega arith) t) hi)
          ]
    ]

pub bisect-right : (test : ℕ → Bool) (fuel left right : ℕ) → (bisect test fuel left right).1 ≤ right
unfolding bisect
bisect-right test zero left right = omega arith
bisect-right test (suc fuel) left right = elim (Bool-cases (leb left right)) [
  | inr e ↦ rw e (omega arith)
  | inl e ↦
      let mid = left + (right - left) / 2 in
      let le : left ≤ right = leb→le left right e in
      elim (Bool-cases (test mid)) [
        | inl t ↦ rw (e, t) (omega (arith, bisect-right test fuel left (mid - 1)))
        | inr t ↦ rw (e, t) (bisect-right test fuel (mid + 1) right)
      ]
]

-- The search of a whole array whose first element fails the test and whose last one passes it.
pub record Border (test : ℕ → Bool) (n l r : ℕ) : Type 0 where
  pub splits : Splits test n l
  pub apart : l ≡ r + 1
  pub inside : l < n
  pub passes : test l ≡ true
  pub fails : test r ≡ false

border_inside : (test : ℕ → Bool) (n l : ℕ) → Splits test n l → 0 < n → test (n - 1) ≡ true → l < n
border_inside test n l s pos last = elim (dec_lt l n) [
  | yes h ↦ h
  | no h ↦ let none_passes : test (n - 1) ≡ false = s.below (n - 1) (omega arith) in cc
]

pub bisect-Border :
    (test : ℕ → Bool) (n : ℕ)
    → Rises test n
    → 0 < n
    → test 0 ≡ false
    → test (n - 1) ≡ true
    → let (l, r) = bisect test (n + 1) 0 (n - 1) in Border test n l r
bisect-Border test n rise pos first last =
    let (s, e) =
      bisect-Splits test n (n + 1) 0 (n - 1) rise first (omega arith) (omega arith) (omega arith)
        (λ i h. absurd (omega arith)) (λ i h k. absurd (omega arith)) in
    let inside = border_inside test n _ s pos last in
    record {
      splits = s;
      apart = e;
      inside = inside;
      passes = s.above _ (omega arith) inside;
      fails = s.below _ (omega arith);
    }
