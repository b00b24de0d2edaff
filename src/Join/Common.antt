-- ===== src/Join/Common.antt =====
-- How often a serial is common to sorted lists, and what the rounds of `Join_search` leave of it.
use log_service.Prelude.{
  ℕ, zero, suc, ◌+◌, ◌≤◌, ◌<◌, ◌≡◌, ◌≢◌, refl, inl, inr, true, false, List, [], ◌∷◌, arith, length,
  get_or, Bool-cases, if◌then◌else◌, ◌==◌, min, ap, ◌∙◌, sym,
}
use native.Mathlib.Decide.{dec_lt, ℕ_discrete}
use log_service.Join.{
  deref, next, find_smallest_iterator, all_equal, any_end, advance_all, advance_at,
}
use log_service.Join.Smallest.{AllFrom, find_smallest_iterator-least}

abbrev pub count : ℕ → List ℕ → ℕ
count x [] = 0
count x (y ∷ l) = (if y == x then 1 else 0) + count x l

-- The serials of a list do not fall.
abbrev pub IsSorted : List ℕ → Type 0
IsSorted [] = Unit
IsSorted (x ∷ []) = Unit
IsSorted (x ∷ y ∷ l) = (x ≤ y) × IsSorted (y ∷ l)

abbrev pub AllSorted : List (List ℕ) → Type 0
AllSorted [] = Unit
AllSorted (l ∷ ls) = IsSorted l × AllSorted ls

-- The least count of `x` in the lists, of which there is one at least.
abbrev pub min_count : ℕ → List (List ℕ) → ℕ
min_count x [] = 0
min_count x (l ∷ []) = count x l
min_count x (l ∷ k ∷ ls) = min (count x l) (min_count x (k ∷ ls))

next-IsSorted : (l : List ℕ) → IsSorted l → IsSorted (next l)
next-IsSorted [] h = tt
next-IsSorted (x ∷ []) h = tt
next-IsSorted (x ∷ y ∷ l) h = h.1

pub advance_all-AllSorted : (its : List (List ℕ)) → AllSorted its → AllSorted (advance_all its)
unfolding advance_all
advance_all-AllSorted [] h = tt
advance_all-AllSorted (l ∷ ls) h = (next-IsSorted l h.0, advance_all-AllSorted ls h.1)

pub advance_at-AllSorted :
    (i : ℕ) (its : List (List ℕ)) → AllSorted its → AllSorted (advance_at i its)
unfolding advance_at
advance_at-AllSorted zero [] h = tt
advance_at-AllSorted (suc i) [] h = tt
advance_at-AllSorted zero (l ∷ ls) h = (next-IsSorted l h.0, h.1)
advance_at-AllSorted (suc i) (l ∷ ls) h = (h.0, advance_at-AllSorted i ls h.1)

count_below : (x : ℕ) (l : List ℕ) → IsSorted l → x < deref l → count x l ≡ 0
count_below x [] h lt = refl
count_below x (y ∷ []) h lt = ground arith
count_below x (y ∷ z ∷ l) h lt = ground (arith, count_below x (z ∷ l) h.1)

count-next : (x : ℕ) (l : List ℕ) → deref l ≢ x → count x (next l) ≡ count x l
count-next x [] h = refl
count-next x (y ∷ l) h = ground arith

-- A list without `x` leaves no common `x`.
min_count_zero :
    (x j : ℕ) (its : List (List ℕ))
    → j < length its
    → count x (get_or its j []) ≡ 0
    → min_count x its ≡ 0
min_count_zero x j [] h e = refl
min_count_zero x zero (l ∷ []) h e = e
min_count_zero x (suc j) (l ∷ []) h e = absurd (omega arith)
min_count_zero x zero (l ∷ k ∷ ls) h e = omega arith
min_count_zero x (suc j) (l ∷ k ∷ ls) h e =
    omega (arith, min_count_zero x j (k ∷ ls) (omega arith) e)

pub min_count-ended : (x : ℕ) (its : List (List ℕ)) → any_end its ≡ true → min_count x its ≡ 0
unfolding any_end
min_count-ended x [] h = refl
min_count-ended x ([] ∷ []) h = refl
min_count-ended x ([] ∷ k ∷ ls) h = omega arith
min_count-ended x ((y ∷ l) ∷ []) h = cc
min_count-ended x ((y ∷ l) ∷ k ∷ ls) h = omega (arith, min_count-ended x (k ∷ ls) h)

-- Where all heads are `h`, advancing all takes one `h`.
pub min_count-advance_all :
    (x h : ℕ) (l : List ℕ) (ls : List (List ℕ))
    → any_end (l ∷ ls) ≡ false
    → all_equal h (l ∷ ls) ≡ true
    → min_count x (l ∷ ls) ≡ (if h == x then 1 else 0) + min_count x (advance_all (l ∷ ls))
unfolding advance_all any_end all_equal
min_count-advance_all x h [] ls e a = cc
min_count-advance_all x h (y ∷ l) [] e a = ground arith
min_count-advance_all x h (y ∷ l) (k ∷ ls) e a = ground (arith, min_count-advance_all x h k ls)

min_count-cons :
    (x : ℕ) (l : List ℕ) (its : List (List ℕ))
    → 0 < length its
    → min_count x (l ∷ its) ≡ min (count x l) (min_count x its)
min_count-cons x l [] h = absurd (omega arith)
min_count-cons x l (k ∷ ls) h = refl

pub length-advance_at : (i : ℕ) (its : List (List ℕ)) → length (advance_at i its) ≡ length its
unfolding advance_at
length-advance_at zero [] = refl
length-advance_at (suc i) [] = refl
length-advance_at zero (l ∷ ls) = refl
length-advance_at (suc i) (l ∷ ls) = ap suc (length-advance_at i ls)

-- Advancing a list whose head is not `x` leaves the common `x` as they are.
min_count-advance_at :
    (x i : ℕ) (its : List (List ℕ))
    → deref (get_or its i []) ≢ x
    → min_count x (advance_at i its) ≡ min_count x its
unfolding advance_at
min_count-advance_at x zero [] h = refl
min_count-advance_at x (suc i) [] h = refl
min_count-advance_at x zero (l ∷ []) h = count-next x l h
min_count-advance_at x (suc i) (l ∷ []) h = refl
min_count-advance_at x zero (l ∷ k ∷ ls) h = omega (arith, count-next x l h)
min_count-advance_at x (suc i) (l ∷ k ∷ ls) h =
    let n = length-advance_at i (k ∷ ls) in
    rw (min_count-cons x l (advance_at i (k ∷ ls)) (omega arith))
      (ap (min (count x l)) (min_count-advance_at x i (k ∷ ls) h))

get_or-advance_at :
    (i j : ℕ) (its : List (List ℕ)) → i ≢ j → get_or (advance_at i its) j [] ≡ get_or its j []
unfolding advance_at
get_or-advance_at zero zero its h = absurd (h refl)
get_or-advance_at i j [] h = refl
get_or-advance_at zero (suc j) (l ∷ ls) h = refl
get_or-advance_at (suc i) zero (l ∷ ls) h = refl
get_or-advance_at (suc i) (suc j) (l ∷ ls) h = get_or-advance_at i j ls (λ e. h (ap suc e))

AllFrom-get_or :
    (v j : ℕ) (its : List (List ℕ)) → AllFrom v its → j < length its → v ≤ deref (get_or its j [])
AllFrom-get_or v j [] a h = absurd (omega arith)
AllFrom-get_or v zero (l ∷ ls) a h = a.0
AllFrom-get_or v (suc j) (l ∷ ls) a h = AllFrom-get_or v j ls a.1 (omega arith)

AllSorted-get_or : (j : ℕ) (its : List (List ℕ)) → AllSorted its → IsSorted (get_or its j [])
AllSorted-get_or zero [] a = tt
AllSorted-get_or (suc j) [] a = tt
AllSorted-get_or zero (l ∷ ls) a = a.0
AllSorted-get_or (suc j) (l ∷ ls) a = AllSorted-get_or j ls a.1

-- A head that differs.
differs :
    (h : ℕ) (its : List (List ℕ))
    → all_equal h its ≡ false
    → (j : ℕ) × (j < length its) × (deref (get_or its j []) ≢ h)
unfolding all_equal
differs h [] e = cc
differs h (l ∷ ls) e = elim (Bool-cases (deref l == h)) [
  | inr n ↦ (0, omega arith, ground arith)
  | inl same ↦ let (j, b, d) = differs h ls (ground arith) in (suc j, omega arith, d)
]

-- Where not all heads are equal, some head lies above the least one.
above_least :
    (l : List ℕ) (ls : List (List ℕ)) (m : ℕ)
    → all_equal (deref l) (l ∷ ls) ≡ false
    → AllFrom m (l ∷ ls)
    → (j : ℕ) × (j < length (l ∷ ls)) × (m < deref (get_or (l ∷ ls) j []))
above_least l ls m e a =
    let (j, b, d) = differs (deref l) (l ∷ ls) e in
    elim (dec_lt m (deref l)) [
      | yes lt ↦ (0, omega arith, lt)
      | no ge ↦ (j, b, omega (arith, AllFrom-get_or m j (l ∷ ls) a b))
    ]

-- A round that advances the least head loses no common serial.
pub min_count-skip :
    (x : ℕ) (l : List ℕ) (ls : List (List ℕ))
    → AllSorted (l ∷ ls)
    → all_equal (deref l) (l ∷ ls) ≡ false
    → min_count x (advance_at (find_smallest_iterator (l ∷ ls)) (l ∷ ls)) ≡ min_count x (l ∷ ls)
min_count-skip x l ls sorted e =
    let its = l ∷ ls in
    let k = find_smallest_iterator its in
    let (b, least) = find_smallest_iterator-least l ls in
    let (j, inside, above) = above_least l ls _ e least in
    elim (ℕ_discrete (deref (get_or its k [])) x) [
      | no ne ↦ min_count-advance_at x k its ne
      | yes here ↦
          let absent : count x (get_or its j []) ≡ 0 =
            count_below x _ (AllSorted-get_or j its sorted) (omega arith) in
          let elsewhere : k ≢ j =
            λ (same : k ≡ j). omega (arith, ap (λ i. deref (get_or its i [])) same) in
          min_count_zero x j (advance_at k its) (omega (arith, length-advance_at k its))
            (rw (get_or-advance_at k j its elsewhere) absent)
          ∙ sym (min_count_zero x j its inside absent)
    ]
