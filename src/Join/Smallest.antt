-- ===== src/Join/Smallest.antt =====
-- `Find_smallest_iterator` returns the index of a list whose head is least.
use log_service.Prelude.{
  ℕ, suc, ◌+◌, ◌≤◌, ◌<◌, ◌≡◌, refl, sym, ◌⊎◌, inl, inr, List, [], ◌∷◌, ltb, ltb→lt, arith, length,
  get_or, Bool-cases,
}
use mathlib.Core.Path.{subst}
use log_service.Join.{deref, smallest_from, find_smallest_iterator}

-- `v` is at most every head.
abbrev pub AllFrom : ℕ → List (List ℕ) → Type 0
AllFrom v [] = Unit
AllFrom v (l ∷ ls) = (v ≤ deref l) × AllFrom v ls

abbrev At : ℕ → ℕ → ℕ → ℕ → List (List ℕ) → ℕ → Type 0
At i s v r ls k =
    (k < length ls)
    × (r ≡ i + k)
    × (deref (get_or ls k []) < v)
    × AllFrom (deref (get_or ls k [])) ls

abbrev Result : ℕ → ℕ → ℕ → List (List ℕ) → ℕ → Type 0
Result i s v ls r = ((r ≡ s) × AllFrom v ls) ⊎ ((k : ℕ) × At i s v r ls k)

smallest_from-Result : (i s v : ℕ) (ls : List (List ℕ)) → Result i s v ls (smallest_from i s v ls)
unfolding smallest_from
smallest_from-Result i s v [] = inl (refl, tt)
smallest_from-Result i s v (l ∷ ls) = elim (Bool-cases (ltb (deref l) v)) [
  | inl e ↦ rw e (found (ltb→lt _ _ e) (smallest_from-Result (i + 1) i (deref l) ls))
  | inr e ↦ rw e (kept (ground arith) (smallest_from-Result (i + 1) s v ls))
]
  where
    found : {r : ℕ} → deref l < v → Result (i + 1) i (deref l) ls r → Result i s v (l ∷ ls) r
    found lt (inl (e, a)) = inr (0, (omega arith, omega arith, lt, (omega arith, a)))
    found lt (inr (k, (b, e, less, a))) =
        inr (suc k, (omega arith, omega arith, omega arith, (omega arith, a)))

    kept : {r : ℕ} → v ≤ deref l → Result (i + 1) s v ls r → Result i s v (l ∷ ls) r
    kept le (inl (e, a)) = inl (e, (le, a))
    kept le (inr (k, (b, e, less, a))) =
        inr (suc k, (omega arith, omega arith, less, (omega arith, a)))

pub find_smallest_iterator-least :
    (l : List ℕ) (ls : List (List ℕ))
    → let its = l ∷ ls in
      let k = find_smallest_iterator its in (k < length its) × AllFrom (deref (get_or its k [])) its
unfolding find_smallest_iterator
find_smallest_iterator-least l ls = least (smallest_from-Result 1 0 (deref l) ls)
  where
    at_head : {r : ℕ} → r ≡ 0 → deref (get_or (l ∷ ls) r []) ≡ deref l
    at_head e = rw e

    behind : {r : ℕ} (k : ℕ) → r ≡ 1 + k → get_or (l ∷ ls) r [] ≡ get_or ls k []
    behind {r} k e = let e' : r ≡ suc k = omega arith in rw e'

    least :
        {r : ℕ}
        → Result 1 0 (deref l) ls r
        → (r < length (l ∷ ls)) × AllFrom (deref (get_or (l ∷ ls) r [])) (l ∷ ls)
    least (inl (e, a)) =
        (omega arith, subst (λ v. AllFrom v (l ∷ ls)) (sym (at_head e)) (omega arith, a))
    least (inr (k, (b, e, less, a))) = (
      omega arith,
      subst (λ (t : List ℕ). AllFrom (deref t) (l ∷ ls)) (sym (behind k e)) (omega arith, a),
    )
