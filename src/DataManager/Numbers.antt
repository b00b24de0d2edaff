-- ===== src/DataManager/Numbers.antt =====
-- Handlers by their numbers.
use log_service.Prelude.{
  ℕ, ◌-◌, ◌<◌, ◌≡◌, ◌≢◌, refl, ap, List, [], ◌∷◌, ◌++◌, some, arith, length, ltb, lt→ltb, ltb→lt,
  length-set, length-append, get_elem?, set, get_elem?-set_self, get_elem?-set_ne, Bool-cases, inl,
  inr,
}
use log_service.Handler.{Handler}
use log_service.DataManager.{handler_at, set_handler}

pub handler_at-lt :
    (hs : List Handler) (id : ℕ) (h : Handler) → handler_at hs id ≡ some h → id < length hs
unfolding handler_at
handler_at-lt hs id h e = ground arith

pub handler_at-place :
    (hs : List Handler) (id : ℕ) (h : Handler)
    → handler_at hs id ≡ some h
    → get_elem? hs (length hs - 1 - id) ≡ some h
unfolding handler_at
handler_at-place hs id h e = ground arith

at_middle {ℓ} :
    {A : Type ℓ} (xs ys : List A) (x : A) → get_elem? (xs ++ (x ∷ ys)) (length xs) ≡ some x
at_middle [] ys x = refl
at_middle (y ∷ xs) ys x = at_middle xs ys x

set_middle {ℓ} :
    {A : Type ℓ} (xs ys : List A) (x y : A) → set (xs ++ (x ∷ ys)) (length xs) y ≡ xs ++ (y ∷ ys)
set_middle [] ys x y = refl
set_middle (z ∷ xs) ys x y = ap (◌∷◌ z) (set_middle xs ys x y)

-- The handler in front of the older ones has their number.
pub handler_at-middle :
    (newer older : List Handler) (h : Handler)
    → handler_at (newer ++ (h ∷ older)) (length older) ≡ some h
unfolding handler_at
handler_at-middle newer older h =
    let size = length-append newer (h ∷ older) in
    let inside : length older < length (newer ++ (h ∷ older)) = omega (arith, size) in
    let place : length (newer ++ (h ∷ older)) - 1 - length older ≡ length newer =
      omega (arith, size) in
    rw (lt→ltb (length older) (length (newer ++ (h ∷ older))) inside, place)
      (at_middle newer older h)

pub set_handler-middle :
    (newer older : List Handler) (h k : Handler)
    → set_handler (newer ++ (h ∷ older)) (length older) k ≡ newer ++ (k ∷ older)
unfolding set_handler
set_handler-middle newer older h k =
    let size = length-append newer (h ∷ older) in
    let place : length (newer ++ (h ∷ older)) - 1 - length older ≡ length newer =
      omega (arith, size) in
    rw place (set_middle newer older h k)

pub handler_at-set_self :
    (hs : List Handler) (id : ℕ) (h : Handler)
    → id < length hs
    → handler_at (set_handler hs id h) id ≡ some h
unfolding handler_at set_handler
handler_at-set_self hs id h lt =
    let at = length hs - 1 - id in
    rw (length-set hs at h)
      (rw (lt→ltb id (length hs) lt) (get_elem?-set_self hs at h (omega arith)))

pub handler_at-set_ne :
    (hs : List Handler) (id j : ℕ) (h : Handler)
    → id < length hs
    → id ≢ j
    → handler_at (set_handler hs id h) j ≡ handler_at hs j
unfolding handler_at set_handler
handler_at-set_ne hs id j h lt ne =
    let at = length hs - 1 - id in
    rw (length-set hs at h) (elim (Bool-cases (ltb j (length hs))) [
      | inl e ↦
          let inside : j < length hs = ltb→lt j (length hs) e in
          rw e (get_elem?-set_ne hs at (length hs - 1 - j) h (λ p. ne (omega (arith, p))))
      | inr e ↦ rw e refl
    ])
