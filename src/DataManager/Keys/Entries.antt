-- ===== src/DataManager/Keys/Entries.antt =====
-- A log as its key and its line, and the lines of a key among such logs.
use log_service.Prelude.{
  ℕ, suc, ◌+◌, ◌≡◌, refl, sym, ap, ap₂, ◌∙◌, Bool, true, false, List, [], ◌∷◌, ◌++◌, Bytes, arith,
  length, get_or, if◌then◌else◌, AllBelow, AllBelow-reverse, bytes_eq, Bool-cases, inl, inr, map,
  reverse, reverse-cons, append-nil,
}
use mathlib.Core.List.{map-append}
use mathlib.Core.Path.{subst}
use log_service.DataManager.Stored.{newest_first, put_in, total}
use log_service.DataManager.Sent.{lines_at}
use log_service.DataManager.Keys.{positions, has_key}

abbrev pub Entry : Type 0
Entry = Bytes × Bytes

abbrev pub key_of : Entry → Bytes
key_of e = e.0

abbrev pub line_of : Entry → Bytes
line_of e = e.1

-- The lines with a key.
unfoldable pub with_key : Bytes → List Entry → List Bytes
with_key q [] = []
with_key q ((k, l) ∷ es) = let rest = with_key q es in if bytes_eq k q then l ∷ rest else rest

pub with_key-append :
    (q : Bytes) (es ds : List Entry) → with_key q (es ++ ds) ≡ with_key q es ++ with_key q ds
unfolding with_key
with_key-append q [] ds = refl
with_key-append q ((k, l) ∷ es) ds = elim (Bool-cases (bytes_eq k q)) [
  | inl e ↦ rw e (ap (◌∷◌ l) (with_key-append q es ds))
  | inr e ↦ rw e (with_key-append q es ds)
]

with_key-reverse : (q : Bytes) (es : List Entry) → with_key q (reverse es) ≡ reverse (with_key q es)
unfolding with_key
with_key-reverse q [] = refl
with_key-reverse q ((k, l) ∷ es) =
    ap (with_key q) (reverse-cons (k, l) es)
    ∙ with_key-append q (reverse es) ((k, l) ∷ [])
    ∙ elim (Bool-cases (bytes_eq k q)) [
      | inl e ↦ rw e (
          ap (λ (ls : List Bytes). ls ++ (l ∷ [])) (with_key-reverse q es)
          ∙ sym (reverse-cons l (with_key q es)))
      | inr e ↦ rw e (append-nil (with_key q (reverse es)) ∙ with_key-reverse q es)
    ]

positions-suc :
    (q : Bytes) (n : ℕ) (ks : List Bytes) → positions q (suc n) ks ≡ map suc (positions q n ks)
unfolding positions
positions-suc q n [] = refl
positions-suc q n (k ∷ ks) = elim (Bool-cases (bytes_eq k q)) [
  | inl e ↦ rw e (ap (◌∷◌ (suc n)) (positions-suc q (suc n) ks))
  | inr e ↦ rw e (positions-suc q (suc n) ks)
]

lines_at-suc :
    (l : Bytes) (ls : List Bytes) (is : List ℕ) → lines_at (l ∷ ls) (map suc is) ≡ lines_at ls is
unfolding lines_at
lines_at-suc l ls [] = refl
lines_at-suc l ls (i ∷ is) = ap (◌∷◌ (get_or ls i [])) (lines_at-suc l ls is)

lines_at-append :
    (ls : List Bytes) (is js : List ℕ) → lines_at ls (is ++ js) ≡ lines_at ls is ++ lines_at ls js
unfolding lines_at
lines_at-append ls [] js = refl
lines_at-append ls (i ∷ is) js = ap (◌∷◌ (get_or ls i [])) (lines_at-append ls is js)

lines_at-reverse :
    (ls : List Bytes) (is : List ℕ) → lines_at ls (reverse is) ≡ reverse (lines_at ls is)
unfolding lines_at
lines_at-reverse ls [] = refl
lines_at-reverse ls (i ∷ is) =
    ap (lines_at ls) (reverse-cons i is)
    ∙ lines_at-append ls (reverse is) (i ∷ [])
    ∙ ap (λ (k : List Bytes). k ++ (get_or ls i [] ∷ [])) (lines_at-reverse ls is)
    ∙ sym (reverse-cons (get_or ls i []) (lines_at ls is))

lines_at-positions :
    (q : Bytes) (es : List Entry)
    → lines_at (map line_of es) (positions q 0 (map key_of es)) ≡ with_key q es
unfolding lines_at positions with_key
lines_at-positions q [] = refl
lines_at-positions q ((k, l) ∷ es) =
    let later : lines_at (l ∷ map line_of es) (positions q 1 (map key_of es)) ≡ with_key q es =
      ap (lines_at (l ∷ map line_of es)) (positions-suc q 0 (map key_of es))
      ∙ lines_at-suc l (map line_of es) (positions q 0 (map key_of es))
      ∙ lines_at-positions q es in
    elim (Bool-cases (bytes_eq k q)) [ inl e ↦ rw e (ap (◌∷◌ l) later) | inr e ↦ rw e later ]

-- The serials of a key, last one first, are those of its lines, newest first.
pub lines_at-newest :
    (q : Bytes) (es : List Entry)
    → lines_at (map line_of es) (reverse (positions q 0 (map key_of es))) ≡ with_key q (reverse es)
lines_at-newest q es =
    lines_at-reverse (map line_of es) (positions q 0 (map key_of es))
    ∙ ap reverse (lines_at-positions q es)
    ∙ sym (with_key-reverse q es)

positions-AllBelow :
    (q : Bytes) (n : ℕ) (ks : List Bytes) → AllBelow (n + length ks) (positions q n ks)
unfolding positions
positions-AllBelow q n [] = tt
positions-AllBelow q n (k ∷ ks) =
    let more : suc n + length ks ≡ n + suc (length ks) = omega arith in
    let later : AllBelow (n + suc (length ks)) (positions q (suc n) ks) =
      subst (λ (b : ℕ). AllBelow b (positions q (suc n) ks)) more
        (positions-AllBelow q (suc n) ks) in
    elim (Bool-cases (bytes_eq k q)) [ inl e ↦ rw e (omega arith, later) | inr e ↦ rw e later ]

length-lines : (es : List Entry) → length (map key_of es) ≡ length (map line_of es)
length-lines [] = refl
length-lines (e ∷ es) = ap suc (length-lines es)

pub newest-AllBelow :
    (q : Bytes) (es : List Entry)
    → AllBelow (length (map line_of es)) (reverse (positions q 0 (map key_of es)))
newest-AllBelow q es =
    let size : 0 + length (map key_of es) ≡ length (map line_of es) =
      omega (arith, length-lines es) in
    AllBelow-reverse _ (positions q 0 (map key_of es)) (
      subst (λ (n : ℕ). AllBelow n (positions q 0 (map key_of es))) size
        (positions-AllBelow q 0 (map key_of es)))

pub positions-present :
    (q : Bytes) (n : ℕ) (ks : List Bytes) → has_key q ks ≡ true → positions q n ks ≡ [] → ⊥
unfolding positions has_key
positions-present q n [] h e = cc
positions-present q n (k ∷ ks) h e = ground (arith, positions-present q (suc n) ks)

with_key-map :
    (q : Bytes) (es : List Entry) → has_key q (map key_of es) ≡ false → with_key q es ≡ []
unfolding has_key with_key
with_key-map q [] h = refl
with_key-map q ((k, l) ∷ es) h = ground (arith, with_key-map q es)

pub with_key-absent :
    (q : Bytes) (es : List Entry) → has_key q (map key_of es) ≡ false → with_key q (reverse es) ≡ []
with_key-absent q es h = with_key-reverse q es ∙ ap reverse (with_key-map q es h)

module _ {ℓ ℓ'} {A : Type ℓ} {B : Type ℓ'} (f : A → B) where
  pub map-put_in :
      (fresh : Bool) (x : A) (es : List (List A))
      → map (map f) (put_in fresh x es) ≡ put_in fresh (f x) (map (map f) es)
  unfolding put_in
  map-put_in fresh x [] = refl
  map-put_in true x (b ∷ es) = refl
  map-put_in false x (b ∷ es) = ap (λ (c : List B). c ∷ map (map f) es) (map-append f b (x ∷ []))

  map-reverse : (xs : List A) → map f (reverse xs) ≡ reverse (map f xs)
  map-reverse [] = refl
  map-reverse (x ∷ xs) =
      ap (map f) (reverse-cons x xs)
      ∙ map-append f (reverse xs) (x ∷ [])
      ∙ ap (λ (l : List B). l ++ (f x ∷ [])) (map-reverse xs)
      ∙ sym (reverse-cons (f x) (map f xs))

  length-map : (xs : List A) → length (map f xs) ≡ length xs
  length-map [] = refl
  length-map (x ∷ xs) = ap suc (length-map xs)

  pub newest_first-map :
      (es : List (List A)) → newest_first (map (map f) es) ≡ map f (newest_first es)
  unfolding newest_first
  newest_first-map [] = refl
  newest_first-map (b ∷ es) =
      ap₂ (λ (c d : List B). c ++ d) (sym (map-reverse b)) (newest_first-map es)
      ∙ sym (map-append f (reverse b) (newest_first es))

  pub total-map : (es : List (List A)) → total (map (map f) es) ≡ total es
  unfolding total
  total-map [] = refl
  total-map (b ∷ es) = omega (arith, length-map b, total-map es)
