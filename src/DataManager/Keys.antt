-- ===== src/DataManager/Keys.antt =====
-- The keys of the logs of src/log_processor/data_manager.cpp: for each key, the serials of its logs in a
-- bulk, and the bulks with a log of that key.
pub mod Held
pub mod Listed
pub mod Stored
pub mod Entries
pub mod Reads
pub mod Loop
use log_service.Prelude.{
  ℕ, suc, ◌+◌, ◌<◌, ◌≡◌, refl, sym, ap, ◌∙◌, Bool, true, false, ◌||◌, List, [], ◌∷◌, ◌++◌, Bytes,
  arith, length, if◌then◌else◌, AllBelow, AllBelow-append, AllBelow-suc, bytes_eq, Bool-cases, inl,
  inr, append-nil,
}

-- The serials of a key, where the first of these logs has the serial `n`.
unfoldable pub positions : Bytes → ℕ → List Bytes → List ℕ
positions q n [] = []
positions q n (k ∷ ks) =
    let rest = positions q (suc n) ks in if bytes_eq k q then n ∷ rest else rest

unfoldable pub has_key : Bytes → List Bytes → Bool
has_key q [] = false
has_key q (k ∷ ks) = bytes_eq k q || has_key q ks

-- The numbers of the bulks with a log of the key, oldest first; the newest bulk is the first.
unfoldable pub ids_with : Bytes → List (List Bytes) → List ℕ
ids_with q [] = []
ids_with q (ks ∷ kss) = ids_with q kss ++ (if has_key q ks then length kss ∷ [] else [])

pub positions-snoc :
    (q : Bytes) (n : ℕ) (ks : List Bytes) (k : Bytes)
    → positions q n (ks ++ (k ∷ []))
      ≡ (if bytes_eq k q then positions q n ks ++ ((n + length ks) ∷ []) else positions q n ks)
unfolding positions
positions-snoc q n [] k = ap (λ (i : ℕ). if bytes_eq k q then i ∷ [] else []) (sym (add_zero n))
  where
    add_zero : (n : ℕ) → n + 0 ≡ n
    add_zero n = omega arith
positions-snoc q n (j ∷ ks) k =
    let later : suc n + length ks ≡ n + suc (length ks) = omega arith in
    elim (Bool-cases (bytes_eq k q)) [
      | inl e ↦ ground (arith, positions-snoc q (suc n) ks k, later)
      | inr e ↦ ground (arith, positions-snoc q (suc n) ks k)
    ]

pub has_key-snoc :
    (q : Bytes) (ks : List Bytes) (k : Bytes)
    → has_key q (ks ++ (k ∷ [])) ≡ has_key q ks || bytes_eq k q
unfolding has_key
has_key-snoc q [] k = ground arith
has_key-snoc q (j ∷ ks) k = ground (arith, has_key-snoc q ks k)

pub positions-absent :
    (q : Bytes) (n : ℕ) (ks : List Bytes) → has_key q ks ≡ false → positions q n ks ≡ []
unfolding positions has_key
positions-absent q n [] h = refl
positions-absent q n (k ∷ ks) h = ground (arith, positions-absent q (suc n) ks)

-- The number of a bulk is that of the older bulks.
pub ids_with-AllBelow :
    (q : Bytes) (kss : List (List Bytes)) → AllBelow (length kss) (ids_with q kss)
unfolding ids_with
ids_with-AllBelow q [] = tt
ids_with-AllBelow q (ks ∷ kss) =
    AllBelow-append (suc (length kss)) (ids_with q kss) _
      (AllBelow-suc (length kss) (ids_with q kss) (ids_with-AllBelow q kss)) (newest (has_key q ks))
  where
    newest : (b : Bool) → AllBelow (suc (length kss)) (if b then length kss ∷ [] else [])
    newest true = (omega arith, tt)
    newest false = tt
