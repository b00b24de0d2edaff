-- ===== src/DataManager/Keys/Listed.antt =====
-- The global trie of src/log_processor/data_manager.cpp lists the bulks of every key.

use log_service.Prelude.{
  ℕ, ◌≡◌, refl, sym, ap, ◌∙◌, Bool, true, false, ◌||◌, List, [], ◌∷◌, ◌++◌, none, some, Bytes,
  arith, length, AllBelow, ==_refl, if◌then◌else◌, bytes_eq, bytes_eq→eq, Bool-cases, Option-cases,
  inl, inr, append-nil,
}
use log_service.Trie.{Trie, new_trie, insert, search, modify}
use log_service.Trie.Map.{found, found-new_trie}
use log_service.Trie.Written.{flags-modify, modify-IsValid, search-modify}
use log_service.DataManager.{ends_with, add_key_global_trie}
use log_service.DataManager.Keys.{has_key, ids_with, has_key-snoc, ids_with-AllBelow}
use log_service.DataManager.Keys.Held.{
  IsOpenTrie, insert-IsOpenTrie, search-insert_key, new_trie-IsOpenTrie,
}

pub record ListsKeys (t : Trie ℕ) (kss : List (List Bytes)) : Type 0 where
  pub opened : IsOpenTrie t
  pub lists : (q : Bytes) → found (search t q) ≡ ids_with q kss

ends_with-below : (n : ℕ) (is : List ℕ) → AllBelow n is → ends_with is n ≡ false
unfolding ends_with
ends_with-below n [] a = refl
ends_with-below n (i ∷ []) a = ground (arith, a.0)
ends_with-below n (i ∷ j ∷ is) a = ends_with-below n (j ∷ is) a.1

ends_with-snoc : (n : ℕ) (is : List ℕ) → ends_with (is ++ (n ∷ [])) n ≡ true
unfolding ends_with
ends_with-snoc n [] = ==_refl n
ends_with-snoc n (i ∷ []) = ==_refl n
ends_with-snoc n (i ∷ j ∷ is) = ends_with-snoc n (j ∷ is)

-- The list ends with the newest bulk where that bulk has the key.
ends_with-ids_with :
    (q : Bytes) (ks : List Bytes) (kss : List (List Bytes))
    → ends_with (ids_with q (ks ∷ kss)) (length kss) ≡ has_key q ks
unfolding ids_with
ends_with-ids_with q ks kss = elim (Bool-cases (has_key q ks)) [
  | inl e ↦ rw (ids_with, e) (ends_with-snoc (length kss) (ids_with q kss))
  | inr e ↦
      rw (ids_with, e, append-nil (ids_with q kss))
        (ends_with-below (length kss) (ids_with q kss) (ids_with-AllBelow q kss))
]

-- The number of the newest bulk, behind the list that has no such number yet.
abbrev pub with_id : ℕ → List ℕ → List ℕ
with_id id l = if ends_with l id then l else l ++ (id ∷ [])

with_id-empty : (id : ℕ) → with_id id [] ≡ id ∷ []
unfolding ends_with
with_id-empty id = refl

ids_with-snoc :
    (key q : Bytes) (ks : List Bytes) (kss : List (List Bytes))
    → ids_with q ((ks ++ (key ∷ [])) ∷ kss) ≡ (
        if bytes_eq key q
        then with_id (length kss) (ids_with q (ks ∷ kss))
        else ids_with q (ks ∷ kss))
unfolding ids_with
ids_with-snoc key q ks kss =
    rw (ends_with-ids_with q ks kss, ids_with, has_key-snoc q ks key)
      (by_tests (has_key q ks) (bytes_eq key q))
  where
    by_tests :
        (a b : Bool)
        → ids_with q kss ++ (if a || b then length kss ∷ [] else []) ≡ (
            if b
            then (if a
                then ids_with q kss ++ (if a then length kss ∷ [] else [])
                else (ids_with q kss ++ (if a then length kss ∷ [] else [])) ++ (length kss ∷ []))
            else ids_with q kss ++ (if a then length kss ∷ [] else []))
    by_tests true true = refl
    by_tests true false = refl
    by_tests false true = ap (λ (l : List ℕ). l ++ (length kss ∷ [])) (sym (append-nil _))
    by_tests false false = refl

same_word :
    (t : Trie ℕ) (key q : Bytes) → bytes_eq key q ≡ true → found (search t q) ≡ found (search t key)
same_word t key q e = ap (λ (w : Bytes). found (search t w)) (sym (bytes_eq→eq key q e))

add_key_global_trie-none :
    (key : Bytes) (id : ℕ) (t : Trie ℕ)
    → search t key ≡ none
    → add_key_global_trie key id t ≡ insert false t key id
unfolding add_key_global_trie
add_key_global_trie-none key id t e = rw (add_key_global_trie, e) refl

add_key_global_trie-some :
    (key : Bytes) (id : ℕ) (t : Trie ℕ) (l : List ℕ)
    → search t key ≡ some l
    → add_key_global_trie key id t
      ≡ (if ends_with l id then t else modify (λ ids. ids ++ (id ∷ [])) t key)
unfolding add_key_global_trie
add_key_global_trie-some key id t l e = rw (add_key_global_trie, e) refl

-- What `Add_key_global_trie` makes of the trie, for every word.
search-add_key_global_trie :
    (key q : Bytes) (id : ℕ) (t : Trie ℕ)
    → IsOpenTrie t
    → found (search (add_key_global_trie key id t) q)
      ≡ (if bytes_eq key q then with_id id (found (search t q)) else found (search t q))
unfolding found
search-add_key_global_trie key q id t o = elim (Option-cases (search t key)) [
  | inl e ↦
      let empty : found (search t key) ≡ [] = ap found e in
      rw (add_key_global_trie-none key id t e, search-insert_key t key q id o)
        (elim (Bool-cases (bytes_eq key q)) [
          | inl same ↦ rw (same, same_word t key q same, empty) (sym (with_id-empty id))
          | inr other ↦ rw other refl
        ])
  | inr (l, e) ↦
      let held : found (search t key) ≡ l = ap found e in
      rw (add_key_global_trie-some key id t l e) (elim (Bool-cases (ends_with l id)) [
        | inl last ↦ rw last (elim (Bool-cases (bytes_eq key q)) [
          | inl same ↦ rw (same, same_word t key q same, held, last) refl
          | inr other ↦ rw other refl
        ])
        | inr more ↦ rw more (
            rw (search-modify (λ ids. ids ++ (id ∷ [])) t key q l o.counted o.is_valid e)
              (elim (Bool-cases (bytes_eq key q)) [
                | inl same ↦ rw (same, same_word t key q same, held, more) refl
                | inr other ↦ rw other refl
              ]))
      ])
]

add_key_global_trie-IsOpenTrie :
    (key : Bytes) (id : ℕ) (t : Trie ℕ) → IsOpenTrie t → IsOpenTrie (add_key_global_trie key id t)
add_key_global_trie-IsOpenTrie key id t o = elim (Option-cases (search t key)) [
  | inl e ↦ rw (add_key_global_trie-none key id t e) (insert-IsOpenTrie t key id o)
  | inr (l, e) ↦ rw (add_key_global_trie-some key id t l e) (elim (Bool-cases (ends_with l id)) [
    | inl last ↦ rw last o
    | inr more ↦
        let f : List ℕ → List ℕ = λ ids. ids ++ (id ∷ []) in
        let (v, w) = flags-modify f t key in
        rw more (record {
          counted = modify-IsValid f t key o.counted;
          is_valid = v ∙ o.is_valid;
          writable = w ∙ o.writable;
        })
  ])
]

-- A log of the newest bulk is listed under its key.
pub add_key_global_trie-ListsKeys :
    (t : Trie ℕ) (key : Bytes) (ks : List Bytes) (kss : List (List Bytes))
    → ListsKeys t (ks ∷ kss)
    → ListsKeys (add_key_global_trie key (length kss) t) ((ks ++ (key ∷ [])) ∷ kss)
add_key_global_trie-ListsKeys t key ks kss o = record {
  opened = add_key_global_trie-IsOpenTrie key (length kss) t o.opened;
  lists = λ q.
      search-add_key_global_trie key q (length kss) t o.opened
      ∙ ap (λ (l : List ℕ). if bytes_eq key q then with_id (length kss) l else l) (o.lists q)
      ∙ sym (ids_with-snoc key q ks kss);
}

-- A new bulk has no key.
pub ListsKeys-new :
    (t : Trie ℕ) (kss : List (List Bytes)) → ListsKeys t kss → ListsKeys t ([] ∷ kss)
unfolding ids_with has_key
ListsKeys-new t kss o = record {
  opened = o.opened;
  lists = λ q. o.lists q ∙ sym (append-nil (ids_with q kss));
}

pub new_trie-ListsKeys : ListsKeys new_trie []
unfolding ids_with
new_trie-ListsKeys = record { opened = new_trie-IsOpenTrie; lists = found-new_trie }
