-- ===== src/DataManager/Stored.antt =====
-- A manager that stores a sequence of lines.
use log_service.Prelude.{
  ℕ, ◌+◌, ◌<◌, ◌≡◌, refl, ap, Bool, true, false, List, [], ◌∷◌, ◌++◌, Bytes, arith, length, reverse,
  reverse-append, length-append, length-reverse,
}
use log_service.Trie.{Trie}
use log_service.Bulk.{new_bulk}
use log_service.Handler.{Handler, new_handler}
use log_service.Handler.Calls.Grows.{new_handler-IsNew}
use log_service.DataManager.{DataManager, init_data_manager}
use log_service.DataManager.Holds.{Holds}
use log_service.DataManager.Grown.{IsNew-Holds}

module _ {ℓ} {A : Type ℓ} where
  -- What the bulks hold, newest bulk first, as one sequence with the newest log first.
  unfoldable pub newest_first : List (List A) → List A
  newest_first [] = []
  newest_first (ls ∷ bs) = reverse ls ++ newest_first bs

  unfoldable pub total : List (List A) → ℕ
  total [] = 0
  total (ls ∷ bs) = length ls + total bs

  -- One log more: alone in a new bulk, or at the end of the newest one.
  unfoldable pub put_in : Bool → A → List (List A) → List (List A)
  put_in fresh x [] = (x ∷ []) ∷ []
  put_in true x (ls ∷ bs) = (x ∷ []) ∷ ls ∷ bs
  put_in false x (ls ∷ bs) = (ls ++ (x ∷ [])) ∷ bs

  pub newest_first-put_in :
      (fresh : Bool) (x : A) (bs : List (List A))
      → newest_first (put_in fresh x bs) ≡ x ∷ newest_first bs
  unfolding newest_first put_in
  newest_first-put_in fresh x [] = refl
  newest_first-put_in true x (ls ∷ bs) = refl
  newest_first-put_in false x (ls ∷ bs) =
      ap (λ (l : List A). l ++ newest_first bs) (reverse-append ls (x ∷ []))

  pub length-newest_first : (bulks : List (List A)) → length (newest_first bulks) ≡ total bulks
  unfolding newest_first total
  length-newest_first [] = refl
  length-newest_first (ls ∷ bs) = omega (
    arith,
    length-append (reverse ls) (newest_first bs),
    length-reverse ls,
    length-newest_first bs,
  )

  pub total-put_in :
      (fresh : Bool) (x : A) (bs : List (List A)) → total (put_in fresh x bs) ≡ total bs + 1
  total-put_in fresh x bs = omega (
    arith,
    length-newest_first (put_in fresh x bs),
    length-newest_first bs,
    ap length (newest_first-put_in fresh x bs),
  )

abbrev pub made : ℕ → List Handler → ℕ → Trie ℕ → DataManager
made u hs n t = record { handlers = hs; log_serial = n; free_units = u; global_trie = t }

-- Each handler holds the lines of its bulk, and starts at the number of the lines before.
unfoldable pub AllHold : List Handler → List (List Bytes) → Type 0
AllHold [] [] = Unit
AllHold (h ∷ hs) (ls ∷ bs) = Holds h ls × (h.bulk.start_serial ≡ total bs) × AllHold hs bs
AllHold hs bs = ⊥

abbrev pub rest : List (List Bytes) → List (List Bytes)
rest [] = []
rest (ls ∷ bs) = bs

pub record Stores (m : DataManager) (bulks : List (List Bytes)) : Type 0 where
  pub some_bulk : 0 < length m.handlers
  pub held : AllHold m.handlers bulks
  pub serial : m.log_serial ≡ total (rest bulks)

pub not_held : (h : Handler) (hs : List Handler) → AllHold (h ∷ hs) [] → ⊥
unfolding AllHold
not_held h hs p = p

pub held_parts :
    (h : Handler) (hs : List Handler) (ls : List Bytes) (bs : List (List Bytes))
    → AllHold (h ∷ hs) (ls ∷ bs)
    → Holds h ls × (h.bulk.start_serial ≡ total bs) × AllHold hs bs
unfolding AllHold
held_parts h hs ls bs p = p

-- A manager as it is made stores no line.
pub init-Stores : Stores init_data_manager ([] ∷ [])
unfolding AllHold total init_data_manager
init-Stores =
    let k = new_handler (new_bulk 0) in
    let new = new_handler-IsNew 0 in
    record {
      some_bulk = omega arith;
      held = (IsNew-Holds k 0 new, new.start_serial, tt);
      serial = refl;
    }
