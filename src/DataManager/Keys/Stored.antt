-- ===== src/DataManager/Keys/Stored.antt =====
-- A manager with the keys of its logs in memory, in step with the logs that it stores.
use mathlib.Core.Path.{subst}
use log_service.Prelude.{
  ℕ, suc, ◌≡◌, refl, sym, ap, true, false, List, [], ◌∷◌, ◌++◌, Bytes, length,
}
use log_service.Trie.{Trie}
use log_service.Bulk.{new_bulk}
use log_service.Handler.{Handler, new_handler}
use log_service.Handler.Calls.Grows.{Grows, Refuses, IsNew, new_handler-IsNew}
use log_service.DataManager.{DataManager, init_data_manager, add_key_global_trie}
use log_service.DataManager.Holds.{AllSame}
use log_service.DataManager.Stored.{made, put_in}
use log_service.DataManager.Keys.Held.{
  HoldsKeys, SameLogs-HoldsKeys, Grows-HoldsKeys, Refuses-HoldsKeys, IsNew-HoldsKeys,
}
use log_service.DataManager.Keys.Listed.{
  ListsKeys, add_key_global_trie-ListsKeys, ListsKeys-new, new_trie-ListsKeys,
}

unfoldable pub AllHoldKeys : List Handler → List (List Bytes) → Type 0
AllHoldKeys [] [] = Unit
AllHoldKeys (h ∷ hs) (ks ∷ kss) = HoldsKeys h ks × AllHoldKeys hs kss
AllHoldKeys hs kss = ⊥

pub record StoresKeys (m : DataManager) (kss : List (List Bytes)) : Type 0 where
  pub held : AllHoldKeys m.handlers kss
  pub listed : ListsKeys m.global_trie kss

pub length-AllHoldKeys :
    (hs : List Handler) (kss : List (List Bytes)) → AllHoldKeys hs kss → length hs ≡ length kss
unfolding AllHoldKeys
length-AllHoldKeys [] [] a = refl
length-AllHoldKeys [] (ks ∷ kss) a = absurd a
length-AllHoldKeys (h ∷ hs) [] a = absurd a
length-AllHoldKeys (h ∷ hs) (ks ∷ kss) a = ap suc (length-AllHoldKeys hs kss a.1)

-- The trie with the number of the newest bulk, which is that of the older handlers.
listed_newest :
    (hs : List Handler) (t : Trie ℕ) (key : Bytes) (ks : List Bytes) (kss : List (List Bytes))
    → AllHoldKeys hs kss
    → ListsKeys t (ks ∷ kss)
    → ListsKeys (add_key_global_trie key (length hs) t) ((ks ++ (key ∷ [])) ∷ kss)
listed_newest hs t key ks kss a l =
    subst (λ (n : ℕ). ListsKeys (add_key_global_trie key n t) ((ks ++ (key ∷ [])) ∷ kss))
      (sym (length-AllHoldKeys hs kss a)) (add_key_global_trie-ListsKeys t key ks kss l)

module _ (u v : ℕ) (h : Handler) (hs : List Handler) (n next : ℕ) (t : Trie ℕ)
    (str key : Bytes) where
  pub StoresKeys-grown :
      (h' : Handler) (kss : List (List Bytes))
      → Grows h h' str key
      → StoresKeys (made u (h ∷ hs) n t) kss
      → StoresKeys
          (made v (h' ∷ hs) next (add_key_global_trie key (length hs) t))
          (put_in false key kss)
  unfolding AllHoldKeys put_in
  StoresKeys-grown h' [] g s = absurd s.held
  StoresKeys-grown h' (ks ∷ kss) g s = record {
    held = (Grows-HoldsKeys h h' ks str key s.held.0 g, s.held.1);
    listed = listed_newest hs t key ks kss s.held.1 s.listed;
  }

  pub StoresKeys-fresh :
      (h' k k' : Handler) (i : ℕ) (kss : List (List Bytes))
      → Refuses h h'
      → IsNew k i
      → Grows k k' str key
      → StoresKeys (made u (h ∷ hs) n t) kss
      → StoresKeys
          (made v (k' ∷ h' ∷ hs) next (add_key_global_trie key (length (h' ∷ hs)) t))
          (put_in true key kss)
  unfolding AllHoldKeys put_in
  StoresKeys-fresh h' k k' i [] r w g s = absurd s.held
  StoresKeys-fresh h' k k' i (ks ∷ kss) r w g s =
      let older : AllHoldKeys (h' ∷ hs) (ks ∷ kss) =
        (Refuses-HoldsKeys h h' ks r s.held.0, s.held.1) in
      record {
        held = (Grows-HoldsKeys k k' [] str key (IsNew-HoldsKeys k i w) g, older);
        listed = listed_newest (h' ∷ hs) t key [] (ks ∷ kss) older (ListsKeys-new t _ s.listed);
      }

pub init-StoresKeys : StoresKeys init_data_manager ([] ∷ [])
unfolding AllHoldKeys init_data_manager
init-StoresKeys = record {
  held = (IsNew-HoldsKeys (new_handler (new_bulk 0)) 0 (new_handler-IsNew 0), tt);
  listed = ListsKeys-new _ [] new_trie-ListsKeys;
}

-- Reading handlers leaves their keys.
pub AllSame-AllHoldKeys :
    (hs ks : List Handler) (kss : List (List Bytes))
    → AllSame hs ks
    → AllHoldKeys hs kss
    → AllHoldKeys ks kss
unfolding AllSame AllHoldKeys
AllSame-AllHoldKeys [] [] [] a p = tt
AllSame-AllHoldKeys [] [] (l ∷ kss) a p = absurd p
AllSame-AllHoldKeys [] (k ∷ ks) kss a p = absurd a
AllSame-AllHoldKeys (h ∷ hs) [] kss a p = absurd a
AllSame-AllHoldKeys (h ∷ hs) (k ∷ ks) [] a p = absurd p
AllSame-AllHoldKeys (h ∷ hs) (k ∷ ks) (l ∷ kss) (s, a) (p, q) =
    (SameLogs-HoldsKeys h k l s p, AllSame-AllHoldKeys hs ks kss a q)
