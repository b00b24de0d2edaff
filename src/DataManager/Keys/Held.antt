-- ===== src/DataManager/Keys/Held.antt =====
-- A handler whose key trie is in memory and lists the serials of every key.
use mathlib.Core.Path.{subst}
use log_service.Prelude.{
  ℕ, ◌+◌, ◌≡◌, refl, sym, ap, ◌∙◌, true, false, List, [], ◌∷◌, ◌++◌, Bytes, arith, length,
  if◌then◌else◌, bytes_eq, length-append,
}
use log_service.Trie.{Trie, new_trie, insert, search}
use log_service.Trie.Node.Lookup.{fold_word}
use log_service.Trie.Map.{
  found, IsValid, search-insert, insert-IsValid, flags-insert, found-new_trie, new_trie-IsValid,
  new_trie-valid, new_trie-writable,
}
use log_service.Handler.{Handler}
use log_service.Handler.Calls.Reads.{SameLogs}
use log_service.Handler.Calls.Grows.{Grows, Refuses, IsNew}
use log_service.DataManager.Keys.{positions, positions-snoc}

-- A trie that can be written to.
pub record IsOpenTrie (t : Trie ℕ) : Type 0 where
  pub counted : IsValid t
  pub is_valid : t.valid ≡ true
  pub writable : t.read_only ≡ false

-- The trie finds the serials of every key.
pub record FindsKeys (t : Trie ℕ) (ks : List Bytes) : Type 0 where
  pub opened : IsOpenTrie t
  pub finds : (q : Bytes) → found (search t q) ≡ positions q 0 ks

pub record HoldsKeys (h : Handler) (ks : List Bytes) : Type 0 where
  pub key_read : h.key_read ≡ true
  pub size : h.bulk.size ≡ length ks
  pub trie : FindsKeys h.bulk.index.key_serial_trie ks

fold_word-false : (w : Bytes) → fold_word false w ≡ w
fold_word-false [] = refl
fold_word-false (c ∷ w) = ap (◌∷◌ c) (fold_word-false w)

pub insert-IsOpenTrie :
    (t : Trie ℕ) (key : Bytes) (n : ℕ) → IsOpenTrie t → IsOpenTrie (insert false t key n)
insert-IsOpenTrie t key n o =
    let (v, w) = flags-insert false t key n in
    record {
      counted = insert-IsValid false t key n o.counted;
      is_valid = v ∙ o.is_valid;
      writable = w ∙ o.writable;
    }

pub search-insert_key :
    (t : Trie ℕ) (key q : Bytes) (n : ℕ)
    → IsOpenTrie t
    → found (search (insert false t key n) q)
      ≡ (if bytes_eq key q then found (search t q) ++ (n ∷ []) else found (search t q))
search-insert_key t key q n o =
    search-insert false t key q n o.is_valid o.writable o.counted
    ∙ ap
        (λ (w : Bytes). if bytes_eq w q then found (search t q) ++ (n ∷ []) else found (search t q))
        (fold_word-false key)

pub new_trie-IsOpenTrie : IsOpenTrie new_trie
new_trie-IsOpenTrie = record {
  counted = new_trie-IsValid ℕ;
  is_valid = new_trie-valid ℕ;
  writable = new_trie-writable ℕ;
}

insert-FindsKeys :
    (t : Trie ℕ) (ks : List Bytes) (key : Bytes)
    → FindsKeys t ks
    → FindsKeys (insert false t key (length ks)) (ks ++ (key ∷ []))
insert-FindsKeys t ks key f =
    let from_zero : length ks ≡ 0 + length ks = omega arith in
    record {
      opened = insert-IsOpenTrie t key (length ks) f.opened;
      finds = λ q.
          search-insert_key t key q (length ks) f.opened
          ∙ ap (λ (is : List ℕ). if bytes_eq key q then is ++ (length ks ∷ []) else is) (f.finds q)
          ∙ ap
              (λ (n : ℕ). if bytes_eq key q then positions q 0 ks ++ (n ∷ []) else positions q 0 ks)
              from_zero
          ∙ sym (positions-snoc q 0 ks key);
    }

pub SameLogs-HoldsKeys :
    (h h' : Handler) (ks : List Bytes) → SameLogs h h' → HoldsKeys h ks → HoldsKeys h' ks
SameLogs-HoldsKeys h h' ks s p = record {
  key_read = s.same_key_read ∙ p.key_read;
  size = s.same_size ∙ p.size;
  trie = subst (λ (t : Trie ℕ). FindsKeys t ks) (sym s.same_keys) p.trie;
}

pub Grows-HoldsKeys :
    (h h' : Handler) (ks : List Bytes) (str key : Bytes)
    → HoldsKeys h ks
    → Grows h h' str key
    → HoldsKeys h' (ks ++ (key ∷ []))
Grows-HoldsKeys h h' ks str key p g = record {
  key_read = g.key_read ∙ p.key_read;
  size = omega (arith, g.size, p.size, length-append ks (key ∷ []));
  trie =
      subst (λ (t : Trie ℕ). FindsKeys t (ks ++ (key ∷ [])))
        (sym (g.keys ∙ ap (insert false h.bulk.index.key_serial_trie key) p.size))
        (insert-FindsKeys h.bulk.index.key_serial_trie ks key p.trie);
}

pub Refuses-HoldsKeys :
    (h h' : Handler) (ks : List Bytes) → Refuses h h' → HoldsKeys h ks → HoldsKeys h' ks
Refuses-HoldsKeys h h' ks s p = record {
  key_read = s.same_key_read ∙ p.key_read;
  size = s.same_size ∙ p.size;
  trie = subst (λ (t : Trie ℕ). FindsKeys t ks) (sym s.same_keys) p.trie;
}

pub IsNew-HoldsKeys : (h : Handler) (n : ℕ) → IsNew h n → HoldsKeys h []
unfolding positions
IsNew-HoldsKeys h n w = record {
  key_read = w.key_read;
  size = w.size;
  trie =
      subst (λ (t : Trie ℕ). FindsKeys t []) (sym w.keys)
        (record { opened = new_trie-IsOpenTrie; finds = λ q. found-new_trie q });
}
