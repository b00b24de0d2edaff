-- ===== src/Trie.antt =====
-- include/Trie.h: the dictionary trie behind every index, over words as lists of bytes.
-- An `unordered_map` is the list of its pairs; a child that is looked up is changed in place.
pub mod Node
mod Tests
pub mod Map
pub mod Written
use log_service.Prelude.{
  ℕ, ◌+◌, Bool, true, false, not, ◌&&◌, List, [], ◌∷◌, ◌++◌, Option, none, some, Bytes, ◌==◌,
  if◌then◌else◌,
}
use Node.{TrieNode, new_node, values_of, insert_node, search_node, modify_node}

-- The class `Trie`. `root` is `none` for the null pointer, which only an invalid trie holds
-- (`Map.IsValid`): no call below goes on to the pointer of a trie that is not valid.
pub record Trie {ℓ} (A : Type ℓ) : Type ℓ where
  pub root : Option (TrieNode A)
  pub size : ℕ
  pub valid : Bool
  pub store_in_array : Bool
  pub read_only : Bool

module _ {ℓ} {A : Type ℓ} where
  pub set_valid : Trie A → Trie A
  set_valid t = elim t.root [
    | none ↦ record t { root = some (new_node b'@'); valid = true }
    | some n ↦ record t { valid = true }
  ]

  -- The constructor.
  pub new_trie : Trie A
  unfolding set_valid
  new_trie =
      set_valid
        (record { root = none; size = 1; valid = false; store_in_array = false; read_only = false })

  pub set_read_only : Trie A → Trie A
  set_read_only t = record t { read_only = true }

  pub insert : Bool → Trie A → Bytes → A → Trie A
  insert low t word v =
      if t.valid && not t.read_only
      then elim t.root [
        | none ↦ t
        | some n ↦
            let (n', size') = insert_node low n word v t.size in
            record t { root = some n'; size = size' }
      ]
      else t

  -- `none` for the null pointer.
  unfoldable pub search : Trie A → Bytes → Option (List A)
  search t word = if not t.valid then none else elim t.root [
    | none ↦ none
    | some n ↦ elim (search_node n word) [ none ↦ none | some m ↦ some (values_of m) ]
  ]

  -- What a caller writes through the pointer that `search` returned.
  pub modify : (List A → List A) → Trie A → Bytes → Trie A
  modify f t word = elim t.root [
    | none ↦ t
    | some n ↦ record t { root = some (modify_node f n word) }
  ]

  pub delete_tree : Trie A → Trie A
  delete_tree t = record t { root = none; size = 1; valid = false; store_in_array = false }
