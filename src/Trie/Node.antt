-- ===== src/Trie/Node.antt =====
-- The class `TrieNode` of include/Trie.h. The template's flag `lowercase` is the argument `low`.
pub mod Lookup
pub mod Count
use log_service.Prelude.{
  ℕ, ◌+◌, ◌-◌, Bool, true, false, ◌&&◌, List, [], ◌∷◌, ◌++◌, Option, none, some, Bytes, leb, ◌==◌,
  if◌then◌else◌,
}

-- `c_`, `char_map_` and `value_list_`; the map is `Edges`, a list of pairs.
mutual
  pub data TrieNode {ℓ} (A : Type ℓ) : Type ℓ where
    node : ℕ → Edges A → List A → TrieNode A

  pub data Edges {ℓ} (A : Type ℓ) : Type ℓ where
    nil : Edges A
    edge : ℕ → TrieNode A → Edges A → Edges A

-- `if(lowercase) if('A' <= c && c <= 'Z') c += 'a' - 'A';`
abbrev pub fold_char : Bool → ℕ → ℕ
fold_char low c = if low && (leb b'A' c && leb c b'Z') then c + 32 else c

module _ {ℓ} {A : Type ℓ} where
  abbrev pub new_node : ℕ → TrieNode A
  new_node c = node c nil []

  -- `char_map_.find(k)`
  unfoldable pub find : ℕ → Edges A → Option (TrieNode A)
  find k nil = none
  find k (edge c t m) = if c == k then some t else find k m

  -- The child at `k` replaced, or a new pair.
  pub put : ℕ → TrieNode A → Edges A → Edges A
  put k t nil = edge k t nil
  put k t (edge c u m) = if c == k then edge c t m else edge c u (put k t m)

  unfoldable pub values_of : TrieNode A → List A
  values_of (node c m vs) = vs

  -- The child that `Insert` goes on with, and `size` with a new node counted.
  pub child : ℕ → Edges A → ℕ → TrieNode A × ℕ
  child k m size = elim (find k m) [ none ↦ (new_node k, size + 1) | some t ↦ (t, size) ]

  -- `TrieNode::Insert`, with the reference parameter `size` returned.
  pub insert_node : Bool → TrieNode A → Bytes → A → ℕ → TrieNode A × ℕ
  insert_node low (node c m vs) [] v size = (node c m (vs ++ (v ∷ [])), size)
  insert_node low (node c m vs) (w ∷ ws) v size =
      let k = fold_char low w in
      let (t, size') = child k m size in
      let (t', size'') = insert_node low t ws v size' in (node c (put k t' m) vs, size'')

  -- `TrieNode::Search`: it takes the word as it is, whatever `lowercase` says.
  unfoldable pub search_node : TrieNode A → Bytes → Option (TrieNode A)
  search_node t [] = some t
  search_node (node c m vs) (w ∷ ws) = elim (find w m) [ none ↦ none | some t ↦ search_node t ws ]

  -- A write through the pointer that `Search` returns.
  pub modify_node : (List A → List A) → TrieNode A → Bytes → TrieNode A
  modify_node f (node c m vs) [] = node c m (f vs)
  modify_node f (node c m vs) (w ∷ ws) = elim (find w m) [
    | none ↦ node c m vs
    | some t ↦ node c (put w (modify_node f t ws) m) vs
  ]
