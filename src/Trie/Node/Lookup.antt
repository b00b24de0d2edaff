-- ===== src/Trie/Node/Lookup.antt =====
-- A node as a map from words to lists of values.
use log_service.Prelude.{
  ℕ, ◌≡◌, refl, ◌∙◌, inl, inr, Bool, true, false, ◌&&◌, List, [], ◌∷◌, ◌++◌, Option, none, some,
  arith, Bytes, ◌==◌, if◌then◌else◌, map, bytes_eq, Option-cases,
}
use log_service.Trie.Node.{
  TrieNode, Edges, node, nil, edge, fold_char, new_node, find, put, values_of, child, insert_node,
  search_node, modify_node,
}

-- The word as it is stored.
abbrev pub fold_word : Bool → Bytes → Bytes
fold_word low = map (fold_char low)

-- The first word is where the second one begins.
abbrev pub is_prefix : Bytes → Bytes → Bool
is_prefix [] w = true
is_prefix (c ∷ q) [] = false
is_prefix (c ∷ q) (d ∷ w) = (c == d) && is_prefix q w

module _ {ℓ} {A : Type ℓ} where
  pub find-put :
      (j k : ℕ) (t : TrieNode A) (m : Edges A)
      → find j (put k t m) ≡ (if k == j then some t else find j m)
  unfolding find put
  find-put j k t nil = refl
  find-put j k t (edge c u m) = ground (arith, find-put j k t m)

  abbrev pub values_at : Option (TrieNode A) → List A
  values_at none = []
  values_at (some t) = values_of t

  -- The values stored at a word; none where the word has no node.
  pub lookup : TrieNode A → Bytes → List A
  unfolding values_of
  lookup t q = values_at (search_node t q)

  pub lookup_lem : (t : TrieNode A) (q : Bytes) → lookup t q ≡ values_at (search_node t q)
  unfolding lookup
  lookup_lem t q = refl

  pub has_node : TrieNode A → Bytes → Bool
  has_node t q = elim (search_node t q) [ none ↦ false | some n ↦ true ]

  pub lookup-new_node : (k : ℕ) (q : Bytes) → lookup (new_node k) q ≡ []
  unfolding lookup search_node find
  lookup-new_node k [] = refl
  lookup-new_node k (c ∷ q) = refl

  lookup-nil : (c : ℕ) (m : Edges A) (vs : List A) → lookup (node c m vs) [] ≡ vs
  unfolding lookup search_node
  lookup-nil c m vs = refl

  -- A lookup behind an edge that may be missing.
  abbrev lookup_from : Option (TrieNode A) → Bytes → List A
  lookup_from none q = []
  lookup_from (some t) q = lookup t q

  lookup-cons :
      (c : ℕ) (m : Edges A) (vs : List A) (x : ℕ) (q : Bytes)
      → lookup (node c m vs) (x ∷ q) ≡ lookup_from (find x m) q
  unfolding lookup search_node
  lookup-cons c m vs x q = elim (Option-cases (find x m)) [
    | inl e ↦ rw (e, lookup, search_node)
    | inr (t, e) ↦ rw (e, lookup, search_node)
  ]

  -- The child that `Insert` goes on to reads as the edge that was there.
  lookup-child :
      (k : ℕ) (m : Edges A) (size : ℕ) (q : Bytes)
      → lookup (child k m size).0 q ≡ lookup_from (find k m) q
  unfolding child
  lookup-child k m size q = elim (Option-cases (find k m)) [
    | inl e ↦ rw (e, child) (lookup-new_node k q)
    | inr (t, e) ↦ rw (e, child)
  ]

  -- `Insert` appends the value to the list at the folded word, and changes no other list.
  pub lookup-insert_node :
      (low : Bool) (w q : Bytes) (t : TrieNode A) (v : A) (size : ℕ)
      → lookup (insert_node low t w v size).0 q
        ≡ (if bytes_eq (fold_word low w) q then lookup t q ++ (v ∷ []) else lookup t q)
  unfolding insert_node
  lookup-insert_node low [] [] (node c m vs) v size =
      rw (lookup-nil c m vs) (lookup-nil c m (vs ++ (v ∷ [])))
  lookup-insert_node low [] (x ∷ q) (node c m vs) v size =
      rw (lookup-cons c m vs x q) (lookup-cons c m _ x q)
  lookup-insert_node low (w ∷ ws) [] (node c m vs) v size =
      rw (lookup-nil c m vs) (lookup-nil c _ vs)
  lookup-insert_node low (w ∷ ws) (x ∷ q) (node c m vs) v size =
      let k = fold_char low w in
      let (t, size') = child k m size in
      let t' = (insert_node low t ws v size').0 in
      rw (lookup-cons c (put k t' m) vs x q, lookup-cons c m vs x q, find-put x k t' m)
        (ground (arith, lookup-insert_node low ws q t v size', lookup-child k m size q))

  search_node-cons :
      (c : ℕ) (m : Edges A) (vs : List A) (w : ℕ) (ws : Bytes) (t : TrieNode A)
      → find w m ≡ some t
      → search_node t ws ≡ search_node (node c m vs) (w ∷ ws)
  unfolding search_node
  search_node-cons c m vs w ws t z = ground arith

  -- A write at a word that has a node changes the list of that word, and no other.
  pub lookup-modify_node :
      (f : List A → List A) (w q : Bytes) (t n : TrieNode A)
      → search_node t w ≡ some n
      → lookup (modify_node f t w) q ≡ (if bytes_eq w q then f (lookup t q) else lookup t q)
  unfolding modify_node search_node
  lookup-modify_node f [] [] (node c m vs) n e = rw (lookup-nil c m vs) (lookup-nil c m (f vs))
  lookup-modify_node f [] (x ∷ q) (node c m vs) n e =
      rw (lookup-cons c m vs x q) (lookup-cons c m _ x q)
  lookup-modify_node f (w ∷ ws) [] (node c m vs) n e = elim (Option-cases (find w m)) [
    | inl z ↦ rw (modify_node, z) refl
    | inr (t, z) ↦ rw (modify_node, z, lookup-nil c m vs) (lookup-nil c _ vs)
  ]
  lookup-modify_node f (w ∷ ws) (x ∷ q) (node c m vs) n e = elim (Option-cases (find w m)) [
    | inl z ↦ absurd (ground (arith, z, e))
    | inr (t, z) ↦
        let t' = modify_node f t ws in
        rw
          (
            modify_node,
            z,
            lookup-cons c (put w t' m) vs x q,
            lookup-cons c m vs x q,
            find-put x w t' m,
          )
          (ground (arith, z, lookup-modify_node f ws q t n (search_node-cons c m vs w ws t z ∙ e)))
  ]
