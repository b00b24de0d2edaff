-- ===== src/Trie/Node/Count.antt =====
-- `size_` against the number of nodes.
use log_service.Prelude.{
  ℕ, suc, ◌+◌, ◌≡◌, refl, ap, inl, inr, Bool, List, [], ◌∷◌, Option, none, some, arith, Bytes,
  Option-cases,
}
use log_service.Trie.Node.{
  TrieNode, Edges, node, nil, edge, fold_char, new_node, find, put, child, insert_node, modify_node,
}

unfoldable mutual
  pub node_count {ℓ} : {A : Type ℓ} → TrieNode A → ℕ
  node_count (node c m vs) = suc (edges_count m)

  pub edges_count {ℓ} : {A : Type ℓ} → Edges A → ℕ
  edges_count nil = 0
  edges_count (edge c t m) = node_count t + edges_count m

pub node_count-new_node {ℓ} : (A : Type ℓ) (k : ℕ) → node_count {A = A} (new_node k) ≡ 1
unfolding node_count
node_count-new_node A k = refl

module _ {ℓ} {A : Type ℓ} where
  abbrev edge_count : Option (TrieNode A) → ℕ
  edge_count none = 0
  edge_count (some t) = node_count t

  edges_count-put :
      (k : ℕ) (t : TrieNode A) (m : Edges A)
      → edges_count (put k t m) + edge_count (find k m) ≡ edges_count m + node_count t
  unfolding find put node_count
  edges_count-put k t nil = ground arith
  edges_count-put k t (edge c u m) = ground (arith, edges_count-put k t m)

  child_count :
      (k : ℕ) (m : Edges A) (size : ℕ)
      → node_count (child k m size).0 + size ≡ edge_count (find k m) + (child k m size).1
  unfolding child node_count
  child_count k m size = elim (Option-cases (find k m)) [
    | inl e ↦ rw (e, child) (omega arith)
    | inr (t, e) ↦ rw (e, child)
  ]

  -- `Insert` adds to the size what it adds in nodes.
  pub node_count-insert_node :
      (low : Bool) (w : Bytes) (t : TrieNode A) (v : A) (size : ℕ)
      → let (t', size') = insert_node low t w v size in node_count t' + size ≡ node_count t + size'
  unfolding insert_node node_count
  node_count-insert_node low [] (node c m vs) v size = refl
  node_count-insert_node low (w ∷ ws) (node c m vs) v size =
      let k = fold_char low w in
      let (t, size') = child k m size in
      let t' = (insert_node low t ws v size').0 in
      omega (
        arith,
        node_count-insert_node low ws t v size',
        child_count k m size,
        edges_count-put k t' m,
      )

  -- A write adds no node.
  pub node_count-modify_node :
      (f : List A → List A) (w : Bytes) (t : TrieNode A)
      → node_count (modify_node f t w) ≡ node_count t
  unfolding modify_node node_count
  node_count-modify_node f [] (node c m vs) = refl
  node_count-modify_node f (w ∷ ws) (node c m vs) = elim (Option-cases (find w m)) [
    | inl z ↦ rw (modify_node, z) refl
    | inr (t, z) ↦
        rw (modify_node, z)
          (omega (
            arith,
            edges_count-put w (modify_node f t ws) m,
            node_count-modify_node f ws t,
            ap edge_count z,
          ))
  ]
