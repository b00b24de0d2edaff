-- ===== src/LogFile/Tries/Counted.antt =====
-- `Save_trie_file` counts every node of the trie.
use log_service.Prelude.{
  ℕ, zero, suc, ◌+◌, ◌≤◌, ◌≡◌, refl, ap, ◌∙◌, List, [], ◌∷◌, ◌++◌, Option, none, some, Bytes, arith,
  true,
}
use log_service.Decimal.{decimal}
use log_service.Trie.{Trie, delete_tree, set_read_only}
use log_service.Trie.Node.{TrieNode, Edges, node, nil, edge}
use log_service.Trie.Node.Count.{node_count, edges_count}
use log_service.Trie.Map.{IsValid, IsValid-root}
use log_service.LogFile.Tries.{pushes, children_of, save_nodes, save_trie_file}

-- The nodes that are still to be written.
queue_count : List (TrieNode ℕ × Option ℕ) → ℕ
queue_count [] = 0
queue_count ((n, father) ∷ q) = node_count n + queue_count q

queue_count-pushes :
    (q : List (TrieNode ℕ × Option ℕ)) (count : ℕ) (m : Edges ℕ)
    → queue_count (q ++ pushes count m) ≡ queue_count q + edges_count m
unfolding queue_count pushes edges_count
queue_count-pushes [] count nil = refl
queue_count-pushes [] count (edge c t m) = omega (arith, queue_count-pushes [] count m)
queue_count-pushes ((n, father) ∷ q) count m = omega (arith, queue_count-pushes q count m)

node_count-children : (n : TrieNode ℕ) → node_count n ≡ suc (edges_count (children_of n))
unfolding node_count children_of
node_count-children (node c m vs) = refl

save_nodes-queue_count :
    (fuel : ℕ) (q : List (TrieNode ℕ × Option ℕ)) (count : ℕ)
    → queue_count q ≤ fuel
    → (save_nodes fuel q count).1 ≡ count + queue_count q
unfolding save_nodes queue_count
save_nodes-queue_count zero [] count h = omega arith
save_nodes-queue_count zero ((n, father) ∷ q) count h =
    absurd (omega (arith, node_count-children n))
save_nodes-queue_count (suc fuel) [] count h = omega arith
save_nodes-queue_count (suc fuel) ((n, father) ∷ q) count h =
    let e = queue_count-pushes q count (children_of n) in
    omega (
      arith,
      e,
      node_count-children n,
      save_nodes-queue_count fuel (q ++ pushes count (children_of n)) (count + 1)
          (omega (arith, e, node_count-children n)),
    )

abbrev outcome : Trie ℕ → Bytes → ℕ → Option (Bytes × Trie ℕ × ℕ)
outcome t text count = some (decimal t.size ++ (10 ∷ text), set_read_only (delete_tree t), count)

save-rooted :
    (t : Trie ℕ) (n : TrieNode ℕ)
    → t.root ≡ some n
    → let (text, count) = save_nodes (node_count n) ((n, none) ∷ []) 0 in
      save_trie_file t ≡ outcome t text count
unfolding save_trie_file
save-rooted t n e = ground arith

-- `Save_trie_file` of a valid trie returns, puts its `size_` on the first line, returns that number,
-- drops the tree, and closes it against insertions.
pub save_trie_file-size :
    (t : Trie ℕ)
    → IsValid t
    → t.valid ≡ true
    → (text : Bytes) × (save_trie_file t
        ≡ some (decimal t.size ++ (10 ∷ text), set_read_only (delete_tree t), t.size))
unfolding queue_count
save_trie_file-size t h v =
    let (n, e, size) = IsValid-root t h v in
    let text = (save_nodes (node_count n) ((n, none) ∷ []) 0).0 in
    let counted : (save_nodes (node_count n) ((n, none) ∷ []) 0).1 ≡ t.size =
      save_nodes-queue_count (node_count n) ((n, none) ∷ []) 0 (omega arith)
      ∙ omega (arith, size) in
    (text, save-rooted t n e ∙ ap (outcome t text) counted)
