-- ===== src/Trie/Tests.antt =====
-- Small tries: each theorem at an input.
use log_service.Prelude.{ℕ, ◌+◌, ◌≡◌, inl, true, List, [], ◌∷◌, Bytes, codes, arith}
use log_service.Trie.{new_trie, search}
use log_service.Trie.Node.{new_node, insert_node}
use log_service.Trie.Node.Count.{node_count, node_count-insert_node}
use log_service.Trie.Map.{found, insert_all, stored, search-built, search_upper}

abbrev entries : List (Bytes × ℕ)
entries = (codes "Disk", 0) ∷ (codes "disk", 1) ∷ (codes "die", 2) ∷ []

node_count-insert_node_example :
    node_count {A = ℕ} (insert_node true (new_node 64) (codes "Ab") 7 1).0 + 1
    ≡ node_count (new_node {A = ℕ} 64) + (insert_node {A = ℕ} true (new_node 64) (codes "Ab") 7 1).1
node_count-insert_node_example = node_count-insert_node {A = ℕ} true (codes "Ab") (new_node 64) 7 1

search-built_example :
    found {A = ℕ} (search (insert_all true new_trie entries) (codes "disk"))
    ≡ stored true (codes "disk") entries
search-built_example = search-built true entries (codes "disk")

search_upper_example : found {A = ℕ} (search (insert_all true new_trie entries) (codes "Disk")) ≡ []
search_upper_example = search_upper entries (codes "Disk") (inl (omega arith, omega arith))
