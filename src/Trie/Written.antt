-- ===== src/Trie/Written.antt =====
-- A write through the pointer that `Search` of include/Trie.h returns.
use log_service.Prelude.{
  ◌≡◌, refl, ◌∙◌, true, List, some, arith, Bytes, if◌then◌else◌, Option-cases, inl, inr, bytes_eq,
}
use log_service.Trie.{Trie, search, modify}
use log_service.Trie.Node.{TrieNode, search_node, modify_node}
use log_service.Trie.Node.Lookup.{lookup-modify_node}
use log_service.Trie.Node.Count.{node_count-modify_node}
use log_service.Trie.Map.{found, IsValid, search-rooted, IsValid-root}

module _ {ℓ} {A : Type ℓ} where
  search-some :
      (t : Trie A) (n : TrieNode A) (w : Bytes) (vs : List A)
      → t.root ≡ some n
      → search t w ≡ some vs
      → (k : TrieNode A) × (search_node n w ≡ some k)
  unfolding search
  search-some t n w vs r e = elim (Option-cases (search_node n w)) [
    | inl z ↦ absurd (ground (arith, z, r, e))
    | inr (k, z) ↦ (k, z)
  ]

  modify-rooted :
      (f : List A → List A) (t : Trie A) (w : Bytes) (n : TrieNode A)
      → t.root ≡ some n
      → modify f t w ≡ record t { root = some (modify_node f n w) }
  unfolding modify
  modify-rooted f t w n e = rw (modify, e) refl

  pub flags-modify :
      (f : List A → List A) (t : Trie A) (w : Bytes)
      → ((modify f t w).valid ≡ t.valid) × ((modify f t w).read_only ≡ t.read_only)
  unfolding modify
  flags-modify f t w = elim (Option-cases t.root) [
    | inl e ↦ rw (modify, e) (refl, refl)
    | inr (n, e) ↦ rw (modify, e) (refl, refl)
  ]

  pub modify-IsValid :
      (f : List A → List A) (t : Trie A) (w : Bytes) → IsValid t → IsValid (modify f t w)
  unfolding modify IsValid
  modify-IsValid f t w h = elim (Option-cases t.root) [
    | inl e ↦ rw (modify, e) h
    | inr (n, e) ↦ ground (arith, node_count-modify_node f w n)
  ]

  -- What the word that was searched for is found with is changed, and nothing else.
  pub search-modify :
      (f : List A → List A) (t : Trie A) (w q : Bytes) (vs : List A)
      → IsValid t
      → t.valid ≡ true
      → search t w ≡ some vs
      → found (search (modify f t w) q)
        ≡ (if bytes_eq w q then f (found (search t q)) else found (search t q))
  search-modify f t w q vs h v s =
      let (n, e, size) = IsValid-root t h v in
      let (k, at) = search-some t n w vs e s in
      rw (modify-rooted f t w n e, search-rooted t n q e v)
        (search-rooted _ _ q refl v ∙ lookup-modify_node f w q n k at)
