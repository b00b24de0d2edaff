-- ===== src/Trie/Map.antt =====
-- A trie built by insertions is a map from words to the values inserted, in their order.
use log_service.Prelude.{
  ℕ, ◌≡◌, refl, ◌⊎◌, inl, inr, Bool, true, false, not, ◌&&◌, List, [], ◌∷◌, ◌++◌, Option, none,
  some, arith, Bytes, ◌≤◌, if◌then◌else◌, Option-cases, bytes_eq, append_assoc, append-nil, sym,
  ◌∙◌,
}
use log_service.Trie.{Trie, new_trie, insert, search}
use log_service.Trie.Node.{TrieNode, new_node, insert_node, search_node}
use log_service.Trie.Node.Lookup.{
  fold_word, lookup, lookup_lem, lookup-new_node, lookup-insert_node,
}
use log_service.Trie.Node.Count.{node_count, node_count-new_node, node_count-insert_node}

module _ {ℓ} {A : Type ℓ} where
  -- A valid trie has a root, counted in `size` with every node below it.
  abbrev IsRooted : Option (TrieNode A) → ℕ → Bool → Type 0
  IsRooted none size valid = valid ≡ false
  IsRooted (some n) size valid = node_count n ≡ size

  unfoldable pub IsValid : Trie A → Type 0
  IsValid t = IsRooted t.root t.size t.valid

  -- What `search` lets a caller read.
  unfoldable pub found : Option (List A) → List A
  found none = []
  found (some vs) = vs

  insert-rooted :
      (low : Bool) (t : Trie A) (w : Bytes) (v : A) (n : TrieNode A)
      → t.root ≡ some n
      → t.valid ≡ true
      → t.read_only ≡ false
      → let (n', size') = insert_node low n w v t.size in
        insert low t w v ≡ record t { root = some n'; size = size' }
  unfolding insert
  insert-rooted low t w v n e a b = ground arith

  insert-closed :
      (low : Bool) (t : Trie A) (w : Bytes) (v : A)
      → t.valid && not t.read_only ≡ false
      → insert low t w v ≡ t
  unfolding insert
  insert-closed low t w v e = rw e

  pub search-rooted :
      (t : Trie A) (n : TrieNode A) (q : Bytes)
      → t.root ≡ some n
      → t.valid ≡ true
      → found (search t q) ≡ lookup n q
  unfolding search found
  search-rooted t n q e a = elim (Option-cases (search_node n q)) [
    | inl z ↦ ground (arith, lookup_lem n q)
    | inr (m, z) ↦ ground (arith, lookup_lem n q)
  ]

  pub insert-IsValid :
      (low : Bool) (t : Trie A) (w : Bytes) (v : A) → IsValid t → IsValid (insert low t w v)
  unfolding insert IsValid
  insert-IsValid low t w v h = elim (Option-cases t.root) [
    | inl e ↦ ground arith
    | inr (n, e) ↦ ground (arith, node_count-insert_node low w n v t.size)
  ]

  pub IsValid-root :
      (t : Trie A)
      → IsValid t
      → t.valid ≡ true
      → (n : TrieNode A) × (t.root ≡ some n) × (node_count n ≡ t.size)
  unfolding IsValid
  IsValid-root t h v = elim (Option-cases t.root) [
    | inl e ↦ absurd (ground arith)
    | inr (n, e) ↦ (n, e, ground arith)
  ]

  pub search-insert :
      (low : Bool) (t : Trie A) (w q : Bytes) (v : A)
      → t.valid ≡ true
      → t.read_only ≡ false
      → IsValid t
      → found (search (insert low t w v) q) ≡ (
          if bytes_eq (fold_word low w) q
          then found (search t q) ++ (v ∷ [])
          else found (search t q))
  unfolding IsValid
  search-insert low t w q v a b h = elim (Option-cases t.root) [
    | inl e ↦ ground arith
    | inr (n, e) ↦
        rw (insert-rooted low t w v n e a b, search-rooted t n q e a)
          (search-rooted _ _ q refl a ∙ lookup-insert_node low w q n v t.size)
  ]

pub new_trie-IsValid {ℓ} : (A : Type ℓ) → IsValid (new_trie {A = A})
unfolding new_trie IsValid
new_trie-IsValid A = node_count-new_node A b'@'

pub new_trie-valid {ℓ} : (A : Type ℓ) → (new_trie {A = A}).valid ≡ true
unfolding new_trie
new_trie-valid A = refl

pub new_trie-writable {ℓ} : (A : Type ℓ) → (new_trie {A = A}).read_only ≡ false
unfolding new_trie
new_trie-writable A = refl

module _ {ℓ} {A : Type ℓ} where
  -- A sequence of `Insert` calls.
  pub insert_all : Bool → Trie A → List (Bytes × A) → Trie A
  insert_all low t [] = t
  insert_all low t ((w, v) ∷ ps) = insert_all low (insert low t w v) ps

  -- The values inserted under a word, in the order of insertion.
  pub stored : Bool → Bytes → List (Bytes × A) → List A
  stored low q [] = []
  stored low q ((w, v) ∷ ps) =
      if bytes_eq (fold_word low w) q then v ∷ stored low q ps else stored low q ps

  pub flags-insert :
      (low : Bool) (t : Trie A) (w : Bytes) (v : A)
      → ((insert low t w v).valid ≡ t.valid) × ((insert low t w v).read_only ≡ t.read_only)
  unfolding insert
  flags-insert low t w v = elim (Option-cases t.root) [
    | inl e ↦ ground arith
    | inr (n, e) ↦ ground arith
  ]

  pub search-insert_all :
      (low : Bool) (ps : List (Bytes × A)) (t : Trie A) (q : Bytes)
      → IsValid t
      → t.valid ≡ true
      → t.read_only ≡ false
      → found (search (insert_all low t ps) q) ≡ found (search t q) ++ stored low q ps
  unfolding insert_all stored
  search-insert_all low [] t q h a b = sym (append-nil (found (search t q)))
  search-insert_all low ((w, v) ∷ ps) t q h a b =
      let (a', b') = flags-insert low t w v in
      ground (
        arith,
        search-insert_all low ps (insert low t w v) q (insert-IsValid low t w v h) (a' ∙ a)
            (b' ∙ b),
        search-insert low t w q v a b h,
        append_assoc (found (search t q)) (v ∷ []) (stored low q ps),
      )

  pub found-new_trie : (q : Bytes) → found (search (new_trie {A = A}) q) ≡ []
  unfolding new_trie
  found-new_trie q = search-rooted new_trie (new_node b'@') q refl refl ∙ lookup-new_node b'@' q

-- A search of a trie that insertions have built finds the values inserted under the word, in the
-- order of the insertions, where words count as equal if they are stored alike.
pub search-built {ℓ} :
    {A : Type ℓ} (low : Bool) (ps : List (Bytes × A)) (q : Bytes)
    → found (search (insert_all low new_trie ps) q) ≡ stored low q ps
unfolding new_trie
search-built {A} low ps q =
    search-insert_all low ps new_trie q (new_trie-IsValid A) refl refl
    ∙ rw (found-new_trie {A = A} q)

abbrev pub HasUpper : Bytes → Type 0
HasUpper [] = ⊥
HasUpper (c ∷ q) = ((b'A' ≤ c) × (c ≤ b'Z')) ⊎ HasUpper q

fold_word-lower : (w q : Bytes) → HasUpper q → bytes_eq (fold_word true w) q ≡ false
fold_word-lower [] [] h = absurd h
fold_word-lower [] (c ∷ q) h = refl
fold_word-lower (d ∷ w) [] h = absurd h
fold_word-lower (d ∷ w) (c ∷ q) (inl h) = ground arith
fold_word-lower (d ∷ w) (c ∷ q) (inr h) = ground (arith, fold_word-lower w q h)

stored-upper {ℓ} :
    {A : Type ℓ} (ps : List (Bytes × A)) (q : Bytes) → HasUpper q → stored true q ps ≡ []
unfolding stored
stored-upper [] q h = refl
stored-upper ((w, v) ∷ ps) q h = rw (fold_word-lower w q h) (stored-upper ps q h)

-- In a trie that stores lower case a search for a word with a capital letter finds nothing,
-- whatever was inserted: `Search` does not fold the word that it is given.
pub search_upper {ℓ} :
    {A : Type ℓ} (ps : List (Bytes × A)) (q : Bytes)
    → HasUpper q
    → found (search (insert_all true new_trie ps) q) ≡ []
search_upper ps q h = search-built true ps q ∙ stored-upper ps q h
