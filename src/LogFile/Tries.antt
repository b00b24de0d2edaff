-- ===== src/LogFile/Tries.antt =====
-- The files of the tries, in src/log_processor/LogFile.cpp: the nodes in breadth-first order, a line
-- each, with the position of the father, the character, and the values.
pub mod Counted
use log_service.Prelude.{
  ℕ, zero, suc, ◌+◌, ◌-◌, ◌&&◌, codes, Bool, true, false, List, [], ◌∷◌, ◌++◌, Option, none, some,
  Bytes, ◌==◌, length, get_or, set, if◌then◌else◌,
}
use log_service.Decimal.{decimal, skip_space}
use log_service.LogFile.{read_number}
use log_service.Trie.{Trie, delete_tree, set_read_only}
use log_service.Trie.Node.{TrieNode, Edges, node, nil, edge, new_node}
use log_service.Trie.Node.Count.{node_count}

-- The root's father is -1.
abbrev father_text : Option ℕ → Bytes
father_text none = codes "-1"
father_text (some n) = decimal n

values_text : List ℕ → Bytes
values_text [] = []
values_text (v ∷ vs) = decimal v ++ (b' ' ∷ values_text vs)

pub node_line : Option ℕ → TrieNode ℕ → Bytes
unfolding values_text
node_line father (node c m vs) =
    father_text father
    ++ (b' ' ∷ c ∷ b' ' ∷ (decimal (length vs) ++ (b' ' ∷ (values_text vs ++ (10 ∷ [])))))

-- The pushes of a node's children, as the units of node and father.
pub pushes : ℕ → Edges ℕ → List (TrieNode ℕ × Option ℕ)
pushes count nil = []
pushes count (edge c t m) = (t, some count) ∷ pushes count m

pub children_of : TrieNode ℕ → Edges ℕ
children_of (node c m vs) = m

-- The loop over the queue, with the number of nodes written so far. Each round writes one node, so
-- as many rounds as there are nodes are enough.
pub save_nodes : ℕ → List (TrieNode ℕ × Option ℕ) → ℕ → Bytes × ℕ
unfolding node_line pushes
save_nodes zero q count = ([], count)
save_nodes (suc fuel) [] count = ([], count)
save_nodes (suc fuel) ((n, father) ∷ q) count =
    let (text, total) = save_nodes fuel (q ++ pushes count (children_of n)) (count + 1) in
    (node_line father n ++ text, total)

-- `Save_trie_file`: the file, the trie that is left, and the value returned; `none` where the trie has
-- no root to be followed.
pub save_trie_file : Trie ℕ → Option (Bytes × Trie ℕ × ℕ)
unfolding save_nodes
save_trie_file t = elim t.root [
  | none ↦ none
  | some n ↦
      let (text, count) = save_nodes (node_count n) ((n, none) ∷ []) 0 in
      some (decimal t.size ++ (10 ∷ text), set_read_only (delete_tree t), count)
]

-- An element of `node_array`; a pointer into it is a position.
pub record ArrayNode : Type 0 where
  pub c : ℕ
  pub char_map : List (ℕ × ℕ)
  pub value_list : List ℕ

abbrev blank : ArrayNode
blank = record { c = 0; char_map = []; value_list = [] }

-- `file_ >> c` for a character.
read_char : Bytes → ℕ × Bytes
read_char s = elim (skip_space s) [ [] ↦ (0, []) | c ∷ r ↦ (c, r) ]

-- `file_ >> father` at the root: whether it reads -1.
read_root_father : Bytes → Bool × Bytes
read_root_father s = elim (skip_space s) [
  | [] ↦ (false, [])
  | c ∷ r ↦ let (n, rest) = read_number r in if c == b'-' then (n == 1, rest) else (false, rest)
]

read_values : ℕ → Bytes → List ℕ × Bytes
read_values zero s = ([], s)
read_values (suc len) s =
    let (v, s') = read_number s in let (vs, s'') = read_values len s' in (v ∷ vs, s'')

-- `char_map_.insert`, which leaves a character that is there.
insert_child : ℕ → ℕ → List (ℕ × ℕ) → List (ℕ × ℕ)
insert_child c i [] = (c, i) ∷ []
insert_child c i ((d, j) ∷ m) = if d == c then (d, j) ∷ m else (d, j) ∷ insert_child c i m

-- The loop over the nodes behind the root, of which `i` are in the array.
read_nodes : ℕ → ℕ → Bytes → List ArrayNode → List ArrayNode
unfolding read_char read_values insert_child
read_nodes zero i s nodes = nodes
read_nodes (suc left) i s nodes =
    let (father, s1) = read_number s in
    let (c, s2) = read_char s1 in
    let (len, s3) = read_number s2 in
    let (values, s4) = read_values len s3 in
    let above = get_or nodes father blank in
    let linked = set nodes father (record above { char_map = insert_child c i above.char_map }) in
    read_nodes left (i + 1) s4
      (linked ++ ((record { c = c; char_map = []; value_list = values }) ∷ []))

-- The node that a pointer into the array leads to, with what is below it: a path down has at most as
-- many nodes as the array.
to_edges : (ℕ → TrieNode ℕ) → List (ℕ × ℕ) → Edges ℕ
to_edges follow [] = nil
to_edges follow ((c, i) ∷ m) = edge c (follow i) (to_edges follow m)

node_at : ℕ → List ArrayNode → ℕ → TrieNode ℕ
unfolding to_edges
node_at zero nodes i = new_node 0
node_at (suc depth) nodes i =
    let n = get_or nodes i blank in
    node n.c (to_edges (λ j. node_at depth nodes j) n.char_map) n.value_list

-- `Read_trie_file`: the trie, and the value returned; `none` where it reports an error and ends the
-- process.
pub read_trie_file : Bytes → Trie ℕ → Option (Trie ℕ × ℕ)
unfolding read_root_father read_char read_nodes node_at
read_trie_file file t =
    let (node_num, s0) = read_number file in
    let (is_root, s1) = read_root_father s0 in
    let (c, s2) = read_char s1 in
    let (len, s3) = read_number s2 in
    let root : ArrayNode = record { c = c; char_map = []; value_list = [] } in
    let nodes = read_nodes (node_num - 1) 1 s3 (root ∷ []) in
    if is_root && (len == 0)
    then some (
      record t {
        root = some (node_at node_num nodes 0);
        valid = true;
        size = node_num;
        store_in_array = true;
      },
      node_num,
    )
    else none

-- The methods of `LogWordTrieFile` repeat the text of those of `LogKeyTrieFile`, over the nodes of the
-- other trie; neither inserts a word, so that the template's flag is not read.
abbrev pub save_word_trie_file : Trie ℕ → Option (Bytes × Trie ℕ × ℕ)
save_word_trie_file t = save_trie_file t

abbrev pub read_word_trie_file : Bytes → Trie ℕ → Option (Trie ℕ × ℕ)
read_word_trie_file file t = read_trie_file file t
