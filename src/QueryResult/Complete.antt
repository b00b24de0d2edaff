-- ===== src/QueryResult/Complete.antt =====
-- The blocks that a query sends hold its lines, whole and in order, and none is overfull.
use log_service.Prelude.{
  ℕ, ◌+◌, ◌<◌, ◌≡◌, refl, sym, ap, ◌∙◌, Bool, true, false, List, [], ◌∷◌, ◌++◌, Bytes, leb, length,
  length-append, arith, map, inl, inr, Bool-cases, append-nil, append_assoc,
}
use log_service.QueryResult.{
  QueryResult, logs_size, new_results, append_lines, time_line, finish_results,
}
use log_service.QueryResult.Blocks.{
  block, fill, blocks_of, alone, goes_on, finish_results-blocks_of,
}

unfoldable pub joined : List Bytes → Bytes
joined [] = []
joined (l ∷ ls) = l ++ joined ls

-- A line that is not empty and that a block of its own can hold.
abbrev pub Fits : List Bytes → Type 0
Fits [] = Unit
Fits (l ∷ ls) = (0 < length l) × (length l + 1 < logs_size) × Fits ls

-- All blocks are for the client, and have room for what they hold.
abbrev pub AllFor : ℕ → List QueryResult → Type 0
AllFor client [] = Unit
AllFor client (r ∷ rs) = (r.client_id ≡ client) × AllFor client rs

abbrev pub AllShort : List QueryResult → Type 0
AllShort [] = Unit
AllShort (r ∷ rs) = (length r.logs + 1 < logs_size) × AllShort rs

unfoldable pub flatten : List (List Bytes) → List Bytes
flatten [] = []
flatten (g ∷ gs) = g ++ flatten gs

abbrev pub logs_of : QueryResult → Bytes
logs_of r = r.logs

abbrev pub is_last : QueryResult → Bool
is_last r = r.finish

joined-snoc : (g : List Bytes) (l : Bytes) → joined g ++ l ≡ joined (g ++ (l ∷ []))
unfolding joined
joined-snoc [] l = sym (append-nil l)
joined-snoc (x ∷ g) l = append_assoc x (joined g) l ∙ ap (◌++◌ x) (joined-snoc g l)

-- Lines in groups, one for each block.
pub record Grouped (client : ℕ) (ls : List Bytes) (blocks : List QueryResult) : Type 0 where
  pub groups : List (List Bytes)
  pub in_order : flatten groups ≡ ls
  pub whole : map logs_of blocks ≡ map joined groups
  pub more_follow : map is_last blocks ≡ map (λ g. false) groups
  pub short : AllShort blocks
  pub same_client : AllFor client blocks

fill-Grouped :
    (ls : List Bytes) (client : ℕ) (begin : Bool) (g : List Bytes) (text : Bytes)
    → Fits ls
    → text ≡ joined g
    → length text + 1 < logs_size
    → Grouped client (g ++ ls) (fill client begin text ls)
unfolding fill flatten joined
fill-Grouped [] client begin g text f e short = record {
  groups = g ∷ [];
  in_order = refl;
  whole = ap (λ (t : Bytes). t ∷ []) e;
  more_follow = refl;
  short = (short, tt);
  same_client = (refl, tt);
}
fill-Grouped (l ∷ ls) client begin g text (some_text, small, f) e short =
    elim (Bool-cases (goes_on text l)) [
      | inl next ↦
          let fits : leb logs_size (length l + 1) ≡ false = ground arith in
          let kept : alone l ≡ l = rw fits refl in
          let rest =
            fill-Grouped ls client false (l ∷ []) (alone l) f (kept ∙ joined-snoc [] l)
              (omega (arith, small, ap length kept)) in
          rw next (record {
            groups = g ∷ rest.groups;
            in_order = ap (◌++◌ g) rest.in_order;
            whole = rw e (ap (λ (ts : List Bytes). joined g ∷ ts) rest.whole);
            more_follow = ap (λ (fs : List Bool). false ∷ fs) rest.more_follow;
            short = (short, rest.short);
            same_client = (refl, rest.same_client);
          })
      | inr here ↦
          let room : length (text ++ l) + 1 < logs_size = ground (arith, length-append text l) in
          let rest =
            fill-Grouped ls client begin (g ++ (l ∷ [])) (text ++ l) f
              (ap (λ (t : Bytes). t ++ l) e ∙ joined-snoc g l) room in
          rw here (record {
            groups = rest.groups;
            in_order = rest.in_order ∙ append_assoc g (l ∷ []) ls;
            whole = rest.whole;
            more_follow = rest.more_follow;
            short = rest.short;
            same_client = rest.same_client;
          })
    ]

-- The blocks that an answer writes to the result queue are for its client, none holds more than it has
-- room for, and the last one alone is marked as the end. The others hold the lines, in order
-- and each whole in one block; the last one holds the number of lines and the time. No line is empty
-- or longer than a block of its own has room for, and neither is the last text.
pub finish_results-Grouped :
    (client : ℕ) (ls : List Bytes) (used : ℕ)
    → Fits ls
    → length (time_line (length ls) used) + 1 < logs_size
    → (filled : List QueryResult) × (finish_results (append_lines (new_results client) ls) used
        ≡ filled
          ++ (record {
            client_id = client;
            begin = false;
            finish = true;
            logs = time_line (length ls) used;
          }
              ∷ []))
      × Grouped client ls filled
unfolding blocks_of joined
finish_results-Grouped client ls used f small =
    let last = time_line (length ls) used in
    let fits : leb logs_size (length last + 1) ≡ false = ground arith in
    let kept : alone last ≡ last = rw fits refl in
    (
      fill client true [] ls,
      finish_results-blocks_of client ls used
          ∙ ap
              (λ (t : Bytes).
                fill client true [] ls ++ (record (block client false t) { finish = true } ∷ []))
              kept,
      fill-Grouped ls client true [] [] f refl (omega arith),
    )
