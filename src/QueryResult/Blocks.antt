-- ===== src/QueryResult/Blocks.antt =====
-- The blocks of an answer, by the lines that it sends.
use log_service.Prelude.{
  ℕ, ◌+◌, ◌≡◌, refl, sym, ap, ◌∙◌, Bool, true, false, ◌||◌, List, [], ◌∷◌, ◌++◌, Bytes, leb, ◌==◌,
  length, arith, if◌then◌else◌, Bool-cases, inl, inr, append_assoc,
}
use log_service.QueryResult.{
  QueryResult, new_result, logs_size, append_text, ResultHandler, new_results, append_line,
  append_lines, time_line, finish_results,
}

abbrev pub block : ℕ → Bool → Bytes → QueryResult
block client begin text = record { client_id = client; begin = begin; finish = false; logs = text }

-- What a new block holds of a line.
abbrev pub alone : Bytes → Bytes
alone l = if leb logs_size (length l + 1) then [] else l

-- The blocks that hold `text` and the lines behind it: a block is closed by the first line that it has no
-- room for.
unfoldable pub fill : ℕ → Bool → Bytes → List Bytes → List QueryResult
fill client begin text [] = block client begin text ∷ []
fill client begin text (l ∷ ls) =
    let here = fill client begin (text ++ l) ls in
    let next = fill client false (alone l) ls in
    if leb logs_size (length text + length l + 1) || (length l == 0)
    then block client begin text ∷ next
    else here

-- With the block that ends an answer.
unfoldable pub blocks_of : ℕ → List Bytes → ℕ → List QueryResult
unfolding fill time_line
blocks_of client ls used =
    fill client true [] ls
    ++ (record (block client false (alone (time_line (length ls) used))) { finish = true } ∷ [])

filling : ℕ → Bool → Bytes → ℕ → List QueryResult → ResultHandler
filling client begin text count sent = record {
  result = block client begin text;
  count = count;
  sent = sent;
}

abbrev closed : ResultHandler → List QueryResult
closed h = h.sent ++ (h.result ∷ [])

fresh :
    (client : ℕ) (l : Bytes) → (append_text (new_result client) l).0 ≡ block client false (alone l)
unfolding append_text new_result
fresh client l = elim (Bool-cases (leb logs_size (length l + 1))) [
  | inl e ↦
      let full : leb logs_size (0 + length l + 1) ≡ true = ground arith in
      rw (append_text, full, e) refl
  | inr e ↦
      let room : leb logs_size (0 + length l + 1) ≡ false = ground arith in
      rw (append_text, room, e) refl
]

-- Whether a line goes to the next block.
abbrev pub goes_on : Bytes → Bytes → Bool
goes_on text l = leb logs_size (length text + length l + 1) || (length l == 0)

module _ (client : ℕ) (begin : Bool) (text l : Bytes) (count : ℕ) (sent : List QueryResult) where
  append_line-next :
      goes_on text l ≡ true
      → append_line (filling client begin text count sent) l
        ≡ filling client false (alone l) (count + 1) (sent ++ (block client begin text ∷ []))
  unfolding append_line append_text filling
  append_line-next e = elim (Bool-cases (leb logs_size (length text + length l + 1))) [
    | inl full ↦
        rw (append_line, append_text, full)
          (ap
            (λ (b : QueryResult). record {
              result = b;
              count = count + 1;
              sent = sent ++ (block client begin text ∷ []);
            })
            (fresh client l))
    | inr room ↦
        let none_left : (length l == 0) ≡ true = ground arith in
        rw (append_line, append_text, room, none_left)
          (ap
            (λ (b : QueryResult). record {
              result = b;
              count = count + 1;
              sent = sent ++ (block client begin text ∷ []);
            })
            (fresh client l))
  ]

  append_line-here :
      goes_on text l ≡ false
      → append_line (filling client begin text count sent) l
        ≡ filling client begin (text ++ l) (count + 1) sent
  unfolding append_line append_text filling
  append_line-here e =
      let room : leb logs_size (length text + length l + 1) ≡ false = ground arith in
      let some_text : (length l == 0) ≡ false = ground arith in
      rw (append_line, append_text, room, some_text) refl

-- The block that is being filled is the last of those that the lines make.
record Filled (client count : ℕ) (blocks : List QueryResult) (h : ResultHandler) : Type 0 where
  same_client : h.result.client_id ≡ client
  counted : h.count ≡ count
  in_blocks : closed h ≡ blocks

append_lines-fill :
    (ls : List Bytes) (client : ℕ) (begin : Bool) (text : Bytes) (count : ℕ)
    (sent : List QueryResult)
    → Filled client
        (count + length ls)
        (sent ++ fill client begin text ls)
        (append_lines (filling client begin text count sent) ls)
unfolding append_lines fill filling
append_lines-fill [] client begin text count sent = record {
  same_client = refl;
  counted = omega arith;
  in_blocks = refl;
}
append_lines-fill (l ∷ ls) client begin text count sent = elim (Bool-cases (goes_on text l)) [
  | inl e ↦
      let here : QueryResult = block client begin text in
      let f = append_lines-fill ls client false (alone l) (count + 1) (sent ++ (here ∷ [])) in
      rw (append_line-next client begin text l count sent e, e)
        (record {
          same_client = f.same_client;
          counted = omega (arith, f.counted);
          in_blocks = f.in_blocks ∙ append_assoc sent (here ∷ []) (fill client false (alone l) ls);
        })
  | inr e ↦
      let f = append_lines-fill ls client begin (text ++ l) (count + 1) sent in
      rw (append_line-here client begin text l count sent e, e)
        (record {
          same_client = f.same_client;
          counted = omega (arith, f.counted);
          in_blocks = f.in_blocks;
        })
]

finish_results-Filled :
    (client count used : ℕ) (blocks : List QueryResult) (h : ResultHandler)
    → Filled client count blocks h
    → finish_results h used
      ≡ blocks
        ++ (record (block client false (alone (time_line count used))) { finish = true } ∷ [])
unfolding finish_results
finish_results-Filled client count used blocks h f =
    ap (λ (b : QueryResult). h.sent ++ (h.result ∷ (record b { finish = true }) ∷ []))
      (fresh h.result.client_id (time_line h.count used))
    ∙ sym (append_assoc h.sent (h.result ∷ []) _)
    ∙ rw (f.in_blocks, f.same_client, f.counted) refl

-- The blocks of an answer are the ones that its lines fill.
pub finish_results-blocks_of :
    (client : ℕ) (ls : List Bytes) (used : ℕ)
    → finish_results (append_lines (new_results client) ls) used ≡ blocks_of client ls used
unfolding blocks_of filling new_results new_result
finish_results-blocks_of client ls used =
    let f = append_lines-fill ls client true [] 0 [] in
    finish_results-Filled client (length ls) used (fill client true [] ls) _ (record {
      same_client = f.same_client;
      counted = omega (arith, f.counted);
      in_blocks = f.in_blocks;
    })
