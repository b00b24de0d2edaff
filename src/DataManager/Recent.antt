-- ===== src/DataManager/Recent.antt =====
-- `Get_recent_log` and `LogCount_log` against the sequence of the lines stored.
use log_service.Prelude.{
  ℕ, zero, suc, ◌-◌, ◌^◌, ◌≤◌, ◌<◌, ◌≡◌, refl, sym, ap, ◌∙◌, true, List, [], ◌∷◌, ◌++◌, Option,
  some, Bytes, codes, arith, length, get_or, take, take-++, AllBelow, reverse, reverse-cons,
}
use log_service.ReqData.{ReqData, recent, log_count, valid}
use log_service.Decimal.{decimal}
use log_service.Trie.{Trie}
use log_service.Handler.{Handler}
use log_service.DataManager.Notes.{append_note}
use log_service.QueryResult.{QueryResult, ResultHandler, append_lines, new_results, finish_results}
use log_service.QueryResult.Blocks.{blocks_of, finish_results-blocks_of}
use log_service.DataManager.{DataManager}
use log_service.DataManager.Holds.{AllSame, AllSame-refl, length-AllSame}
use log_service.DataManager.Stored.{Stores, AllHold, newest_first, total}
use log_service.DataManager.Sent.{
  lines_at, length-lines_at, send_serials-Holds, append_lines-append,
}
use log_service.DataManager.Sending.{send_serials, send_all, down_from}
use log_service.DataManager.Queries.{get_recent_log, record_count, log_count_log, int_count, answer}

down_from-AllBelow : (n k : ℕ) → n ≤ k → AllBelow k (down_from n)
unfolding down_from
down_from-AllBelow zero k le = tt
down_from-AllBelow (suc n) k le = (omega (arith, le), down_from-AllBelow n k (omega (arith, le)))

-- The `n` elements in front of index `n`, from the last on.
abbrev down : List Bytes → ℕ → List Bytes
down ls n = lines_at ls (down_from n)

down-cons : (l : Bytes) (ls : List Bytes) (n : ℕ) → down (l ∷ ls) (suc n) ≡ down ls n ++ (l ∷ [])
unfolding lines_at down_from
down-cons l ls zero = refl
down-cons l ls (suc n) = ap (λ (ks : List Bytes). get_or ls n [] ∷ ks) (down-cons l ls n)

down-all : (ls : List Bytes) → down ls (length ls) ≡ reverse ls
unfolding lines_at down_from
down-all [] = refl
down-all (l ∷ ls) =
    down-cons l ls (length ls)
    ∙ ap (λ (ks : List Bytes). ks ++ (l ∷ [])) (down-all ls)
    ∙ sym (reverse-cons l ls)

sent_lines :
    (n : ℕ) (ls ks : List Bytes) (rs : ResultHandler)
    → append_lines
        (append_lines rs (take n (down ls (length ls))))
        (take (n - length (down_from (length ls))) ks)
      ≡ append_lines rs (take n (reverse ls ++ ks))
sent_lines n ls ks rs =
    sym (
      append_lines-append rs (take n (down ls (length ls)))
        (take (n - length (down_from (length ls))) ks))
    ∙ ap (append_lines rs) (
        ap (λ (l : ℕ). take n (down ls (length ls)) ++ take (n - l) ks)
          (sym (length-lines_at ls (down_from (length ls))))
        ∙ sym (take-++ n (down ls (length ls)) ks)
        ∙ ap (λ (l : List Bytes). take n (l ++ ks)) (down-all ls))

send_all-step :
    (select : Handler → Option (Handler × List ℕ)) (left left' left'' : ℕ) (h h1 h2 : Handler)
    (hs hs' : List Handler) (serials : List ℕ) (rs rs' rs'' : ResultHandler)
    → select h ≡ some (h1, serials)
    → send_serials (suc left) serials h1 rs ≡ some (left', h2, rs')
    → send_all select left' hs rs' ≡ some (left'', hs', rs'')
    → send_all select (suc left) (h ∷ hs) rs ≡ some (left'', h2 ∷ hs', rs'')
unfolding send_all
send_all-step select left left' left'' h h1 h2 hs hs' serials rs rs' rs'' a b c =
    rw (send_all, a, b, c) refl

-- Every log of a handler, newest first.
abbrev all_serials : Handler → Option (Handler × List ℕ)
all_serials h = some (h, down_from h.bulk.size)

send_all-Holds :
    (left : ℕ) (hs : List Handler) (bs : List (List Bytes)) (rs : ResultHandler)
    → AllHold hs bs
    → (left' : ℕ) × (hs' : List Handler) × (send_all all_serials left hs rs
        ≡ some (left', hs', append_lines rs (take left (newest_first bs))))
      × AllHold hs' bs
      × AllSame hs hs'
unfolding send_all AllHold AllSame newest_first append_lines
send_all-Holds zero [] [] rs p = (0, [], refl, p, AllSame-refl [])
send_all-Holds (suc left) [] [] rs p = (suc left, [], refl, p, AllSame-refl [])
send_all-Holds left [] (ls ∷ bs) rs p = absurd p
send_all-Holds left (h ∷ hs) [] rs p = absurd p
send_all-Holds zero (h ∷ hs) (ls ∷ bs) rs p = (0, h ∷ hs, refl, p, AllSame-refl (h ∷ hs))
send_all-Holds (suc left) (h ∷ hs) (ls ∷ bs) rs (p, at, older) =
    let (h1, e, q, same) =
      send_serials-Holds (down_from h.bulk.size) (suc left) h ls rs p
        (down_from-AllBelow h.bulk.size (length ls) (omega (arith, p.size))) in
    let sent = append_lines rs (take (suc left) (down ls h.bulk.size)) in
    let (left', hs', f, olds, reads) =
      send_all-Holds (suc left - length (down_from h.bulk.size)) hs bs sent older in
    (
      left',
      h1 ∷ hs',
      send_all-step all_serials left _ left' h h h1 hs hs' _ rs sent _ refl e f
          ∙ ap (λ (k : ResultHandler). some (left', h1 ∷ hs', k))
              (ap
                  (λ (n : ℕ).
                    append_lines (append_lines rs (take (suc left) (down ls n)))
                      (take (suc left - length (down_from n)) (newest_first bs)))
                  p.size
                ∙ sent_lines (suc left) ls (newest_first bs) rs),
      (q, same.same_serial ∙ at, olds),
      (same, reads),
    )

send_newest :
    (left : ℕ) (m : DataManager) (bulks : List (List Bytes)) (rs : ResultHandler)
    → Stores m bulks
    → (left' : ℕ) × (hs' : List Handler) × (send_all all_serials left m.handlers rs
        ≡ some (left', hs', append_lines rs (take left (newest_first bulks))))
      × Stores (record m { handlers = hs' }) bulks
      × AllSame m.handlers hs'
send_newest left m bulks rs s =
    let (left', hs', e, held, reads) = send_all-Holds left m.handlers bulks rs s.held in
    (
      left',
      hs',
      e,
      record {
        some_bulk = omega (arith, s.some_bulk, length-AllSame m.handlers hs' reads);
        held = held;
        serial = s.serial;
      },
      reads,
    )

int_count-small : (n : ℕ) → n < 2 ^ 31 → int_count n ≡ n
int_count-small n small = ground arith

-- The answer, and a manager that has only read its handlers.
pub record Answers (m : DataManager) (bulks : List (List Bytes))
    (done : Option (DataManager × List QueryResult)) (blocks : List QueryResult) : Type 0 where
  pub handlers : List Handler
  pub returned : done ≡ some (record m { handlers = handlers }, blocks)
  pub stores : Stores (record m { handlers = handlers }) bulks
  pub reads : AllSame m.handlers handlers

pub get_recent_log-Answers :
    (m : DataManager) (r : ReqData) (bulks : List (List Bytes)) (used : ℕ)
    → Stores m bulks
    → valid r ≡ true
    → r.type ≡ recent
    → r.count < 2 ^ 31
    → Answers m bulks
        (get_recent_log m r used)
        (blocks_of r.client_id (take r.count (newest_first bulks)) used)
unfolding get_recent_log
get_recent_log-Answers m r bulks used s ok e small =
    let (left, hs, sent, stores, reads) =
      send_newest (int_count r.count) m bulks (new_results r.client_id) s in
    record {
      handlers = hs;
      returned =
          rw (get_recent_log, ok) (rw e (ap (answer m used) sent))
          ∙ ap (λ (bs : List QueryResult). some (record m { handlers = hs }, bs))
              (finish_results-blocks_of r.client_id (take (int_count r.count) (newest_first bulks))
                  used
                ∙ ap (λ (n : ℕ). blocks_of r.client_id (take n (newest_first bulks)) used)
                    (int_count-small r.count small));
      stores = stores;
      reads = reads;
    }

-- A valid request for less than 2^31 recent logs is answered with the newest logs that the manager stores: as
-- many as it asks for, or all where there are fewer, newest first, over the bulks as if they were one
-- log, in the blocks that these lines fill, and the block that ends the answer. The manager stores
-- what it stored.
pub get_recent_log-newest :
    (m : DataManager) (r : ReqData) (bulks : List (List Bytes)) (used : ℕ)
    → Stores m bulks
    → valid r ≡ true
    → r.type ≡ recent
    → r.count < 2 ^ 31
    → (m' : DataManager) × (get_recent_log m r used
        ≡ some (m', blocks_of r.client_id (take r.count (newest_first bulks)) used))
      × Stores m' bulks
get_recent_log-newest m r bulks used s ok e small =
    let a = get_recent_log-Answers m r bulks used s ok e small in
    (record m { handlers = a.handlers }, a.returned, a.stores)

record_count-held :
    (hs : List Handler) (bulks : List (List Bytes)) (n u : ℕ) (t : Trie ℕ)
    → 0 < length hs
    → AllHold hs bulks
    → total bulks < 2 ^ 64
    → record_count (record { handlers = hs; log_serial = n; free_units = u; global_trie = t })
      ≡ some (total bulks)
unfolding record_count AllHold total
record_count-held [] bulks n u t some_bulk held few = absurd (omega arith)
record_count-held (h ∷ hs) [] n u t some_bulk held few = absurd held
record_count-held (h ∷ hs) (ls ∷ bs) n u t some_bulk (p, at, older) few =
    ap some (omega (arith, p.size, at))

-- A valid request for the count is answered with the number of the logs that the manager stores, while
-- that is less than 2^64.
pub log_count_log-total :
    (m : DataManager) (r : ReqData) (bulks : List (List Bytes)) (used : ℕ)
    → Stores m bulks
    → valid r ≡ true
    → r.type ≡ log_count
    → total bulks < 2 ^ 64
    → log_count_log m r used
      ≡ some (
        m,
        finish_results
            (append_note
              (new_results r.client_id)
              (codes "Now record log count is " ++ (decimal (total bulks) ++ codes "\n")))
            used,
      )
unfolding log_count_log
log_count_log-total m r bulks used s ok e few =
    let counted =
      record_count-held m.handlers bulks m.log_serial m.free_units m.global_trie s.some_bulk s.held
        few in
    rw (log_count_log, ok) (rw (e, counted) refl)
