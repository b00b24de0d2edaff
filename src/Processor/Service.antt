-- ===== src/Processor/Service.antt =====
-- What the processor promises for requests to append, to list, to look up by key and to count: a sequence
-- of logs with their keys, newest first, that only grows.
use log_service.Prelude.{
  ℕ, ◌+◌, ◌^◌, ◌<◌, ◌≤◌, ◌≡◌, refl, sym, ap, ◌∙◌, Bool, true, List, [], ◌∷◌, ◌++◌, Option, none,
  some, Bytes, codes, arith, length, take, map, if◌then◌else◌, ◌==◌, Bool-cases, inl, inr,
}
use log_service.Config.{bulksize, max_num_result}
use log_service.Decimal.{decimal}
use log_service.ReqData.{
  ReqType, invalid, append, recent, getkey, search, search_time, log_count, persistence, ReqData,
  valid,
}
use log_service.QueryResult.Blocks.{blocks_of, finish_results-blocks_of}
use log_service.DataManager.Sent.{append_lines-append}
use log_service.QueryResult.{QueryResult, ResultHandler, new_results, append_lines, finish_results}
use log_service.DataManager.{DataManager, log_line}
use log_service.DataManager.Lines.{NoFeed}
use log_service.DataManager.Written.{log_line-IsLine}
use log_service.DataManager.Notes.{append_note}
use log_service.DataManager.Stored.{newest_first, total, length-newest_first}
use log_service.DataManager.Logs.{StoresLogs, store_log-StoresLogs, get_recent_log-StoresLogs}
use log_service.DataManager.Recent.{log_count_log-total}
use log_service.DataManager.ByKey.{noted, getkey_log-found}
use log_service.DataManager.Keys.Entries.{Entry, line_of, with_key, total-map}
use log_service.DataManager.Queries.{persistence_log}
use log_service.Processor.{append_req, dispatch, process_req, process_all}

-- A log to store is one line that a bulk has room for; less than 2^31 recent logs are asked for. Searches for words and in a span of
-- time are not among these requests.
abbrev pub Servable : ReqType → ReqData → Type 0
Servable append r = NoFeed r.key × NoFeed r.content × (length (log_line r) + 1 < bulksize)
Servable recent r = r.count < 2 ^ 31
Servable search r = ⊥
Servable search_time r = ⊥
Servable _ r = Unit

-- The units that a request can take of the pool.
abbrev pub units_for : ReqType → ℕ
units_for append = 1
units_for _ = 0

abbrev pub units_of : List (ReqData × ℕ) → ℕ
units_of [] = 0
units_of ((r, used) ∷ rs) = units_for r.type + units_of rs

abbrev pub AllServable : List (ReqData × ℕ) → Type 0
AllServable [] = Unit
AllServable ((r, used) ∷ rs) = Servable r.type r × AllServable rs

-- An answer of one text, with its NUL.
abbrev reply : ReqData → ℕ → Bytes → List QueryResult
reply r used text = blocks_of r.client_id ((text ++ (0 ∷ [])) ∷ []) used

-- The note behind the logs of a key.
abbrev note : List Bytes → List Bytes
note ls = if length ls == max_num_result then (codes "No result found\n" ++ (0 ∷ [])) ∷ [] else []

noted-blocks :
    (client used : ℕ) (ls : List Bytes)
    → finish_results
        (noted ls (append_lines (new_results client) (take (max_num_result + 1) ls)))
        used
      ≡ blocks_of client (take (max_num_result + 1) ls ++ note ls) used
unfolding append_lines
noted-blocks client used ls =
    let sent = take (max_num_result + 1) ls in
    let rs = append_lines (new_results client) sent in
    let behind : noted ls rs ≡ append_lines rs (note ls) =
      elim (Bool-cases (length ls == max_num_result)) [ inl e ↦ rw e refl | inr e ↦ rw e refl ] in
    ap (λ (h : ResultHandler). finish_results h used)
      (behind ∙ sym (append_lines-append (new_results client) sent (note ls)))
    ∙ finish_results-blocks_of client (sent ++ note ls) used

-- The logs after a request, and the blocks of its answer.
unfoldable pub serve_as : ReqType → List Entry → ReqData → ℕ → List Entry × List QueryResult
serve_as append es r used = ((r.key, log_line r) ∷ es, [])
serve_as recent es r used = (es, blocks_of r.client_id (take r.count (map line_of es)) used)
serve_as getkey es r used =
    let ls = with_key r.key es in
    (es, blocks_of r.client_id (take (max_num_result + 1) ls ++ note ls) used)
serve_as log_count es r used =
    (es, reply r used (codes "Now record log count is " ++ (decimal (length es) ++ codes "\n")))
serve_as persistence es r used = (es, reply r used (codes "Persistence down\n"))
serve_as _ es r used = (es, [])

unfoldable pub serve : List Entry → ReqData → ℕ → List Entry × List QueryResult
serve es r used = if valid r then serve_as r.type es r used else (es, [])

pub serve_all : List Entry → List (ReqData × ℕ) → List Entry × List QueryResult
serve_all es [] = (es, [])
serve_all es ((r, used) ∷ rs) =
    let here = serve es r used in let later = serve_all here.0 rs in (later.0, here.1 ++ later.1)

-- A run of the processor with the logs and blocks of a run of the promise.
pub record Keeps (done : Option (DataManager × List QueryResult))
    (promised : List Entry × List QueryResult) : Type 0 where
  pub manager : DataManager
  pub bulks : List (List Entry)
  pub returned : done ≡ some (manager, promised.1)
  pub stores : StoresLogs manager bulks
  pub logs : newest_first bulks ≡ promised.0

abbrev appended : Option (DataManager × Bool) → Option (DataManager × List QueryResult)
appended none = none
appended (some (m, ok)) = some (m, [])

counted :
    (bulks : List (List Entry)) → length (newest_first bulks) ≡ total (map (map line_of) bulks)
counted bulks = length-newest_first bulks ∙ sym (total-map line_of bulks)

-- What the record of the promise gives, and the units of the pool that are left.
abbrev Done :
    ℕ
    → DataManager
    → Option (DataManager × List QueryResult)
    → List Entry × List QueryResult
    → Type 0
Done n m done promised = (k : Keeps done promised) × (m.free_units ≤ k.manager.free_units + n)

module _ (m : DataManager) (bulks : List (List Entry)) (r : ReqData) (used : ℕ)
    (s : StoresLogs m bulks) (few : length (newest_first bulks) + 1 < 2 ^ 31) where
  unchanged : (n : ℕ) → Done n m (some (m, [])) (newest_first bulks, [])
  unchanged n =
      (record { manager = m; bulks = bulks; returned = refl; stores = s; logs = refl }, omega arith)

  replied :
      (text : Bytes)
      → Done 0 m
          (some (m, finish_results (append_note (new_results r.client_id) text) used))
          (newest_first bulks, reply r used text)
  unfolding append_lines
  replied text = (
    record {
      manager = m;
      bulks = bulks;
      returned =
          ap (λ (bs : List QueryResult). some (m, bs))
            (finish_results-blocks_of r.client_id ((text ++ (0 ∷ [])) ∷ []) used);
      stores = s;
      logs = refl;
    },
    omega arith,
  )

  dispatch-Keeps :
      (t : ReqType)
      → r.type ≡ t
      → valid r ≡ true
      → Servable t r
      → units_for t ≤ m.free_units
      → Done (units_for t) m (dispatch t m r used) (serve_as t (newest_first bulks) r used)
  unfolding dispatch append_req serve_as persistence_log
  dispatch-Keeps append e ok (key, content, small) room =
      let (m', bulks', done, stores, logs, units) =
        store_log-StoresLogs m r bulks s ok (log_line-IsLine r key content) small few room in
      (
        record {
          manager = m';
          bulks = bulks';
          returned = ap appended done;
          stores = stores;
          logs = logs;
        },
        units,
      )
  dispatch-Keeps recent e ok few_asked room =
      let (m', done, stores, units) = get_recent_log-StoresLogs m r bulks used s ok e few_asked in
      (
        record { manager = m'; bulks = bulks; returned = done; stores = stores; logs = refl },
        omega (arith, units),
      )
  dispatch-Keeps getkey e ok u room =
      let (m', done, stores, units) = getkey_log-found m r bulks used s ok e in
      (
        record {
          manager = m';
          bulks = bulks;
          returned =
              done
              ∙ ap (λ (bs : List QueryResult). some (m', bs))
                  (noted-blocks r.client_id used (with_key r.key (newest_first bulks)));
          stores = stores;
          logs = refl;
        },
        omega (arith, units),
      )
  dispatch-Keeps log_count e ok u room =
      let stored = counted bulks in
      let (k, units) = replied (
        codes "Now record log count is "
        ++ (decimal (length (newest_first bulks)) ++ codes "\n")) in
      (
        record {
          manager = k.manager;
          bulks = k.bulks;
          stores = k.stores;
          logs = k.logs;
          returned =
              log_count_log-total m r (map (map line_of) bulks) used s.lines ok e
                (omega (arith, stored))
              ∙ ap
                  (λ (n : ℕ). some (
                    m,
                    finish_results
                        (append_note (new_results r.client_id)
                          (codes "Now record log count is " ++ (decimal n ++ codes "\n")))
                        used,
                  ))
                  (sym stored)
              ∙ k.returned;
        },
        units,
      )
  dispatch-Keeps persistence e ok u room = replied (codes "Persistence down\n")
  dispatch-Keeps invalid e ok u room = unchanged 0
  dispatch-Keeps search e ok u room = absurd u
  dispatch-Keeps search_time e ok u room = absurd u

  pub process_req-Keeps :
      Servable r.type r
      → units_for r.type ≤ m.free_units
      → Done (units_for r.type) m (process_req m r used) (serve (newest_first bulks) r used)
  unfolding process_req serve
  process_req-Keeps u room = elim (Bool-cases (valid r)) [
    | inl ok ↦ rw ok (dispatch-Keeps r.type refl ok u room)
    | inr refused ↦ rw refused (unchanged (units_for r.type))
  ]

length-serve :
    (es : List Entry) (r : ReqData) (used : ℕ) → length (serve es r used).0 ≤ length es + 1
unfolding serve serve_as
length-serve es r used = elim (Bool-cases (valid r)) [
  | inl ok ↦ rw ok (by_type r.type)
  | inr refused ↦ rw refused (omega arith)
]
  where
    by_type : (t : ReqType) → length (serve_as t es r used).0 ≤ length es + 1
    by_type append = omega arith
    by_type recent = omega arith
    by_type log_count = omega arith
    by_type persistence = omega arith
    by_type invalid = omega arith
    by_type getkey = omega arith
    by_type search = omega arith
    by_type search_time = omega arith

process_all-step :
    (m m' m'' : DataManager) (r : ReqData) (used : ℕ) (rs : List (ReqData × ℕ))
    (blocks more : List QueryResult)
    → process_req m r used ≡ some (m', blocks)
    → process_all m' rs ≡ some (m'', more)
    → process_all m ((r, used) ∷ rs) ≡ some (m'', blocks ++ more)
unfolding process_all
process_all-step m m' m'' r used rs blocks more e f = rw (process_all, e, f) refl

-- Over every list of requests to append logs of one line that fit a bulk, to list less than 2^31 of the
-- newest logs or those of a key, to count or to save, valid or not, the processor keeps its promise while
-- less than 2^31 logs are stored, the pool has a unit for each log to store, and the key tries of the
-- bulks are in memory: it returns, has queued the blocks that the promised lines fill, and stores the logs
-- promised, with their key tries in memory.
pub process_all-Keeps :
    (rs : List (ReqData × ℕ)) (m : DataManager) (bulks : List (List Entry))
    → StoresLogs m bulks
    → AllServable rs
    → length (newest_first bulks) + length rs < 2 ^ 31
    → units_of rs ≤ m.free_units
    → Keeps (process_all m rs) (serve_all (newest_first bulks) rs)
unfolding process_all serve_all
process_all-Keeps [] m bulks s u few room = record {
  manager = m;
  bulks = bulks;
  returned = refl;
  stores = s;
  logs = refl;
}
process_all-Keeps ((r, used) ∷ rs) m bulks s (u, us) few room =
    let (one, units) =
      process_req-Keeps m bulks r used s (omega (arith, few)) u (omega (arith, room)) in
    let size = length-serve (newest_first bulks) r used in
    let all =
      process_all-Keeps rs one.manager one.bulks one.stores us
        (omega (arith, size, ap length one.logs, few)) (omega (arith, units, room)) in
    record {
      manager = all.manager;
      bulks = all.bulks;
      returned =
          process_all-step m one.manager all.manager r used rs _ _ one.returned all.returned
          ∙ ap
              (λ (es : List Entry).
                some (all.manager, (serve (newest_first bulks) r used).1 ++ (serve_all es rs).1))
              one.logs;
      stores = all.stores;
      logs = all.logs ∙ ap (λ (es : List Entry). (serve_all es rs).0) one.logs;
    }
