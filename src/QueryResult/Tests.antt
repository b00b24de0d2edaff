-- ===== src/QueryResult/Tests.antt =====
-- Two lines for a client.
use log_service.Prelude.{◌≡◌, ◌++◌, true, false, List, [], ◌∷◌, Bytes, codes, length, arith}
use log_service.Decimal.{decimal, decimal_from}
use log_service.QueryResult.{QueryResult, new_results, append_lines, finish_results, time_line}
use log_service.QueryResult.Complete.{Grouped, finish_results-Grouped}

abbrev lines : List Bytes
lines = codes "one\n" ∷ codes "two\n" ∷ []

finish_results-Grouped_example :
    (filled : List QueryResult) × (finish_results (append_lines (new_results 4) lines) 7
      ≡ filled
        ++ (record {
          client_id = 4;
          begin = false;
          finish = true;
          logs = time_line (length lines) 7;
        }
            ∷ []))
    × Grouped 4 lines filled
unfolding decimal decimal_from time_line
finish_results-Grouped_example = finish_results-Grouped 4 lines 7 (ground arith) (ground arith)
