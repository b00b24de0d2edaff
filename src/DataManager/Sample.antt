-- ===== src/DataManager/Sample.antt =====
-- The lines of a bulk of two logs.
use log_service.Prelude.{refl, List, [], ◌∷◌, Bytes, codes, arith}
use log_service.QueryResult.Complete.{joined}
use log_service.Handler.Calls.Sample.{two_logs}
use log_service.DataManager.Lines.{AllLines, starts}
use log_service.DataManager.Grown.{IsOpen-Holds}
use log_service.DataManager.Holds.{Holds}

abbrev pub two_lines : List Bytes
two_lines = codes "[key: a] x\n" ∷ codes "[key: b] y\n" ∷ []

two_lines-AllLines : AllLines two_lines
two_lines-AllLines = (
  record { words = codes "[key: a] x"; ended = refl; no_feed = ground arith },
  (record { words = codes "[key: b] y"; ended = refl; no_feed = ground arith }, tt),
)

pub two_logs-Holds : Holds two_logs two_lines
unfolding joined starts
two_logs-Holds =
    IsOpen-Holds two_logs two_lines refl refl two_lines-AllLines
      (record { buffer = refl; end = refl; read = refl; listed = refl })
