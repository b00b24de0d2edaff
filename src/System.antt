-- ===== src/System.antt =====
-- The way of a log through the program: src/log_service/log_service.cpp makes the message,
-- src/log_server/log_server.cpp passes it on, and src/log_processor stores it.
mod Tests
use mathlib.Core.Path.{subst}
use log_service.Prelude.{
  ℕ, ◌+◌, ◌-◌, ◌^◌, ◌<◌, ◌≤◌, ◌≡◌, refl, sym, ap, ◌∙◌, not, Bool, true, false, List, [], ◌∷◌, ◌++◌,
  Option, some, Bytes, codes, arith, length, length-append, ◌==◌, if◌then◌else◌,
}
use log_service.Config.{client_str_len, bulksize}
use log_service.Decimal.{decimal, long_max}
use log_service.ReqData.{
  ReqData, append, new_req_data, is_set, valid, valid_as, need_send_back, send_back_as,
}
use log_service.UrlEncode.{url_encode}
use log_service.UrlEncode.RoundTrip.{AllBytes, length-url_encode}
use log_service.HttpParser.{parse_req}
use log_service.HttpParser.Append.{NoNul}
use log_service.Client.{Client, cody_log_string, get_key, get_time_sec, request_line}
use log_service.Client.Delivery.{IsKey, parse_req-cody_log_string, line_fits}
use log_service.LogServer.{Connections, write_msgs}
use log_service.LogServer.Passing.{write_msgs-unanswered}
use log_service.DataManager.{DataManager, log_line}
use log_service.DataManager.Lines.{NoFeed}
use log_service.DataManager.Stored.{newest_first}
use log_service.DataManager.Logs.{StoresLogs}
use log_service.DataManager.Keys.Entries.{Entry}
use log_service.Processor.{process_req}
use log_service.Processor.Service.{Keeps, serve, serve_as, process_req-Keeps}

-- The request of a log.
abbrev pub log_request : Bytes → ℕ → Bytes → ReqData
log_request key time s = record new_req_data { type = append; key = key; time = time; content = s }

NoFeed-NoNul : (s : Bytes) → NoFeed s → NoNul s
NoFeed-NoNul [] h = tt
NoFeed-NoNul (c ∷ s) (feed, nul, h) = (ground (arith, nul), NoFeed-NoNul s h)

log_request-valid :
    (key s : Bytes) (time : ℕ)
    → is_set key ≡ true
    → 0 < time
    → valid (log_request key time s) ≡ true
unfolding valid valid_as new_req_data
log_request-valid key s time set pos =
    let some_time : (time == 0) ≡ false = ground arith in rw (set, some_time) refl

-- A line that a client's message has room for.
log_request-short :
    (key s : Bytes) (time : ℕ)
    → length (request_line key time (url_encode s)) ≤ client_str_len - 2
    → length (log_line (log_request key time s)) + 1 < bulksize
unfolding log_line new_req_data
log_request-short key s time fits = omega (
  arith,
  fits,
  line_fits key s time,
  length-url_encode s,
  length-append key (codes ", time: " ++ (decimal time ++ (codes "] " ++ (s ++ (10 ∷ []))))),
  length-append (decimal time) (codes "] " ++ (s ++ (10 ∷ []))),
  length-append s (10 ∷ []),
)

-- A log comes to the log processor as the one request that the server takes from the client's message, and the
-- processor stores it: in front of the logs that it has stored stands, under the client's key, the line
-- with that key, its time and the text as the program wrote it. The text and the key have no line feed and no NUL, the key is
-- not empty and plain text that fits its field, the time is positive and less than LONG_MAX, the
-- encoded message fits the client's buffer, less than 2^31 logs are stored, with the key tries of the
-- bulks in memory, and the pool has a unit for one more bulk.
pub log-stored :
    (c : Client) (key s : Bytes) (time fd used : ℕ) (conns : Connections) (m : DataManager)
    (bulks : List (List Entry))
    → (get_key c).1 ≡ key
    → (get_time_sec (get_key c).0).1 ≡ time
    → IsKey key
    → is_set key ≡ true
    → NoFeed key
    → 0 < time
    → time < long_max
    → AllBytes s
    → NoFeed s
    → length (request_line key time (url_encode s)) ≤ client_str_len - 2
    → StoresLogs m bulks
    → length (newest_first bulks) + 1 < 2 ^ 31
    → 0 < m.free_units
    → (write_msgs fd ((cody_log_string c s).1 ∷ []) conns
        ≡ (log_request key time s ∷ [], conns, false))
      × Keeps (process_req m (log_request key time s) used) (
        (
          key,
          codes "[key: "
              ++ (key ++ (codes ", time: " ++ (decimal time ++ (codes "] " ++ (s ++ (10 ∷ [])))))),
        )
            ∷ newest_first bulks,
        [],
      )
unfolding log_line new_req_data serve serve_as need_send_back send_back_as
log-stored c key s time fd used conns m bulks ek et ok set feed pos small bytes text fits st few
      room =
    let r = log_request key time s in
    let parsed =
      parse_req-cody_log_string c key s time ek et ok pos small bytes (NoFeed-NoNul s text) fits in
    let (kept, units) =
      process_req-Keeps m bulks r used st few (feed, text, log_request-short key s time fits)
        room in
    let valid_one = log_request-valid key s time set pos in
    (
      write_msgs-unanswered fd _ r conns parsed refl,
      subst (Keeps (process_req m r used)) (rw valid_one refl) kept,
    )
