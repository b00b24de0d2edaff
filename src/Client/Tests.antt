-- ===== src/Client/Tests.antt =====
-- The message of the client.
use log_service.Prelude.{◌≡◌, some, codes, arith}
use log_service.HttpParser.{parse_req}
use log_service.ReqData.{append, new_req_data}
use log_service.Client.{cody_log_string}
use log_service.Client.Delivery.{parse_req-cody_log_string}
use log_service.Client.Sample.{
  client, text, client_key, client_time, sample_key-IsKey, message_fits,
}

parse_req-cody_log_string_example :
    parse_req (cody_log_string client text).1
    ≡ some (record new_req_data { type = append; key = codes "user7"; time = 100; content = text })
parse_req-cody_log_string_example =
    parse_req-cody_log_string client (codes "user7") text 100 client_key client_time
      sample_key-IsKey (omega arith) (omega arith) (ground arith) (ground arith) message_fits
