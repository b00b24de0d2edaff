-- ===== src/Config.antt =====
-- include/Config.h: the sizes that the other files use.
use log_service.Prelude.{ℕ, ◌*◌, Bytes, codes}

abbrev pub key_len : ℕ
key_len = 16

abbrev pub str_len : ℕ
str_len = 1024

abbrev pub search_keyword_len : ℕ
search_keyword_len = 32

abbrev pub client_str_len : ℕ
client_str_len = 1024

abbrev pub bulksize : ℕ
bulksize = 4096 * 512

abbrev pub query_result_size : ℕ
query_result_size = 4096 * 4

abbrev pub release_time : ℕ
release_time = 12000

abbrev pub autosave_time : ℕ
autosave_time = 30000

abbrev pub max_num_result : ℕ
max_num_result = 50000

abbrev pub persistence_sleep_time : ℕ
persistence_sleep_time = 100

abbrev pub persistence_threshold : ℕ
persistence_threshold = 48

abbrev pub buffer_size : ℕ
buffer_size = 1024

abbrev pub query_result_q_len : ℕ
query_result_q_len = 16

abbrev pub file_name_len : ℕ
file_name_len = 32

abbrev pub log_directory : Bytes
log_directory = codes "./logs"

-- `BULK_QUEUE_LEN`
abbrev pub bulk_pool_len : ℕ
bulk_pool_len = 64
