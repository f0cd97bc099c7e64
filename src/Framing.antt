-- ===== src/Framing.antt =====
-- crates/agent-share-proto/src/framing.rs: the operations of the mount protocol, the requests and
-- the answers. A `[u8; N]` is a list; its length is a hypothesis of the theorems that need it.
pub mod Since
pub mod Requests
pub mod Answers
use agent_share.Prelude.{ℕ, ◌+◌, ◌*◌}

-- `SECRET_LEN` and `REQUEST_HEADER_LEN`
abbrev pub secret_len : ℕ
secret_len = 32

abbrev pub request_header_len : ℕ
request_header_len = secret_len + 1

-- `CLOSE_BAD_SECRET` and `CLOSE_UNAUTHORIZED`
abbrev pub close_bad_secret : ℕ
close_bad_secret = 1

abbrev pub close_unauthorized : ℕ
close_unauthorized = 2

-- `OP_MANIFEST` to `OP_MANIFEST_SINCE`
abbrev pub op_manifest : ℕ
op_manifest = 1

abbrev pub op_read : ℕ
op_read = 2

abbrev pub op_watch : ℕ
op_watch = 3

abbrev pub op_bench : ℕ
op_bench = 4

abbrev pub op_hash : ℕ
op_hash = 5

abbrev pub op_chunk_map : ℕ
op_chunk_map = 6

abbrev pub op_chunk : ℕ
op_chunk = 7

abbrev pub op_have : ℕ
op_have = 8

abbrev pub op_manifest_since : ℕ
op_manifest_since = 9

-- `CHUNK_ADDRESS_LEN`
abbrev pub chunk_address_len : ℕ
chunk_address_len = 32

-- `BENCH_KIND_ECHO` and `BENCH_KIND_FILL`
abbrev pub bench_kind_echo : ℕ
bench_kind_echo = 0

abbrev pub bench_kind_fill : ℕ
bench_kind_fill = 1

-- `MAX_BENCH_ECHO_BYTES` and `MAX_BENCH_FILL_BYTES`
abbrev pub max_bench_echo_bytes : ℕ
max_bench_echo_bytes = 64 * 1024

abbrev pub max_bench_fill_bytes : ℕ
max_bench_fill_bytes = 1024 * 1024

-- `MAX_READ_LEN`
abbrev pub max_read_len : ℕ
max_read_len = 256 * 1024

-- `READ_REQUEST_LEN` and `BENCH_REQUEST_PREFIX_LEN`
abbrev pub read_request_len : ℕ
read_request_len = 16

abbrev pub bench_request_prefix_len : ℕ
bench_request_prefix_len = 5

-- `MAX_CHUNK_LEN` and `MAX_CHUNK_MAP_BYTES`
abbrev pub max_chunk_len : ℕ
max_chunk_len = 64 * 1024

abbrev pub max_chunk_map_bytes : ℕ
max_chunk_map_bytes = 64 * 1024 * 1024
