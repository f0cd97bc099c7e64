-- ===== src/Framing/Requests.antt =====
-- The requests of crates/agent-share-proto/src/framing.rs: token, operation, body.
use agent_share.Prelude.{
  ℕ, ◌^◌, List, [], ◌∷◌, ◌++◌, ◌||◌, Result, ok, err, too_short, bad_length, over_cap, unknown_kind,
  length, take, drop, ltb, if◌then◌else◌, ◌==◌,
}
use agent_share.Wire.Words.{le_bytes, from_le}
use agent_share.Framing.{
  op_manifest, op_manifest_since, op_hash, op_chunk_map, op_chunk, op_have, op_watch, op_read,
  op_bench, read_request_len, bench_request_prefix_len, bench_kind_echo, bench_kind_fill,
  max_bench_echo_bytes, max_bench_fill_bytes,
}

unfoldable pub encode_manifest_request : List ℕ → List ℕ
encode_manifest_request token = token ++ (op_manifest ∷ [])

unfoldable pub encode_manifest_since_request : List ℕ → ℕ → List ℕ
encode_manifest_since_request token since = token ++ (op_manifest_since ∷ le_bytes 8 since)

unfoldable pub encode_hash_request : List ℕ → ℕ → List ℕ
encode_hash_request token index = token ++ (op_hash ∷ le_bytes 4 index)

-- `body.try_into()` into an array of four bytes
unfoldable pub decode_hash_request : List ℕ → Result ℕ
decode_hash_request body = if length body == 4 then ok (from_le body) else err bad_length

unfoldable pub encode_chunk_map_request : List ℕ → ℕ → List ℕ
encode_chunk_map_request token index = token ++ (op_chunk_map ∷ le_bytes 4 index)

unfoldable pub decode_chunk_map_request : List ℕ → Result ℕ
decode_chunk_map_request body = if length body == 4 then ok (from_le body) else err bad_length

unfoldable pub encode_chunk_request : List ℕ → List ℕ → List ℕ
encode_chunk_request token address = token ++ (op_chunk ∷ address)

unfoldable pub decode_chunk_request : List ℕ → Result (List ℕ)
decode_chunk_request body = if length body == 32 then ok body else err bad_length

unfoldable pub encode_have_request : List ℕ → List ℕ → List ℕ
encode_have_request token root = token ++ (op_have ∷ root)

unfoldable pub decode_have_request : List ℕ → Result (List ℕ)
decode_have_request body = if length body == 32 then ok body else err bad_length

unfoldable pub encode_watch_request : List ℕ → List ℕ
encode_watch_request token = token ++ (op_watch ∷ [])

unfoldable pub encode_read_request : List ℕ → ℕ → ℕ → ℕ → List ℕ
encode_read_request token index offset len =
    token ++ (op_read ∷ (le_bytes 4 index ++ (le_bytes 8 offset ++ le_bytes 4 len)))

unfoldable pub decode_read_request : List ℕ → Result (ℕ × ℕ × ℕ)
decode_read_request body =
    if length body == read_request_len
    then ok (from_le (take 4 body), from_le (take 8 (drop 4 body)), from_le (drop 12 body))
    else err bad_length

-- `u32::try_from(payload.len())`, and then the cap.
unfoldable pub encode_bench_echo_request : List ℕ → List ℕ → Result (List ℕ)
encode_bench_echo_request token payload =
    if ltb (length payload) (2 ^ 32)
    then if ltb max_bench_echo_bytes (length payload)
      then err over_cap
      else ok (token ++ (op_bench ∷ bench_kind_echo ∷ (le_bytes 4 (length payload) ++ payload)))
    else err over_cap

unfoldable pub encode_bench_fill_request : List ℕ → ℕ → Result (List ℕ)
encode_bench_fill_request token len =
    if (len == 0) || ltb max_bench_fill_bytes len
    then err over_cap
    else ok (token ++ (op_bench ∷ bench_kind_fill ∷ le_bytes 4 len))

-- `prefix[0]` and the match on it; only called with at least five bytes.
bench_kind : List ℕ → ℕ → Result (ℕ × ℕ)
bench_kind [] len = err too_short
bench_kind (kind ∷ rest) len =
    if (kind == bench_kind_echo) || (kind == bench_kind_fill)
    then ok (kind, len)
    else err unknown_kind

unfoldable pub decode_bench_request_prefix : List ℕ → Result (ℕ × ℕ)
unfolding bench_kind
decode_bench_request_prefix prefix =
    if ltb (length prefix) bench_request_prefix_len
    then err too_short
    else bench_kind prefix (from_le (take 4 (drop 1 prefix)))
