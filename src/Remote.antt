-- ===== src/Remote.antt =====
-- `RemoteClient` of crates/agent-share/src/mount/consume.rs: the requests that a consumer makes of a
-- peer. A connection is a function from the request's bytes to the bytes that come back until the
-- stream ends; `none` is a stream that could not be opened, its one retry included.
use agent_share.Prelude.{
  ℕ, ◌^◌, List, [], ◌∷◌, Bool, true, false, Option, none, some, Result, Error, err, disconnected,
  refused, over_cap, wrong_root, wrong_hash, length, ltb, bytes_eq, if◌then◌else◌,
}
use agent_share.Prelude
use agent_share.Wire.Words.{from_le}
use agent_share.Wire.Cursor.{Read, ◌>>=◌, pure, take_bytes, take_u32}
use agent_share.Framing.{max_chunk_len, max_chunk_map_bytes}
use agent_share.Framing.Requests.{
  encode_read_request, encode_chunk_request, encode_chunk_map_request,
}
use agent_share.Framing.Answers.{ReadStatus, from_byte, decode_chunk_map}
use agent_share.Chunks.{ChunkLibrary}

abbrev pub Connection : Type 0
Connection = List ℕ → Option (List ℕ)

-- A step of decoding that reads nothing.
abbrev pub lift : {A : Type 0} → Result A → Read A
lift (err e) b = err e
lift (Prelude.ok a) b = Prelude.ok (a, b)

abbrev pub fail : {A : Type 0} → Error → Read A
fail e b = err e

-- `recv.read_exact(&mut status)` and `ReadStatus::from_byte(status[0])?`
unfoldable pub read_status : Read ReadStatus
unfolding take_bytes from_byte
read_status = do raw ← take_bytes 1; lift (from_byte (from_le raw))

-- One request, and the reader of its answer.
abbrev pub exchange : {A : Type 0} → Connection → List ℕ → Read A → Result A
exchange connection request read = elim (connection request) [
  | none ↦ err disconnected
  | some answer ↦ elim (read answer) [ err e ↦ err e | Prelude.ok (a, rest) ↦ Prelude.ok a ]
]

-- A body behind its length, which must not pass a cap.
unfoldable pub read_body : ℕ → Read (List ℕ)
read_body cap = take_u32 >>= λ len. if ltb cap len then fail over_cap else take_bytes len

-- `RemoteClient::read_range`, after the request.
unfoldable pub read_range_answer : ℕ → Read (List ℕ)
unfolding read_status read_body
read_range_answer len = read_status >>= λ status. elim status [
  | ReadStatus.ok ↦ read_body len
  | ReadStatus.bad_index ↦ fail refused
  | ReadStatus.io ↦ fail refused
  | ReadStatus.len_over_cap ↦ fail refused
]

-- `RemoteClient::read_range`
unfoldable pub read_range : Connection → List ℕ → ℕ → ℕ → ℕ → Result (List ℕ)
unfolding read_range_answer
read_range connection token index offset len =
    exchange connection (encode_read_request token index offset len) (read_range_answer len)

module _ (library : ChunkLibrary) where
  open library use {ChunkMap, from_leaves, root, chunk_hash}

  unfoldable pub chunk_answer : List ℕ → Read (Option (List ℕ))
  unfolding read_status read_body
  chunk_answer address = read_status >>= λ status. elim status [
    | ReadStatus.ok ↦ read_body max_chunk_len >>= λ bytes.
        if bytes_eq (chunk_hash bytes) address then pure (some bytes) else fail wrong_hash
    | ReadStatus.bad_index ↦ pure none
    | ReadStatus.io ↦ pure none
    | ReadStatus.len_over_cap ↦ pure none
  ]

  -- `RemoteClient::fetch_chunk`
  unfoldable pub fetch_chunk : Connection → List ℕ → List ℕ → Result (Option (List ℕ))
  unfolding chunk_answer
  fetch_chunk connection token address =
      exchange connection (encode_chunk_request token address) (chunk_answer address)

  -- The root is recomputed from the row.
  unfoldable pub checked_row : List ℕ → List (List ℕ) → ℕ → Result ChunkMap
  checked_row claimed leaves size = elim (from_leaves leaves size) [
    | none ↦ err refused
    | some row ↦ if bytes_eq (root row) claimed then Prelude.ok row else err wrong_root
  ]

  unfoldable pub chunk_map_answer : Read (Option ChunkMap)
  unfolding read_status read_body checked_row
  chunk_map_answer = read_status >>= λ status. elim status [
    | ReadStatus.ok ↦ read_body max_chunk_map_bytes >>= λ body.
        lift (decode_chunk_map body) >>= λ parts.
        lift (checked_row parts.0 parts.2 parts.1) >>= λ row. pure (some row)
    | ReadStatus.bad_index ↦ pure none
    | ReadStatus.io ↦ pure none
    | ReadStatus.len_over_cap ↦ pure none
  ]

  -- `RemoteClient::fetch_chunk_map`
  unfoldable pub fetch_chunk_map : Connection → List ℕ → ℕ → Result (Option ChunkMap)
  unfolding chunk_map_answer
  fetch_chunk_map connection token index =
      exchange connection (encode_chunk_map_request token index) chunk_map_answer
