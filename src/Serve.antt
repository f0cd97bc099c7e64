-- ===== src/Serve.antt =====
-- `serve_stream` of crates/agent-share-mount/src/serve.rs: one stream of the mount protocol, from the
-- bytes that the peer sent to the bytes that it gets. A source has interior state, so its
-- operations give it back. Waiting (`settle`) and a peer that stops reading are not modelled.
pub mod Consumer
pub mod Wire
use agent_share.Prelude.{
  ℕ, ◌^◌, List, [], ◌∷◌, ◌++◌, Bool, true, false, Option, none, some, Result, err, length, take,
  drop, get_elem?, map, ltb, if◌then◌else◌, ◌==◌,
}
use agent_share.Prelude
use agent_share.Wire.Words.{le_bytes, from_le}
use agent_share.Framing.{
  request_header_len, secret_len, op_manifest, op_manifest_since, op_watch, op_read, op_chunk_map,
  op_chunk, op_have, max_read_len,
}
use agent_share.Framing.Since
use agent_share.Framing.Since.{ManifestSince}
use agent_share.Framing.Answers.{ReadStatus, to_byte, encode_chunk_map, encode_have, saturated}
use agent_share.Chunks.{ChunkLibrary, TokenLibrary}
use agent_share.Auth.{ShareAuth, accepts, refusal_code, refusal_reason}

-- What was written to a stream, whole or up to an error.
pub data Written : Type 0 where
  whole broke : List ℕ → Written

unfoldable pub write_body : ReadStatus → List ℕ → Written
write_body status data_ =
    if ltb (length data_) (2 ^ 32)
    then whole (to_byte status ∷ (le_bytes 4 (length data_) ++ data_))
    else broke (to_byte status ∷ [])

unfoldable pub write_ok_body : List ℕ → Written
unfolding write_body
write_ok_body body = write_body ReadStatus.ok body

-- How a stream ends: the connection closed with a code; the stream dropped with nothing written;
-- an answer, finished; an answer cut off by an error; and a subscription that ran until its end.
pub data Outcome : Type 0 where
  closed : ℕ → List ℕ → Outcome
  dropped : Outcome
  answered failed watched : List ℕ → Outcome

abbrev pub outcome : Written → Outcome
outcome (whole bytes) = answered bytes
outcome (broke bytes) = failed bytes

-- `refuse`
unfoldable pub refuse : Outcome
refuse = answered (to_byte ReadStatus.bad_index ∷ [])

-- `recv.read_exact`; what is left is read later.
unfoldable pub read_exact : ℕ → List ℕ → Option (List ℕ × List ℕ)
read_exact n received =
    if ltb (length received) n then none else some (take n received, drop n received)

-- The frames of a subscription, until one cannot be written.
unfoldable pub write_frames : List (List ℕ) → List ℕ
write_frames [] = []
write_frames (frame ∷ frames) = elim (write_ok_body frame) [
  | whole bytes ↦ bytes ++ write_frames frames
  | broke bytes ↦ bytes
]

unfoldable pub watch : List ℕ → List (List ℕ) → Outcome
watch opening frames = watched (write_frames (opening ∷ frames))

module _ (library : ChunkLibrary) where
  open library use {ChunkMap, Coverage}

  -- The trait `ServeSource`.
  pub record ServeSource (S : Type 0) : Type 0 where
    pub manifest_envelope : S → Option (List ℕ)
    pub answer_manifest_since : S → ℕ → Option ManifestSince
    pub subscribe : S → Option (List ℕ × S)
    pub answer_read : S → ℕ → ℕ → ℕ → S × ReadStatus × List ℕ
    pub answer_chunk_map : S → ℕ → S × Option ChunkMap
    pub answer_chunk : S → List ℕ → S × Option (List ℕ)
    pub answer_have : S → List ℕ → S × Option Coverage

  abbrev pub reply : {A : Type 0} → (A → Outcome) → Option A → Outcome
  reply write none = refuse
  reply write (some a) = write a

  abbrev pub write_row : ChunkMap → Outcome
  write_row row =
      outcome (
        write_ok_body (encode_chunk_map (library.root row) (library.size row) (library.leaves row)))

  abbrev pub write_coverage : Coverage → Outcome
  write_coverage coverage =
      outcome
        (write_ok_body (encode_have (saturated (library.len coverage)) (library.as_bits coverage)))

  -- An `encode` that panics ends the task with nothing written.
  abbrev pub write_since : ManifestSince → Outcome
  write_since answer = elim (Since.encode answer) [
    | err e ↦ failed []
    | Prelude.ok body ↦ outcome (write_ok_body body)
  ]

  module _ {S : Type 0} (ops : ServeSource S) (tokens : TokenLibrary) where
    unfoldable pub serve_read : S → List ℕ → S × Outcome
    serve_read source request =
        let index = from_le (take 4 request) in
        let offset = from_le (take 8 (drop 4 request)) in
        let len = from_le (drop 12 request) in
        if ltb max_read_len len
        then (source, outcome (write_body ReadStatus.len_over_cap []))
        else let (after, status, data_) = ops.answer_read source index offset len in
          (after, outcome (write_body status data_))

    unfoldable pub serve_manifest : S → Option (List ℕ) → S × Outcome
    serve_manifest source none = (source, dropped)
    serve_manifest source (some envelope) = (source, outcome (write_ok_body envelope))

    unfoldable pub serve_watch : S → List (List ℕ) → Option (List ℕ × S) → S × Outcome
    serve_watch source frames none = (source, dropped)
    serve_watch source frames (some (opening, after)) = (after, watch opening frames)

    -- `read_body::<N>(&mut recv)`, and the rest of the arm.
    abbrev pub with_body : S → Option (List ℕ × List ℕ) → (List ℕ → S × Outcome) → S × Outcome
    with_body source none arm = (source, dropped)
    with_body source (some (request, left)) arm = arm request

    -- The `match header[SECRET_LEN]`.
    unfoldable pub serve_op : S → ℕ → List ℕ → List (List ℕ) → S × Outcome
    unfolding serve_read serve_manifest serve_watch
    serve_op source op rest frames =
        if op == op_manifest
        then serve_manifest source (ops.manifest_envelope source)
        else if op == op_manifest_since
        then with_body source (read_exact 8 rest) (λ request.
          (source, reply write_since (ops.answer_manifest_since source (from_le request))))
        else if op == op_watch
        then serve_watch source frames (ops.subscribe source)
        else if op == op_read
        then with_body source (read_exact 16 rest) (serve_read source)
        else if op == op_chunk_map
        then with_body source (read_exact 4 rest) (λ request.
          let (after, row) = ops.answer_chunk_map source (from_le request) in
          (after, reply write_row row))
        else if op == op_chunk
        then with_body source (read_exact 32 rest) (λ request.
          let (after, bytes) = ops.answer_chunk source request in
          (after, reply (λ b. outcome (write_ok_body b)) bytes))
        else if op == op_have
        then with_body source (read_exact 32 rest) (λ request.
          let (after, coverage) = ops.answer_have source request in
          (after, reply write_coverage coverage))
        else (source, dropped)

    unfoldable pub serve_request : ShareAuth → S → List ℕ → List ℕ → List (List ℕ) → S × Outcome
    serve_request auth source header rest frames =
        if accepts tokens auth header
        then elim (get_elem? header secret_len) [
          | none ↦ (source, dropped)
          | some op ↦ serve_op source op rest frames
        ]
        else (source, closed (refusal_code auth) (refusal_reason auth))

    -- `frames` is what the subscription yields until it ends.
    unfoldable pub serve_stream : ShareAuth → S → List ℕ → List (List ℕ) → S × Outcome
    unfolding serve_request
    serve_stream auth source received frames = elim (read_exact request_header_len received) [
      | none ↦ (source, dropped)
      | some (header, rest) ↦ serve_request auth source header rest frames
    ]
