-- ===== src/Serve/Consumer.antt =====
-- The requests of `RemoteClient` (crates/agent-share/src/mount/consume.rs) answered by `serve_stream`
-- (crates/agent-share-mount/src/serve.rs).
use mathlib.Core.Path.{subst}
use mathlib.Core.List.{append-nil}
use agent_share.Prelude.{
  ℕ, ◌^◌, ◌≤◌, ◌<◌, ◌≡◌, refl, ap, sym, ◌∙◌, List, [], ◌∷◌, ◌++◌, arith, true, false, Option, none,
  some, ok, length, All, ltb, le→ltb_false, bytes_eq, bytes_eq_refl,
}
use agent_share.Wire.Words.{
  le_bytes, from_le, length-le_bytes, from_le-le_bytes, u32-Fits, IsU32, IsU64,
}
use agent_share.Wire.Cursor.{Read, take_bytes, take_u32}
use agent_share.Wire.Codec.{IsArray, bind-reads, take_bytes-append}
use agent_share.Framing.{max_chunk_len, max_chunk_map_bytes}
use agent_share.Framing.Requests.{
  encode_chunk_map_request, encode_chunk_request, encode_have_request,
}
use agent_share.Framing.Answers.{
  ReadStatus, from_byte, to_byte, encode_chunk_map, decode_chunk_map, encode_have, decode_have,
  bitmap_len, saturated,
}
use agent_share.Framing.Answers.RoundTrip.{
  decode_chunk_map-encode_chunk_map, decode_have-encode_have,
}
use agent_share.Chunks.{ChunkLibrary, TokenLibrary}
use agent_share.Auth.{ShareAuth}
use agent_share.Remote.{
  Connection, exchange, read_status, read_body, chunk_answer, fetch_chunk, checked_row,
  chunk_map_answer, fetch_chunk_map,
}
use agent_share.Serve.{
  ServeSource, Outcome, closed, dropped, answered, failed, watched, outcome, write_ok_body,
  write_row, write_coverage, reply, refuse, serve_stream,
}
use agent_share.Serve.Wire.{write_body_lem, requests_reach_the_source}

-- What the peer reads of a stream until it ends.
abbrev pub stream_of : Outcome → Option (List ℕ)
stream_of (closed code reason) = none
stream_of dropped = some []
stream_of (answered bytes) = some bytes
stream_of (failed bytes) = some bytes
stream_of (watched bytes) = some bytes

read_status-reads :
    (status : ℕ) (rest : List ℕ) {s : ReadStatus}
    → from_byte (from_le (status ∷ [])) ≡ ok s
    → read_status (status ∷ rest) ≡ ok (s, rest)
unfolding read_status
read_status-reads status rest e =
    bind-reads (take_bytes 1) _ (status ∷ rest) (status ∷ []) rest
      (take_bytes-append 1 (status ∷ []) rest refl)
    ∙ rw e refl

read_body-reads :
    (cap : ℕ) (body : List ℕ)
    → length body ≤ cap
    → length body < 2 ^ 32
    → read_body cap (le_bytes 4 (length body) ++ body) ≡ ok (body, [])
unfolding read_body take_u32
read_body-reads cap body fits small =
    let n = le_bytes 4 (length body) in
    let within : ltb cap (length body) ≡ false = le→ltb_false _ _ fits in
    let counted : take_u32 (n ++ body) ≡ ok (length body, body) =
      bind-reads (take_bytes 4) _ (n ++ body) n body
        (take_bytes-append 4 n body (length-le_bytes 4 (length body)))
      ∙ ap (λ k. ok (k, body)) (from_le-le_bytes 4 _ (u32-Fits _ small)) in
    bind-reads take_u32 _ (n ++ body) (length body) body counted
    ∙ rw within (
        subst (λ w. take_bytes (length body) w ≡ ok (body, [])) (append-nil body)
          (take_bytes-append (length body) body [] refl))

module _ (library : ChunkLibrary) where
  open library use {ChunkMap, Coverage, from_leaves, root, size, leaves, chunk_hash, len, as_bits}

  -- An answer that a consumer can take: within the caps, and of the hash that was asked for.
  abbrev pub ChunkFits : List ℕ → Option (List ℕ) → Type 0
  ChunkFits address none = Unit {0}
  ChunkFits address (some chunk) = (chunk_hash chunk ≡ address) × (length chunk ≤ 65536)

  pub record IsRow (row : ChunkMap) : Type 0 where
    pub root_bytes : IsArray 32 (root row)
    pub sized : IsU64 (size row)
    pub addresses : All (IsArray 32) (leaves row)
    pub count : IsU32 (length (leaves row))
    pub cap : length (encode_chunk_map (root row) (size row) (leaves row)) ≤ 67108864
    pub rebuilt : from_leaves (leaves row) (size row) ≡ some row

  abbrev pub RowFits : Option ChunkMap → Type 0
  RowFits none = Unit {0}
  RowFits (some row) = IsRow row

  chunk_answer-reads :
      (address chunk : List ℕ)
      → chunk_hash chunk ≡ address
      → length chunk ≤ 65536
      → chunk_answer library address (0 ∷ (le_bytes 4 (length chunk) ++ chunk))
        ≡ ok (some chunk, [])
  unfolding chunk_answer
  chunk_answer-reads address chunk hashed fits =
      let rest = le_bytes 4 (length chunk) ++ chunk in
      let same : bytes_eq (chunk_hash chunk) address ≡ true = rw hashed (bytes_eq_refl address) in
      bind-reads read_status _ (0 ∷ rest) ReadStatus.ok rest
        (read_status-reads 0 rest (unfold from_byte from_le in refl))
      ∙ bind-reads (read_body max_chunk_len) _ rest chunk []
          (read_body-reads max_chunk_len chunk fits (omega arith))
      ∙ rw same refl

  checked_row-rebuilt :
      (row : ChunkMap) → IsRow row → checked_row library (root row) (leaves row) (size row) ≡ ok row
  unfolding checked_row
  checked_row-rebuilt row h = rw (h.rebuilt, checked_row) (rw (bytes_eq_refl (root row)) refl)

  chunk_map_answer-reads :
      (row : ChunkMap)
      → IsRow row
      → let body = encode_chunk_map (root row) (size row) (leaves row) in
        chunk_map_answer library (0 ∷ (le_bytes 4 (length body) ++ body)) ≡ ok (some row, [])
  unfolding chunk_map_answer
  chunk_map_answer-reads row h =
      let body = encode_chunk_map (root row) (size row) (leaves row) in
      let rest = le_bytes 4 (length body) ++ body in
      let read : decode_chunk_map body ≡ ok (root row, size row, leaves row) =
        decode_chunk_map-encode_chunk_map (root row) (size row) (leaves row) h.root_bytes h.sized
          h.addresses h.count in
      let cap = h.cap in
      bind-reads read_status _ (0 ∷ rest) ReadStatus.ok rest
        (read_status-reads 0 rest (unfold from_byte from_le in refl))
      ∙ bind-reads (read_body max_chunk_map_bytes) _ rest body []
          (read_body-reads max_chunk_map_bytes body cap (omega arith))
      ∙ rw read (rw (checked_row-rebuilt row h) refl)

  chunk_answer-refused : (address : List ℕ) → chunk_answer library address (1 ∷ []) ≡ ok (none, [])
  unfolding chunk_answer
  chunk_answer-refused address =
      bind-reads read_status _ (1 ∷ []) ReadStatus.bad_index []
        (read_status-reads 1 [] (unfold from_byte from_le in refl))

  chunk_map_answer-refused : chunk_map_answer library (1 ∷ []) ≡ ok (none, [])
  unfolding chunk_map_answer
  chunk_map_answer-refused =
      bind-reads read_status _ (1 ∷ []) ReadStatus.bad_index []
        (read_status-reads 1 [] (unfold from_byte from_le in refl))

  -- What a consumer makes of a source's outcome for a chunk, and for a row.
  chunk_fetched :
      (address : List ℕ) (answer : Option (List ℕ))
      → ChunkFits address answer
      → (bytes : List ℕ) × (reply library (λ b. outcome (write_ok_body b)) answer ≡ answered bytes)
        × (chunk_answer library address bytes ≡ ok (answer, []))
  unfolding refuse to_byte write_ok_body
  chunk_fetched address none h = (1 ∷ [], refl, chunk_answer-refused address)
  chunk_fetched address (some chunk) h = (
    0 ∷ (le_bytes 4 (length chunk) ++ chunk),
    let cap = h.1 in ap outcome (write_body_lem ReadStatus.ok chunk (omega arith)),
    chunk_answer-reads address chunk h.0 h.1,
  )

  row_fetched :
      (answer : Option ChunkMap)
      → RowFits answer
      → (bytes : List ℕ) × (reply library (write_row library) answer ≡ answered bytes)
        × (chunk_map_answer library bytes ≡ ok (answer, []))
  unfolding refuse to_byte write_ok_body
  row_fetched none h = (1 ∷ [], refl, chunk_map_answer-refused)
  row_fetched (some row) h =
      let body = encode_chunk_map (root row) (size row) (leaves row) in
      let cap = h.cap in
      (
        0 ∷ (le_bytes 4 (length body) ++ body),
        ap outcome (write_body_lem ReadStatus.ok body (omega arith)),
        chunk_map_answer-reads row h,
      )

  -- A coverage with a bit for each of its chunks.
  abbrev pub CoverageFits : Option Coverage → Type 0
  CoverageFits none = Unit {0}
  CoverageFits (some c) =
      IsU32 (len c)
      × (length (as_bits c) ≡ bitmap_len (len c))
      × (length (encode_have (saturated (len c)) (as_bits c)) < 2 ^ 32)

  -- The one byte of a refusal, or a status, a length and a body that is read as the coverage.
  abbrev pub CarriesCoverage : Option Coverage → Outcome → Type 0
  CarriesCoverage none o = o ≡ answered (1 ∷ [])
  CarriesCoverage (some c) o =
      (body : List ℕ) × (o ≡ answered (0 ∷ (le_bytes 4 (length body) ++ body)))
      × (decode_have body ≡ ok (len c, as_bits c))

  reply-CarriesCoverage :
      (answer : Option Coverage)
      → CoverageFits answer
      → CarriesCoverage answer (reply library (write_coverage library) answer)
  unfolding refuse to_byte write_ok_body
  reply-CarriesCoverage none h = refl
  reply-CarriesCoverage (some c) (counted, bits, small) =
      let body = encode_have (saturated (len c)) (as_bits c) in
      let exact : saturated (len c) ≡ len c = ground arith in
      (
        body,
        ap outcome (write_body_lem ReadStatus.ok body small),
        ap (λ n. decode_have (encode_have n (as_bits c))) exact
            ∙ decode_have-encode_have (len c) (as_bits c) counted bits,
      )

  -- A peer's end of the connection to a source.
  abbrev pub connected :
      TokenLibrary
      → ShareAuth
      → {S : Type 0} → ServeSource library S
      → S
      → List (List ℕ)
      → Connection
  connected tokens auth ops source frames request =
      stream_of (serve_stream library ops tokens auth source request frames).1

  module _ (tokens : TokenLibrary) (auth : ShareAuth) {S : Type 0} (ops : ServeSource library S)
      (token : IsArray 32 auth.token) (own : tokens.ct_eq auth.token auth.token ≡ true) where
    -- A consumer with the share's token that fetches a chunk or a row from a source gets exactly the
    -- source's answer, and none where the source has none; a request for a coverage is answered by the
    -- coverage, and by the one refusal byte where there is none. The index is a `u32`, the address and
    -- the root have 32 bytes, the answers are within the caps, the chunk has the hash that was asked
    -- for, and the row is the one that its addresses and size make.
    pub consumer_gets_the_answer :
        (source : S) (frames : List (List ℕ)) (index : ℕ) (address root_ : List ℕ)
        → IsU32 index
        → IsArray 32 address
        → IsArray 32 root_
        → ChunkFits address (ops.answer_chunk source address).1
        → RowFits (ops.answer_chunk_map source index).1
        → CoverageFits (ops.answer_have source root_).1
        → (fetch_chunk library (connected tokens auth ops source frames) auth.token address
            ≡ ok (ops.answer_chunk source address).1)
          × (fetch_chunk_map library (connected tokens auth ops source frames) auth.token index
              ≡ ok (ops.answer_chunk_map source index).1)
          × CarriesCoverage
              (ops.answer_have source root_).1
              (serve_stream library ops tokens auth source
                (encode_have_request auth.token root_)
                frames).1
    unfolding fetch_chunk fetch_chunk_map
    consumer_gets_the_answer source frames index address root_ hi ha hr chunk row coverage =
        let (since, map_, chunk_, have_) =
          requests_reach_the_source library tokens auth ops token own source frames 0 index address
            root_ (omega arith) hi ha hr in
        let (cb, c1, c2) = chunk_fetched address (ops.answer_chunk source address).1 chunk in
        let (rb, r1, r2) = row_fetched (ops.answer_chunk_map source index).1 row in
        let sent_chunk : connected tokens auth ops source frames
              (encode_chunk_request auth.token address)
            ≡ some cb =
          ap (λ p. stream_of p.1) chunk_ ∙ ap stream_of c1 in
        let sent_row : connected tokens auth ops source frames
              (encode_chunk_map_request auth.token index)
            ≡ some rb =
          ap (λ p. stream_of p.1) map_ ∙ ap stream_of r1 in
        (
          exchange-reads (connected tokens auth ops source frames)
              (encode_chunk_request auth.token address) cb (chunk_answer library address) sent_chunk
              c2,
          exchange-reads (connected tokens auth ops source frames)
              (encode_chunk_map_request auth.token index) rb (chunk_map_answer library) sent_row r2,
          subst (CarriesCoverage (ops.answer_have source root_).1) (sym (ap (λ p. p.1) have_))
              (reply-CarriesCoverage (ops.answer_have source root_).1 coverage),
        )
      where
        exchange-reads :
            {A : Type 0} (connection : Connection) (request bytes : List ℕ) (read : Read A) {a : A}
            → connection request ≡ some bytes
            → read bytes ≡ ok (a, [])
            → exchange connection request read ≡ ok a
        exchange-reads connection request bytes read e f = rw (e, exchange) (rw (f, exchange) refl)
