-- ===== src/Serve/Wire.antt =====
-- What `serve_stream` makes of the requests that a consumer encodes, and of those without the token.
use mathlib.Core.Path.{subst}
use agent_share.Prelude.{
  ℕ, zero, suc, ◌+◌, ◌^◌, ◌<◌, ◌≤◌, ◌≡◌, refl, ap, sym, ◌∙◌, List, [], ◌∷◌, ◌++◌, arith, true,
  false, none, some, Result, ok, err, Error, length, length-append, take, drop, length-take_le,
  ltb_false→le, get_elem?, ltb, lt→ltb, le→ltb_false, if◌then◌else◌, Bool-cases, inl, inr,
}
use mathlib.Core.List.{append-nil, append_assoc}
use agent_share.Wire.Words.{
  le_bytes, from_le, length-le_bytes, from_le-le_bytes, u32-Fits, u64-Fits, IsU32, IsU64,
}
use agent_share.Wire.Codec.{IsArray}
use agent_share.Framing.{max_read_len, op_manifest_since, op_read, op_chunk_map, op_chunk, op_have}
use agent_share.Framing.Since
use agent_share.Framing.Since.{ManifestSince}
use agent_share.Framing.Since.RoundTrip.{SinceFits, decode_since-encode_since}
use agent_share.Framing.Requests.{
  encode_read_request, encode_chunk_map_request, encode_chunk_request, encode_have_request,
  encode_manifest_since_request,
}
use agent_share.Framing.Answers.{ReadStatus, to_byte, from_byte, decode_response_header}
use agent_share.Framing.Answers.RoundTrip.{take-field, drop-field, drop-past}
use agent_share.Chunks.{ChunkLibrary, TokenLibrary}
use agent_share.Auth.{ShareAuth, accepts, refusal_code, refusal_reason}
use agent_share.Serve.{
  ServeSource, Outcome, closed, dropped, answered, whole, outcome, write_body, write_ok_body,
  read_exact, reply, write_row, write_coverage, write_since, serve_op, serve_request, serve_stream,
  serve_read,
}

get_elem?-field : (xs ys : List ℕ) (y : ℕ) → get_elem? (xs ++ (y ∷ ys)) (length xs) ≡ some y
get_elem?-field [] ys y = refl
get_elem?-field (x ∷ xs) ys y = get_elem?-field xs ys y

take-length : (xs : List ℕ) → take (length xs) xs ≡ xs
take-length [] = refl
take-length (x ∷ xs) = rw (take-length xs)

read_exact-short :
    (n : ℕ) (received : List ℕ) → ltb (length received) n ≡ true → read_exact n received ≡ none
unfolding read_exact
read_exact-short n received short = rw short refl

read_exact-long :
    (n : ℕ) (received : List ℕ)
    → n ≤ length received
    → read_exact n received ≡ some (take n received, drop n received)
unfolding read_exact
read_exact-long n received long =
    let enough : ltb (length received) n ≡ false = le→ltb_false _ _ long in rw enough refl

-- A request's two halves.
read_exact-field :
    (n : ℕ) (xs ys : List ℕ) → length xs ≡ n → read_exact n (xs ++ ys) ≡ some (xs, ys)
read_exact-field n xs ys e =
    let l = length-append xs ys in
    read_exact-long n (xs ++ ys) (omega arith)
    ∙ ap some (λ i. (take-field n xs ys e i, drop-field n xs ys e i))

read_exact-all : (n : ℕ) (body : List ℕ) → length body ≡ n → read_exact n body ≡ some (body, [])
read_exact-all n body e =
    subst (λ b. read_exact n b ≡ some (body, [])) (append-nil body) (read_exact-field n body [] e)

take-take : (m n : ℕ) (xs : List ℕ) → take m (take (m + n) xs) ≡ take m xs
take-take zero n xs = refl
take-take (suc m) n [] = let e : suc m + n ≡ suc (m + n) = omega arith in rw e refl
take-take (suc m) n (x ∷ xs) =
    let e : suc m + n ≡ suc (m + n) = omega arith in rw e (ap (λ t. x ∷ t) (take-take m n xs))

pub write_body_lem :
    (status : ReadStatus) (data_ : List ℕ)
    → length data_ < 2 ^ 32
    → write_body status data_ ≡ whole (to_byte status ∷ (le_bytes 4 (length data_) ++ data_))
unfolding write_body
write_body_lem status data_ h =
    let small : ltb (length data_) (2 ^ 32) ≡ true = lt→ltb _ _ h in rw small refl

-- What a header of a status and a length stands for.
abbrev pub declared : ReadStatus → ℕ → Result ℕ
declared ReadStatus.ok n = ok n
declared ReadStatus.bad_index n = err Error.bad_index
declared ReadStatus.io n = err Error.io
declared ReadStatus.len_over_cap n = err Error.len_over_cap

header_lem :
    (status : ReadStatus) (raw : List ℕ) (len n : ℕ)
    → length raw ≡ 4
    → from_le raw ≡ n
    → n ≤ len
    → decode_response_header (to_byte status ∷ raw) len ≡ declared status n
unfolding decode_response_header to_byte from_byte
header_lem ReadStatus.ok raw len n w e h =
    let long : ltb (length raw) 4 ≡ false = le→ltb_false _ _ (omega arith) in
    let whole : take 4 raw ≡ raw = subst (λ k. take k raw ≡ raw) w (take-length raw) in
    let within : ltb len n ≡ false = le→ltb_false _ _ h in
    rw long (rw whole (rw e (rw within refl)))
header_lem ReadStatus.bad_index raw len n w e h = refl
header_lem ReadStatus.io raw len n w e h = refl
header_lem ReadStatus.len_over_cap raw len n w e h = refl

module _ (library : ChunkLibrary) (tokens : TokenLibrary) (auth : ShareAuth) where
  refused :
      (received : List ℕ)
      → tokens.ct_eq (take 32 received) auth.token ≡ false
      → 33 ≤ length received
      → accepts tokens auth (take 33 received) ≡ false
  unfolding accepts
  refused received wrong long =
      let full : length (take 33 received) ≡ 33 = length-take_le 33 received long in
      rw full (rw (take-take 32 1 received) wrong)

  -- A header with another token closes the connection, and a short header is dropped: whoever the
  -- source is and whatever it holds, it is not asked, and the peer gets the same.
  pub unauthorized_learns_nothing :
      (received : List ℕ)
      → tokens.ct_eq (take 32 received) auth.token ≡ false
      → (answer : Outcome) × ((S : Type 0) (ops : ServeSource library S) (source : S)
            (frames : List (List ℕ))
          → serve_stream library ops tokens auth source received frames ≡ (source, answer))
  unfolding serve_stream serve_request
  unauthorized_learns_nothing received wrong = elim (Bool-cases (ltb (length received) 33)) [
    | inl short ↦
        (dropped, λ S ops source frames. rw (read_exact-short 33 received short, serve_stream) refl)
    | inr long ↦
        let enough = ltb_false→le _ _ long in
        (
          closed (refusal_code auth) (refusal_reason auth),
          λ S ops source frames.
              rw (read_exact-long 33 received enough, serve_stream)
                (rw (refused received wrong enough, serve_request) refl),
        )
  ]

  module _ {S : Type 0} (ops : ServeSource library S) (token : IsArray 32 auth.token)
      (own : tokens.ct_eq auth.token auth.token ≡ true) where
    accepted : (op : ℕ) → accepts tokens auth (auth.token ++ (op ∷ [])) ≡ true
    unfolding accepts
    accepted op =
        let t = token.1 in
        let l = length-append auth.token (op ∷ []) in
        let enough : ltb (length (auth.token ++ (op ∷ []))) 32 ≡ false =
          le→ltb_false _ _ (omega arith) in
        rw enough (rw (take-field 32 auth.token (op ∷ []) token.1) own)

    serve_stream-request :
        (source : S) (op : ℕ) (body : List ℕ) (frames : List (List ℕ))
        → serve_stream library ops tokens auth source (auth.token ++ (op ∷ body)) frames
          ≡ serve_op library ops tokens source op body frames
    unfolding serve_stream serve_request
    serve_stream-request source op body frames =
        let header : List ℕ = auth.token ++ (op ∷ []) in
        let split : auth.token ++ (op ∷ body) ≡ header ++ body =
          sym (append_assoc auth.token (op ∷ []) body) in
        let width : length header ≡ 33 =
          let a = length-append auth.token (op ∷ []) in let t = token.1 in omega arith in
        let at : get_elem? header 32 ≡ some op =
          subst (λ n. get_elem? header n ≡ some op) token.1 (get_elem?-field auth.token [] op) in
        rw split (
          rw (read_exact-field 33 header body width, serve_stream)
            (rw (accepted op, serve_request) (rw (at, serve_request) refl)))

    serve_read_lem :
        (source : S) (index offset len : ℕ) (frames : List (List ℕ))
        → IsU32 index
        → IsU64 offset
        → IsU32 len
        → serve_stream library ops tokens auth source
            (encode_read_request auth.token index offset len)
            frames
          ≡ (if ltb max_read_len len
              then (source, outcome (write_body ReadStatus.len_over_cap []))
              else (
                (ops.answer_read source index offset len).0,
                outcome (
                    write_body
                      (ops.answer_read source index offset len).1
                      (ops.answer_read source index offset len).2),
              ))
    unfolding encode_read_request serve_op serve_read
    serve_read_lem source index offset len frames hi ho hl =
        let body : List ℕ = le_bytes 4 index ++ (le_bytes 8 offset ++ le_bytes 4 len) in
        let li = length-le_bytes 4 index in
        let lo = length-le_bytes 8 offset in
        let ll = length-le_bytes 4 len in
        let width : length body ≡ 16 =
          let a = length-append (le_bytes 4 index) (le_bytes 8 offset ++ le_bytes 4 len) in
          let b = length-append (le_bytes 8 offset) (le_bytes 4 len) in omega arith in
        let i : from_le (take 4 body) ≡ index =
          rw (take-field 4 (le_bytes 4 index) (le_bytes 8 offset ++ le_bytes 4 len) li)
            (from_le-le_bytes 4 _ (u32-Fits _ hi)) in
        let o : from_le (take 8 (drop 4 body)) ≡ offset =
          rw (drop-field 4 (le_bytes 4 index) (le_bytes 8 offset ++ le_bytes 4 len) li) (
            rw (take-field 8 (le_bytes 8 offset) (le_bytes 4 len) lo)
              (from_le-le_bytes 8 _ (u64-Fits _ ho))) in
        let l : from_le (drop 12 body) ≡ len =
          rw (drop-past 4 8 (le_bytes 4 index) (le_bytes 8 offset ++ le_bytes 4 len) li) (
            rw (drop-field 8 (le_bytes 8 offset) (le_bytes 4 len) lo)
              (from_le-le_bytes 4 _ (u32-Fits _ hl))) in
        serve_stream-request source op_read body frames
        ∙ rw (read_exact-all 16 body width, serve_op)
            (rw (i, serve_read) (rw (o, serve_read) (rw (l, serve_read) refl)))

    -- A consumer's requests for changes, a row, a chunk and a coverage reach the source with the
    -- arguments that the consumer encoded, and the stream carries the source's answer, or the one
    -- refusal byte if it has none.
    pub requests_reach_the_source :
        (source : S) (frames : List (List ℕ)) (since index : ℕ) (address root : List ℕ)
        → IsU64 since
        → IsU32 index
        → IsArray 32 address
        → IsArray 32 root
        → (serve_stream library ops tokens auth source
              (encode_manifest_since_request auth.token since)
              frames
            ≡ (
              source,
              reply library (write_since library) (ops.answer_manifest_since source since),
            ))
          × (serve_stream library ops tokens auth source
                (encode_chunk_map_request auth.token index)
                frames
              ≡ (
                (ops.answer_chunk_map source index).0,
                reply library (write_row library) (ops.answer_chunk_map source index).1,
              ))
          × (serve_stream library ops tokens auth source
                (encode_chunk_request auth.token address)
                frames
              ≡ (
                (ops.answer_chunk source address).0,
                reply library (λ b. outcome (write_ok_body b)) (ops.answer_chunk source address).1,
              ))
          × (serve_stream library ops tokens auth source
                (encode_have_request auth.token root)
                frames
              ≡ (
                (ops.answer_have source root).0,
                reply library (write_coverage library) (ops.answer_have source root).1,
              ))
    unfolding encode_manifest_since_request encode_chunk_map_request encode_chunk_request
        encode_have_request serve_op
    requests_reach_the_source source frames since index address root hs hi ha hr = (
      serve_stream-request source op_manifest_since (le_bytes 8 since) frames
          ∙ rw (read_exact-all 8 _ (length-le_bytes 8 since), serve_op)
              (rw (from_le-le_bytes 8 _ (u64-Fits _ hs)) refl),
      serve_stream-request source op_chunk_map (le_bytes 4 index) frames
          ∙ rw (read_exact-all 4 _ (length-le_bytes 4 index), serve_op)
              (rw (from_le-le_bytes 4 _ (u32-Fits _ hi)) refl),
      serve_stream-request source op_chunk address frames
          ∙ rw (read_exact-all 32 _ ha.1, serve_op) refl,
      serve_stream-request source op_have root frames
          ∙ rw (read_exact-all 32 _ hr.1, serve_op) refl,
    )

    -- A consumer that reads at most the cap gets the source's answer off the stream: the header gives
    -- the length of the data, or the error that the status stands for, and the data follows.
    pub read_over_the_wire :
        (source after : S) (status : ReadStatus) (data_ : List ℕ) (index offset len : ℕ)
        (frames : List (List ℕ))
        → IsU32 index
        → IsU64 offset
        → len ≤ max_read_len
        → ops.answer_read source index offset len ≡ (after, status, data_)
        → length data_ ≤ len
        → (bytes : List ℕ) × (serve_stream library ops tokens auth source
              (encode_read_request auth.token index offset len)
              frames
            ≡ (after, answered bytes))
          × (decode_response_header (take 5 bytes) len ≡ declared status (length data_))
          × (drop 5 bytes ≡ data_)
    unfolding decode_response_header
    read_over_the_wire source after status data_ index offset len frames hi ho cap e fits =
        let n : List ℕ = le_bytes 4 (length data_) in
        let width = length-le_bytes 4 (length data_) in
        let bytes : List ℕ = to_byte status ∷ (n ++ data_) in
        let within : ltb max_read_len len ≡ false = le→ltb_false _ _ cap in
        let wrote : write_body status data_ ≡ whole bytes =
          write_body_lem status data_ (omega arith) in
        (
          bytes,
          serve_read_lem source index offset len frames hi ho (omega arith)
              ∙ rw within (rw e (ap (λ w. (after, outcome w)) wrote)),
          rw (take-field 4 n data_ width) (
              header_lem status n len (length data_) width
                (from_le-le_bytes 4 _ (u32-Fits _ (omega arith))) fits),
          drop-field 4 n data_ width,
        )

    -- The deltas that a source has since a version reach the consumer that asks for them.
    pub since_over_the_wire :
        (source : S) (answer : ManifestSince) (body : List ℕ) (since : ℕ) (frames : List (List ℕ))
        → IsU64 since
        → ops.answer_manifest_since source since ≡ some answer
        → SinceFits answer
        → Since.encode answer ≡ ok body
        → length body < 2 ^ 32
        → (bytes : List ℕ) × (serve_stream library ops tokens auth source
              (encode_manifest_since_request auth.token since)
              frames
            ≡ (source, answered bytes))
          × (Since.decode (drop 5 bytes) ≡ ok answer)
    unfolding encode_manifest_since_request serve_op write_ok_body to_byte
    since_over_the_wire source answer body since frames hs e fits wrote small =
        let n : List ℕ = le_bytes 4 (length body) in
        (
          0 ∷ (n ++ body),
          serve_stream-request source op_manifest_since (le_bytes 8 since) frames
              ∙ rw (read_exact-all 8 _ (length-le_bytes 8 since), serve_op)
                  (rw (from_le-le_bytes 8 _ (u64-Fits _ hs)) (
                    rw e (
                      rw (wrote, write_since)
                        (ap (λ w. (source, outcome w))
                          (write_body_lem ReadStatus.ok body small))))),
          ap Since.decode (drop-field 4 n body (length-le_bytes 4 (length body)))
              ∙ decode_since-encode_since answer body fits wrote,
        )
