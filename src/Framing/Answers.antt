-- ===== src/Framing/Answers.antt =====
-- The answers of crates/agent-share-proto/src/framing.rs, and `ReadStatus` of manifest.rs.
pub mod RoundTrip
use agent_share.Prelude.{
  ℕ, zero, suc, ◌+◌, ◌-◌, ◌*◌, ◌/◌, ◌^◌, List, [], ◌∷◌, ◌++◌, Option, none, some, Result, Error,
  err, too_short, over_cap, unknown_status, length, take, drop, ltb, ◌==◌, if◌then◌else◌, ◌>>=◌,
}
use agent_share.Prelude
use agent_share.Wire.Words.{le_bytes, from_le}
use agent_share.Framing.{chunk_address_len}

pub data ReadStatus : Type 0 where
  ok bad_index io len_over_cap : ReadStatus

unfoldable pub to_byte : ReadStatus → ℕ
to_byte ReadStatus.ok = 0
to_byte ReadStatus.bad_index = 1
to_byte ReadStatus.io = 2
to_byte ReadStatus.len_over_cap = 3

unfoldable pub from_byte : ℕ → Result ReadStatus
from_byte byte =
    if byte == 0
    then Result.ok ReadStatus.ok
    else if byte == 1
    then Result.ok ReadStatus.bad_index
    else if byte == 2
    then Result.ok ReadStatus.io
    else if byte == 3
    then Result.ok ReadStatus.len_over_cap
    else err unknown_status

-- `CHUNK_MAP_PREFIX_LEN`
abbrev pub chunk_map_prefix_len : ℕ
chunk_map_prefix_len = 44

-- `u32::try_from(n).unwrap_or(u32::MAX)`
abbrev pub saturated : ℕ → ℕ
saturated n = if ltb n (2 ^ 32) then n else 2 ^ 32 - 1

unfoldable pub concat_all : List (List ℕ) → List ℕ
concat_all [] = []
concat_all (address ∷ rest) = address ++ concat_all rest

unfoldable pub encode_chunk_map : List ℕ → ℕ → List (List ℕ) → List ℕ
unfolding concat_all
encode_chunk_map root size addresses =
    root ++ (le_bytes 8 size ++ (le_bytes 4 (saturated (length addresses)) ++ concat_all addresses))

-- The loop over `index`; `start` is where the addresses that are left begin.
unfoldable pub cut_addresses : ℕ → List ℕ → List (List ℕ)
cut_addresses zero body = []
cut_addresses (suc count) body =
    take chunk_address_len body ∷ cut_addresses count (drop chunk_address_len body)

-- `usize` has 64 bits, so neither checked product nor checked sum of a `u32` count overflows.
unfoldable pub decode_chunk_map : List ℕ → Result (List ℕ × ℕ × List (List ℕ))
unfolding cut_addresses
decode_chunk_map body =
    let count = from_le (take 4 (drop 40 body)) in
    if ltb (length body) chunk_map_prefix_len
    then err too_short
    else if ltb (length body) (chunk_map_prefix_len + count * chunk_address_len)
    then err too_short
    else Result.ok (
      take 32 body,
      from_le (take 8 (drop 32 body)),
      cut_addresses count (drop chunk_map_prefix_len body),
    )

unfoldable pub encode_have : ℕ → List ℕ → List ℕ
encode_have chunks bitmap = le_bytes 4 chunks ++ bitmap

-- `div_ceil(8)`
abbrev pub bitmap_len : ℕ → ℕ
bitmap_len chunks = (chunks + 7) / 8

unfoldable pub decode_have : List ℕ → Result (ℕ × List ℕ)
decode_have body =
    let chunks = from_le (take 4 body) in
    if ltb (length body) 4
    then err too_short
    else if ltb (length body - 4) (bitmap_len chunks)
    then err too_short
    else Result.ok (chunks, take (bitmap_len chunks) (drop 4 body))

-- What follows the status byte of a header.
declared_len : ReadStatus → List ℕ → ℕ → Result ℕ
declared_len ReadStatus.bad_index rest requested = err Error.bad_index
declared_len ReadStatus.io rest requested = err Error.io
declared_len ReadStatus.len_over_cap rest requested = err Error.len_over_cap
declared_len ReadStatus.ok rest requested =
    if ltb (length rest) 4
    then err too_short
    else if ltb requested (from_le (take 4 rest))
    then err over_cap
    else Result.ok (from_le (take 4 rest))

unfoldable pub decode_response_header : List ℕ → ℕ → Result ℕ
unfolding declared_len
decode_response_header [] requested = err too_short
decode_response_header (status ∷ rest) requested = elim (from_byte status) [
  | err e ↦ err e
  | Prelude.ok s ↦ declared_len s rest requested
]
