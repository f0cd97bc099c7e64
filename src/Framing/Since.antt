-- ===== src/Framing/Since.antt =====
-- `ManifestSince` of crates/agent-share-proto/src/framing.rs: the answer to OP_MANIFEST_SINCE and
-- the body of a delta frame. A `[u8; 64]` is a list whose length the readers see to.
pub mod RoundTrip
use agent_share.Prelude.{
  ℕ, ◌+◌, ◌*◌, ◌^◌, List, ◌++◌, Result, ok, err, panicked, too_short, over_cap, length, ltb,
  if◌then◌else◌,
}
use agent_share.Prelude
use agent_share.Wire.Words.{le_bytes}
use agent_share.Wire.Cursor.{Read, ◌>>=◌, pure, finish, take_bytes, take_u32, take_u64, take_list}
use agent_share.Wire.Writer.{Write, write_list}

-- `MAX_DELTA_BYTES`
abbrev pub max_delta_bytes : ℕ
max_delta_bytes = 8 * 1024 * 1024

pub record ManifestSince : Type 0 where
  pub target_version : ℕ
  pub signature : List ℕ
  pub deltas : List (List ℕ)

unfoldable pub write_blob : Write (List ℕ)
write_blob delta =
    if ltb (length delta) (2 ^ 32) then ok (le_bytes 4 (length delta) ++ delta) else err panicked

-- `ManifestSince::encode`
unfoldable pub encode : ManifestSince → Result (List ℕ)
encode s =
    Prelude.◌>>=◌ (write_list write_blob s.deltas)
      λ deltas. ok (le_bytes 8 s.target_version ++ (s.signature ++ deltas))

check_cap : ℕ → Read (List ℕ)
check_cap len b = if ltb max_delta_bytes len then err over_cap else take_bytes len b

unfoldable pub take_blob : Read (List ℕ)
unfolding check_cap
take_blob = do len ← take_u32; check_cap len

unfoldable pub take_since : Read ManifestSince
take_since = do
  target_version ← take_u64
  signature ← take_bytes 64
  deltas ← take_list take_blob
  pure (record { target_version = target_version; signature = signature; deltas = deltas })

-- `ManifestSince::decode`
unfoldable pub decode : List ℕ → Result ManifestSince
decode bytes = if ltb (length bytes) (8 + 64 + 4) then err too_short else finish (take_since bytes)
