-- ===== src/Chunks.antt =====
-- What the mount crate uses of the fofoca-chunks and fofoca-protocol crates. A hash, a root and a
-- token are their bytes. A store that fails to answer and a store that holds nothing are the same
-- to every caller here, so the answers of a store are Options, and a write that fails leaves a store.
use agent_share.Prelude.{ℕ, List, Bool, Option}

pub record ChunkLibrary : Type 1 where
  pub ChunkMap : Type 0
  pub from_leaves : List (List ℕ) → ℕ → Option ChunkMap
  pub root : ChunkMap → List ℕ
  pub size : ChunkMap → ℕ
  pub row_len : ChunkMap → ℕ
  pub leaves : ChunkMap → List (List ℕ)
  pub index_at : ChunkMap → ℕ → ℕ
  pub leaf : ChunkMap → ℕ → Option (List ℕ)
  pub range_start : ChunkMap → ℕ → ℕ
  pub Store : Type 0
  pub chunk_hash : List ℕ → List ℕ
  pub put : Store → List ℕ → List ℕ → Store
  pub put_map : Store → ChunkMap → Store
  pub get : Store → List ℕ → Option (List ℕ)
  pub Coverage : Type 0
  pub coverage : Store → List ℕ → Option Coverage
  pub coverage_of : Store → List (List ℕ) → Option (List Coverage)
  pub len : Coverage → ℕ
  pub count : Coverage → ℕ
  pub as_bits : Coverage → List ℕ

-- `TicketAuth::derive(secret, password, label).token` and `ct_eq`.
pub record TokenLibrary : Type 0 where
  pub derive : List ℕ → Option (List ℕ) → List ℕ → List ℕ
  pub ct_eq : List ℕ → List ℕ → Bool
