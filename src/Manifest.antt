-- ===== src/Manifest.antt =====
-- crates/agent-share-proto/src/manifest.rs: the tree listing that a consumer turns into a file
-- system, and its encoding. A `String` is its UTF-8 bytes. A `Vec` that is pushed to in a loop is
-- the list that the loop makes.
pub mod Entries
pub mod Delta
pub mod Apply
pub mod RoundTrip
use agent_share.Prelude.{ℕ, List, [], ◌∷◌, ◌++◌, Bool, true, false, Result, ok, err, trailing}
use agent_share.Prelude
use agent_share.Wire.Words.{le_bytes, ℤ, pos, to_bits}
use agent_share.Wire.Cursor.{
  Read, ◌>>=◌, pure, finish, take_u32, take_u64, take_i64, take_path, take_list,
}
use agent_share.Wire.Writer.{Write, write_path, write_list}

pub record DirEntry : Type 0 where
  pub rel_path : List ℕ
  pub mode : ℕ
  pub mtime : ℤ

pub record FileEntry : Type 0 where
  pub rel_path : List ℕ
  pub size : ℕ
  pub mode : ℕ
  pub mtime : ℤ

abbrev pub is_empty : List ℕ → Bool
is_empty [] = true
is_empty (b ∷ bs) = false

abbrev pub is_tombstone : FileEntry → Bool
is_tombstone f = is_empty f.rel_path

abbrev pub tombstone : FileEntry
tombstone = record { rel_path = []; size = 0; mode = 0; mtime = pos 0 }

pub record MountManifest : Type 0 where
  pub dirs : List DirEntry
  pub files : List FileEntry

unfoldable pub write_dir : Write DirEntry
write_dir dir =
    Prelude.◌>>=◌ (write_path dir.rel_path)
      λ path. ok (path ++ (le_bytes 4 dir.mode ++ le_bytes 8 (to_bits dir.mtime)))

unfoldable pub write_file : Write FileEntry
write_file file = Prelude.◌>>=◌ (write_path file.rel_path) λ path.
    ok (path ++ (le_bytes 8 file.size ++ (le_bytes 4 file.mode ++ le_bytes 8 (to_bits file.mtime))))

unfoldable pub take_dir : Read DirEntry
take_dir = do
  rel_path ← take_path
  mode ← take_u32
  mtime ← take_i64
  pure (record { rel_path = rel_path; mode = mode; mtime = mtime })

unfoldable pub take_file : Read FileEntry
take_file = do
  rel_path ← take_path
  size ← take_u64
  mode ← take_u32
  mtime ← take_i64
  pure (record { rel_path = rel_path; size = size; mode = mode; mtime = mtime })

-- `MountManifest::encode`
unfoldable pub encode : MountManifest → Result (List ℕ)
encode m =
    Prelude.◌>>=◌ (write_list write_dir m.dirs)
      λ dirs. Prelude.◌>>=◌ (write_list write_file m.files) λ files. ok (dirs ++ files)

unfoldable pub take_manifest : Read MountManifest
take_manifest = do
  dirs ← take_list take_dir
  files ← take_list take_file
  pure (record { dirs = dirs; files = files })

-- `MountManifest::decode`
unfoldable pub decode : List ℕ → Result MountManifest
decode bytes = finish (take_manifest bytes)
