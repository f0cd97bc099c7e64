-- ===== src/Manifest/Delta.antt =====
-- `ManifestDelta` of crates/agent-share-proto/src/manifest.rs: what changed in the shared tree.
pub mod RoundTrip
use agent_share.Prelude.{ℕ, List, [], ◌∷◌, ◌++◌, Bool, true, false, ◌&&◌, Result, ok}
use agent_share.Prelude
use agent_share.Wire.Words.{le_bytes}
use agent_share.Wire.Cursor.{Read, ◌>>=◌, pure, finish, take_u32, take_path, take_list}
use agent_share.Wire.Writer.{Write, write_path, write_list}
use agent_share.Manifest.{DirEntry, FileEntry, write_dir, write_file, take_dir, take_file}

pub record ManifestDelta : Type 0 where
  pub dirs_upserted : List DirEntry
  pub dirs_removed : List (List ℕ)
  pub files_upserted : List (ℕ × FileEntry)
  pub files_removed : List ℕ

abbrev pub empty_delta : ManifestDelta
empty_delta = record {
  dirs_upserted = [];
  dirs_removed = [];
  files_upserted = [];
  files_removed = [];
}

abbrev pub is_nil : {A : Type 0} → List A → Bool
is_nil [] = true
is_nil (x ∷ xs) = false

-- `ManifestDelta::is_empty`
unfoldable pub is_empty : ManifestDelta → Bool
is_empty d =
    is_nil d.dirs_upserted
    && is_nil d.dirs_removed
    && is_nil d.files_upserted
    && is_nil d.files_removed

unfoldable pub write_slot : Write (ℕ × FileEntry)
write_slot (index, file) = Prelude.◌>>=◌ (write_file file) λ entry. ok (le_bytes 4 index ++ entry)

unfoldable pub take_slot : Read (ℕ × FileEntry)
take_slot = do index ← take_u32; file ← take_file; pure (index, file)

abbrev pub write_index : Write ℕ
write_index index = ok (le_bytes 4 index)

-- `ManifestDelta::encode`
unfoldable pub encode : ManifestDelta → Result (List ℕ)
encode d = Prelude.◌>>=◌ (write_list write_dir d.dirs_upserted) λ upserted.
    Prelude.◌>>=◌ (write_list write_path d.dirs_removed) λ removed.
      Prelude.◌>>=◌ (write_list write_slot d.files_upserted) λ slots.
        Prelude.◌>>=◌ (write_list write_index d.files_removed)
          λ indices. ok (upserted ++ (removed ++ (slots ++ indices)))

unfoldable pub take_delta : Read ManifestDelta
take_delta = do
  dirs_upserted ← take_list take_dir
  dirs_removed ← take_list take_path
  files_upserted ← take_list take_slot
  files_removed ← take_list take_u32
  pure (record {
    dirs_upserted = dirs_upserted;
    dirs_removed = dirs_removed;
    files_upserted = files_upserted;
    files_removed = files_removed;
  })

-- `ManifestDelta::decode`
unfoldable pub decode : List ℕ → Result ManifestDelta
decode bytes = finish (take_delta bytes)
