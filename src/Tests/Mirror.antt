-- ===== src/Tests/Mirror.antt =====
-- A mirror of a share, with its one file copied.
use agent_share.Prelude.{
  ℕ, ◌≡◌, refl, List, [], ◌∷◌, true, false, Option, none, some, ok, replicate, bytes_eq, arith,
  get_elem?, if◌then◌else◌,
}
use agent_share.Manifest
use agent_share.Manifest.{FileEntry, MountManifest, is_tombstone}
use agent_share.Manifest.Apply.{contains}
use agent_share.Manifest.Apply.Dirs.{Distinct}
use agent_share.Authorship
use agent_share.Authorship.{SignedManifest, codes}
use agent_share.Authorship.Envelope.{EnvelopeFits}
use agent_share.Live.{LiveTree, path_of}
use agent_share.Live.Slots.Startup.{file_paths}
use agent_share.Live.Mirror.{
  join, mirror_of, mirrored, Repeats, mirrored-mirror_of, mirrored_is_the_origin,
  mirrored_serves_whole_files, mirrored-Fits,
}
use agent_share.Live.Serving.{serving, mirrored_advertises_what_it_serves}
use agent_share.Tests.Data.{
  value_or, toy, toy_sign-IsArray, before, before-ManifestFits, all_bytes, all_bytes-All,
}

metadata : List ℕ → Option ℕ
metadata p = if bytes_eq p (codes "/m/a/x") then some 5 else none

abbrev origin : SignedManifest
unfolding Manifest.encode
origin = record {
  version = 3;
  signature = replicate 64 0;
  manifest = value_or [] (Manifest.encode before);
}

origin_wrote : Manifest.encode before ≡ ok origin.manifest
unfolding origin agent_share.Wire.Writer.write_list agent_share.Wire.Writer.write_many
    Manifest.write_dir agent_share.Wire.Writer.write_path Manifest.write_file
origin_wrote = refl

origin_all : all_bytes origin.manifest ≡ true
unfolding origin agent_share.Wire.Writer.write_list agent_share.Wire.Writer.write_many
    Manifest.write_dir agent_share.Wire.Writer.write_path Manifest.write_file
    agent_share.Wire.Words.le_bytes agent_share.Wire.Words.to_bits
origin_all = refl

origin-EnvelopeFits : EnvelopeFits origin
unfolding origin bytes_eq
origin-EnvelopeFits = record {
  version = omega arith;
  signature = toy_sign-IsArray (1 ∷ []) 0 [];
  manifest = all_bytes-All origin.manifest origin_all;
}

mirrored_is_the_origin_example :
    (tree : LiveTree (toy [])) × (mirrored metadata (codes "/m") (toy []) (Authorship.encode origin)
      ≡ ok tree)
    × Repeats (toy []) metadata (codes "/m") origin before tree
mirrored_is_the_origin_example =
    mirrored_is_the_origin (toy []) metadata (codes "/m") origin before origin-EnvelopeFits
      before-ManifestFits origin_wrote

opened :
    mirrored metadata (codes "/m") (toy []) (Authorship.encode origin)
    ≡ ok (mirror_of metadata (codes "/m") (toy []) (Authorship.encode origin) origin before)
opened =
    mirrored-mirror_of (toy []) metadata (codes "/m") origin before origin-EnvelopeFits
      before-ManifestFits origin_wrote

path_served :
    path_of
      (mirror_of metadata (codes "/m") (toy []) (Authorship.encode origin) origin before).state
      0
    ≡ some (codes "/m/a/x")
unfolding path_of agent_share.Live.Mirror.copy_of agent_share.Live.Mirror.whole_copy join metadata
    bytes_eq
path_served = refl

mirrored_serves_whole_files_example :
    (f : FileEntry) × (get_elem? before.files 0 ≡ some f)
    × (is_tombstone f ≡ false)
    × (codes "/m/a/x" ≡ join (codes "/m") f.rel_path)
    × (metadata (codes "/m/a/x") ≡ some f.size)
mirrored_serves_whole_files_example =
    mirrored_serves_whole_files (toy []) metadata (codes "/m") (Authorship.encode origin)
      (codes "/m/a/x")
      (mirror_of metadata (codes "/m") (toy []) (Authorship.encode origin) origin before) 0 opened
      path_served

before-Distinct : Distinct (file_paths before.files)
unfolding contains bytes_eq
before-Distinct = (refl, tt)

whole_field :
    serving
      (mirror_of metadata (codes "/m") (toy []) (Authorship.encode origin) origin before).state
    ≡ some (codes "*")
unfolding serving agent_share.Live.Mirror.copy_of agent_share.Live.Mirror.whole_copy join metadata
    bytes_eq agent_share.Serving.encode_serving agent_share.Sorting.sort agent_share.Sorting.dedup
whole_field = refl

mirrored_advertises_what_it_serves_example :
    (p : List ℕ) × (path_of
        (mirror_of metadata (codes "/m") (toy []) (Authorship.encode origin) origin before).state
        0
      ≡ some p)
    × (metadata p ≡ some 5)
unfolding agent_share.Serving.decode_serving agent_share.Sorting.count_from bytes_eq
mirrored_advertises_what_it_serves_example =
    mirrored_advertises_what_it_serves (toy []) metadata (codes "/m") (Authorship.encode origin)
      (codes "*")
      (mirror_of metadata (codes "/m") (toy []) (Authorship.encode origin) origin before) 0 _ opened
      (omega arith) whole_field refl refl refl
