-- ===== src/Tests/Data.antt =====
-- The data of the runs: a signature scheme whose signatures tell one payload from all others, and a
-- share of two directories and a file.
use agent_share.Prelude.{
  ℕ, ◌^◌, ltb, ◌&&◌, ◌≡◌, ◌<◌, refl, List, [], ◌∷◌, Bool, true, false, Option, none, some, Result,
  ok, err, arith, replicate, bytes_eq, bytes_eq_refl, All, All-replicate, if◌then◌else◌,
}
use agent_share.Wire.Words.{pos, IsByte}
use agent_share.Wire.Utf8.{is_utf8}
use agent_share.Wire.Codec.{IsArray, IsText}
use agent_share.Manifest.{DirEntry, FileEntry, MountManifest}
use agent_share.Manifest.Entries.{DirFits, FileFits}
use agent_share.Manifest.RoundTrip.{ManifestFits}
use agent_share.Manifest.Apply.Dirs.{paths}
use agent_share.Authorship.{Scheme, codes}
use agent_share.Live
use agent_share.Live.{TreeState, LiveTree}

abbrev pub value_or {ℓ} : {A : Type ℓ} → A → Result A → A
value_or default (ok a) = a
value_or default (err e) = default

abbrev pub is_ok {ℓ} : {A : Type ℓ} → Result A → Bool
is_ok (ok a) = true
is_ok (err e) = false

pub value_or-ok {ℓ} :
    {A : Type ℓ} (default : A) (r : Result A) → is_ok r ≡ true → r ≡ ok (value_or default r)
value_or-ok default (ok a) h = refl
value_or-ok default (err e) h = cc

-- Key 7 signs `special` with ones and everything else with zeros.
abbrev pub toy_sign : List ℕ → ℕ → List ℕ → List ℕ
toy_sign special key message = if bytes_eq message special then replicate 64 1 else replicate 64 0

pub toy_sign-IsArray :
    (special : List ℕ) (key : ℕ) (message : List ℕ) → IsArray 64 (toy_sign special key message)
toy_sign-IsArray special key message = go (bytes_eq message special)
  where
    go : (b : Bool) → IsArray 64 (if b then replicate 64 1 else replicate 64 0)
    go true = (All-replicate IsByte 64 1 (omega arith), refl)
    go false = (All-replicate IsByte 64 0 (omega arith), refl)

abbrev pub toy : List ℕ → Scheme
toy special = record {
  SecretKey = ℕ;
  PublicKey = ℕ;
  public = λ key. key;
  sign = toy_sign special;
  verify = λ key message signature. bytes_eq signature (toy_sign special key message);
  sign-IsArray = toy_sign-IsArray special;
  verify-sign = λ key message. bytes_eq_refl (toy_sign special key message);
}

abbrev pub dir_at : List ℕ → DirEntry
dir_at path = record { rel_path = path; mode = 493; mtime = pos 0 }

abbrev pub file_at : List ℕ → ℕ → FileEntry
file_at path size = record { rel_path = path; size = size; mode = 420; mtime = pos 0 }

abbrev pub before : MountManifest
before = record {
  dirs = dir_at (codes "a") ∷ dir_at (codes "c") ∷ [];
  files = file_at (codes "a/x") 5 ∷ [];
}

-- A directory and a file come last, and a file grows.
abbrev pub grown : MountManifest
grown = record {
  dirs = dir_at (codes "a") ∷ dir_at (codes "c") ∷ dir_at (codes "d") ∷ [];
  files = file_at (codes "a/x") 9 ∷ file_at (codes "d/y") 1 ∷ [];
}

-- A directory comes between the two.
abbrev pub inserted : MountManifest
inserted = record {
  dirs = dir_at (codes "a") ∷ dir_at (codes "b") ∷ dir_at (codes "c") ∷ [];
  files = file_at (codes "a/x") 5 ∷ [];
}

-- The file is gone.
abbrev pub emptied : MountManifest
emptied = record { dirs = dir_at (codes "a") ∷ dir_at (codes "c") ∷ []; files = [] }

abbrev pub one_path : List (List ℕ)
one_path = codes "/s/a/x" ∷ []

abbrev pub two_paths : List (List ℕ)
two_paths = codes "/s/a/x" ∷ codes "/s/d/y" ∷ []

abbrev pub no_state : TreeState
no_state = record {
  dirs = [];
  files = [];
  served = [];
  index_of = [];
  encoded = [];
  version = 0;
  envelope = [];
  signature = [];
  history = [];
  history_bytes = 0;
}

unfoldable pub tree : (special : List ℕ) → LiveTree (toy special)
unfolding Live.authored
tree special =
    value_or (record { author = none; state = no_state })
      (Live.authored (toy special) before one_path (some 7))

-- A rescan of the tree: the tree after it, and the frame.
unfoldable pub rescanned :
    (special : List ℕ) → MountManifest → List (List ℕ) → LiveTree (toy special) × Option (List ℕ)
unfolding Live.apply
rescanned special manifest paths =
    value_or (tree special, none) (Live.apply (toy special) (tree special) manifest paths)

pub tree-authored :
    (special : List ℕ) → Live.authored (toy special) before one_path (some 7) ≡ ok (tree special)
unfolding tree agent_share.Manifest.encode agent_share.Wire.Writer.write_list
    agent_share.Wire.Writer.write_many agent_share.Manifest.write_dir
    agent_share.Wire.Writer.write_path agent_share.Manifest.write_file
tree-authored special = refl

abbrev pub all_bytes : List ℕ → Bool
all_bytes [] = true
all_bytes (b ∷ bs) = ltb b 256 && all_bytes bs

pub all_bytes-All : (bs : List ℕ) → all_bytes bs ≡ true → All IsByte bs
all_bytes-All [] h = tt
all_bytes-All (b ∷ bs) h = (ground arith, all_bytes-All bs (ground arith))

pub text : (path : List ℕ) → all_bytes path ≡ true → is_utf8 path ≡ true → IsText path
text path h u = record { of_bytes = all_bytes-All path h; utf8 = u }

pub dir_at-DirFits : (path : List ℕ) → IsText path → DirFits (dir_at path)
dir_at-DirFits path h = record { path = h; mode = omega arith; mtime = omega arith }

pub file_at-FileFits :
    (path : List ℕ) (size : ℕ) → IsText path → size < 2 ^ 64 → FileFits (file_at path size)
file_at-FileFits path size h s = record {
  path = h;
  size = s;
  mode = omega arith;
  mtime = omega arith;
}

pub before-ManifestFits : ManifestFits before
unfolding is_utf8
before-ManifestFits = record {
  dirs = (
    dir_at-DirFits _ (text (codes "a") refl refl),
    (dir_at-DirFits _ (text (codes "c") refl refl), tt),
  );
  files = (file_at-FileFits _ 5 (text (codes "a/x") refl refl) (omega arith), tt);
}

pub grown-ManifestFits : ManifestFits grown
unfolding is_utf8
grown-ManifestFits = record {
  dirs = (
    dir_at-DirFits _ (text (codes "a") refl refl),
    (
      dir_at-DirFits _ (text (codes "c") refl refl),
      (dir_at-DirFits _ (text (codes "d") refl refl), tt),
    ),
  );
  files = (
    file_at-FileFits _ 9 (text (codes "a/x") refl refl) (omega arith),
    (file_at-FileFits _ 1 (text (codes "d/y") refl refl) (omega arith), tt),
  );
}

pub inserted-ManifestFits : ManifestFits inserted
unfolding is_utf8
inserted-ManifestFits = record {
  dirs = (
    dir_at-DirFits _ (text (codes "a") refl refl),
    (
      dir_at-DirFits _ (text (codes "b") refl refl),
      (dir_at-DirFits _ (text (codes "c") refl refl), tt),
    ),
  );
  files = (file_at-FileFits _ 5 (text (codes "a/x") refl refl) (omega arith), tt);
}

pub emptied-ManifestFits : ManifestFits emptied
unfolding is_utf8
emptied-ManifestFits = record {
  dirs = (
    dir_at-DirFits _ (text (codes "a") refl refl),
    (dir_at-DirFits _ (text (codes "c") refl refl), tt),
  );
  files = tt;
}
