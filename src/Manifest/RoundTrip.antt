-- ===== src/Manifest/RoundTrip.antt =====
-- The encoding of a manifest: it is read back, and it is the only encoding that is read.
use mathlib.Core.Path.{subst}
use mathlib.Core.List.{append-nil, append_assoc}
use agent_share.Prelude.{ℕ, ◌≡◌, ap, sym, ◌∙◌, List, [], ◌++◌, ok, All, All-append, >>=-eq-ok}
use agent_share.Wire.Words.{IsByte}
use agent_share.Wire.Cursor.{take_list}
use agent_share.Wire.Writer.{write_list}
use agent_share.Wire.Codec.{Came, Codec, bind-eq-ok, bind-reads, list-Codec, finish-eq-ok}
use agent_share.Manifest.Entries.{DirFits, FileFits, dir-Codec, file-Codec}
use agent_share.Manifest.{
  MountManifest, write_dir, write_file, take_dir, take_file, encode, decode, take_manifest,
}

pub record ManifestFits (m : MountManifest) : Type 0 where
  pub dirs : All DirFits m.dirs
  pub files : All FileFits m.files

abbrev dirs-Codec : Codec (take_list take_dir) (write_list write_dir) (All DirFits)
dirs-Codec = list-Codec dir-Codec

abbrev files-Codec : Codec (take_list take_file) (write_list write_file) (All FileFits)
files-Codec = list-Codec file-Codec

pub manifest-Codec : Codec take_manifest encode ManifestFits
unfolding take_manifest encode
manifest-Codec = record {
  reads = λ m w rest good e.
      let (ds, one, more) = >>=-eq-ok (write_list write_dir m.dirs) _ e in
      let (fs, two, same) = >>=-eq-ok (write_list write_file m.files) _ more in
      let shape : w ++ rest ≡ ds ++ (fs ++ rest) = cc (same, append_assoc ds fs rest) in
      subst (λ x. take_manifest x ≡ ok (m, rest)) (sym shape)
        (bind-reads (take_list take_dir) _ _ m.dirs _
            (dirs-Codec.reads m.dirs ds (fs ++ rest) good.dirs one)
          ∙ bind-reads (take_list take_file) _ _ m.files _
              (files-Codec.reads m.files fs rest good.files two));
  writes = λ b m rest hb e.
      let (dirs, r, one, e1) = bind-eq-ok (take_list take_dir) _ b e in
      let k = dirs-Codec.writes b dirs r hb one in
      let (files, r1, two, e2) = bind-eq-ok (take_list take_file) _ r e1 in
      let k1 = files-Codec.writes r files r1 k.bytes two in
      let whole : ◌≡◌ {A = MountManifest} (record { dirs = dirs; files = files }) m = cc in
      let left : r1 ≡ rest = cc in
      subst (λ x. Came encode ManifestFits b x rest) whole
        (record {
          wire = k.wire ++ k1.wire;
          wrote = rw k.wrote (rw k1.wrote);
          split = cc (k.split, k1.split, append_assoc k.wire k1.wire rest);
          good = record { dirs = k.good; files = k1.good };
          bytes = subst (All IsByte) left k1.bytes;
        });
  bytes = λ m w good e.
      let (ds, one, more) = >>=-eq-ok (write_list write_dir m.dirs) _ e in
      let (fs, two, same) = >>=-eq-ok (write_list write_file m.files) _ more in
      let u : ds ++ fs ≡ w = cc in
      subst (All IsByte) u (
        All-append IsByte ds fs (dirs-Codec.bytes m.dirs ds good.dirs one)
          (files-Codec.bytes m.files fs good.files two));
}

-- A manifest whose fields fit their types and that `encode` accepts is read back by `decode`.
pub decode-encode :
    (m : MountManifest) (b : List ℕ) → ManifestFits m → encode m ≡ ok b → decode b ≡ ok m
unfolding decode
decode-encode m b good e =
    let r : take_manifest b ≡ ok (m, []) =
      subst (λ x. take_manifest x ≡ ok (m, [])) (append-nil b)
        (manifest-Codec.reads m b [] good e) in
    rw r

-- On bytes, `decode` accepts nothing but what `encode` writes: whatever decodes to a manifest is the
-- encoding of that manifest, and the manifest's fields fit their types.
pub encode-decode :
    (b : List ℕ) (m : MountManifest)
    → All IsByte b
    → decode b ≡ ok m
    → (encode m ≡ ok b) × ManifestFits m
unfolding decode
encode-decode b m hb e =
    let whole = finish-eq-ok (take_manifest b) m e in
    let k = manifest-Codec.writes b m [] hb whole in
    (k.wrote ∙ ap ok (sym (k.split ∙ append-nil k.wire)), k.good)
