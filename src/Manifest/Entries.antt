-- ===== src/Manifest/Entries.antt =====
-- The encodings of a directory entry and of a file entry.
use mathlib.Core.Path.{subst}
use mathlib.Core.List.{append_assoc}
use agent_share.Prelude.{ℕ, ◌≡◌, refl, sym, ◌∙◌, List, ◌++◌, ok, All, All-append, >>=-eq-ok}
use agent_share.Wire.Words.{IsByte, le_bytes, le_bytes-IsByte, IsU32, IsU64, IsI64, to_bits}
use agent_share.Wire.Cursor.{take_u32, take_u64, take_i64, take_path}
use agent_share.Wire.Writer.{write_path}
use agent_share.Wire.Codec.{
  Came, Codec, IsText, bind-eq-ok, bind-reads, IsU32-Codec, IsU64-Codec, IsI64-Codec, path-Codec,
}
use agent_share.Manifest.{DirEntry, FileEntry, write_dir, write_file, take_dir, take_file}

-- What the types of the fields give: `u32`, `u64`, `i64` and `String`.
pub record DirFits (d : DirEntry) : Type 0 where
  pub path : IsText d.rel_path
  pub mode : IsU32 d.mode
  pub mtime : IsI64 d.mtime

pub record FileFits (f : FileEntry) : Type 0 where
  pub path : IsText f.rel_path
  pub size : IsU64 f.size
  pub mode : IsU32 f.mode
  pub mtime : IsI64 f.mtime

pub dir-Codec : Codec take_dir write_dir DirFits
unfolding take_dir write_dir
dir-Codec = record {
  reads = λ d w rest good e.
      let (p, named, same) = >>=-eq-ok (write_path d.rel_path) _ e in
      let mode : List ℕ = le_bytes 4 d.mode in
      let time : List ℕ = le_bytes 8 (to_bits d.mtime) in
      let shape : w ++ rest ≡ p ++ (mode ++ (time ++ rest)) =
        cc (same, append_assoc p (mode ++ time) rest, append_assoc mode time rest) in
      subst (λ x. take_dir x ≡ ok (d, rest)) (sym shape)
        (bind-reads take_path _ _ d.rel_path _
            (path-Codec.reads d.rel_path p (mode ++ (time ++ rest)) good.path named)
          ∙ bind-reads take_u32 _ _ d.mode _
              (IsU32-Codec.reads d.mode mode (time ++ rest) good.mode refl)
          ∙ bind-reads take_i64 _ _ d.mtime _
              (IsI64-Codec.reads d.mtime time rest good.mtime refl));
  writes = λ b d rest hb e.
      let (path, r, named, e1) = bind-eq-ok take_path _ b e in
      let k = path-Codec.writes b path r hb named in
      let (mode, r1, moded, e2) = bind-eq-ok take_u32 _ r e1 in
      let k1 = IsU32-Codec.writes r mode r1 k.bytes moded in
      let (mtime, r2, timed, e3) = bind-eq-ok take_i64 _ r1 e2 in
      let k2 = IsI64-Codec.writes r1 mtime r2 k1.bytes timed in
      let whole : ◌≡◌ {A = DirEntry} (record { rel_path = path; mode = mode; mtime = mtime }) d =
        cc in
      let left : r2 ≡ rest = cc in
      subst (λ x. Came write_dir DirFits b x rest) whole
        (record {
          wire = k.wire ++ (le_bytes 4 mode ++ le_bytes 8 (to_bits mtime));
          wrote = rw k.wrote;
          split = cc (
            k.split,
            k1.split,
            k2.split,
            k1.wrote,
            k2.wrote,
            append_assoc k.wire (le_bytes 4 mode ++ le_bytes 8 (to_bits mtime)) rest,
            append_assoc (le_bytes 4 mode) (le_bytes 8 (to_bits mtime)) rest,
          );
          good = record { path = k.good; mode = k1.good; mtime = k2.good };
          bytes = subst (All IsByte) left k2.bytes;
        });
  bytes = λ d w good e.
      let (p, named, same) = >>=-eq-ok (write_path d.rel_path) _ e in
      let u : p ++ (le_bytes 4 d.mode ++ le_bytes 8 (to_bits d.mtime)) ≡ w = cc in
      subst (All IsByte) u (
        All-append IsByte p _ (path-Codec.bytes d.rel_path p good.path named) (
          All-append IsByte (le_bytes 4 d.mode) _ (le_bytes-IsByte 4 d.mode)
            (le_bytes-IsByte 8 (to_bits d.mtime))));
}

pub file-Codec : Codec take_file write_file FileFits
unfolding take_file write_file
file-Codec = record {
  reads = λ f w rest good e.
      let (p, named, same) = >>=-eq-ok (write_path f.rel_path) _ e in
      let size : List ℕ = le_bytes 8 f.size in
      let mode : List ℕ = le_bytes 4 f.mode in
      let time : List ℕ = le_bytes 8 (to_bits f.mtime) in
      let shape : w ++ rest ≡ p ++ (size ++ (mode ++ (time ++ rest))) = cc (
        same,
        append_assoc p (size ++ (mode ++ time)) rest,
        append_assoc size (mode ++ time) rest,
        append_assoc mode time rest,
      ) in
      subst (λ x. take_file x ≡ ok (f, rest)) (sym shape)
        (bind-reads take_path _ _ f.rel_path _
            (path-Codec.reads f.rel_path p (size ++ (mode ++ (time ++ rest))) good.path named)
          ∙ bind-reads take_u64 _ _ f.size _
              (IsU64-Codec.reads f.size size (mode ++ (time ++ rest)) good.size refl)
          ∙ bind-reads take_u32 _ _ f.mode _
              (IsU32-Codec.reads f.mode mode (time ++ rest) good.mode refl)
          ∙ bind-reads take_i64 _ _ f.mtime _
              (IsI64-Codec.reads f.mtime time rest good.mtime refl));
  writes = λ b f rest hb e.
      let (path, r, named, e1) = bind-eq-ok take_path _ b e in
      let k = path-Codec.writes b path r hb named in
      let (size, r0, sized, e2) = bind-eq-ok take_u64 _ r e1 in
      let k0 = IsU64-Codec.writes r size r0 k.bytes sized in
      let (mode, r1, moded, e3) = bind-eq-ok take_u32 _ r0 e2 in
      let k1 = IsU32-Codec.writes r0 mode r1 k0.bytes moded in
      let (mtime, r2, timed, e4) = bind-eq-ok take_i64 _ r1 e3 in
      let k2 = IsI64-Codec.writes r1 mtime r2 k1.bytes timed in
      let whole : ◌≡◌ {A = FileEntry}
          (record { rel_path = path; size = size; mode = mode; mtime = mtime }) f =
        cc in
      let left : r2 ≡ rest = cc in
      subst (λ x. Came write_file FileFits b x rest) whole
        (record {
          wire = k.wire ++ (le_bytes 8 size ++ (le_bytes 4 mode ++ le_bytes 8 (to_bits mtime)));
          wrote = rw k.wrote;
          split = cc (
            k.split,
            k0.split,
            k1.split,
            k2.split,
            k0.wrote,
            k1.wrote,
            k2.wrote,
            append_assoc k.wire (le_bytes 8 size ++ (le_bytes 4 mode ++ le_bytes 8 (to_bits mtime)))
                rest,
            append_assoc (le_bytes 8 size) (le_bytes 4 mode ++ le_bytes 8 (to_bits mtime)) rest,
            append_assoc (le_bytes 4 mode) (le_bytes 8 (to_bits mtime)) rest,
          );
          good = record { path = k.good; size = k0.good; mode = k1.good; mtime = k2.good };
          bytes = subst (All IsByte) left k2.bytes;
        });
  bytes = λ f w good e.
      let (p, named, same) = >>=-eq-ok (write_path f.rel_path) _ e in
      let u : p ++ (le_bytes 8 f.size ++ (le_bytes 4 f.mode ++ le_bytes 8 (to_bits f.mtime))) ≡ w =
        cc in
      subst (All IsByte) u (
        All-append IsByte p _ (path-Codec.bytes f.rel_path p good.path named) (
          All-append IsByte (le_bytes 8 f.size) _ (le_bytes-IsByte 8 f.size) (
            All-append IsByte (le_bytes 4 f.mode) _ (le_bytes-IsByte 4 f.mode)
              (le_bytes-IsByte 8 (to_bits f.mtime)))));
}
