-- ===== src/Manifest/Delta/RoundTrip.antt =====
-- The encoding of a delta: it is read back, and it is the only encoding that is read.
use mathlib.Core.Path.{subst}
use mathlib.Core.List.{append-nil, append_assoc}
use agent_share.Prelude.{ℕ, ◌≡◌, refl, ap, sym, ◌∙◌, List, [], ◌++◌, ok, All, All-append, >>=-eq-ok}
use agent_share.Wire.Words.{IsByte, le_bytes, le_bytes-IsByte, IsU32}
use agent_share.Wire.Cursor.{take_u32, take_path, take_list}
use agent_share.Wire.Writer.{write_path, write_list}
use agent_share.Wire.Codec.{
  Came, Codec, IsText, bind-eq-ok, bind-reads, IsU32-Codec, path-Codec, list-Codec, finish-eq-ok,
  join, pure-eq-ok,
}
use agent_share.Manifest.{FileEntry, write_dir, write_file, take_dir, take_file}
use agent_share.Manifest.Entries.{DirFits, FileFits, dir-Codec, file-Codec}
use agent_share.Manifest.Delta.{
  ManifestDelta, write_slot, take_slot, write_index, encode, take_delta, decode,
}

abbrev pub SlotFits : ℕ × FileEntry → Type 0
SlotFits (index, file) = IsU32 index × FileFits file

pub record DeltaFits (d : ManifestDelta) : Type 0 where
  pub dirs_upserted : All DirFits d.dirs_upserted
  pub dirs_removed : All IsText d.dirs_removed
  pub files_upserted : All SlotFits d.files_upserted
  pub files_removed : All IsU32 d.files_removed

slot-Codec : Codec take_slot write_slot SlotFits
unfolding take_slot write_slot
slot-Codec = record {
  reads = λ (index, f) w rest good e.
      let (v, one, same) = >>=-eq-ok (write_file f) _ e in
      let shape : w ++ rest ≡ le_bytes 4 index ++ (v ++ rest) =
        cc (same, append_assoc (le_bytes 4 index) v rest) in
      subst (λ x. take_slot x ≡ ok ((index, f), rest)) (sym shape)
        (bind-reads take_u32 _ _ index _
            (IsU32-Codec.reads index (le_bytes 4 index) (v ++ rest) good.0 refl)
          ∙ bind-reads take_file _ _ f _ (file-Codec.reads f v rest good.1 one));
  writes = λ b (i, f) rest hb e.
      let (index, r, one, e1) = bind-eq-ok take_u32 _ b e in
      let k = IsU32-Codec.writes b index r hb one in
      let (file, r1, two, e2) = bind-eq-ok take_file _ r e1 in
      let k1 = file-Codec.writes r file r1 k.bytes two in
      let whole : ◌≡◌ {A = ℕ × FileEntry} (index, file) (i, f) = cc in
      let left : r1 ≡ rest = cc in
      subst (λ x. Came write_slot SlotFits b x rest) whole
        (record {
          wire = le_bytes 4 index ++ k1.wire;
          wrote = rw k1.wrote;
          split = cc (k.split, k1.split, k.wrote, append_assoc (le_bytes 4 index) k1.wire rest);
          good = (k.good, k1.good);
          bytes = subst (All IsByte) left k1.bytes;
        });
  bytes = λ (index, f) w good e.
      let (v, one, same) = >>=-eq-ok (write_file f) _ e in
      let u : le_bytes 4 index ++ v ≡ w = cc in
      subst (All IsByte) u (
        All-append IsByte (le_bytes 4 index) v (le_bytes-IsByte 4 index)
          (file-Codec.bytes f v good.1 one));
}

abbrev upserted-Codec : Codec (take_list take_dir) (write_list write_dir) (All DirFits)
upserted-Codec = list-Codec dir-Codec

abbrev removed-Codec : Codec (take_list take_path) (write_list write_path) (All IsText)
removed-Codec = list-Codec path-Codec

abbrev slots-Codec : Codec (take_list take_slot) (write_list write_slot) (All SlotFits)
slots-Codec = list-Codec slot-Codec

abbrev indices-Codec : Codec (take_list take_u32) (write_list write_index) (All IsU32)
indices-Codec = list-Codec IsU32-Codec

-- The four parts of an encoded delta.
record Parts (d : ManifestDelta) (w : List ℕ) : Type 0 where
  a : List ℕ
  b : List ℕ
  c : List ℕ
  e : List ℕ
  first : write_list write_dir d.dirs_upserted ≡ ok a
  second : write_list write_path d.dirs_removed ≡ ok b
  third : write_list write_slot d.files_upserted ≡ ok c
  fourth : write_list write_index d.files_removed ≡ ok e
  joined : a ++ (b ++ (c ++ e)) ≡ w

encode-Parts : (d : ManifestDelta) (w : List ℕ) → encode d ≡ ok w → Parts d w
unfolding encode
encode-Parts d w h =
    let (a, first, h1) = >>=-eq-ok (write_list write_dir d.dirs_upserted) _ h in
    let (b, second, h2) = >>=-eq-ok (write_list write_path d.dirs_removed) _ h1 in
    let (c, third, h3) = >>=-eq-ok (write_list write_slot d.files_upserted) _ h2 in
    let (e, fourth, h4) = >>=-eq-ok (write_list write_index d.files_removed) _ h3 in
    record {
      a = a;
      b = b;
      c = c;
      e = e;
      first = first;
      second = second;
      third = third;
      fourth = fourth;
      joined = cc;
    }

pub delta-Codec : Codec take_delta encode DeltaFits
unfolding take_delta
delta-Codec = record {
  reads = λ d w rest good h.
      let p = encode-Parts d w h in
      let shape : w ++ rest ≡ p.a ++ (p.b ++ (p.c ++ (p.e ++ rest))) = cc (
        p.joined,
        append_assoc p.a (p.b ++ (p.c ++ p.e)) rest,
        append_assoc p.b (p.c ++ p.e) rest,
        append_assoc p.c p.e rest,
      ) in
      subst (λ x. take_delta x ≡ ok (d, rest)) (sym shape)
        (bind-reads (take_list take_dir) _ _ d.dirs_upserted _ (
            upserted-Codec.reads d.dirs_upserted p.a (p.b ++ (p.c ++ (p.e ++ rest)))
              good.dirs_upserted p.first)
          ∙ bind-reads (take_list take_path) _ _ d.dirs_removed _ (
              removed-Codec.reads d.dirs_removed p.b (p.c ++ (p.e ++ rest)) good.dirs_removed
                p.second)
          ∙ bind-reads (take_list take_slot) _ _ d.files_upserted _
              (slots-Codec.reads d.files_upserted p.c (p.e ++ rest) good.files_upserted p.third)
          ∙ bind-reads (take_list take_u32) _ _ d.files_removed _
              (indices-Codec.reads d.files_removed p.e rest good.files_removed p.fourth));
  writes = λ b d rest hb h.
      let (upserted, r1, one, h1) = bind-eq-ok (take_list take_dir) _ b h in
      let k1 = upserted-Codec.writes b upserted r1 hb one in
      let (removed, r2, two, h2) = bind-eq-ok (take_list take_path) _ r1 h1 in
      let k2 = removed-Codec.writes r1 removed r2 k1.bytes two in
      let (slots, r3, three, h3) = bind-eq-ok (take_list take_slot) _ r2 h2 in
      let k3 = slots-Codec.writes r2 slots r3 k2.bytes three in
      let (indices, r4, four, h4) = bind-eq-ok (take_list take_u32) _ r3 h3 in
      let k4 = indices-Codec.writes r3 indices r4 k3.bytes four in
      let (whole, left) = pure-eq-ok r4 h4 in
      subst (λ x. Came encode DeltaFits b x rest) whole
        (record {
          wire = k1.wire ++ (k2.wire ++ (k3.wire ++ k4.wire));
          wrote = unfold encode in rw k1.wrote (rw k2.wrote (rw k3.wrote (rw k4.wrote)));
          split = join k1.wire _ rest k1.split (
              join k2.wire _ rest k2.split
                (join k3.wire _ rest k3.split (subst (λ x. r3 ≡ k4.wire ++ x) left k4.split)));
          good = record {
            dirs_upserted = k1.good;
            dirs_removed = k2.good;
            files_upserted = k3.good;
            files_removed = k4.good;
          };
          bytes = subst (All IsByte) left k4.bytes;
        });
  bytes = λ d w good h.
      let p = encode-Parts d w h in
      subst (All IsByte) p.joined (
        All-append IsByte p.a _ (upserted-Codec.bytes _ p.a good.dirs_upserted p.first) (
          All-append IsByte p.b _ (removed-Codec.bytes _ p.b good.dirs_removed p.second) (
            All-append IsByte p.c _ (slots-Codec.bytes _ p.c good.files_upserted p.third)
              (indices-Codec.bytes _ p.e good.files_removed p.fourth))));
}

-- A delta whose fields fit their types and that `encode` accepts is read back by `decode`.
pub decode_delta-encode_delta :
    (d : ManifestDelta) (b : List ℕ) → DeltaFits d → encode d ≡ ok b → decode b ≡ ok d
unfolding decode
decode_delta-encode_delta d b good e =
    let r : take_delta b ≡ ok (d, []) =
      subst (λ x. take_delta x ≡ ok (d, [])) (append-nil b) (delta-Codec.reads d b [] good e) in
    rw r

-- On bytes, whatever decodes to a delta is the encoding of that delta, whose fields fit their types.
pub encode_delta-decode_delta :
    (b : List ℕ) (d : ManifestDelta)
    → All IsByte b
    → decode b ≡ ok d
    → (encode d ≡ ok b) × DeltaFits d
unfolding decode
encode_delta-decode_delta b d hb e =
    let whole = finish-eq-ok (take_delta b) d e in
    let k = delta-Codec.writes b d [] hb whole in
    (k.wrote ∙ ap ok (sym (k.split ∙ append-nil k.wire)), k.good)
