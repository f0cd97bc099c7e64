-- ===== src/Live/Mirror.antt =====
-- `LiveTree::mirrored` of crates/agent-share/src/mount/live.rs: a peer that re-serves somebody else's
-- manifest from a copy on disk. The file system is a parameter: the length of the file at a path.
use mathlib.Core.Path.{subst}
use agent_share.Prelude.{
  ℕ, suc, zero, length, length-map, arith, ltb, ◌+◌, ◌≡◌, refl, ap, sym, ◌∙◌, List, [], ◌∷◌, ◌++◌,
  map, Bool, false, Option, none, some, Result, ok, get_elem?, ◌==◌, if◌then◌else◌, ◌>>=◌,
  >>=-eq-ok, Bool-cases, ==_iff, inl, inr,
}
use agent_share.Manifest
use agent_share.Manifest.{FileEntry, MountManifest, is_tombstone}
use agent_share.Manifest.Apply.Dirs.{Distinct}
use agent_share.Manifest.RoundTrip.{ManifestFits, decode-encode}
use agent_share.Authorship
use agent_share.Authorship.{Scheme, SignedManifest}
use agent_share.Authorship.Envelope.{EnvelopeFits, decode_envelope-encode_envelope}
use agent_share.Live.{
  TreeState, LiveTree, index_files, path_of, deltas_since, collect_chain, reached,
}
use agent_share.Live.Slots.Stable.{TreeFits}
use agent_share.Live.Slots.Startup.{file_paths, index_files-SlotsFit}

abbrev pub ends_in_slash : List ℕ → Bool
ends_in_slash [] = false
ends_in_slash (b ∷ []) = b == 47
ends_in_slash (a ∷ b ∷ bs) = ends_in_slash (b ∷ bs)

-- `Path::join` on Unix: an absolute path replaces the root.
unfoldable pub join : List ℕ → List ℕ → List ℕ
join [] rel = rel
join (r ∷ root) [] = if ends_in_slash (r ∷ root) then r ∷ root else (r ∷ root) ++ (47 ∷ [])
join (r ∷ root) (b ∷ rel) =
    if b == 47
    then b ∷ rel
    else if ends_in_slash (r ∷ root)
    then (r ∷ root) ++ (b ∷ rel)
    else (r ∷ root) ++ (47 ∷ b ∷ rel)

module _ (metadata : List ℕ → Option ℕ) (root : List ℕ) where
  -- `Ok(meta) if meta.len() == file.size`
  unfoldable pub whole_copy : Option ℕ → ℕ → List ℕ → Option (List ℕ)
  whole_copy none size path = none
  whole_copy (some len) size path = if len == size then some path else none

  unfoldable pub copy_of : FileEntry → Option (List ℕ)
  unfolding whole_copy
  copy_of file =
      if is_tombstone file
      then none
      else whole_copy (metadata (join root file.rel_path)) file.size (join root file.rel_path)

  module _ (scheme : Scheme) where
    abbrev pub mirror_of : List ℕ → SignedManifest → MountManifest → LiveTree scheme
    mirror_of envelope origin manifest = record {
      author = none;
      state = record {
        dirs = manifest.dirs;
        files = manifest.files;
        served = map copy_of manifest.files;
        index_of = index_files 0 manifest.files [];
        encoded = origin.manifest;
        version = origin.version;
        envelope = envelope;
        signature = origin.signature;
        history = [];
        history_bytes = 0;
      };
    }

    unfoldable pub mirrored : List ℕ → Result (LiveTree scheme)
    mirrored envelope = do
      origin ← Authorship.decode envelope
      manifest ← Manifest.decode origin.manifest
      ok (mirror_of envelope origin manifest)

-- `LiveTree::coverage`: the slots that have a path, and the live ones.
unfoldable pub count_served : List (Option (List ℕ)) → ℕ
count_served [] = 0
count_served (none ∷ served) = count_served served
count_served (some path ∷ served) = 1 + count_served served

unfoldable pub count_live : List FileEntry → ℕ
count_live [] = 0
count_live (f ∷ files) = if is_tombstone f then count_live files else 1 + count_live files

unfoldable pub coverage : TreeState → ℕ × ℕ
unfolding count_served count_live
coverage state = (count_served state.served, count_live state.files)

module _ (scheme : Scheme) (metadata : List ℕ → Option ℕ) (root : List ℕ) where
  pub mirrored-mirror_of :
      (origin : SignedManifest) (manifest : MountManifest)
      → EnvelopeFits origin
      → ManifestFits manifest
      → Manifest.encode manifest ≡ ok origin.manifest
      → mirrored metadata root scheme (Authorship.encode origin)
        ≡ ok (mirror_of metadata root scheme (Authorship.encode origin) origin manifest)
  unfolding mirrored
  mirrored-mirror_of origin manifest he hm wrote =
      rw (decode_envelope-encode_envelope origin he)
        (rw (decode-encode manifest origin.manifest hm wrote) refl)

  -- A tree that says what an origin sealed, and cannot seal anything itself.
  pub record Repeats (origin : SignedManifest) (manifest : MountManifest) (tree : LiveTree scheme)
      : Type 0 where
    pub keyless : tree.author ≡ none
    pub dirs : tree.state.dirs ≡ manifest.dirs
    pub files : tree.state.files ≡ manifest.files
    pub version : tree.state.version ≡ origin.version
    pub signature : tree.state.signature ≡ origin.signature
    pub encoded : tree.state.encoded ≡ origin.manifest
    pub envelope : Authorship.decode tree.state.envelope ≡ ok origin
    pub slots : length tree.state.served ≡ length manifest.files
    pub deltas :
        (since : ℕ)
        → deltas_since tree.state since
          ≡ (if since == origin.version then some (origin.version, origin.signature, []) else none)

  deltas_since-empty :
      (state : TreeState) (since : ℕ)
      → state.history ≡ []
      → deltas_since state since
        ≡ (if since == state.version then some (state.version, state.signature, []) else none)
  unfolding deltas_since collect_chain reached
  deltas_since-empty state since h = elim (Bool-cases (ltb state.version since)) [
    | inl ahead ↦
        let other : (since == state.version) ≡ false = ground arith in rw ahead (rw other refl)
    | inr behind ↦ elim (Bool-cases (since == state.version)) [
      | inl here ↦ rw behind (rw here refl)
      | inr other ↦
          let missing : ltb state.version (since + 1) ≡ false = ground arith in
          rw behind (rw other (rw (h, collect_chain) (rw (missing, reached) refl)))
    ]
  ]

  -- A mirror opens on every envelope that an origin seals over a manifest within its types. Its tree
  -- has the origin's directories, files, version, signature and manifest bytes, its envelope decodes to
  -- the origin's, it has a place for every slot and no key of its own, and it has no delta for anybody:
  -- a consumer of the origin's version is up to date, and one of any other version has to take the
  -- whole manifest.
  pub mirrored_is_the_origin :
      (origin : SignedManifest) (manifest : MountManifest)
      → EnvelopeFits origin
      → ManifestFits manifest
      → Manifest.encode manifest ≡ ok origin.manifest
      → (tree : LiveTree scheme) × (mirrored metadata root scheme (Authorship.encode origin)
          ≡ ok tree)
        × Repeats origin manifest tree
  mirrored_is_the_origin origin manifest he hm wrote =
      let tree = mirror_of metadata root scheme (Authorship.encode origin) origin manifest in
      (
        tree,
        mirrored-mirror_of origin manifest he hm wrote,
        record {
          keyless = refl;
          dirs = refl;
          files = refl;
          version = refl;
          signature = refl;
          encoded = refl;
          envelope = decode_envelope-encode_envelope origin he;
          slots = length-map (copy_of metadata root) manifest.files;
          deltas = λ since. deltas_since-empty tree.state since refl;
        },
      )

  pub copy_of-whole :
      (f : FileEntry) (p : List ℕ)
      → copy_of metadata root f ≡ some p
      → (is_tombstone f ≡ false) × (p ≡ join root f.rel_path) × (metadata p ≡ some f.size)
  unfolding copy_of whole_copy
  copy_of-whole f p h = elim (Bool-cases (is_tombstone f)) [
    | inl dead ↦ let k : ◌≡◌ {A = Option (List ℕ)} none (some p) = rw dead at h in cc
    | inr live ↦ go live (metadata (join root f.rel_path)) refl (rw live at h)
  ]
    where
      go :
          is_tombstone f ≡ false
          → (o : Option ℕ) → metadata (join root f.rel_path) ≡ o
          → whole_copy metadata root o f.size (join root f.rel_path) ≡ some p
          → (is_tombstone f ≡ false) × (p ≡ join root f.rel_path) × (metadata p ≡ some f.size)
      go live none e k = cc
      go live (some len) e k = elim (Bool-cases (len == f.size)) [
        | inl same ↦
            let q : ◌≡◌ {A = Option (List ℕ)} (some (join root f.rel_path)) (some p) =
              rw same at k in
            let at : join root f.rel_path ≡ p = cc in
            let size : len ≡ f.size = (==_iff len f.size).0 same in
            (live, sym at, subst (λ x. metadata x ≡ some f.size) at (e ∙ ap some size))
        | inr other ↦ let q : ◌≡◌ {A = Option (List ℕ)} none (some p) = rw other at k in cc
      ]

  slot_of :
      (files : List FileEntry) (i : ℕ) (p : List ℕ)
      → get_elem? (map (copy_of metadata root) files) i ≡ some (some p)
      → (f : FileEntry) × (get_elem? files i ≡ some f) × (copy_of metadata root f ≡ some p)
  slot_of [] i p h = cc
  slot_of (f ∷ files) zero p h = (f, refl, cc)
  slot_of (f ∷ files) (suc i) p h = slot_of files i p h

  -- A mirror has a path for an index only if the origin's slot is live and the copy has the size that
  -- the origin published.
  pub mirrored_serves_whole_files :
      (envelope p : List ℕ) (tree : LiveTree scheme) (i : ℕ)
      → mirrored metadata root scheme envelope ≡ ok tree
      → path_of tree.state i ≡ some p
      → (f : FileEntry) × (get_elem? tree.state.files i ≡ some f)
        × (is_tombstone f ≡ false)
        × (p ≡ join root f.rel_path)
        × (metadata p ≡ some f.size)
  unfolding mirrored path_of
  mirrored_serves_whole_files envelope p tree i h k =
      let (origin, e1, h1) = >>=-eq-ok (Authorship.decode envelope) _ h in
      let (manifest, e2, h2) = >>=-eq-ok (Manifest.decode origin.manifest) _ h1 in
      let same : mirror_of metadata root scheme envelope origin manifest ≡ tree = cc in
      subst
        (λ (t : LiveTree scheme).
          path_of t.state i ≡ some p
          → (f : FileEntry) × (get_elem? t.state.files i ≡ some f)
            × (is_tombstone f ≡ false)
            × (p ≡ join root f.rel_path)
            × (metadata p ≡ some f.size))
        same
        (λ q.
          served origin manifest (get_elem? (map (copy_of metadata root) manifest.files) i) refl q)
        k
    where
      served :
          (origin : SignedManifest) (manifest : MountManifest) (o : Option (Option (List ℕ)))
          → get_elem? (map (copy_of metadata root) manifest.files) i ≡ o
          → (elim o [ none ↦ none | some slot ↦ slot ]) ≡ some p
          → (f : FileEntry) × (get_elem? manifest.files i ≡ some f)
            × (is_tombstone f ≡ false)
            × (p ≡ join root f.rel_path)
            × (metadata p ≡ some f.size)
      served origin manifest none e q = cc
      served origin manifest (some slot) e q =
          let (f, at, copy) = slot_of manifest.files i p (e ∙ ap some q) in
          let (live, path, size) = copy_of-whole f p copy in (f, at, live, path, size)

  -- A mirror of a manifest without a repeated path satisfies the slots' invariant.
  pub mirrored-Fits :
      (envelope : List ℕ) (tree : LiveTree scheme)
      → mirrored metadata root scheme envelope ≡ ok tree
      → Distinct (file_paths tree.state.files)
      → TreeFits tree.state
  unfolding mirrored
  mirrored-Fits envelope tree h d =
      let (origin, e1, h1) = >>=-eq-ok (Authorship.decode envelope) _ h in
      let (manifest, e2, h2) = >>=-eq-ok (Manifest.decode origin.manifest) _ h1 in
      let same : mirror_of metadata root scheme envelope origin manifest ≡ tree = cc in
      subst (λ (t : LiveTree scheme). Distinct (file_paths t.state.files) → TreeFits t.state) same
        (index_files-SlotsFit manifest.files) d
