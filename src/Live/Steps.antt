-- ===== src/Live/Steps.antt =====
-- `LiveTree::apply` taken apart: the rescan, and what publishing changes.
use mathlib.Core.Path.{subst}
use agent_share.Prelude.{
  ℕ, ◌+◌, ◌%◌, ◌^◌, ◌≡◌, inl, inr, refl, List, [], ◌∷◌, true, false, Option, none, some, Result, ok,
  length, leb, Bool-cases, >>=-eq-ok, map,
}
use agent_share.Manifest
use agent_share.Manifest.{DirEntry, MountManifest}
use agent_share.Manifest.Delta
use agent_share.Manifest.Delta.{ManifestDelta}
use agent_share.Framing.Since
use agent_share.Framing.Since.{max_delta_bytes}
use agent_share.Authorship
use agent_share.Authorship.{Scheme, sealed}
use agent_share.Watch.{watch_frame_delta}
use agent_share.Live.{
  TreeState, LiveTree, Folded, fold_scan, fold_rescan, reseal, publish, delta_frame, remember,
  forget_history, manifest_frame, apply,
}
use agent_share.Live.Rescan.{
  Scan, scan_files, vanished, tombstone_files, previous_dirs, changed_dirs, removed_dirs,
}

abbrev pub start : TreeState → Scan
start state = record {
  files = state.files;
  served = state.served;
  index_of = state.index_of;
  live_slots = [];
  upserted = [];
}

-- What a rescan of `manifest` into `state` makes, from the loop's last state.
pub record IsFolded (state : TreeState) (manifest : MountManifest) (scan : Scan)
    (folded : TreeState) (delta : ManifestDelta) : Type 0 where
  pub dirs : folded.dirs ≡ manifest.dirs
  pub files : folded.files ≡ tombstone_files (vanished 0 scan.files scan.live_slots) scan.files
  pub index_of : folded.index_of ≡ scan.index_of
  pub version : folded.version ≡ state.version
  pub encoded : folded.encoded ≡ state.encoded
  pub history : folded.history ≡ state.history
  pub upserted : delta.dirs_upserted ≡ changed_dirs (previous_dirs state.dirs []) manifest.dirs
  pub removed :
      delta.dirs_removed
      ≡ removed_dirs (map (λ (d : DirEntry). d.rel_path) manifest.dirs) state.dirs
  pub slots : delta.files_upserted ≡ scan.upserted
  pub gone : delta.files_removed ≡ vanished 0 scan.files scan.live_slots

-- What publishing leaves alone.
pub record SameTree (a b : TreeState) : Type 0 where
  pub dirs : b.dirs ≡ a.dirs
  pub files : b.files ≡ a.files
  pub index_of : b.index_of ≡ a.index_of

module _ (scheme : Scheme) where
  open scheme use {SecretKey}

  pub fold_rescan-eq-ok :
      (state : TreeState) (manifest : MountManifest) (paths : List (List ℕ))
      (folded : Folded scheme)
      → fold_rescan scheme state manifest paths ≡ ok folded
      → (scan : Scan) × (scan_files manifest.files paths (start state) ≡ ok scan)
        × IsFolded state manifest scan folded.state folded.delta
  unfolding fold_rescan
  fold_rescan-eq-ok state manifest paths folded e =
      let (scan, loop, same) = >>=-eq-ok (scan_files manifest.files paths (start state)) _ e in
      let whole : fold_scan scheme state manifest scan ≡ folded = cc in
      (
        scan,
        loop,
        subst (λ (x : Folded scheme). IsFolded state manifest scan x.state x.delta) whole
            (record {
              dirs = refl;
              files = refl;
              index_of = refl;
              version = refl;
              encoded = refl;
              history = refl;
              upserted = refl;
              removed = refl;
              slots = refl;
              gone = refl;
            }),
      )

  -- The state that `reseal` makes from the refreshed bytes.
  pub record IsResealed (author : Option SecretKey) (a b : TreeState) : Type 0 where
    pub refreshed : Manifest.encode (record { dirs = a.dirs; files = a.files }) ≡ ok b.encoded
    pub version : b.version ≡ (a.version + 1) % 2 ^ 64
    pub signature : b.signature ≡ (sealed scheme author b.version b.encoded).signature
    pub envelope : b.envelope ≡ Authorship.encode (sealed scheme author b.version b.encoded)
    pub tree : SameTree a b
    pub history : b.history ≡ a.history

  pub reseal-eq-ok :
      (author : Option SecretKey) (a b : TreeState)
      → reseal scheme author a ≡ ok b
      → IsResealed author a b
  unfolding reseal
  reseal-eq-ok author a b e =
      let (refreshed, encoded, same) =
        >>=-eq-ok (Manifest.encode (record { dirs = a.dirs; files = a.files })) _ e in
      let version : ℕ = (a.version + 1) % 2 ^ 64 in
      let made : TreeState = record a {
        encoded = refreshed;
        version = version;
        envelope = Authorship.encode (sealed scheme author version refreshed);
        signature = (sealed scheme author version refreshed).signature;
      } in
      let whole : made ≡ b = cc in
      subst (IsResealed author a) whole (record {
        refreshed = encoded;
        version = refl;
        signature = refl;
        envelope = refl;
        tree = record { dirs = refl; files = refl; index_of = refl };
        history = refl;
      })

  -- What is published: the resealed state, and a frame of the one kind or the other.
  pub data IsPublished (delta : ManifestDelta) (b c : TreeState) (frame : List ℕ) : Type 0 where
    as_delta :
        (body since : List ℕ)
        → Delta.encode delta ≡ ok body
        → Since.encode
            (record { target_version = b.version; signature = b.signature; deltas = body ∷ [] })
          ≡ ok since
        → leb (length body) max_delta_bytes ≡ true
        → c ≡ remember body b
        → frame ≡ watch_frame_delta ∷ since
        → IsPublished delta b c frame
    as_manifest :
        c ≡ forget_history b → frame ≡ manifest_frame b.envelope → IsPublished delta b c frame

  pub publish-eq-ok :
      (author : Option SecretKey) (folded : Folded scheme) (c : TreeState) (frame : List ℕ)
      → publish scheme author folded ≡ ok (c, frame)
      → (b : TreeState) × IsResealed author folded.state b × IsPublished folded.delta b c frame
  unfolding publish delta_frame
  publish-eq-ok author folded c frame e =
      let (b, resealed, e1) = >>=-eq-ok (reseal scheme author folded.state) _ e in
      let (body, encoded, e2) = >>=-eq-ok (Delta.encode folded.delta) _ e1 in
      elim (Bool-cases (leb (length body) max_delta_bytes)) [
        | inl small ↦
            let (since, packed, e3) =
              >>=-eq-ok
                (Since.encode (record {
                  target_version = b.version;
                  signature = b.signature;
                  deltas = body ∷ [];
                }))
                _ (rw small at e2) in
            (
              b,
              reseal-eq-ok author folded.state b resealed,
              as_delta body since encoded packed small (cc) (cc),
            )
        | inr large ↦
            let k : ◌≡◌ {A = Result (TreeState × List ℕ)}
                (ok (forget_history b, manifest_frame b.envelope)) (ok (c, frame)) =
              rw large at e2 in
            (b, reseal-eq-ok author folded.state b resealed, as_manifest (cc) (cc))
      ]

  -- `apply` either finds no change, and keeps what is published; or publishes one frame.
  pub data Applied (tree : LiveTree scheme) (manifest : MountManifest) (scan : Scan)
      (after : LiveTree scheme) : Option (List ℕ) → Type 0 where
    quiet :
        (folded : Folded scheme)
        → IsFolded tree.state manifest scan folded.state folded.delta
        → Delta.is_empty folded.delta ≡ true
        → after ≡ record tree { state = folded.state }
        → Applied tree manifest scan after none
    changed :
        (folded : Folded scheme) (b c : TreeState) (frame : List ℕ)
        → IsFolded tree.state manifest scan folded.state folded.delta
        → Delta.is_empty folded.delta ≡ false
        → IsResealed tree.author folded.state b
        → IsPublished folded.delta b c frame
        → after ≡ record tree { state = c }
        → Applied tree manifest scan after (some frame)

  pub apply-eq-ok :
      (tree after : LiveTree scheme) (manifest : MountManifest) (paths : List (List ℕ))
      (sent : Option (List ℕ))
      → apply scheme tree manifest paths ≡ ok (after, sent)
      → (scan : Scan) × (scan_files manifest.files paths (start tree.state) ≡ ok scan)
        × Applied tree manifest scan after sent
  unfolding apply
  apply-eq-ok tree after manifest paths sent e =
      let (folded, rescanned, e1) = >>=-eq-ok (fold_rescan scheme tree.state manifest paths) _ e in
      let (scan, loop, is) = fold_rescan-eq-ok tree.state manifest paths folded rescanned in
      elim (Bool-cases (Delta.is_empty folded.delta)) [
        | inl empty ↦
            let k : ◌≡◌ {A = Result (LiveTree scheme × Option (List ℕ))}
                (ok (record tree { state = folded.state }, none)) (ok (after, sent)) =
              rw empty at e1 in
            let said : none ≡ sent = cc in
            (scan, loop, subst (Applied tree manifest scan after) said (quiet folded is empty (cc)))
        | inr some_change ↦
            let ((c, frame), published, e2) =
              >>=-eq-ok (publish scheme tree.author folded) _ (rw some_change at e1) in
            let (b, resealed, how) = publish-eq-ok tree.author folded c frame published in
            let said : some frame ≡ sent = cc in
            (
              scan,
              loop,
              subst (Applied tree manifest scan after) said
                  (changed folded b c frame is some_change resealed how (cc)),
            )
      ]
