-- ===== src/Live/Sync/Frames.antt =====
-- A delta frame from the producer to a consumer that follows it, end to end: `LiveTree::apply`,
-- `ManifestSince::encode`, `apply_watch_frame`.
use mathlib.Core.Path.{subst}
use agent_share.Prelude.{
  ℕ, ◌+◌, ◌%◌, ◌^◌, ◌<◌, ◌≤◌, ◌≡◌, ◌≢◌, ◌↔◌, ◌⊎◌, refl, ap, sym, ◌∙◌, List, [], ◌∷◌, ◌++◌, Bool,
  true, false, Option, none, some, Result, Error, ok, err, length, All, leb, leb→le, le→ltb_false,
  ltb, arith, inl, inr, if◌then◌else◌, ◌==◌,
}
use agent_share.Prelude
use agent_share.Wire.Codec.{IsArray}
use agent_share.Manifest
use agent_share.Manifest.{DirEntry, FileEntry, MountManifest}
use agent_share.Manifest.Entries.{DirFits, FileFits}
use agent_share.Manifest.RoundTrip.{ManifestFits, decode-encode}
use agent_share.Manifest.Delta
use agent_share.Manifest.Delta.{ManifestDelta}
use agent_share.Manifest.Delta.RoundTrip.{DeltaFits, delta-Codec, decode_delta-encode_delta}
use agent_share.Manifest.Apply
use agent_share.Manifest.Apply.Dirs.{Distinct, paths}
use agent_share.Manifest.Apply.Files.{apply-ManifestFits}
use agent_share.Framing.Since
use agent_share.Framing.Since.{ManifestSince, max_delta_bytes}
use agent_share.Framing.Since.RoundTrip.{SinceFits, decode_since-encode_since}
use agent_share.Authorship.{Scheme, SignedManifest, signed_payload, accept, sealed}
use agent_share.Authorship.Binding.{accept-sealed}
use agent_share.Watch.{
  apply_chain, accept_by, apply_since, adopt, apply_watch_frame, watch_frame_delta,
}
use agent_share.Watch.Safety.{CaughtUp, IsTrusted, apply_since_sound}
use agent_share.Live
use agent_share.Live.{TreeState, LiveTree, Folded, remember, manifest_frame}
use agent_share.Live.Rescan.{Scan, scan_files}
use agent_share.Live.Steps.{start, IsFolded, IsResealed, IsPublished, Applied, apply-eq-ok}
use agent_share.Live.Slots.Stable.{TreeFits}
use agent_share.Live.Sync.Order.{consumer_order, apply_exact}
use agent_share.Live.Sync.Fits.{IsFolded-Fits}

abbrev pub tree_of : TreeState → MountManifest
tree_of state = record { dirs = state.dirs; files = state.files }

-- A producer's tree in order.
pub record IsSound (state : TreeState) : Type 0 where
  pub slots : TreeFits state
  pub distinct : Distinct (paths state.dirs)
  pub dirs : All DirFits state.dirs
  pub files : All FileFits state.files
  pub size : length state.files ≤ 2 ^ 32
  pub version : state.version + 1 < 2 ^ 64

-- What a scan of the disk gives: no path twice, and fields within their types.
pub record IsListing (manifest : MountManifest) : Type 0 where
  pub distinct : Distinct (paths manifest.dirs)
  pub fits : ManifestFits manifest

-- A consumer that holds the producer's current version and tree.
pub record Follows (held : SignedManifest) (state : TreeState) : Type 0 where
  pub version : held.version ≡ state.version
  pub tree : Manifest.decode held.manifest ≡ ok (tree_of state)

-- What a frame from a rescan carries.
record Frame (scheme : Scheme) (key : scheme.SecretKey) (state : TreeState)
    (manifest : MountManifest) (after : TreeState) (payload : List ℕ) : Type 1 where
  delta : ManifestDelta
  body : List ℕ
  exact :
      (Apply.apply (tree_of state) delta ≡ tree_of after)
      ↔ (paths manifest.dirs ≡ consumer_order state.dirs manifest.dirs)
  wrote : Delta.encode delta ≡ ok body
  delta_fits : DeltaFits delta
  after_fits : ManifestFits (tree_of after)
  encoded : Manifest.encode (tree_of after) ≡ ok after.encoded
  version : after.version ≡ state.version + 1
  signature : after.signature ≡ (sealed scheme (some key) after.version after.encoded).signature
  answered :
      Since.decode payload
      ≡ ok (record {
        target_version = after.version;
        signature = after.signature;
        deltas = body ∷ [];
      })

module _ (scheme : Scheme) (key : scheme.SecretKey) where
  delta_Frame :
      (state : TreeState) (manifest : MountManifest) (abs : List (List ℕ)) (scan : Scan)
      (folded : Folded scheme) (b : TreeState) (body payload : List ℕ)
      → IsSound state
      → IsListing manifest
      → scan_files manifest.files abs (start state) ≡ ok scan
      → IsFolded state manifest scan folded.state folded.delta
      → IsResealed scheme (some key) folded.state b
      → Delta.encode folded.delta ≡ ok body
      → Since.encode
          (record { target_version = b.version; signature = b.signature; deltas = body ∷ [] })
        ≡ ok payload
      → leb (length body) max_delta_bytes ≡ true
      → Frame scheme key state manifest (remember body b) payload
  unfolding remember
  delta_Frame state manifest abs scan folded b body payload sound listing loop is re wrote packed
        small =
      let fits =
        IsFolded-Fits state folded.state manifest abs scan folded.delta sound.slots sound.dirs
          sound.files sound.size listing.fits loop is in
      let here : tree_of folded.state ≡ tree_of b =
        let d = sym re.tree.dirs in
        let f = sym re.tree.files in λ i. record { dirs = d i; files = f i } in
      let version : b.version ≡ state.version + 1 =
        let v = re.version in let w = is.version in let small = sound.version in omega arith in
      let answer : ManifestSince = record {
        target_version = b.version;
        signature = b.signature;
        deltas = body ∷ [];
      } in
      let since_fits : SinceFits answer = record {
        target = omega (arith, sound.version, version);
        signature =
            subst (IsArray 64) (sym re.signature) (unfold sealed in scheme.sign-IsArray key _);
        deltas = ((delta-Codec.bytes folded.delta body fits.0 wrote, leb→le _ _ small), tt);
      } in
      record {
        delta = folded.delta;
        body = body;
        exact =
            subst
              (λ m.
                (Apply.apply (tree_of state) folded.delta ≡ m)
                ↔ (paths manifest.dirs ≡ consumer_order state.dirs manifest.dirs))
              here
              (apply_exact state folded.state manifest abs scan folded.delta sound.slots
                sound.distinct listing.distinct loop is);
        wrote = wrote;
        delta_fits = fits.0;
        after_fits = subst ManifestFits here fits.1;
        encoded = subst (λ m. Manifest.encode m ≡ ok b.encoded) here re.refreshed;
        version = version;
        signature = re.signature;
        answered = decode_since-encode_since answer payload since_fits packed;
      }

  published_Frame :
      (tree after : LiveTree scheme) (manifest : MountManifest) (abs : List (List ℕ))
      (payload : List ℕ)
      → tree.author ≡ some key
      → IsSound tree.state
      → IsListing manifest
      → Live.apply scheme tree manifest abs ≡ ok (after, some (watch_frame_delta ∷ payload))
      → Frame scheme key tree.state manifest after.state payload
  published_Frame tree after manifest abs payload author sound listing e =
      let (scan, loop, how) = apply-eq-ok scheme tree after manifest abs _ e in
      go scan loop how refl
    where
      go :
          (scan : Scan)
          → scan_files manifest.files abs (start tree.state) ≡ ok scan
          → {sent : Option (List ℕ)} → Applied scheme tree manifest scan after sent
          → sent ≡ some (watch_frame_delta ∷ payload)
          → Frame scheme key tree.state manifest after.state payload
      go scan loop (Applied.quiet folded is empty k) said = cc
      go scan loop (Applied.changed folded b c frame is ch re (IsPublished.as_manifest st fr) k)
            said =
          let other : frame ≡ watch_frame_delta ∷ payload = cc in
          absurd (unfold manifest_frame in ground arith)
      go scan loop
            (Applied.changed folded b c frame is ch re
              (IsPublished.as_delta body since wrote packed small st fr)
              k)
            said =
          let same : since ≡ payload = cc in
          let state : after.state ≡ remember body b =
            ap (λ (t : LiveTree scheme). t.state) k ∙ st in
          subst (λ x. Frame scheme key tree.state manifest x payload) (sym state)
            (delta_Frame tree.state manifest abs scan folded b body payload sound listing loop is
              (subst (λ a. IsResealed scheme a folded.state b) author re) wrote
              (packed ∙ ap ok same) small)

  abbrev pub current : TreeState → SignedManifest
  current after = record {
    version = after.version;
    signature = after.signature;
    manifest = after.encoded;
  }

  module _ (tree after : LiveTree scheme) (manifest : MountManifest) (abs : List (List ℕ))
      (payload : List ℕ) (held : SignedManifest) (author : tree.author ≡ some key)
      (sound : IsSound tree.state) (listing : IsListing manifest)
      (follows : Follows held tree.state)
      (sent : Live.apply scheme tree manifest abs
        ≡ ok (after, some (watch_frame_delta ∷ payload))) where
    frame : Frame scheme key tree.state manifest after.state payload
    frame = published_Frame tree after manifest abs payload author sound listing sent

    answer : ManifestSince
    unfolding frame
    answer = record {
      target_version = after.state.version;
      signature = after.state.signature;
      deltas = frame.body ∷ [];
    }

    believed : Manifest.decode after.state.encoded ≡ ok (tree_of after.state)
    believed =
        decode-encode (tree_of after.state) after.state.encoded frame.after_fits frame.encoded

    chain_lem :
        apply_chain (tree_of tree.state) (frame.body ∷ [])
        ≡ ok (Apply.apply (tree_of tree.state) frame.delta)
    unfolding apply_chain
    chain_lem =
        rw (
          decode_delta-encode_delta frame.delta frame.body frame.delta_fits frame.wrote,
          apply_chain,
        )

    forward : ltb after.state.version held.version ≡ false
    forward =
        let v = frame.version in
        let w = follows.version in le→ltb_false after.state.version held.version (omega arith)

    current-sealed :
        current after.state ≡ sealed scheme (some key) after.state.version after.state.encoded
    unfolding sealed
    current-sealed =
        let s = frame.signature in
        λ i. record {
          version = after.state.version;
          signature = s i;
          manifest = after.state.encoded;
        }

    accepted :
        accept_by scheme (some (scheme.public key)) (current after.state) held.version ≡ ok tt
    unfolding accept_by
    accepted =
        subst (λ x. accept scheme x (scheme.public key) held.version ≡ ok tt) (sym current-sealed)
          (accept-sealed scheme key after.state.version held.version after.state.encoded
            (Prelude.ltb_false→le _ _ forward))

    caught_up :
        Apply.apply (tree_of tree.state) frame.delta ≡ tree_of after.state
        → apply_since scheme held answer (some (scheme.public key)) ≡ ok (current after.state)
    unfolding apply_since answer
    caught_up rebuilt =
        rw forward (rw follows.tree (rw chain_lem (rw rebuilt (rw frame.encoded (rw accepted)))))

    framed :
        (r : Result SignedManifest)
        → apply_since scheme held answer (some (scheme.public key)) ≡ r
        → apply_watch_frame scheme held watch_frame_delta payload (some (scheme.public key))
          ≡ adopt scheme held r
    unfolding apply_watch_frame answer
    framed r e = rw frame.answered (ap (adopt scheme held) e)

    -- A consumer that follows a signed tree takes the delta frame of a rescan, ends up with the
    -- producer's new tree and follows it, if the rescan lists the kept directories in their old order
    -- and the new ones after them.
    pub delta_frame_accepted :
        paths manifest.dirs ≡ consumer_order tree.state.dirs manifest.dirs
        → (apply_watch_frame scheme held watch_frame_delta payload (some (scheme.public key))
            ≡ (current after.state, ok (tree_of after.state)))
          × Follows (current after.state) after.state
    unfolding adopt
    delta_frame_accepted order = (
      framed (ok (current after.state)) (caught_up (frame.exact.1 order)) ∙ rw (believed, adopt),
      record { version = refl; tree = believed },
    )

    verified :
        (next : SignedManifest)
        → CaughtUp held answer next
        → IsTrusted scheme held (some (scheme.public key)) next
        → scheme.verify
            (scheme.public key)
            (signed_payload after.state.version next.manifest)
            after.state.signature
          ≡ true
    unfolding answer
    verified next k t =
        subst
          (λ s.
            scheme.verify (scheme.public key) (signed_payload after.state.version next.manifest) s
            ≡ true)
          k.signature
          (subst
            (λ v.
              scheme.verify (scheme.public key) (signed_payload v next.manifest) next.signature
              ≡ true)
            k.version (t.signed (scheme.public key) refl))

    -- A catch-up that rebuilds the producer's manifest bytes rebuilds its tree.
    rebuilds :
        (next : SignedManifest)
        → CaughtUp held answer next
        → next.manifest ≡ after.state.encoded
        → Apply.apply (tree_of tree.state) frame.delta ≡ tree_of after.state
    unfolding answer
    rebuilds next k same =
        let before : k.before ≡ tree_of tree.state =
          let d = k.decoded in let f = follows.tree in cc in
        let chained : k.after ≡ Apply.apply (tree_of tree.state) frame.delta =
          let c = chain_lem in let d = k.chained in cc in
        let wrote : Manifest.encode (Apply.apply (tree_of tree.state) frame.delta)
            ≡ ok after.state.encoded =
          ap Manifest.encode (sym chained) ∙ k.encoded ∙ ap ok same in
        let fits : ManifestFits (tree_of tree.state) = record {
          dirs = sound.dirs;
          files = sound.files;
        } in
        let read =
          decode-encode (Apply.apply (tree_of tree.state) frame.delta) after.state.encoded
            (apply-ManifestFits (tree_of tree.state) frame.delta fits frame.delta_fits) wrote in
        let b = believed in cc

    -- A consumer that follows a signed tree refuses the delta frame of a rescan, and keeps the old
    -- version, if the rescan lists the directories in any other order. The signature verifies for no
    -- other manifest of that version.
    pub delta_frame_refused :
        paths manifest.dirs ≢ consumer_order tree.state.dirs manifest.dirs
        → ((bytes : List ℕ)
            → scheme.verify
                (scheme.public key)
                (signed_payload after.state.version bytes)
                after.state.signature
              ≡ true
            → bytes ≡ after.state.encoded)
        → (e : Error) × (apply_watch_frame scheme held watch_frame_delta payload
              (some (scheme.public key))
            ≡ (held, err e))
    unfolding adopt
    delta_frame_refused disorder pins =
        go (apply_since scheme held answer (some (scheme.public key))) refl
      where
        forged :
            (next : SignedManifest)
            → apply_since scheme held answer (some (scheme.public key)) ≡ ok next
            → ⊥
        forged next e =
            let (k, t) = apply_since_sound scheme held answer (some (scheme.public key)) next e in
            disorder (frame.exact.0 (rebuilds next k (pins next.manifest (verified next k t))))

        go :
            (r : Result SignedManifest)
            → apply_since scheme held answer (some (scheme.public key)) ≡ r
            → (e : Error) × (apply_watch_frame scheme held watch_frame_delta payload
                  (some (scheme.public key))
                ≡ (held, err e))
        go (err e) k = (e, framed (err e) k ∙ refl)
        go (ok next) k = absurd (forged next k)
