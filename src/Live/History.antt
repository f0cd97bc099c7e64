-- ===== src/Live/History.antt =====
-- The history that `deltas_since` replays: the deltas of consecutive versions, up to the current one.
use mathlib.Core.Path.{subst}
use mathlib.Core.List.{append-nil, append_assoc}
use agent_share.Prelude.{
  ℕ, zero, suc, ◌+◌, ◌-◌, ◌^◌, ◌<◌, ◌≤◌, ◌≡◌, refl, ap, sym, ◌∙◌, List, [], ◌∷◌, ◌++◌, arith, map,
  drop, length, Bool, true, false, Option, none, some, ok, ltb, lt→ltb, ltb→lt, le→ltb_false,
  ltb_false→le, ◌==◌, ==_iff, if◌then◌else◌, Bool-cases, inl, inr, >>=-eq-ok,
}
use agent_share.Manifest
use agent_share.Manifest.{MountManifest}
use agent_share.Manifest.Delta
use agent_share.Authorship.{Scheme}
use agent_share.Live.{
  Published, TreeState, LiveTree, trim, remember, forget_history, delta_history_bytes,
  collect_chain, reached, deltas_since, authored, apply,
}
use agent_share.Live.Rescan.{Scan}
use agent_share.Live.Steps.{IsFolded, IsResealed, IsPublished, Applied, apply-eq-ok}

-- Consecutive versions from the first to the last one.
abbrev pub IsRun : ℕ → List Published → ℕ → Type 0
IsRun first [] last = first ≡ last + 1
IsRun first (p ∷ ps) last = (p.version ≡ first) × IsRun (first + 1) ps last

-- The oldest version that the history has a delta to.
pub record HasHistory (state : TreeState) : Type 0 where
  pub first : ℕ
  pub run : IsRun first state.history state.version

IsRun-le : (first last : ℕ) (ps : List Published) → IsRun first ps last → first ≤ last + 1
IsRun-le first last [] h = omega arith
IsRun-le first last (p ∷ ps) h = omega (arith, IsRun-le (first + 1) last ps h.1)

IsRun-append :
    (first last : ℕ) (ps : List Published) (p : Published)
    → IsRun first ps last
    → p.version ≡ last + 1
    → IsRun first (ps ++ (p ∷ [])) (last + 1)
IsRun-append first last [] p h v = (v ∙ sym h, ap (λ n. n + 1) h)
IsRun-append first last (q ∷ ps) p h v = (h.0, IsRun-append (first + 1) last ps p h.1 v)

-- Trimming takes versions from the front only.
trim-IsRun :
    (first last bytes : ℕ) (ps : List Published)
    → IsRun first ps last
    → (later : ℕ) × IsRun later (trim ps bytes).0 last
unfolding trim
trim-IsRun first last bytes [] h = (first, h)
trim-IsRun first last bytes (p ∷ ps) h = elim (Bool-cases (ltb delta_history_bytes bytes)) [
  | inl full ↦ rw (full, trim) (trim-IsRun (first + 1) last (bytes - length p.delta) ps h.1)
  | inr small ↦ rw (small, trim) (first, h)
]

remember-HasHistory :
    (body : List ℕ) (state : TreeState) (first last : ℕ)
    → IsRun first state.history last
    → state.version ≡ last + 1
    → HasHistory (remember body state)
unfolding remember
remember-HasHistory body state first last h v =
    let p : Published = record { version = state.version; delta = body } in
    let longer = IsRun-append first last state.history p h v in
    let (later, run) =
      trim-IsRun first (last + 1) (state.history_bytes + length body) (state.history ++ (p ∷ []))
        longer in
    record { first = later; run = subst (IsRun later _) (sym v) run }

abbrev pub delta_of : Published → List ℕ
delta_of p = p.delta

collect_chain_run :
    (first last want : ℕ) (chain : List (List ℕ)) (ps : List Published)
    → IsRun first ps last
    → first ≤ want
    → want ≤ last + 1
    → collect_chain want chain ps ≡ some (last + 1, chain ++ map delta_of (drop (want - first) ps))
unfolding collect_chain
collect_chain_run first last want chain [] h le up =
    let now : want ≡ last + 1 = omega arith in
    let none_left : want - first ≡ 0 = omega arith in
    ap (λ n. some (n, chain)) now
    ∙ ap (λ c. some (last + 1, c)) (sym (append-nil chain))
    ∙ ap (λ k. some (last + 1, chain ++ map delta_of (drop {A = Published} k []))) (sym none_left)
collect_chain_run first last want chain (p ∷ ps) h le up = elim (Bool-cases (ltb p.version want)) [
  | inl old ↦
      let v = h.0 in
      let lt = ltb→lt _ _ old in
      let n : want - first ≡ suc (want - (first + 1)) = omega arith in
      rw (old, collect_chain)
        (rw n (collect_chain_run (first + 1) last want chain ps h.1 (omega arith) up))
  | inr due ↦
      let v = h.0 in
      let ge = ltb_false→le _ _ due in
      let same : p.version ≡ want = omega arith in
      let is : (p.version == want) ≡ true = (==_iff p.version want).1 same in
      let bound = IsRun-le (first + 1) last ps h.1 in
      let n : want - first ≡ 0 = omega arith in
      let m : want + 1 - (first + 1) ≡ 0 = omega arith in
      let rest =
        collect_chain_run (first + 1) last (want + 1) (chain ++ (p.delta ∷ [])) ps h.1 (omega arith)
          (omega arith) in
      rw (due, collect_chain)
        (rw is (
          rest
          ∙ ap (λ k. some (last + 1, (chain ++ (p.delta ∷ [])) ++ map delta_of (drop k ps))) m
          ∙ ap (λ c. some (last + 1, c)) (append_assoc chain (p.delta ∷ []) (map delta_of ps))
          ∙ ap (λ k. some (last + 1, chain ++ map delta_of (drop k (p ∷ ps)))) (sym n)))
]

-- Whether a walk got past the last version.
abbrev reached_from : Option (ℕ × List (List ℕ)) → ℕ → Bool
reached_from none last = false
reached_from (some (want, chain)) last = ltb last want

-- A history that begins too late.
collect_chain_gap :
    (first last want : ℕ) (ps : List Published)
    → IsRun first ps last
    → want < first
    → want ≤ last
    → reached_from (collect_chain want [] ps) last ≡ false
unfolding collect_chain
collect_chain_gap first last want [] h gap up =
    let e : ltb last want ≡ false = le→ltb_false _ _ up in rw e refl
collect_chain_gap first last want (p ∷ ps) h gap up =
    let v = h.0 in
    let old : ltb p.version want ≡ false = le→ltb_false _ _ (omega arith) in
    elim (Bool-cases (p.version == want)) [
      | inl same ↦ let e = (==_iff p.version want).0 same in absurd (omega arith)
      | inr other ↦ rw (old, collect_chain) (rw other refl)
    ]

reached-gap :
    (state : TreeState) (o : Option (ℕ × List (List ℕ)))
    → reached_from o state.version ≡ false
    → reached state o ≡ none
unfolding reached
reached-gap state none h = refl
reached-gap state (some (want, chain)) h = rw h refl

IsRun-length :
    (first last : ℕ) (ps : List Published) → IsRun first ps last → first + length ps ≡ last + 1
IsRun-length first last [] h = omega arith
IsRun-length first last (p ∷ ps) h = omega (arith, IsRun-length (first + 1) last ps h.1)

drop_all : (n : ℕ) (ps : List Published) → length ps ≤ n → drop n ps ≡ []
drop_all zero [] h = refl
drop_all zero (p ∷ ps) h = absurd (omega arith)
drop_all (suc n) [] h = refl
drop_all (suc n) (p ∷ ps) h = drop_all n ps (omega arith)

published_version :
    (state : TreeState) (h : HasHistory state) (since : ℕ)
    → since ≤ state.version
    → (if since == state.version
        then some (state.version, state.signature, [])
        else reached state (collect_chain (since + 1) [] state.history))
      ≡ (if ltb (since + 1) h.first
          then none
          else some (
            state.version,
            state.signature,
            map delta_of (drop (since + 1 - h.first) state.history),
          ))
unfolding reached
published_version state h since le =
    let bound = IsRun-le h.first state.version state.history h.run in
    let count = IsRun-length h.first state.version state.history h.run in
    elim (Bool-cases (since == state.version)) [
      | inl current ↦
          let same = (==_iff since state.version).0 current in
          let back : ltb (since + 1) h.first ≡ false = le→ltb_false _ _ (omega arith) in
          let over = drop_all (since + 1 - h.first) state.history (omega arith) in
          rw current (rw back (rw over refl))
      | inr behind ↦
          let less : since + 1 ≤ state.version = ground arith in
          elim (Bool-cases (ltb (since + 1) h.first)) [
            | inl gap ↦
                let stops =
                  collect_chain_gap h.first state.version (since + 1) state.history h.run
                    (ltb→lt _ _ gap) less in
                rw behind
                  (rw gap (reached-gap state (collect_chain (since + 1) [] state.history) stops))
            | inr kept ↦
                let walk =
                  collect_chain_run h.first state.version (since + 1) [] state.history h.run
                    (ltb_false→le _ _ kept) (omega arith) in
                let there : ltb state.version (state.version + 1) ≡ true =
                  lt→ltb _ _ (omega arith) in
                rw behind (rw kept (ap (reached state) walk ∙ rw there refl))
          ]
    ]

-- The answer for a version that the tree has published: the deltas of all later versions, in order, if
-- the history goes back that far, and otherwise none. For a version ahead of the tree, none.
pub deltas_since_exact :
    (state : TreeState) (h : HasHistory state) (since : ℕ)
    → deltas_since state since ≡ (
        if ltb state.version since
        then none
        else if ltb (since + 1) h.first
        then none
        else some (
          state.version,
          state.signature,
          map delta_of (drop (since + 1 - h.first) state.history),
        ))
unfolding deltas_since
deltas_since_exact state h since = elim (Bool-cases (ltb state.version since)) [
  | inl ahead ↦ rw (ahead, deltas_since) refl
  | inr published ↦
      rw (published, deltas_since) (published_version state h since (ltb_false→le _ _ published))
]

module _ (scheme : Scheme) where
  open scheme use {SecretKey}

  IsPublished-HasHistory :
      (author : Option SecretKey) {a b c : TreeState} {frame : List ℕ} {delta : Delta.ManifestDelta}
      → HasHistory a
      → a.version + 1 < 2 ^ 64
      → IsResealed scheme author a b
      → IsPublished scheme delta b c frame
      → HasHistory c
  unfolding forget_history
  IsPublished-HasHistory author {a = a} {b = b} h small re
        (IsPublished.as_delta body since w packed fits st fr) =
      let v = re.version in
      let next : b.version ≡ a.version + 1 = omega arith in
      subst HasHistory (sym st) (
        remember-HasHistory body b h.first a.version
          (subst (λ ps. IsRun h.first ps a.version) (sym re.history) h.run) next)
  IsPublished-HasHistory author {b = b} h small re (IsPublished.as_manifest st fr) =
      subst HasHistory (sym st) (record { first = b.version + 1; run = refl })

  -- A rescan keeps the history a run of versions up to the current one, whatever it publishes, as long
  -- as the version does not overflow.
  pub apply-HasHistory :
      (tree after : LiveTree scheme) (manifest : MountManifest) (paths : List (List ℕ))
      (sent : Option (List ℕ))
      → HasHistory tree.state
      → tree.state.version + 1 < 2 ^ 64
      → apply scheme tree manifest paths ≡ ok (after, sent)
      → HasHistory after.state
  apply-HasHistory tree after manifest paths sent h small e =
      let (scan, loop, how) = apply-eq-ok scheme tree after manifest paths sent e in go how
    where
      folded_history :
          {scan : Scan} {folded : TreeState} {delta : Delta.ManifestDelta}
          → IsFolded tree.state manifest scan folded delta
          → HasHistory folded
      folded_history {folded = now} is = record {
        first = h.first;
        run =
            subst (λ ps. IsRun h.first ps now.version) (sym is.history)
              (subst (IsRun h.first tree.state.history) (sym is.version) h.run);
      }

      go :
          {scan : Scan} {sent : Option (List ℕ)}
          → Applied scheme tree manifest scan after sent
          → HasHistory after.state
      go (Applied.quiet folded is empty k) =
          subst (λ (t : LiveTree scheme). HasHistory t.state) (sym k) (folded_history is)
      go (Applied.changed folded b c frame is change re how k) =
          let v = is.version in
          subst (λ (t : LiveTree scheme). HasHistory t.state) (sym k)
            (IsPublished-HasHistory tree.author (folded_history is) (omega arith) re how)

  -- A tree seeded from a startup scan has an empty history that ends at its version.
  pub authored-HasHistory :
      (manifest : MountManifest) (paths : List (List ℕ)) (author : Option SecretKey)
      (tree : LiveTree scheme)
      → authored scheme manifest paths author ≡ ok tree
      → HasHistory tree.state
  unfolding authored
  authored-HasHistory manifest paths author tree e =
      let (encoded, wrote, made) = >>=-eq-ok (Manifest.encode manifest) _ e in
      let k : (tree.state.history ≡ []) × (tree.state.version ≡ 1) = ground arith in
      record {
        first = 2;
        run = subst (λ ps. IsRun 2 ps tree.state.version) (sym k.0) (ap (λ n. n + 1) (sym k.1));
      }
