-- ===== src/Sources/Advertised.antt =====
-- What a mount publishes of itself, `SourceSet::serving`, and what another mount makes of it, `vouches`
-- (crates/agent-share/src/mount/sources.rs).
use agent_share.Prelude.{ℕ, ◌^◌, ◌<◌, ◌≡◌, ◌↔◌, sym, ◌∙◌, List, true, some, All}
use agent_share.Sorting.{All-mem}
use agent_share.Client.{PeerCard}
use agent_share.Chunks.{ChunkLibrary}
use agent_share.Seed.{State}
use agent_share.Seed.Holds.{complete_slots, holds, roots, Agrees, IsMap, complete_slots_exact}
use agent_share.Sources.{SourceSet, serving, vouches}
use agent_share.Sources.Vouching.{vouches-encode_serving}

-- A card that carries what a mount publishes vouches for a slot exactly when it names the tree that is
-- read and the mount's seeder holds every chunk of the slot, for a reader that counts as many slots.
-- The store's batch of coverages answers for each row what its single answer does, no slot has two
-- rows, and a slot that is held is below the number of slots, which is a `u32`.
pub vouches-serving :
    (library : ChunkLibrary) (s : SourceSet library) (state : State library)
    (coverages : List library.Coverage) (card : PeerCard) (tree text : List ℕ) (index : ℕ)
    → s.seeder.state ≡ some state
    → IsMap library state.rows
    → library.coverage_of state.store (roots library state.rows) ≡ some coverages
    → Agrees library state.store state.rows coverages
    → ((i : ℕ) → holds library s.seeder i ≡ true → i < s.total_slots)
    → s.total_slots < 2 ^ 32
    → serving library s ≡ some text
    → card.serving ≡ some text
    → (vouches card tree index s.total_slots ≡ true)
      ↔ ((card.tree ≡ some tree) × (holds library s.seeder index ≡ true))
unfolding serving
vouches-serving library s state coverages card tree text index armed one batch agrees below small
      made published =
    let whole = complete_slots library s.seeder in
    let member = (complete_slots_exact library s.seeder state coverages armed one batch agrees).1 in
    let all : All (λ n. n < s.total_slots) whole =
      All-mem (λ n. n < s.total_slots) whole (λ i m. below i (sym (member i) ∙ m)) in
    let listed =
      vouches-encode_serving card tree text whole index s.total_slots all small made published in
    (
      λ v. let (e, m) = listed.0 v in (e, sym (member index) ∙ m),
      λ (e, h). listed.1 (e, member index ∙ h),
    )
