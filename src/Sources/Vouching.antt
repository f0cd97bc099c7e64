-- ===== src/Sources/Vouching.antt =====
-- `vouches` of crates/agent-share/src/mount/sources.rs against what a peer encoded in its card.
use agent_share.Prelude.{
  ℕ, ◌^◌, ◌<◌, ◌≡◌, ◌↔◌, refl, ap, sym, ◌∙◌, List, arith, true, ◌&&◌, Option, none, some,
  bytes_eq→eq, bytes_eq_refl, All,
}
use agent_share.Sorting.{mem}
use agent_share.Client.{PeerCard}
use agent_share.Serving.{encode_serving}
use agent_share.Serving.RoundTrip.{decode_serving-encode_serving}
use agent_share.Sources.{vouches, is_tree}

is_tree→eq : (t : Option (List ℕ)) (tree : List ℕ) → is_tree t tree ≡ true → t ≡ some tree
is_tree→eq none tree h = ground arith
is_tree→eq (some t) tree h = ap some (bytes_eq→eq t tree h)

-- A card whose `serving` was encoded from slots below the number of slots vouches for a slot exactly
-- when it names the tree that is read and the slot is one of those that were encoded.
pub vouches-encode_serving :
    (card : PeerCard) (tree text held : List ℕ) (index total : ℕ)
    → All (λ n. n < total) held
    → total < 2 ^ 32
    → encode_serving held total ≡ some text
    → card.serving ≡ some text
    → (vouches card tree index total ≡ true) ↔ ((card.tree ≡ some tree) × (mem index held ≡ true))
unfolding vouches
vouches-encode_serving card tree text held index total below small made published =
    let member = (decode_serving-encode_serving held text total below small made).1 index in
    let listed : (vouches card tree index total) ≡ (is_tree card.tree tree && mem index held) =
      rw (published, vouches) (ap (λ b. is_tree card.tree tree && b) member) in
    (
      λ v.
          let both : (is_tree card.tree tree && mem index held) ≡ true = sym listed ∙ v in
          let tree_ok : is_tree card.tree tree ≡ true = ground arith in
          (is_tree→eq card.tree tree tree_ok, ground arith),
      λ (e, m). listed ∙ rw e (rw m (rw (bytes_eq_refl tree) refl)),
    )
