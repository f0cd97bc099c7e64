-- ===== src/Tests/Sources.antt =====
-- A mount that reads from an origin and from peers.
use mathlib.Core.Path.{subst}
use mathlib.Core.List.{Memᴰ}
use agent_share.Prelude.{
  ℕ, ◌^◌, ◌<◌, ◌≡◌, ◌↔◌, ◌⊎◌, ◌≢◌, refl, ap, sym, ◌∙◌, inr, true, List, [], ◌∷◌, Option, none, some,
  arith, length, take, drop, bytes_eq,
}
use agent_share.Authorship.{codes}
use agent_share.Sorting.{mem}
use agent_share.Client.{PeerCard, with_tree, with_serving}
use agent_share.Client
use agent_share.Serving.{encode_serving}
use agent_share.Remote.{Connection, read_range}
use agent_share.Seed
use agent_share.Sources.{
  Network, SourceSet, strikes_of, origin, peer, strike, vouches, candidates, serving,
}
use agent_share.Sources.Reading.{row_for, read_chunks, read}
use agent_share.Sources.Vouching.{vouches-encode_serving}
use agent_share.Sources.Candidates.{IsOrdered, IsChosen, cards_of, candidates_exact}
use agent_share.Sources.Chunks.{IsHonest, PutsHonest, IsRowOf, HasFile, read_chunks_exact}
use agent_share.Sources.Availability.{IsAnswer, read_available}
use agent_share.Sources.Strikes.{silent_reads, struck_out_peer_returns}
use agent_share.Sources.Advertised.{vouches-serving}
use agent_share.Seed.Holds.{holds, complete_slots, complete_slots_exact}
use agent_share.Tests.Peers.{
  pairs, content, find-address, part_lem, two_state, two_files, complete_slots_run,
}

abbrev card : List ℕ → List ℕ → PeerCard
card endpoint transport =
    with_serving
      (with_tree (Client.new endpoint (codes "1") (codes "rust") transport none) (some (codes "t")))
      (some (codes "0-1,3"))

text_made : encode_serving (3 ∷ 0 ∷ 1 ∷ []) 4 ≡ some (codes "0-1,3")
unfolding encode_serving agent_share.Text.decimal agent_share.Sorting.sort agent_share.Sorting.dedup
text_made = refl

-- The first two bytes of the file, to every request.
abbrev two_bytes : Connection
two_bytes request = some (0 ∷ 2 ∷ 0 ∷ 0 ∷ 0 ∷ 10 ∷ 20 ∷ [])

abbrev net : Network
net = record { origin_at = two_bytes; peer_at = λ endpoint. none }

abbrev set : SourceSet pairs
set = record {
  token = [];
  tree = codes "t";
  total_slots = 4;
  cards = some (
      card (codes "a") (codes "webrtc")
      ∷ card (codes "b") (codes "unicast")
      ∷ card (codes "me") (codes "unicast")
      ∷ []);
  local_endpoint = codes "me";
  active = origin;
  strikes = [];
  store = some [];
  seeder = Seed.new pairs;
  rows = (0, content) ∷ [];
  envelope = [];
}

native_first :
    candidates pairs set 3
    ≡ card (codes "b") (codes "unicast") ∷ card (codes "a") (codes "webrtc") ∷ []
unfolding candidates Client.new bytes_eq agent_share.Prelude.Assoc.get
    agent_share.Serving.decode_serving agent_share.Sorting.dedup agent_share.Sorting.sort
    agent_share.Text.split_once agent_share.Text.parse_u32 agent_share.Sorting.count_from
native_first = refl

candidates_exact_example :
    IsOrdered (candidates pairs set 3)
    × ((c : PeerCard)
        → Memᴰ c (candidates pairs set 3)
          ↔ (Memᴰ c (cards_of pairs set.cards) × IsChosen pairs set 3 c))
candidates_exact_example = candidates_exact pairs set 3

any_store-IsHonest : (store : List (List ℕ)) → IsHonest pairs store
any_store-IsHonest store = record {
  hashed = λ address bytes h. sym (find-address store address bytes h);
}

puts : PutsHonest pairs
puts = record {
  keeps = λ store bytes h. any_store-IsHonest (bytes ∷ store);
  keeps_map = λ store row h. any_store-IsHonest store;
}

content-IsRowOf : IsRowOf pairs content content
content-IsRowOf = record {
  ranges = record { whole = refl; bound = omega arith; starts = λ cursor h. omega arith };
  part = λ cursor address bytes h l e. part_lem cursor address bytes l (sym e);
}

only_row : (row : List ℕ) → (row_for pairs net set 0).1 ≡ some row → IsRowOf pairs row content
unfolding row_for Seed.get_slot
only_row row e =
    let same : content ≡ row = cc in subst (λ r. IsRowOf pairs r content) same content-IsRowOf

read_chunks_exact_example :
    (((read_chunks pairs net set 0 0 2).1 ≡ none) × (HasFile pairs (row_for pairs net set 0) → ⊥))
    ⊎ ((read_chunks pairs net set 0 0 2).1 ≡ some (take 2 (drop 0 content)))
read_chunks_exact_example =
    read_chunks_exact pairs puts net set 0 content 0 2 (any_store-IsHonest []) only_row

first_two : (read_chunks pairs net set 0 0 2).1 ≡ some (10 ∷ 20 ∷ [])
unfolding read_chunks Seed.get_slot agent_share.Sources.Reading.chunk
    agent_share.Manifest.Apply.contains agent_share.Remote.fetch_chunk
    agent_share.Wire.Words.from_le agent_share.Wire.Cursor.take_u32 bytes_eq
first_two = refl

-- The origin is gone, and every peer has the two bytes.
abbrev peers_only : Network
peers_only = record { origin_at = λ request. none; peer_at = λ endpoint. some two_bytes }

two_answered : IsAnswer (read_range two_bytes [] 3 0 2)
unfolding read_range agent_share.Wire.Words.from_le agent_share.Wire.Cursor.take_u32
two_answered = tt

b_is_candidate : Memᴰ (card (codes "b") (codes "unicast")) (candidates pairs set 3)
b_is_candidate =
    subst (Memᴰ (card (codes "b") (codes "unicast"))) (sym native_first) (Memᴰ.head refl)

read_available_example : IsAnswer (read pairs peers_only set 3 0 2).1
read_available_example =
    read_available peers_only pairs set 3 0 2
      (inr (card (codes "b") (codes "unicast"), b_is_candidate, (two_bytes, refl, two_answered)))

-- The peer `a` is active, with three strikes.
abbrev struck : SourceSet pairs
struck = record set { active = peer (codes "a"); strikes = (codes "a", 3) ∷ []; rows = [] }

no_rows : Seed.get_slot struck.rows 3 ≡ none
unfolding Seed.get_slot
no_rows = refl

three : strikes_of struck.strikes (codes "a") ≡ 3
unfolding strikes_of agent_share.Prelude.Assoc.get bytes_eq
three = refl

remote : codes "a" ≢ codes "me"
remote e = let t = ap length e in omega arith

a_vouches : vouches (card (codes "a") (codes "webrtc")) (codes "t") 3 4 ≡ true
unfolding Client.new
a_vouches =
    (vouches-encode_serving (card (codes "a") (codes "webrtc")) (codes "t") (codes "0-1,3")
        (3 ∷ 0 ∷ 1 ∷ []) 3 4 (omega arith) (omega arith) text_made refl).1
      (refl, refl)

struck_out_peer_returns_example :
    (Memᴰ (card (codes "a") (codes "webrtc")) (candidates pairs struck 3) → ⊥)
    × Memᴰ
        (card (codes "a") (codes "webrtc"))
        (candidates pairs (strike pairs (silent_reads pairs 3 0 2 252 struck) (codes "a")) 3)
unfolding Client.new
struck_out_peer_returns_example =
    struck_out_peer_returns pairs 3 0 2 (codes "a") struck (card (codes "a") (codes "webrtc")) 252
      refl no_rows (omega (arith, three)) (omega (arith, three)) refl (Memᴰ.head refl) remote
      a_vouches

-- A mount that has slot 4 whole, and a part of slot 1.
abbrev holder : SourceSet pairs
holder = record set { total_slots = 5; seeder = two_files }

whole_slots : (i : ℕ) → mem i (complete_slots pairs two_files) ≡ holds pairs two_files i
unfolding two_files two_state Seed.get_slot agent_share.Seed.Holds.roots
whole_slots =
    (complete_slots_exact pairs two_files two_state (3 ∷ 3 ∷ []) refl (refl, (refl, tt)) refl
      (refl, (refl, tt))).1

below_five : (i : ℕ) → holds pairs two_files i ≡ true → i < 5
below_five i h =
    let m : mem i (4 ∷ []) ≡ true = ap (mem i) (sym complete_slots_run) ∙ whole_slots i ∙ h in
    ground arith

four_published : serving pairs holder ≡ some (codes "4")
unfolding serving encode_serving agent_share.Text.decimal agent_share.Sorting.sort
    agent_share.Sorting.dedup
four_published = ap (λ held. encode_serving held 5) complete_slots_run

vouches-serving_example :
    (vouches (with_serving (card (codes "a") (codes "unicast")) (some (codes "4"))) (codes "t") 4 5
      ≡ true)
    ↔ ((some (codes "t") ≡ some (codes "t")) × (holds pairs two_files 4 ≡ true))
unfolding Client.new two_files two_state Seed.get_slot agent_share.Seed.Holds.roots
vouches-serving_example =
    vouches-serving pairs holder two_state (3 ∷ 3 ∷ [])
      (with_serving (card (codes "a") (codes "unicast")) (some (codes "4"))) (codes "t") (codes "4")
      4 refl (refl, (refl, tt)) refl (refl, (refl, tt)) below_five (omega arith) four_published refl
