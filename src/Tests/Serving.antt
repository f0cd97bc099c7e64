-- ===== src/Tests/Serving.antt =====
-- Fields of a peer card, and a partial mirror whose field is a bitmap.
use agent_share.Prelude.{
  ℕ, zero, suc, ◌+◌, ◌*◌, ◌%◌, ◌^◌, ◌<◌, ◌≤◌, ◌≡◌, refl, List, [], ◌∷◌, Bool, true, false, Option,
  none, some, arith, length, ◌==◌, ◌||◌, if◌then◌else◌,
}
use agent_share.Authorship.{codes}
use agent_share.Wire.Words.{pos}
use agent_share.Manifest.{FileEntry, tombstone}
use agent_share.Sorting.{mem, IsAscending}
use agent_share.Serving.{
  encode_serving, decode_serving, max_bitmap_slots, max_serving_chars, serving_bitmap,
}
use agent_share.Serving.RoundTrip.{decode_serving-encode_serving}
use agent_share.Serving.Published.{encode_serving_published}
use agent_share.Live.{TreeState}
use agent_share.Live.Serving.{serving, held_from, scattered_serving_stops}

abbrev held : List ℕ
held = 10 ∷ 0 ∷ 1 ∷ 2 ∷ 3 ∷ 7 ∷ 9 ∷ []

held_made : encode_serving held 20 ≡ some (codes "0-3,7,9-10")
unfolding encode_serving agent_share.Text.decimal agent_share.Sorting.sort agent_share.Sorting.dedup
held_made = refl

held_read : decode_serving (codes " 0-3, 7,9-10,5-4,x,+2") 20 ≡ 0 ∷ 1 ∷ 2 ∷ 3 ∷ 7 ∷ 9 ∷ 10 ∷ []
unfolding decode_serving agent_share.Text.parse_u32 agent_share.Text.split_once
    agent_share.Sorting.sort agent_share.Sorting.dedup agent_share.Sorting.count_from
    agent_share.Prelude.bytes_eq
held_read = refl

decode_serving-encode_serving_example :
    IsAscending (decode_serving (codes "0-3,7,9-10") 20)
    × ((i : ℕ) → mem i (decode_serving (codes "0-3,7,9-10") 20) ≡ mem i held)
decode_serving-encode_serving_example =
    decode_serving-encode_serving held (codes "0-3,7,9-10") 20 (omega arith) (omega arith) held_made

encode_serving_published_example :
    (text : List ℕ) × (encode_serving held 20 ≡ some text) × (length text ≤ max_serving_chars)
encode_serving_published_example = encode_serving_published held 20 refl (omega arith) (omega arith)

file : FileEntry
file = record { rel_path = b'f' ∷ []; size = 1; mode = 0; mtime = pos 0 }

-- Slots 1 and 3 are tombstones; every second slot of the first 600 has a path.
files_from : ℕ → ℕ → List FileEntry
unfolding file
files_from slot zero = []
files_from slot (suc n) =
    (if slot == 1 || slot == 3 then tombstone else file) ∷ files_from (slot + 1) n

served_from : ℕ → ℕ → List (Option (List ℕ))
served_from slot zero = []
served_from slot (suc n) =
    (if slot % 2 == 0 then some (b'p' ∷ []) else none) ∷ served_from (slot + 1) n

scattered : TreeState
unfolding files_from served_from
scattered = record {
  dirs = [];
  files = files_from 0 600;
  served = served_from 0 600;
  index_of = [];
  encoded = [];
  version = 1;
  envelope = [];
  signature = [];
  history = [];
  history_bytes = 0;
}

scattered_published :
    (text : List ℕ) × (serving scattered ≡ some text) × (length text ≤ max_serving_chars)
unfolding scattered held_from serving agent_share.Live.Mirror.count_live
scattered_published =
    encode_serving_published (held_from 0 scattered.served) 598 refl (omega arith) (omega arith)

-- Slot 598 is live and has a path.
scattered_serving_stops_example : mem 598 (decode_serving scattered_published.0 600) ≡ false
unfolding scattered held_from agent_share.Live.Mirror.count_live
    agent_share.Serving.Published.count_runs
scattered_serving_stops_example =
    scattered_serving_stops scattered scattered_published.0 600 598 (omega arith) (omega arith)
      scattered_published.1 (omega arith) (omega arith)
