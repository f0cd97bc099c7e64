-- ===== src/Serving/Base64.antt =====
-- The base64 of crates/agent-share-proto/src/serving.rs, without padding.
use Prim.Native.Nat.{bit_and, bit_or}
use agent_share.Prelude.{
  ℕ, zero, suc, ◌+◌, ◌-◌, ◌*◌, ◌/◌, ◌%◌, ◌^◌, List, [], ◌∷◌, true, false, Option, none, some,
  get_elem?, leb, ◌==◌, if◌then◌else◌,
}
use agent_share.Authorship.{codes}
pub mod RoundTrip

-- `BASE64`
unfoldable pub base64 : List ℕ
base64 = codes "ABCDEFGHIJKLMNOPQRSTUVWXYZabcdefghijklmnopqrstuvwxyz0123456789+/"

abbrev or_zero : Option ℕ → ℕ
or_zero none = 0
or_zero (some n) = n

-- `BASE64[((packed >> shift) & 0x3f) as usize]`
unfoldable pub symbol : ℕ → ℕ → ℕ
unfolding base64
symbol packed shift = or_zero (get_elem? base64 (bit_and (packed / 2 ^ shift) 0x3f))

-- The three bytes of a group in one word.
unfoldable pub pack : ℕ → ℕ → ℕ → ℕ
pack a b c = bit_or (bit_or (a * 2 ^ 16) (b * 2 ^ 8)) c

-- A group of three bytes makes four symbols; a shorter last one is filled with zeros and makes one
-- symbol more than it has bytes.
unfoldable pub to_base64 : List ℕ → List ℕ
unfolding symbol pack
to_base64 [] = []
to_base64 (a ∷ []) = let packed = pack a 0 0 in symbol packed 18 ∷ symbol packed 12 ∷ []
to_base64 (a ∷ b ∷ []) =
    let packed = pack a b 0 in symbol packed 18 ∷ symbol packed 12 ∷ symbol packed 6 ∷ []
to_base64 (a ∷ b ∷ c ∷ rest) =
    let packed = pack a b c in
    symbol packed 18 ∷ symbol packed 12 ∷ symbol packed 6 ∷ symbol packed 0 ∷ to_base64 rest

-- `position(|candidate| *candidate == symbol)`, from an index on.
unfoldable pub position : List ℕ → ℕ → ℕ → Option ℕ
position [] at sought = none
position (candidate ∷ candidates) at sought =
    if candidate == sought then some at else position candidates (at + 1) sought

-- The loop, with its `packed` and `filled`. A symbol outside the alphabet ends it.
unfoldable pub unpack : ℕ → ℕ → List ℕ → List ℕ
unfolding base64 position
unpack packed filled [] = []
unpack packed filled (next ∷ symbols) = elim (position base64 0 next) [
  | none ↦ []
  | some value ↦
      let packed' = bit_or (packed * 2 ^ 6 % 2 ^ 32) value in
      elim (leb 8 (filled + 6)) [
        | true ↦
            bit_and (packed' / 2 ^ (filled + 6 - 8)) 0xff ∷ unpack packed' (filled + 6 - 8) symbols
        | false ↦ unpack packed' (filled + 6) symbols
      ]
]

unfoldable pub from_base64 : List ℕ → List ℕ
unfolding unpack
from_base64 text = unpack 0 0 text
