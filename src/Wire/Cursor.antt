-- ===== src/Wire/Cursor.antt =====
-- The `Cursor` of crates/agent-share-proto/src/manifest.rs. Its state is `bytes[pos..]`, what has
-- not been read: `pos + len <= bytes.len()` is that the rest has `len` bytes. A failed read ends
-- the whole decode, so it keeps no state.
use agent_share.Prelude.{
  ℕ, zero, suc, List, [], ◌∷◌, Result, ok, err, truncated, not_utf8, trailing, length, take, drop,
  leb, if◌then◌else◌,
}
use agent_share.Wire.Words.{from_le, ℤ, of_bits}
use agent_share.Wire.Utf8.{is_utf8}

abbrev pub Read : Type 0 → Type 0
Read A = List ℕ → Result (A × List ℕ)

infixl 5 ◌>>=◌ ◌>>◌
abbrev pub ◌>>=◌ : {A B : Type 0} → Read A → (A → Read B) → Read B
◌>>=◌ m f b = elim (m b) [ err e ↦ err e | ok (a, rest) ↦ f a rest ]

abbrev pub ◌>>◌ : {A B : Type 0} → Read A → Read B → Read B
m >> k = m >>= λ _. k

abbrev pub pure : {A : Type 0} → A → Read A
pure a b = ok (a, b)

unfoldable pub take_bytes : ℕ → Read (List ℕ)
take_bytes len b = if leb len (length b) then ok (take len b, drop len b) else err truncated

unfoldable pub take_u16 : Read ℕ
take_u16 = do raw ← take_bytes 2; pure (from_le raw)

unfoldable pub take_u32 : Read ℕ
take_u32 = do raw ← take_bytes 4; pure (from_le raw)

unfoldable pub take_u64 : Read ℕ
take_u64 = do raw ← take_bytes 8; pure (from_le raw)

unfoldable pub take_i64 : Read ℤ
take_i64 = do raw ← take_bytes 8; pure (of_bits (from_le raw))

unfoldable pub from_utf8 : List ℕ → Read (List ℕ)
from_utf8 raw b = if is_utf8 raw then ok (raw, b) else err not_utf8

unfoldable pub take_path : Read (List ℕ)
take_path = do len ← take_u16; raw ← take_bytes len; from_utf8 raw

-- `for _ in 0..count { list.push(…) }`
unfoldable pub take_many : {A : Type 0} → Read A → ℕ → Read (List A)
take_many p zero b = ok ([], b)
take_many p (suc count) b = elim (p b) [
  | err e ↦ err e
  | ok (x, rest) ↦ elim (take_many p count rest) [
    | err e ↦ err e
    | ok (xs, rest') ↦ ok (x ∷ xs, rest')
  ]
]

-- A count, then as many items.
unfoldable pub take_list : {A : Type 0} → Read A → Read (List A)
take_list p = do count ← take_u32; take_many p count

-- `if cursor.pos != bytes.len() { bail!(…) }`
abbrev pub finish : {A : Type 0} → Result (A × List ℕ) → Result A
finish (ok (a, [])) = ok a
finish (ok (a, b ∷ bs)) = err trailing
finish (err e) = err e
