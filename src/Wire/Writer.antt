-- ===== src/Wire/Writer.antt =====
-- The shape that every encoder shares: `out.extend_from_slice(…)` in sequence, with the
-- `try_from(…).expect(…)` of each length a panic.
use agent_share.Prelude.{
  ℕ, ◌^◌, List, [], ◌∷◌, ◌++◌, Result, ok, err, panicked, length, ltb, if◌then◌else◌, ◌>>=◌,
}
use agent_share.Wire.Words.{le_bytes}

abbrev pub Write : Type 0 → Type 0
Write A = A → Result (List ℕ)

-- `for item in &list { … }`
unfoldable pub write_many : {A : Type 0} → Write A → Write (List A)
write_many e [] = ok []
write_many e (x ∷ xs) = do w ← e x; ws ← write_many e xs; ok (w ++ ws)

-- A list behind its count: `u32::try_from(list.len()).expect(…)`, then the items.
unfoldable pub write_list : {A : Type 0} → Write A → Write (List A)
write_list e xs =
    if ltb (length xs) (2 ^ 32)
    then (do ws ← write_many e xs; ok (le_bytes 4 (length xs) ++ ws))
    else err panicked

-- `encode_path`
unfoldable pub write_path : Write (List ℕ)
write_path path =
    if ltb (length path) (2 ^ 16) then ok (le_bytes 2 (length path) ++ path) else err panicked
