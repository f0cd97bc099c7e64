-- ===== src/Wire/Utf8.antt =====
-- `String::from_utf8`: the byte strings that are well-formed UTF-8, by the Unicode table of lead
-- bytes and the range of the byte that follows each.
use agent_share.Prelude.{
  ℕ, ◌-◌, ◌≡◌, refl, Bool, true, false, ◌&&◌, Option, none, some, List, [], ◌∷◌, ltb, leb, ◌==◌,
  if◌then◌else◌,
}

-- How many continuation bytes are due, and the range of the next one.
pub record Due : Type 0 where
  pub count : ℕ
  pub low : ℕ
  pub high : ℕ

abbrev boundary : Due
boundary = record { count = 0; low = 0; high = 0 }

tail_of : ℕ → Due
tail_of n = record { count = n; low = 0x80; high = 0xbf }

lead : ℕ → Option Due
unfolding tail_of
lead b =
    if ltb b 0x80
    then some boundary
    else if leb 0xc2 b && leb b 0xdf
    then some (tail_of 1)
    else if b == 0xe0
    then some (record { count = 2; low = 0xa0; high = 0xbf })
    else if b == 0xed
    then some (record { count = 2; low = 0x80; high = 0x9f })
    else if leb 0xe1 b && leb b 0xef
    then some (tail_of 2)
    else if b == 0xf0
    then some (record { count = 3; low = 0x90; high = 0xbf })
    else if leb 0xf1 b && leb b 0xf3
    then some (tail_of 3)
    else if b == 0xf4
    then some (record { count = 3; low = 0x80; high = 0x8f })
    else none

utf8_step : Due → ℕ → Option Due
unfolding lead
utf8_step d b =
    if d.count == 0
    then lead b
    else if leb d.low b && leb b d.high
    then some (if d.count == 1 then boundary else tail_of (d.count - 1))
    else none

utf8_run : Option Due → List ℕ → Bool
unfolding utf8_step
utf8_run none bs = false
utf8_run (some d) [] = d.count == 0
utf8_run (some d) (b ∷ bs) = utf8_run (utf8_step d b) bs

unfoldable pub is_utf8 : List ℕ → Bool
unfolding utf8_run
is_utf8 bs = utf8_run (some boundary) bs

-- "é" and "日" are accepted; an overlong form, a surrogate and a cut sequence are not.
is_utf8_runs :
    (is_utf8 (0xc3 ∷ 0xa9 ∷ 0xe6 ∷ 0x97 ∷ 0xa5 ∷ []) ≡ true)
    × (is_utf8 (0xc0 ∷ 0x80 ∷ []) ≡ false)
    × (is_utf8 (0xed ∷ 0xa0 ∷ 0x80 ∷ []) ≡ false)
    × (is_utf8 (0xf0 ∷ 0x9f ∷ 0x98 ∷ []) ≡ false)
unfolding is_utf8
is_utf8_runs = (refl, refl, refl, refl)
