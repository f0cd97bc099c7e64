-- ===== src/Seed/Slices.antt =====
-- Reads of a file by its chunks: how the slices of the chunks make up the slice that was asked for.
use mathlib.Core.Path.{ap₂}
use agent_share.Prelude.{
  ℕ, zero, suc, ◌+◌, ◌-◌, ◌%◌, ◌^◌, ◌<◌, ◌≤◌, ◌≡◌, refl, ap, sym, ◌∙◌, List, [], ◌∷◌, inl, inr,
  ◌++◌, arith, true, false, ◌||◌, length, take, drop, leb, leb→le, ◌==◌, Bool-cases, length-drop,
}
use agent_share.Chunks.{ChunkLibrary}
use agent_share.Seed.{saturating_add, min}

pub take-nil : (n : ℕ) → take {A = ℕ} n [] ≡ []
take-nil zero = refl
take-nil (suc n) = refl

pub take_add : (m n : ℕ) (xs : List ℕ) → take (m + n) xs ≡ take m xs ++ take n (drop m xs)
take_add zero n xs = let e : 0 + n ≡ n = omega arith in rw e refl
take_add (suc m) n [] = let e : suc m + n ≡ suc (m + n) = omega arith in rw e (sym (take-nil n))
take_add (suc m) n (x ∷ xs) =
    let e : suc m + n ≡ suc (m + n) = omega arith in rw e (ap (λ t. x ∷ t) (take_add m n xs))

pub drop-nil : (n : ℕ) → drop {A = ℕ} n [] ≡ []
drop-nil zero = refl
drop-nil (suc n) = refl

pub drop_add : (m n : ℕ) (xs : List ℕ) → drop (m + n) xs ≡ drop n (drop m xs)
drop_add zero n xs = let e : 0 + n ≡ n = omega arith in rw e refl
drop_add (suc m) n [] = let e : suc m + n ≡ suc (m + n) = omega arith in rw e (sym (drop-nil n))
drop_add (suc m) n (x ∷ xs) =
    let e : suc m + n ≡ suc (m + n) = omega arith in rw e (drop_add m n xs)

-- A slice of a slice.
pub take-drop-take :
    (t w : ℕ) (l : ℕ) (xs : List ℕ) → w + t ≤ l → take t (drop w (take l xs)) ≡ take t (drop w xs)
take-drop-take zero w l xs h = refl
take-drop-take (suc t) zero zero xs h = absurd (omega arith)
take-drop-take (suc t) zero (suc l) [] h = refl
take-drop-take (suc t) zero (suc l) (x ∷ xs) h =
    ap (λ r. x ∷ r) (take-drop-take t zero l xs (omega arith))
take-drop-take (suc t) (suc w) zero xs h = absurd (omega arith)
take-drop-take (suc t) (suc w) (suc l) [] h = refl
take-drop-take (suc t) (suc w) (suc l) (x ∷ xs) h = take-drop-take (suc t) w l xs (omega arith)

pub drop-length_le : (n : ℕ) (xs : List ℕ) → length xs ≤ n → drop n xs ≡ []
drop-length_le zero [] h = refl
drop-length_le zero (x ∷ xs) h = absurd (omega arith)
drop-length_le (suc n) [] h = refl
drop-length_le (suc n) (x ∷ xs) h = drop-length_le n xs (omega arith)

pub take-length_le : (n : ℕ) (xs : List ℕ) → length xs ≤ n → take n xs ≡ xs
take-length_le zero [] h = refl
take-length_le zero (x ∷ xs) h = absurd (omega arith)
take-length_le (suc n) [] h = refl
take-length_le (suc n) (x ∷ xs) h = ap (λ t. x ∷ t) (take-length_le n xs (omega arith))

module _ (library : ChunkLibrary) where
  open library use {ChunkMap, size, index_at, range_start}

  -- The ranges of a row over the file `content`.
  pub record Ranges (row : ChunkMap) (content : List ℕ) : Type 0 where
    pub whole : size row ≡ length content
    pub bound : length content < 2 ^ 64
    pub starts : (cursor : ℕ) → cursor < size row → range_start row (index_at row cursor) ≤ cursor

  module _ (row : ChunkMap) (content : List ℕ) (h : Ranges row content) (offset end : ℕ)
      (inside : end ≤ size row) where
    -- Where a loop of a read may be.
    pub record IsAt (cursor : ℕ) (out : List ℕ) : Type 0 where
      pub from : offset ≤ cursor
      pub upto : cursor ≤ end
      pub read : out ≡ take (cursor - offset) (drop offset content)

    -- One turn of the loop.
    pub advance :
        (cursor within taken : ℕ) (out chunk : List ℕ)
        → IsAt cursor out
        → cursor < end
        → chunk ≡ take (length chunk) (drop (range_start row (index_at row cursor)) content)
        → within ≡ (cursor + 2 ^ 64 - range_start row (index_at row cursor)) % 2 ^ 64
        → taken ≡ min (end - cursor) (length chunk - within)
        → (taken == 0) ≡ false
        → IsAt (cursor + taken) (out ++ take taken (drop within chunk))
    advance cursor within taken out chunk at below p w t some_ =
        let start = range_start row (index_at row cursor) in
        let s = h.starts cursor (omega (arith, inside)) in
        let b = h.bound in
        let z = h.whole in
        let w' : within ≡ cursor - start = omega (arith, inside) in
        let more : 0 < taken = ground arith in
        let t1 : taken ≤ end - cursor = ground arith in
        let t2 : taken ≤ length chunk - within = ground arith in
        let f = at.from in
        let slice : take taken (drop within chunk) ≡ take taken (drop cursor content) =
          let here : start + within ≡ cursor = omega arith in
          ap (λ c. take taken (drop within c)) p
          ∙ take-drop-take taken within (length chunk) (drop start content) (omega arith)
          ∙ ap (λ r. take taken r) (sym (drop_add start within content))
          ∙ ap (λ k. take taken (drop k content)) here in
        let next : take (cursor + taken - offset) (drop offset content)
            ≡ take (cursor - offset) (drop offset content) ++ take taken (drop cursor content) =
          let sum : cursor + taken - offset ≡ (cursor - offset) + taken = omega arith in
          let there : offset + (cursor - offset) ≡ cursor = omega arith in
          ap (λ k. take k (drop offset content)) sum
          ∙ take_add (cursor - offset) taken (drop offset content)
          ∙ ap (λ r. take (cursor - offset) (drop offset content) ++ take taken r)
              (sym (drop_add offset (cursor - offset) content) ∙ ap (λ k. drop k content) there) in
        record {
          from = omega (arith, f);
          upto = omega (arith, t1, below);
          read = ap₂ (λ x y. x ++ y) at.read slice ∙ sym next;
        }

    pub first-IsAt : offset ≤ end → IsAt offset []
    first-IsAt after = record {
      from = omega arith;
      upto = after;
      read = let n : offset - offset ≡ 0 = omega arith in rw n refl;
    }

  module _ (row : ChunkMap) (content : List ℕ) (h : Ranges row content) (offset len : ℕ) where
    -- Nothing was asked for.
    pub empty : (leb (size row) offset || (len == 0)) ≡ true → take len (drop offset content) ≡ []
    empty nothing = elim (Bool-cases (leb (size row) offset)) [
      | inl far ↦
          let z = h.whole in
          let f = leb→le _ _ far in
          ap (take len) (drop-length_le offset content (omega arith)) ∙ take-nil len
      | inr near ↦ let zero_len : len ≡ 0 = ground arith in rw zero_len refl
    ]

    -- The range, cut at the end of the file.
    pub cut :
        offset < size row
        → take (min (saturating_add offset len) (size row) - offset) (drop offset content)
          ≡ take len (drop offset content)
    cut past =
        let b = h.bound in
        let z = h.whole in
        let l = length-drop offset content in
        elim (Bool-cases (leb (offset + len) (size row))) [
          | inl fits ↦
              let n : min (saturating_add offset len) (size row) - offset ≡ len = ground arith in
              rw n refl
          | inr over ↦
              let n : min (saturating_add offset len) (size row) - offset ≡ size row - offset =
                ground arith in
              rw n (
                take-length_le (size row - offset) (drop offset content) (omega arith)
                ∙ sym (take-length_le len (drop offset content) (ground arith)))
        ]
