-- ===== src/Text/Pieces.antt =====
-- Trimming and splitting of texts that lack the characters in question.
use agent_share.Prelude.{
  ℕ, ◌≡◌, refl, List, [], ◌∷◌, ◌++◌, Bool, true, false, ◌&&◌, arith, none, some, ◌==◌, All,
  if◌then◌else◌, Bool-cases, inl, inr,
}
use agent_share.Text.{is_empty, is_whitespace, trim_start, trim_end, trim, split, split_once}

-- A text without a character.
abbrev pub Lacks : ℕ → List ℕ → Type 0
Lacks at = All (λ c. (c == at) ≡ false)

abbrev pub HasNoSpace : List ℕ → Type 0
HasNoSpace = All (λ c. is_whitespace c ≡ false)

trim_end-HasNoSpace : (text : List ℕ) → HasNoSpace text → trim_end text ≡ text
unfolding trim_end
trim_end-HasNoSpace [] h = refl
trim_end-HasNoSpace (c ∷ cs) h = rw (trim_end-HasNoSpace cs h.1) (rw h.0 (both (is_empty cs)))
  where
    both : (b : Bool) → (if b && false then [] else c ∷ cs) ≡ c ∷ cs
    both true = refl
    both false = refl

trim_start-HasNoSpace : (text : List ℕ) → HasNoSpace text → trim_start text ≡ text
unfolding trim_start
trim_start-HasNoSpace [] h = refl
trim_start-HasNoSpace (c ∷ cs) h = rw h.0 refl

pub trim-HasNoSpace : (text : List ℕ) → HasNoSpace text → trim text ≡ text
unfolding trim
trim-HasNoSpace text h = rw (trim_start-HasNoSpace text h) (trim_end-HasNoSpace text h)

pub split-Lacks : (at : ℕ) (text : List ℕ) → Lacks at text → split at text ≡ text ∷ []
unfolding split
split-Lacks at [] h = refl
split-Lacks at (c ∷ cs) h = rw h.0 (rw (split-Lacks at cs h.1) refl)

split-cons :
    (at : ℕ) (text : List ℕ)
    → (first : List ℕ) × (rest : List (List ℕ)) × (split at text ≡ first ∷ rest)
unfolding split
split-cons at [] = ([], [], refl)
split-cons at (c ∷ cs) = elim (Bool-cases (c == at)) [
  | inl e ↦ ([], split at cs, rw e refl)
  | inr e ↦ let (first, rest, made) = split-cons at cs in (c ∷ first, rest, rw e (rw made refl))
]

-- A last piece.
pub split-append :
    (at : ℕ) (before piece : List ℕ)
    → Lacks at piece
    → split at (before ++ (at ∷ piece)) ≡ split at before ++ (piece ∷ [])
unfolding split
split-append at [] piece h = elim (Bool-cases (at == at)) [
  | inl e ↦ rw e (rw (split-Lacks at piece h) refl)
  | inr e ↦ ground arith
]
split-append at (c ∷ before) piece h =
    let ih = split-append at before piece h in
    elim (Bool-cases (c == at)) [
      | inl e ↦ rw e (rw ih refl)
      | inr e ↦ let (first, rest, made) = split-cons at before in rw e (rw ih (rw made refl))
    ]

pub split_once-Lacks : (at : ℕ) (text : List ℕ) → Lacks at text → split_once at text ≡ none
unfolding split_once
split_once-Lacks at [] h = refl
split_once-Lacks at (c ∷ cs) h = rw h.0 (rw (split_once-Lacks at cs h.1) refl)

pub split_once-append :
    (at : ℕ) (before after : List ℕ)
    → Lacks at before
    → split_once at (before ++ (at ∷ after)) ≡ some (before, after)
unfolding split_once
split_once-append at [] after h = elim (Bool-cases (at == at)) [
  | inl e ↦ rw e refl
  | inr e ↦ ground arith
]
split_once-append at (c ∷ before) after h = rw h.0 (rw (split_once-append at before after h.1) refl)
