-- ===== src/Serving/Runs.antt =====
-- The run list form: what is written for an ascending list reads back as that list.
use mathlib.Core.Path.{subst}
use mathlib.Core.List.{append_assoc, append-nil}
use agent_share.Prelude.{
  ℕ, ◌+◌, ◌-◌, ◌%◌, ◌^◌, ◌<◌, ◌≤◌, ◌≡◌, refl, ap, sym, ◌∙◌, List, [], ◌∷◌, ◌++◌, true, false,
  Option, none, some, arith, length, ltb, ◌==◌, ==_iff, All, All-append, if◌then◌else◌, Bool-cases,
  inl, inr,
}
use agent_share.Sorting.{IsFrom, count_from, count_from-append}
use agent_share.Wire.Words.{IsU32}
use agent_share.Text.{is_empty, is_whitespace, trim, split, split_once, parse_u32, decimal}
use agent_share.Text.Decimal.{IsDigit, decimal-IsDigit, decimal-ne-nil, parse_u32-decimal}
use agent_share.Text.Pieces.{
  Lacks, trim-HasNoSpace, split-Lacks, split-append, split_once-Lacks, split_once-append,
}
use agent_share.Serving.{max_serving_chars, write_run, write_runs, read_run, read_runs}

-- A character that neither `trim` takes off nor another form starts with.
abbrev pub IsPlain : ℕ → Type 0
IsPlain c = (is_whitespace c ≡ false) × ((c == b'*') ≡ false) × ((c == b'~') ≡ false)

All-map : {P Q : ℕ → Type 0} (f : (c : ℕ) → P c → Q c) (cs : List ℕ) → All P cs → All Q cs
All-map f [] h = tt
All-map f (c ∷ cs) h = (f c h.0, All-map f cs h.1)

IsDigit-IsPlain : (c : ℕ) → IsDigit c → IsPlain c
unfolding is_whitespace
IsDigit-IsPlain c h = (ground arith, ground arith, ground arith)

decimal-IsPlain : (n : ℕ) → All IsPlain (decimal n)
decimal-IsPlain n = All-map IsDigit-IsPlain (decimal n) (decimal-IsDigit n)

decimal-Lacks : (n at : ℕ) → at < b'0' → Lacks at (decimal n)
decimal-Lacks n at h = All-map (λ c d. ground arith) (decimal n) (decimal-IsDigit n)

dash-IsPlain : IsPlain b'-'
unfolding is_whitespace
dash-IsPlain = (refl, refl, refl)

comma-IsPlain : IsPlain b','
unfolding is_whitespace
comma-IsPlain = (refl, refl, refl)

-- The text of one run.
abbrev pub piece : ℕ → ℕ → List ℕ
piece start end = if start == end then decimal start else decimal start ++ (b'-' ∷ decimal end)

piece-IsPlain : (start end : ℕ) → All IsPlain (piece start end)
piece-IsPlain start end = elim (Bool-cases (start == end)) [
  | inl e ↦ rw e (decimal-IsPlain start)
  | inr e ↦ rw e (
      All-append IsPlain (decimal start) (b'-' ∷ decimal end) (decimal-IsPlain start)
        (dash-IsPlain, decimal-IsPlain end))
]

piece-Lacks : (start end : ℕ) → Lacks b',' (piece start end)
piece-Lacks start end = elim (Bool-cases (start == end)) [
  | inl e ↦ rw e (decimal-Lacks start b',' (omega arith))
  | inr e ↦ rw e (
      All-append _ (decimal start) (b'-' ∷ decimal end) (decimal-Lacks start b',' (omega arith))
        (refl, decimal-Lacks end b',' (omega arith)))
]

append-ne-nil : (xs ys : List ℕ) → is_empty xs ≡ false → is_empty (xs ++ ys) ≡ false
append-ne-nil [] ys h = cc
append-ne-nil (x ∷ xs) ys h = refl

pub piece-ne-nil : (start end : ℕ) → is_empty (piece start end) ≡ false
piece-ne-nil start end = elim (Bool-cases (start == end)) [
  | inl e ↦ rw e (decimal-ne-nil start)
  | inr e ↦ rw e (append-ne-nil (decimal start) (b'-' ∷ decimal end) (decimal-ne-nil start))
]

pub trim-IsPlain : (text : List ℕ) → All IsPlain text → trim text ≡ text
trim-IsPlain text h = trim-HasNoSpace text (All-map (λ c p. p.0) text h)

count_from-one : (n : ℕ) → n ∷ [] ≡ count_from n 1
unfolding count_from
count_from-one n = refl

read_run-one :
    (text : List ℕ) (n : ℕ)
    → is_empty text ≡ false
    → split_once b'-' text ≡ none
    → parse_u32 text ≡ some n
    → read_run text ≡ n ∷ []
unfolding read_run
read_run-one text n e o p = rw (e, read_run) (rw (o, read_run) (rw (p, read_run) refl))

read_run-range :
    (text first last : List ℕ) (start end : ℕ)
    → is_empty text ≡ false
    → split_once b'-' text ≡ some (first, last)
    → parse_u32 first ≡ some start
    → parse_u32 last ≡ some end
    → ltb end start ≡ false
    → read_run text ≡ count_from start (end + 1 - start)
unfolding read_run
read_run-range text first last start end e o p q h =
    rw (e, read_run) (rw (o, read_run) (rw (p, read_run) (rw (q, read_run) (rw h refl))))

read_run-piece :
    (start end : ℕ)
    → start ≤ end
    → IsU32 end
    → read_run (piece start end) ≡ count_from start (end + 1 - start)
read_run-piece start end h small = elim (Bool-cases (start == end)) [
  | inl e ↦ rw e (one e)
  | inr e ↦ rw e (
      read_run-range (decimal start ++ (b'-' ∷ decimal end)) (decimal start) (decimal end) start end
        (append-ne-nil (decimal start) (b'-' ∷ decimal end) (decimal-ne-nil start))
        (split_once-append b'-' (decimal start) (decimal end)
          (decimal-Lacks start b'-' (omega arith)))
        (parse_u32-decimal start (omega arith)) (parse_u32-decimal end small) (ground arith))
]
  where
    one : (start == end) ≡ true → read_run (decimal start) ≡ count_from start (end + 1 - start)
    one e =
        let same : start ≡ end = (==_iff _ _).0 e in
        let count : end + 1 - start ≡ 1 = omega arith in
        rw count (
          read_run-one (decimal start) start (decimal-ne-nil start)
            (split_once-Lacks b'-' (decimal start) (decimal-Lacks start b'-' (omega arith)))
            (parse_u32-decimal start (omega arith))
          ∙ count_from-one start)

read_runs-append :
    (runs : List (List ℕ)) (run : List ℕ)
    → read_runs (runs ++ (run ∷ [])) ≡ read_runs runs ++ read_run (trim run)
unfolding read_runs
read_runs-append [] run = append-nil _
read_runs-append (first ∷ runs) run =
    ap (λ t. read_run (trim first) ++ t) (read_runs-append runs run)
    ∙ sym (append_assoc (read_run (trim first)) (read_runs runs) (read_run (trim run)))

-- What has been written so far, and the slots that it lists.
pub record Lists (out : List ℕ) (slots : List ℕ) : Type 0 where
  pub plain : All IsPlain out
  pub listed : read_runs (split b',' out) ≡ slots

first_run :
    (piece : List ℕ)
    → Lacks b',' piece
    → All IsPlain piece
    → read_runs (split b',' piece) ≡ read_run piece
unfolding read_runs
first_run piece lacks plain =
    rw (split-Lacks b',' piece lacks) (append-nil _ ∙ ap read_run (trim-IsPlain piece plain))

next_run :
    (out piece slots : List ℕ)
    → Lacks b',' piece
    → All IsPlain piece
    → Lists out slots
    → Lists (out ++ (b',' ∷ piece)) (slots ++ read_run piece)
next_run out piece slots lacks plain lists = record {
  plain = All-append IsPlain out (b',' ∷ piece) lists.plain (comma-IsPlain, plain);
  listed =
      ap read_runs (split-append b',' out piece lacks)
      ∙ read_runs-append (split b',' out) piece
      ∙ ap (λ t. t ++ read_run (trim piece)) lists.listed
      ∙ ap (λ t. slots ++ read_run t) (trim-IsPlain piece plain);
}

pub nothing-Lists : Lists [] []
unfolding read_runs split read_run trim
nothing-Lists = record { plain = tt; listed = refl }

write_run-Lists :
    (out slots : List ℕ) (start end : ℕ)
    → start ≤ end
    → IsU32 end
    → Lists out slots
    → Lists (write_run out start end) (slots ++ count_from start (end + 1 - start))
unfolding write_run
write_run-Lists [] slots start end h small lists =
    let none_yet : [] ≡ slots = sym (nothing-Lists.listed) ∙ lists.listed in
    rw (← none_yet) (record {
      plain = piece-IsPlain start end;
      listed =
          first_run (piece start end) (piece-Lacks start end) (piece-IsPlain start end)
          ∙ read_run-piece start end h small;
    })
write_run-Lists (c ∷ out) slots start end h small lists =
    subst (λ t. Lists t (slots ++ count_from start (end + 1 - start)))
      (sym (append_assoc (c ∷ out) (b',' ∷ []) (piece start end)))
      (subst (λ t. Lists ((c ∷ out) ++ (b',' ∷ piece start end)) (slots ++ t))
        (read_run-piece start end h small)
        (next_run (c ∷ out) (piece start end) slots (piece-Lacks start end)
          (piece-IsPlain start end) lists))

pub write_run-ne-nil : (out : List ℕ) (start end : ℕ) → is_empty (write_run out start end) ≡ false
unfolding write_run
write_run-ne-nil [] start end = piece-ne-nil start end
write_run-ne-nil (c ∷ out) start end = refl

longer_run :
    (start end : ℕ) (rest : List ℕ)
    → start ≤ end
    → count_from start (end + 1 - start) ++ ((end + 1) ∷ rest)
      ≡ count_from start (end + 1 + 1 - start) ++ rest
unfolding count_from
longer_run start end rest h =
    let n = end + 1 - start in
    let more : end + 1 + 1 - start ≡ n + 1 = omega arith in
    let at : end + 1 ≡ start + n = omega arith in
    rw more (
      ap (λ k. count_from start n ++ (k ∷ rest)) at
      ∙ sym (append_assoc (count_from start n) (count_from (start + n) 1) rest)
      ∙ ap (λ t. t ++ rest) (count_from-append start n 1))

-- The field that is published is the run list of the whole.
pub write_runs_lem :
    (out slots : List ℕ) (start end : ℕ) (rest text : List ℕ)
    → start ≤ end
    → IsU32 end
    → IsFrom (end + 1) rest
    → All IsU32 rest
    → Lists out slots
    → write_runs out start end rest ≡ some text
    → Lists text (slots ++ (count_from start (end + 1 - start) ++ rest)) × (is_empty text ≡ false)
unfolding write_runs
write_runs_lem out slots start end [] text h small from words lists made =
    elim (Bool-cases (ltb max_serving_chars (length (write_run out start end)))) [
      | inl long ↦ absurd (ground arith)
      | inr short ↦
          let same : write_run out start end ≡ text = ground arith in
          rw (← same) (
            rw append-nil
              (write_run-Lists out slots start end h small lists, write_run-ne-nil out start end))
    ]
write_runs_lem out slots start end (next ∷ rest) text h small from words lists made =
    let nearby : (end + 1) % 2 ^ 32 ≡ end + 1 = omega (arith, from.0, words.0) in
    elim (Bool-cases (next == (end + 1) % 2 ^ 32)) [
      | inl e ↦
          let at : next ≡ end + 1 = (==_iff _ _).0 e ∙ nearby in
          let going : write_runs out start next rest ≡ some text = rw e at made in
          let ih =
            write_runs_lem out slots start next rest text (omega arith) words.0 from.1 words.1 lists
              going in
          let joined : count_from start (end + 1 - start) ++ (next ∷ rest)
              ≡ count_from start (next + 1 - start) ++ rest =
            rw at (longer_run start end rest h) in
          rw joined ih
      | inr e ↦ elim (Bool-cases (ltb max_serving_chars (length (write_run out start end)))) [
        | inl long ↦
            let stopped : ◌≡◌ {A = Option (List ℕ)} none (some text) = rw long at (rw e at made) in
            cc
        | inr short ↦
            let going : write_runs (write_run out start end) next next rest ≡ some text =
              rw short at (rw e at made) in
            let written = write_run-Lists out slots start end h small lists in
            let ih =
              write_runs_lem (write_run out start end) (slots ++ count_from start (end + 1 - start))
                next next rest text (omega arith) words.0 from.1 words.1 written going in
            let one : next + 1 - next ≡ 1 = omega arith in
            let both : (slots ++ count_from start (end + 1 - start))
                  ++ (count_from next (next + 1 - next) ++ rest)
                ≡ slots ++ (count_from start (end + 1 - start) ++ (next ∷ rest)) =
              rw one (
                ap (λ t. (slots ++ count_from start (end + 1 - start)) ++ (t ++ rest))
                  (sym (count_from-one next))
                ∙ append_assoc slots (count_from start (end + 1 - start)) (next ∷ rest)) in
            rw (← both) ih
      ]
    ]
