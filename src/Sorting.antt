-- ===== src/Sorting.antt =====
-- Lists of numbers: membership, and the `sort_unstable` and `dedup` of the Rust standard library.
use agent_share.Prelude.{
  ℕ, zero, suc, ◌+◌, ◌≤◌, ◌<◌, ◌≡◌, refl, ap, ◌∙◌, List, [], ◌∷◌, ◌++◌, Bool, true, false, leb, ltb,
  ◌==◌, ==_iff, arith, leb→le, if◌then◌else◌, Bool-cases, inl, inr, length, All,
}

abbrev pub mem : ℕ → List ℕ → Bool
mem n [] = false
mem n (m ∷ ms) = if m == n then true else mem n ms

-- `sort_unstable`, of numbers that do not repeat.
unfoldable pub insert_sorted : ℕ → List ℕ → List ℕ
insert_sorted n [] = n ∷ []
insert_sorted n (m ∷ ms) = if leb n m then n ∷ m ∷ ms else m ∷ insert_sorted n ms

unfoldable pub sort : List ℕ → List ℕ
unfolding insert_sorted
sort [] = []
sort (n ∷ ns) = insert_sorted n (sort ns)

mem-insert_sorted : (i n : ℕ) (ns : List ℕ) → mem i (insert_sorted n ns) ≡ mem i (n ∷ ns)
unfolding insert_sorted
mem-insert_sorted i n [] = refl
mem-insert_sorted i n (m ∷ ms) = elim (Bool-cases (leb n m)) [
  | inl before ↦ rw before refl
  | inr after ↦ rw after (
      ap (λ b. if m == i then true else b) (mem-insert_sorted i n ms)
      ∙ swap (m == i) (n == i) (mem i ms))
]
  where
    swap :
        (a b c : Bool)
        → (if a then true else if b then true else c) ≡ (if b then true else if a then true else c)
    swap true true c = refl
    swap true false c = refl
    swap false true c = refl
    swap false false c = refl

pub mem-sort : (i : ℕ) (ns : List ℕ) → mem i (sort ns) ≡ mem i ns
unfolding sort
mem-sort i [] = refl
mem-sort i (n ∷ ns) =
    mem-insert_sorted i n (sort ns) ∙ ap (λ b. if n == i then true else b) (mem-sort i ns)

-- Every number of a list is at least the first.
abbrev pub IsAbove : ℕ → List ℕ → Type 0
IsAbove n [] = Unit {0}
IsAbove n (m ∷ ms) = (n ≤ m) × IsAbove n ms

abbrev pub IsSorted : List ℕ → Type 0
IsSorted [] = Unit {0}
IsSorted (n ∷ ns) = IsAbove n ns × IsSorted ns

IsAbove-trans : (a b : ℕ) (ns : List ℕ) → a ≤ b → IsAbove b ns → IsAbove a ns
IsAbove-trans a b [] h k = tt
IsAbove-trans a b (n ∷ ns) h k = (omega (arith, k.0), IsAbove-trans a b ns h k.1)

insert_sorted-IsAbove :
    (a n : ℕ) (ns : List ℕ) → a ≤ n → IsAbove a ns → IsAbove a (insert_sorted n ns)
unfolding insert_sorted
insert_sorted-IsAbove a n [] h k = (h, tt)
insert_sorted-IsAbove a n (m ∷ ms) h k = elim (Bool-cases (leb n m)) [
  | inl before ↦ rw before (h, k)
  | inr after ↦ rw after (k.0, insert_sorted-IsAbove a n ms h k.1)
]

insert_sorted-IsSorted : (n : ℕ) (ns : List ℕ) → IsSorted ns → IsSorted (insert_sorted n ns)
unfolding insert_sorted
insert_sorted-IsSorted n [] h = (tt, tt)
insert_sorted-IsSorted n (m ∷ ms) h = elim (Bool-cases (leb n m)) [
  | inl before ↦ let le = leb→le _ _ before in rw before ((le, IsAbove-trans n m ms le h.0), h)
  | inr after ↦
      let le : m ≤ n = ground arith in
      rw after (insert_sorted-IsAbove m n ms le h.0, insert_sorted-IsSorted n ms h.1)
]

pub sort-IsSorted : (ns : List ℕ) → IsSorted (sort ns)
unfolding sort
sort-IsSorted [] = tt
sort-IsSorted (n ∷ ns) = insert_sorted-IsSorted n (sort ns) (sort-IsSorted ns)

-- `dedup`: of equal neighbours the first stays.
unfoldable pub dedup_after : ℕ → List ℕ → List ℕ
dedup_after x [] = []
dedup_after x (y ∷ ys) = let rest = dedup_after y ys in if x == y then rest else y ∷ rest

unfoldable pub dedup : List ℕ → List ℕ
unfolding dedup_after
dedup [] = []
dedup (x ∷ xs) = x ∷ dedup_after x xs

-- Ascending with no repetition, from a bound on.
abbrev pub IsFrom : ℕ → List ℕ → Type 0
IsFrom a [] = Unit {0}
IsFrom a (n ∷ ns) = (a ≤ n) × IsFrom (n + 1) ns

abbrev pub IsAscending : List ℕ → Type 0
IsAscending ns = IsFrom 0 ns

pub IsFrom-weaken : (a b : ℕ) (ns : List ℕ) → a ≤ b → IsFrom b ns → IsFrom a ns
IsFrom-weaken a b [] h k = tt
IsFrom-weaken a b (n ∷ ns) h k = (omega (arith, k.0), k.1)

-- What lies below an ascending list is not in it.
pub mem-IsFrom : (a i : ℕ) (ns : List ℕ) → IsFrom a ns → i < a → mem i ns ≡ false
mem-IsFrom a i [] h k = refl
mem-IsFrom a i (n ∷ ns) h k =
    let below : a ≤ n = h.0 in
    let other : (n == i) ≡ false = ground arith in
    rw other (mem-IsFrom (n + 1) i ns h.1 (omega arith))

IsFrom-IsAbove : (a : ℕ) (ns : List ℕ) → IsFrom a ns → IsAbove a ns
IsFrom-IsAbove a [] h = tt
IsFrom-IsAbove a (n ∷ ns) h =
    (h.0, IsAbove-trans a (n + 1) ns (omega (arith, h.0)) (IsFrom-IsAbove (n + 1) ns h.1))

insert_sorted-IsAbove_head : (n : ℕ) (ns : List ℕ) → IsAbove n ns → insert_sorted n ns ≡ n ∷ ns
unfolding insert_sorted
insert_sorted-IsAbove_head n [] h = refl
insert_sorted-IsAbove_head n (m ∷ ms) h =
    let le : n ≤ m = h.0 in let before : leb n m ≡ true = ground arith in rw before refl

pub sort-IsFrom : (a : ℕ) (ns : List ℕ) → IsFrom a ns → sort ns ≡ ns
unfolding sort
sort-IsFrom a [] h = refl
sort-IsFrom a (n ∷ ns) h =
    ap (insert_sorted n) (sort-IsFrom (n + 1) ns h.1)
    ∙ insert_sorted-IsAbove_head n ns
        (IsAbove-trans n (n + 1) ns (omega arith) (IsFrom-IsAbove (n + 1) ns h.1))

dedup_after-IsFrom : (a x : ℕ) (ns : List ℕ) → x < a → IsFrom a ns → dedup_after x ns ≡ ns
unfolding dedup_after
dedup_after-IsFrom a x [] l h = refl
dedup_after-IsFrom a x (n ∷ ns) l h =
    let le : a ≤ n = h.0 in
    let other : (x == n) ≡ false = ground arith in
    rw other (ap (λ t. n ∷ t) (dedup_after-IsFrom (n + 1) n ns (omega arith) h.1))

pub dedup-IsFrom : (a : ℕ) (ns : List ℕ) → IsFrom a ns → dedup ns ≡ ns
unfolding dedup
dedup-IsFrom a [] h = refl
dedup-IsFrom a (n ∷ ns) h = ap (λ t. n ∷ t) (dedup_after-IsFrom (n + 1) n ns (omega arith) h.1)

dedup_after-of-IsSorted :
    (x : ℕ) (ns : List ℕ) → IsAbove x ns → IsSorted ns → IsFrom (x + 1) (dedup_after x ns)
unfolding dedup_after
dedup_after-of-IsSorted x [] above h = tt
dedup_after-of-IsSorted x (n ∷ ns) above h =
    let le : x ≤ n = above.0 in
    let ih = dedup_after-of-IsSorted n ns h.0 h.1 in
    elim (Bool-cases (x == n)) [
      | inl same ↦ rw same (IsFrom-weaken (x + 1) (n + 1) (dedup_after n ns) (omega arith) ih)
      | inr other ↦ rw other (ground arith, ih)
    ]

pub dedup-IsAscending : (ns : List ℕ) → IsSorted ns → IsAscending (dedup ns)
unfolding dedup
dedup-IsAscending [] h = tt
dedup-IsAscending (n ∷ ns) h = (omega arith, dedup_after-of-IsSorted n ns h.0 h.1)

mem-dedup_after :
    (i x : ℕ) (ns : List ℕ)
    → (if x == i then true else mem i (dedup_after x ns)) ≡ (if x == i then true else mem i ns)
unfolding dedup_after
mem-dedup_after i x [] = refl
mem-dedup_after i x (n ∷ ns) = elim (Bool-cases (x == i)) [
  | inl e ↦ rw e refl
  | inr e ↦ rw e (elim (Bool-cases (x == n)) [
    | inl same ↦
        let skip : (n == i) ≡ false = ground arith in
        let ih : mem i (dedup_after n ns) ≡ mem i ns = rw skip at (mem-dedup_after i n ns) in
        rw same (rw skip ih)
    | inr other ↦ rw other (mem-dedup_after i n ns)
  ])
]

pub mem-dedup : (i : ℕ) (ns : List ℕ) → mem i (dedup ns) ≡ mem i ns
unfolding dedup
mem-dedup i [] = refl
mem-dedup i (n ∷ ns) = mem-dedup_after i n ns

mem-append : (i : ℕ) (ms ns : List ℕ) → mem i (ms ++ ns) ≡ (if mem i ms then true else mem i ns)
mem-append i [] ns = refl
mem-append i (m ∷ ms) ns = elim (Bool-cases (m == i)) [
  | inl e ↦ rw e refl
  | inr e ↦ rw e (mem-append i ms ns)
]

-- The numbers from `start` on, `count` of them.
unfoldable pub count_from : ℕ → ℕ → List ℕ
count_from start zero = []
count_from start (suc count) = start ∷ count_from (start + 1) count

pub count_from-IsFrom : (start count : ℕ) → IsFrom start (count_from start count)
unfolding count_from
count_from-IsFrom start zero = tt
count_from-IsFrom start (suc count) = (omega arith, count_from-IsFrom (start + 1) count)

pub mem-count_from :
    (i start count : ℕ)
    → mem i (count_from start count) ≡ (if leb start i then ltb i (start + count) else false)
unfolding count_from
mem-count_from i start zero = ground arith
mem-count_from i start (suc count) = ground (arith, mem-count_from i (start + 1) count)

pub count_from-append :
    (start a b : ℕ) → count_from start a ++ count_from (start + a) b ≡ count_from start (a + b)
unfolding count_from
count_from-append start zero b =
    let here : start + 0 ≡ start = omega arith in
    let rest : 0 + b ≡ b = omega arith in rw here (rw rest refl)
count_from-append start (suc a) b =
    let there : start + suc a ≡ start + 1 + a = omega arith in
    let both : suc a + b ≡ suc (a + b) = omega arith in
    rw there (rw both (ap (λ t. start ∷ t) (count_from-append (start + 1) a b)))

pub All-mem : (P : ℕ → Type 0) (ns : List ℕ) → ((i : ℕ) → mem i ns ≡ true → P i) → All P ns
All-mem P [] h = tt
All-mem P (n ∷ ns) h = (
  h n (rw ((==_iff n n).1 refl) refl),
  All-mem P ns (λ i m. h i (elim (Bool-cases (n == i)) [ inl e ↦ rw e refl | inr e ↦ rw e m ])),
)

pub mem-All : (P : ℕ → Type 0) (ns : List ℕ) (i : ℕ) → All P ns → mem i ns ≡ true → P i
mem-All P [] i h m = cc
mem-All P (n ∷ ns) i h m = elim (Bool-cases (n == i)) [
  | inl e ↦ let same : n ≡ i = (==_iff n i).0 e in rw (← same) h.0
  | inr e ↦ mem-All P ns i h.1 (rw e at m)
]

-- An ascending list has room for itself below its bound.
length-le_room :
    (a b : ℕ) (ns : List ℕ) → a ≤ b → IsFrom a ns → All (λ n. n < b) ns → a + length ns ≤ b
length-le_room a b [] h from below = omega arith
length-le_room a b (n ∷ ns) h from below =
    omega (arith, from.0, length-le_room (n + 1) b ns (omega (arith, below.0)) from.1 below.1)

-- An ascending list that leaves no room is all the numbers below its bound.
pub count_from-length :
    (a b : ℕ) (ns : List ℕ)
    → IsFrom a ns
    → All (λ n. n < b) ns
    → b ≤ a + length ns
    → ns ≡ count_from a (length ns)
unfolding count_from
count_from-length a b [] from below h = refl
count_from-length a b (n ∷ ns) from below h =
    let room = length-le_room (n + 1) b ns (omega (arith, below.0)) from.1 below.1 in
    let first : n ≡ a = omega (arith, from.0) in
    rw (← first) (ap (λ t. n ∷ t) (count_from-length (n + 1) b ns from.1 below.1 (omega arith)))
