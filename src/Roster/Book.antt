-- ===== src/Roster/Book.antt =====
-- The book by endpoints that `live_cards` of crates/agent-share-proto/src/roster.rs builds.
use mathlib.Core.Path.{subst}
use mathlib.Core.List.{Memᴰ}
use agent_share.Prelude.{
  ℕ, ◌≡◌, ◌⊎◌, refl, ap, sym, ◌∙◌, List, [], ◌∷◌, true, false, arith, All, bytes_eq, bytes_eq→eq,
  Bool-cases, inl, inr,
}
use agent_share.Text.{bytes_le}
use agent_share.Text.Order.{bytes_le-total, bytes_le_trans, bytes_le_antisym, bytes_le_refl}
use agent_share.Roster.{MetaEntry, hold, place}

-- Before in the order of endpoints, and not equal.
abbrev pub Before : List ℕ → List ℕ → Type 0
Before xs ys = bytes_le ys xs ≡ false

Before-trans : (xs ys zs : List ℕ) → Before xs ys → Before ys zs → Before xs zs
Before-trans xs ys zs h k = elim (Bool-cases (bytes_le zs xs)) [
  | inr e ↦ e
  | inl e ↦ let back = bytes_le_trans zs xs ys e (bytes_le-total ys xs h) in absurd (ground arith)
]

Before-irrefl : (xs : List ℕ) → Before xs xs → ⊥
Before-irrefl xs h = let t = bytes_le-total xs xs h in ground arith

Before-of_le : (xs ys : List ℕ) → bytes_le xs ys ≡ true → bytes_eq xs ys ≡ false → Before xs ys
Before-of_le xs ys h n = elim (Bool-cases (bytes_le ys xs)) [
  | inr e ↦ e
  | inl e ↦ let same = bytes_le_antisym xs ys h e in absurd (ground arith)
]

abbrev pub IsBook : List MetaEntry → Type 0
IsBook [] = Unit {0}
IsBook (held ∷ book) = All (λ d. Before held.card.endpoint d.card.endpoint) book × IsBook book

All-mem :
    (P : MetaEntry → Type 0) (book : List MetaEntry) (e : MetaEntry)
    → All P book
    → Memᴰ e book
    → P e
All-mem P [] e all m = elim m [ ]
All-mem P (d ∷ book) e all m = elim m [
  | Memᴰ.head same ↦ subst P (sym same) all.0
  | Memᴰ.tail n ↦ All-mem P book e all.1 n
]

hold-cases : (e held : MetaEntry) → (hold e held ≡ e) ⊎ (hold e held ≡ held)
unfolding hold
hold-cases e held = elim (Bool-cases (bytes_le held.nickname e.nickname)) [
  | inl h ↦ inr (rw h refl)
  | inr h ↦ inl (rw h refl)
]

hold-endpoint :
    (e held : MetaEntry)
    → e.card.endpoint ≡ held.card.endpoint
    → (hold e held).card.endpoint ≡ held.card.endpoint
hold-endpoint e held same = elim (hold-cases e held) [
  | inl h ↦ ap (λ x. x.card.endpoint) h ∙ same
  | inr h ↦ ap (λ x. x.card.endpoint) h
]

-- Neither of the two has a smaller nickname.
hold-least :
    (e held : MetaEntry)
    → (bytes_le (hold e held).nickname e.nickname ≡ true)
      × (bytes_le (hold e held).nickname held.nickname ≡ true)
unfolding hold
hold-least e held = elim (Bool-cases (bytes_le held.nickname e.nickname)) [
  | inl h ↦ rw h (h, bytes_le_refl held.nickname)
  | inr h ↦ rw h (bytes_le_refl e.nickname, bytes_le-total held.nickname e.nickname h)
]

place-All :
    (P : MetaEntry → Type 0) (e : MetaEntry) (book : List MetaEntry)
    → P e
    → All P book
    → All P (place e book)
unfolding place
place-All P e [] p all = (p, tt)
place-All P e (held ∷ book) p all =
    elim (Bool-cases (bytes_eq e.card.endpoint held.card.endpoint)) [
      | inl same ↦ elim (hold-cases e held) [
        | inl h ↦ rw same (rw (h, place) (p, all.1))
        | inr h ↦ rw same (rw (h, place) all)
      ]
      | inr other ↦ elim (Bool-cases (bytes_le e.card.endpoint held.card.endpoint)) [
        | inl first ↦ rw other (rw first (p, all))
        | inr later ↦ rw other (rw later (all.0, place-All P e book p all.1))
      ]
    ]

All-map :
    (P Q : MetaEntry → Type 0) (book : List MetaEntry)
    → ((d : MetaEntry) → P d → Q d)
    → All P book
    → All Q book
All-map P Q [] f all = tt
All-map P Q (d ∷ book) f all = (f d all.0, All-map P Q book f all.1)

pub place-IsBook : (e : MetaEntry) (book : List MetaEntry) → IsBook book → IsBook (place e book)
unfolding place
place-IsBook e [] h = (tt, tt)
place-IsBook e (held ∷ book) h = elim (Bool-cases (bytes_eq e.card.endpoint held.card.endpoint)) [
  | inl same ↦
      let end = hold-endpoint e held (bytes_eq→eq _ _ same) in
      rw same (subst (λ k. All (λ d. Before k d.card.endpoint) book) (sym end) h.0, h.1)
  | inr other ↦ elim (Bool-cases (bytes_le e.card.endpoint held.card.endpoint)) [
    | inl first ↦
        let before = Before-of_le e.card.endpoint held.card.endpoint first other in
        rw other (
          rw first (
            (
              before,
              All-map (λ d. Before held.card.endpoint d.card.endpoint)
                  (λ d. Before e.card.endpoint d.card.endpoint) book
                  (λ d k. Before-trans e.card.endpoint held.card.endpoint d.card.endpoint before k)
                  h.0,
            ),
            h,
          ))
    | inr later ↦ rw other (
        rw later (
          place-All (λ d. Before held.card.endpoint d.card.endpoint) e book later h.0,
          place-IsBook e book h.1,
        ))
  ]
]

-- An entry of the book has the endpoint, and a nickname that is not greater.
abbrev pub Covered : MetaEntry → List MetaEntry → Type 0
Covered x book =
    (y : MetaEntry) × Memᴰ y book
    × (y.card.endpoint ≡ x.card.endpoint)
    × (bytes_le y.nickname x.nickname ≡ true)

Covered-tail :
    (x held : MetaEntry) (book : List MetaEntry) → Covered x book → Covered x (held ∷ book)
Covered-tail x held book (y, m, e, le) = (y, Memᴰ.tail m, e, le)

pub place-from :
    (x e : MetaEntry) (book : List MetaEntry) → Memᴰ x (place e book) → (x ≡ e) ⊎ Memᴰ x book
unfolding place
place-from x e [] m = elim m [ Memᴰ.head same ↦ inl same | Memᴰ.tail n ↦ elim n [ ] ]
place-from x e (held ∷ book) m = elim (Bool-cases (bytes_eq e.card.endpoint held.card.endpoint)) [
  | inl same ↦ elim (rw (same, place) at m) [
    | Memᴰ.head h ↦ elim (hold-cases e held) [
      | inl k ↦ inl (h ∙ k)
      | inr k ↦ inr (Memᴰ.head (h ∙ k))
    ]
    | Memᴰ.tail n ↦ inr (Memᴰ.tail n)
  ]
  | inr other ↦ elim (Bool-cases (bytes_le e.card.endpoint held.card.endpoint)) [
    | inl first ↦ elim (rw (first, place) at (rw (other, place) at m)) [
      | Memᴰ.head h ↦ inl h
      | Memᴰ.tail n ↦ inr n
    ]
    | inr later ↦ elim (rw (later, place) at (rw (other, place) at m)) [
      | Memᴰ.head h ↦ inr (Memᴰ.head h)
      | Memᴰ.tail n ↦ elim (place-from x e book n) [ inl k ↦ inl k | inr k ↦ inr (Memᴰ.tail k) ]
    ]
  ]
]

pub place-Covered :
    (x e : MetaEntry) (book : List MetaEntry) → (x ≡ e) ⊎ Memᴰ x book → Covered x (place e book)
unfolding place
place-Covered x e [] (inl h) = (
  e,
  Memᴰ.head refl,
  ap (λ z. z.card.endpoint) (sym h),
  subst (λ z. bytes_le e.nickname z.nickname ≡ true) (sym h) (bytes_le_refl e.nickname),
)
place-Covered x e [] (inr m) = elim m [ ]
place-Covered x e (held ∷ book) h =
    elim (Bool-cases (bytes_eq e.card.endpoint held.card.endpoint)) [
      | inl same ↦
          let ends = bytes_eq→eq _ _ same in
          let (less_e, less_held) = hold-least e held in
          let end = hold-endpoint e held ends in
          rw (same, place)
            (elim h [
              | inl k ↦ (
                hold e held,
                Memᴰ.head refl,
                subst (λ z. (hold e held).card.endpoint ≡ z.card.endpoint) (sym k) (end ∙ sym ends),
                subst (λ z. bytes_le (hold e held).nickname z.nickname ≡ true) (sym k) less_e,
              )
              | inr m ↦ elim m [
                | Memᴰ.head k ↦ (
                  hold e held,
                  Memᴰ.head refl,
                  subst (λ z. (hold e held).card.endpoint ≡ z.card.endpoint) (sym k) end,
                  subst (λ z. bytes_le (hold e held).nickname z.nickname ≡ true) (sym k) less_held,
                )
                | Memᴰ.tail n ↦ (x, Memᴰ.tail n, refl, bytes_le_refl x.nickname)
              ]
            ])
      | inr other ↦ elim (Bool-cases (bytes_le e.card.endpoint held.card.endpoint)) [
        | inl first ↦
            rw (other, place)
              (rw (first, place)
                (elim h [
                  | inl k ↦ (x, Memᴰ.head k, refl, bytes_le_refl x.nickname)
                  | inr m ↦ (x, Memᴰ.tail m, refl, bytes_le_refl x.nickname)
                ]))
        | inr later ↦
            rw (other, place)
              (rw (later, place)
                (elim h [
                  | inl k ↦ Covered-tail x held (place e book) (place-Covered x e book (inl k))
                  | inr m ↦ elim m [
                    | Memᴰ.head k ↦ (x, Memᴰ.head k, refl, bytes_le_refl x.nickname)
                    | Memᴰ.tail n ↦
                        Covered-tail x held (place e book) (place-Covered x e book (inr n))
                  ]
                ]))
      ]
    ]

pub Covered-place :
    (x e : MetaEntry) (book : List MetaEntry) → Covered x book → Covered x (place e book)
Covered-place x e book (y, m, end, le) =
    let (z, n, end', le') = place-Covered y e book (inr m) in
    (z, n, end' ∙ end, bytes_le_trans z.nickname y.nickname x.nickname le' le)

-- Two entries of a book with one endpoint are the same.
pub IsBook-unique :
    (book : List MetaEntry) (x y : MetaEntry)
    → IsBook book
    → Memᴰ x book
    → Memᴰ y book
    → x.card.endpoint ≡ y.card.endpoint
    → x ≡ y
IsBook-unique [] x y h m n e = elim m [ ]
IsBook-unique (held ∷ book) x y h m n e = elim m [
  | Memᴰ.head k ↦ elim n [
    | Memᴰ.head l ↦ k ∙ sym l
    | Memᴰ.tail l ↦
        let before = All-mem (λ d. Before held.card.endpoint d.card.endpoint) book y h.0 l in
        let same : held.card.endpoint ≡ y.card.endpoint = ap (λ z. z.card.endpoint) (sym k) ∙ e in
        absurd (Before-irrefl y.card.endpoint (subst (λ t. Before t y.card.endpoint) same before))
  ]
  | Memᴰ.tail k ↦ elim n [
    | Memᴰ.head l ↦
        let before = All-mem (λ d. Before held.card.endpoint d.card.endpoint) book x h.0 k in
        let same : held.card.endpoint ≡ x.card.endpoint =
          ap (λ z. z.card.endpoint) (sym l) ∙ sym e in
        absurd (Before-irrefl x.card.endpoint (subst (λ t. Before t x.card.endpoint) same before))
    | Memᴰ.tail l ↦ IsBook-unique book x y h.1 k l e
  ]
]
