-- ===== src/Text/Order.antt =====
-- The order of strings is total.
use agent_share.Prelude.{
  ℕ, ◌≡◌, refl, List, [], ◌∷◌, true, false, arith, bytes_eq, Bool-cases, inl, inr,
}
use agent_share.Text.{bytes_le}

pub bytes_le-total : (xs ys : List ℕ) → bytes_le xs ys ≡ false → bytes_le ys xs ≡ true
unfolding bytes_le
bytes_le-total [] ys h = ground arith
bytes_le-total (x ∷ xs) [] h = refl
bytes_le-total (x ∷ xs) (y ∷ ys) h = ground (arith, bytes_le-total xs ys)

pub bytes_le_trans :
    (xs ys zs : List ℕ) → bytes_le xs ys ≡ true → bytes_le ys zs ≡ true → bytes_le xs zs ≡ true
unfolding bytes_le
bytes_le_trans [] ys zs h k = refl
bytes_le_trans (x ∷ xs) [] zs h k = ground arith
bytes_le_trans (x ∷ xs) (y ∷ ys) [] h k = ground arith
bytes_le_trans (x ∷ xs) (y ∷ ys) (z ∷ zs) h k = ground (arith, bytes_le_trans xs ys zs)

pub bytes_le_antisym :
    (xs ys : List ℕ) → bytes_le xs ys ≡ true → bytes_le ys xs ≡ true → bytes_eq xs ys ≡ true
unfolding bytes_le bytes_eq
bytes_le_antisym [] [] h k = refl
bytes_le_antisym [] (y ∷ ys) h k = ground arith
bytes_le_antisym (x ∷ xs) [] h k = ground arith
bytes_le_antisym (x ∷ xs) (y ∷ ys) h k = ground (arith, bytes_le_antisym xs ys)

pub bytes_le_refl : (xs : List ℕ) → bytes_le xs xs ≡ true
bytes_le_refl xs = elim (Bool-cases (bytes_le xs xs)) [ inl h ↦ h | inr h ↦ bytes_le-total xs xs h ]
