-- ===== src/Prelude/Outcome.antt =====
-- `anyhow::Result`, with an enumeration in place of the messages. `panicked` stands for a Rust
-- panic (an `expect` that fails); every other error is a `bail!`, an `ensure!` or a `context`.
use mathlib.Core.Path.{◌≡◌, refl}

pub data Error : Type 0 where
  panicked truncated trailing not_utf8 too_short bad_length over_cap rollback : Error
  not_signed unknown_kind unknown_status bad_index io len_over_cap : Error
  disconnected refused wrong_root wrong_hash : Error

pub data Result {ℓ} (T : Type ℓ) : Type ℓ where
  err : (error : Error) → Result T
  ok : (value : T) → Result T

infixl 5 ◌>>=◌ ◌>>◌
-- The `?` operator.
abbrev pub ◌>>=◌ {k ℓ} :
    {S : Type k} {T : Type ℓ} (first : Result S) (rest : S → Result T) → Result T
(err error) >>= rest = err error
(ok value) >>= rest = rest value

-- A check on the way.
abbrev pub ◌>>◌ {ℓ} : {T : Type ℓ} (check : Result (Unit {0})) (rest : Result T) → Result T
check >> rest = check >>= λ unit. rest

-- A chain that succeeds has a first step that succeeds.
pub >>=-eq-ok {k ℓ} :
    {S : Type k} {T : Type ℓ} (first : Result S) (rest : S → Result T) {result : T}
    → (first >>= rest) ≡ ok result
    → (value : S) × (first ≡ ok value) × (rest value ≡ ok result)
>>=-eq-ok (err error) rest made = cc
>>=-eq-ok (ok value) rest made = (value, refl, made)
