-- ===== src/Prelude/Assoc.antt =====
-- `HashMap<String, V>` and `HashMap<&str, V>` as association lists, the last insertion first.
use Prim.Native.Nat.{ℕ}
use mathlib.Core.Path.{◌≡◌, refl}
use mathlib.Core.List.{List, [], ◌∷◌}
use mathlib.Core.Option.{Option, none, some}
use agent_share.Prelude.Tests.{bytes_eq, if◌then◌else◌}

module _ {ℓ} {V : Type ℓ} where
  unfoldable pub get : List (List ℕ × V) → List ℕ → Option V
  get [] k = none
  get ((j, v) ∷ m) k = if bytes_eq j k then some v else get m k

  unfoldable pub insert : List (List ℕ × V) → List ℕ → V → List (List ℕ × V)
  insert m k v = (k, v) ∷ m

  pub get-insert :
      (m : List (List ℕ × V)) (k j : List ℕ) (v : V)
      → get (insert m k v) j ≡ (if bytes_eq k j then some v else get m j)
  unfolding get insert
  get-insert m k j v = refl
