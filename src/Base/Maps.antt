-- ===== src/Base/Maps.antt =====
-- `std::map` with strings for keys: the list of its pairs, in the order of its iterator, which goes by the
-- bytes of the keys.
pub mod Order
use Prim.Native.Nat.{ℕ}
use mathlib.Core.List.{List, [], ◌∷◌}
use mathlib.Core.Bool.{Bool, true, false}
use mathlib.Core.Option.{Option, none, some}
use studytest.Base.Tests.{ltb, ◌==◌, if◌then◌else◌}
use studytest.Base.Text.{Bytes, same}

-- `operator<` of strings
unfoldable pub less : Bytes → Bytes → Bool
less [] [] = false
less [] (d ∷ t) = true
less (c ∷ s) [] = false
less (c ∷ s) (d ∷ t) =
    let rest = less s t in if ltb c d then true else if c == d then rest else false

module _ {ℓ} {A : Type ℓ} where
  -- `find`
  unfoldable pub get : Bytes → List (Bytes × A) → Option A
  get k [] = none
  get k ((j, v) ∷ m) = let rest = get k m in if same j k then some v else rest

  -- `insert`, which leaves a key that is there as it is
  unfoldable pub put_new : Bytes → A → List (Bytes × A) → List (Bytes × A)
  unfolding less
  put_new k v [] = (k, v) ∷ []
  put_new k v ((j, w) ∷ m) =
      let rest = put_new k v m in
      if same j k then (j, w) ∷ m else if less k j then (k, v) ∷ ((j, w) ∷ m) else (j, w) ∷ rest

  -- `map[k] = v`
  unfoldable pub put : Bytes → A → List (Bytes × A) → List (Bytes × A)
  unfolding less
  put k v [] = (k, v) ∷ []
  put k v ((j, w) ∷ m) =
      let rest = put k v m in
      if same j k then (j, v) ∷ m else if less k j then (k, v) ∷ ((j, w) ∷ m) else (j, w) ∷ rest
