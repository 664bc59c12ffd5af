-- ===== src/Prelude/OrderedMap.antt =====
-- `std::map` with its order: entries as they stand, and what a comparison makes of a key.
use mathlib.Core.Bool.{Bool}
use mathlib.Core.List.{List, [], ◌∷◌}
use cevent_loop.Prelude.Tests.{if◌then◌else◌}

module _ {ℓ} {K V : Type ℓ} (less : K → K → Bool) where
  -- The entries before `lower_bound(k)`: those less than the key, up to the first that is not.
  unfoldable pub before : K → List (K × V) → List (K × V)
  before k [] = []
  before k (e ∷ es) = if less e.0 k then e ∷ before k es else []

  -- The entries from `lower_bound(k)` to the end.
  unfoldable pub from : K → List (K × V) → List (K × V)
  from k [] = []
  from k (e ∷ es) = if less e.0 k then from k es else e ∷ es

  -- `insert`: a key that is equivalent to one in the map changes nothing.
  unfoldable pub insert : K → V → List (K × V) → List (K × V)
  insert k v [] = (k, v) ∷ []
  insert k v (e ∷ es) =
      if less e.0 k then e ∷ insert k v es else if less k e.0 then (k, v) ∷ (e ∷ es) else e ∷ es
