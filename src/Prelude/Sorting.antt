-- ===== src/Prelude/Sorting.antt =====
-- Go's `sort.Slice`: the list in ascending order of keys, as `less` says. Where keys are equal its order
-- is not specified; the code that sorts here has distinct keys or compares whole elements.
pub mod Laws
use log_service.Prelude.Tests.{if◌then◌else◌}
use mathlib.Core.Bool.{Bool}
use mathlib.Core.List.{List, [], ◌∷◌}

module _ {ℓ} {A : Type ℓ} where
  unfoldable pub insert : (A → A → Bool) → A → List A → List A
  insert less x [] = x ∷ []
  insert less x (y ∷ ys) = let rest = insert less x ys in if less x y then x ∷ y ∷ ys else y ∷ rest

  -- `sort.Slice`
  unfoldable pub sort : (A → A → Bool) → List A → List A
  unfolding insert
  sort less [] = []
  sort less (x ∷ xs) = insert less x (sort less xs)
