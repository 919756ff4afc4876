-- ===== src/Prelude/Sorting.antt =====
-- Python's `sorted`: a stable sort by a comparison.
pub mod Laws
pub mod Ranges
use mathlib.Core.Path.{◌≡◌}
use mathlib.Core.Bool.{Bool, true}
use mathlib.Core.List.{List, [], ◌∷◌}
use attention_sink.Prelude.Tests.{if◌then◌else◌}
use attention_sink.Prelude.Lists.{All}

module _ {ℓ} {A : Type ℓ} (le : A → A → Bool) where
  abbrev pub sorted_insert : A → List A → List A
  sorted_insert x [] = x ∷ []
  sorted_insert x (y ∷ ys) = if le x y then x ∷ y ∷ ys else y ∷ sorted_insert x ys

  abbrev pub sorted : List A → List A
  sorted [] = []
  sorted (x ∷ xs) = sorted_insert x (sorted xs)

  -- Every element is at most each one behind it.
  abbrev pub IsSorted : List A → Type ℓ
  IsSorted [] = Unit
  IsSorted (x ∷ xs) = All (λ y. le x y ≡ true) xs × IsSorted xs
