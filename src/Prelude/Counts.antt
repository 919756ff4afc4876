-- ===== src/Prelude/Counts.antt =====
-- Python's `collections.Counter`: counts by key, in the order in which the keys came; a missing key counts zero.
use Prim.Native.Nat.{ℕ, ◌+◌, ◌≤◌}
use mathlib.Core.Path.{◌≡◌}
use mathlib.Core.List.{List, [], ◌∷◌}
use native.Mathlib.Omega.{arith}
use attention_sink.Prelude.Tests.{Eq, ◌==◌, if◌then◌else◌}

module _ {ℓ} {K : Type ℓ} ⦃e : Eq K⦄ where
  abbrev pub counted : List (K × ℕ) → K → ℕ
  counted [] k = 0
  counted ((j, n) ∷ c) k = if j == k then n else counted c k

  -- `c[k] += n`
  abbrev pub add_count : K → ℕ → List (K × ℕ) → List (K × ℕ)
  add_count k n [] = (k, n) ∷ []
  add_count k n ((j, m) ∷ c) = if j == k then (j, m + n) ∷ c else (j, m) ∷ add_count k n c

  pub counted-add_count :
      (k j : K) (n : ℕ) (c : List (K × ℕ))
      → counted (add_count k n c) j ≡ counted c j + (if k == j then n else 0)
  counted-add_count k j n [] = ground arith
  counted-add_count k j n ((i, m) ∷ c) =
      ground (arith, e.eqb_iff i k, e.eqb_iff i j, e.eqb_iff k j, counted-add_count k j n c)

-- `sum(c.values())`
abbrev pub total_count {ℓ} : {K : Type ℓ} → List (K × ℕ) → ℕ
total_count [] = 0
total_count ((j, n) ∷ c) = n + total_count c

module _ {ℓ} {K : Type ℓ} ⦃e : Eq K⦄ where
  pub total_count-add_count :
      (k : K) (n : ℕ) (c : List (K × ℕ)) → total_count (add_count k n c) ≡ total_count c + n
  total_count-add_count k n [] = omega arith
  total_count-add_count k n ((i, m) ∷ c) = ground (arith, total_count-add_count k n c)

  pub counted-le : (c : List (K × ℕ)) (k : K) → counted c k ≤ total_count c
  counted-le [] k = omega arith
  counted-le ((j, n) ∷ c) k = ground (arith, counted-le c k)
