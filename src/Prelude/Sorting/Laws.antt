-- ===== src/Prelude/Sorting/Laws.antt =====
-- A sort rearranges its list, and puts it in order if the comparison is total and transitive.
use Prim.Native.Nat.{ℕ, suc, ◌+◌}
use mathlib.Core.Path.{◌≡◌, refl, ap, ◌∙◌, subst}
use mathlib.Core.Logic.{inl, inr}
use mathlib.Core.Bool.{Bool, true, false, ◌||◌}
use mathlib.Core.List.Perm
use mathlib.Core.List.{Perm, List, [], ◌∷◌, map}
use native.Mathlib.Omega.{arith}
use attention_sink.Prelude.Tests.{if◌then◌else◌, Eq, ◌==◌, Bool-cases}
use attention_sink.Prelude.Lists.{All, length, All-map, sum_by}
use attention_sink.Prelude.Ids.{contains, distinct}
use attention_sink.Prelude.Ids.Laws.{==_sym}
use attention_sink.Prelude.Sorting.{sorted_insert, sorted, IsSorted}

module _ {ℓ} {A : Type ℓ} (le : A → A → Bool) where
  All-sorted_insert {κ} :
      (P : A → Type κ) (x : A) (xs : List A) → P x → All P xs → All P (sorted_insert le x xs)
  All-sorted_insert P x [] p h = (p, tt)
  All-sorted_insert P x (y ∷ ys) p h = elim (Bool-cases (le x y)) [
    | inl t ↦ rw t (p, h)
    | inr f ↦ rw f (h.0, All-sorted_insert P x ys p h.1)
  ]

  pub All-sorted {κ} : (P : A → Type κ) (xs : List A) → All P xs → All P (sorted le xs)
  All-sorted P [] h = tt
  All-sorted P (x ∷ xs) h = All-sorted_insert P x (sorted le xs) h.0 (All-sorted P xs h.1)

  sum_by-sorted_insert :
      (f : A → ℕ) (x : A) (xs : List A) → sum_by f (sorted_insert le x xs) ≡ f x + sum_by f xs
  sum_by-sorted_insert f x [] = refl
  sum_by-sorted_insert f x (y ∷ ys) = ground (arith, sum_by-sorted_insert f x ys)

  -- A sort keeps every sum.
  pub sum_by-sorted : (f : A → ℕ) (xs : List A) → sum_by f (sorted le xs) ≡ sum_by f xs
  sum_by-sorted f [] = refl
  sum_by-sorted f (x ∷ xs) =
      omega (arith, sum_by-sorted_insert f x (sorted le xs), sum_by-sorted f xs)

module _ {ℓ κ} {A : Type ℓ} {B : Type κ} ⦃e : Eq B⦄ (le : A → A → Bool) (f : A → B) where
  contains-sorted_insert :
      (x : A) (xs : List A) (b : B)
      → contains (map f (sorted_insert le x xs)) b ≡ (f x == b || contains (map f xs) b)
  contains-sorted_insert x [] b = refl
  contains-sorted_insert x (y ∷ ys) b = ground (arith, contains-sorted_insert x ys b)

  pub contains-sorted :
      (xs : List A) (b : B) → contains (map f (sorted le xs)) b ≡ contains (map f xs) b
  contains-sorted [] b = refl
  contains-sorted (x ∷ xs) b =
      ground (arith, contains-sorted_insert x (sorted le xs) b, contains-sorted xs b)

  distinct-sorted_insert :
      (x : A) (xs : List A)
      → contains (map f xs) (f x) ≡ false
      → distinct (map f xs) ≡ true
      → distinct (map f (sorted_insert le x xs)) ≡ true
  distinct-sorted_insert x [] h d = refl
  distinct-sorted_insert x (y ∷ ys) h d =
      ground
        (arith, distinct-sorted_insert x ys, contains-sorted_insert x ys (f y), ==_sym (f x) (f y))

  pub distinct-sorted :
      (xs : List A) → distinct (map f xs) ≡ true → distinct (map f (sorted le xs)) ≡ true
  distinct-sorted [] h = refl
  distinct-sorted (x ∷ xs) h =
      ground (
        arith,
        distinct-sorted_insert x (sorted le xs),
        contains-sorted xs (f x),
        distinct-sorted xs,
      )

-- A sort rearranges.
module _ {ℓ} {A : Type ℓ} (le : A → A → Bool) where
  sorted_insert-Perm : (x : A) (xs : List A) → Perm (sorted_insert le x xs) (x ∷ xs)
  sorted_insert-Perm x [] = Perm.rfl
  sorted_insert-Perm x (y ∷ ys) = elim (Bool-cases (le x y)) [
    | inl t ↦ rw t Perm.rfl
    | inr f ↦ rw f (Perm.trans (Perm.cons y (sorted_insert-Perm x ys)) (Perm.swap x y ys))
  ]

  pub sorted-Perm : (xs : List A) → Perm (sorted le xs) xs
  sorted-Perm [] = Perm.rfl
  sorted-Perm (x ∷ xs) =
      Perm.trans (sorted_insert-Perm x (sorted le xs)) (Perm.cons x (sorted-Perm xs))

-- The order of the result.
module _ {ℓ} {A : Type ℓ} (le : A → A → Bool) (total : (a b : A) → le a b ≡ false → le b a ≡ true)
    (trans : (a b c : A) → le a b ≡ true → le b c ≡ true → le a c ≡ true) where
  IsSorted-sorted_insert :
      (x : A) (xs : List A) → IsSorted le xs → IsSorted le (sorted_insert le x xs)
  IsSorted-sorted_insert x [] s = (tt, tt)
  IsSorted-sorted_insert x (y ∷ ys) s = elim (Bool-cases (le x y)) [
    | inl t ↦ rw t ((t, All-map (λ z h. trans x y z t h) ys s.0), s)
    | inr f ↦ rw f (
      All-sorted_insert le (λ z. le y z ≡ true) x ys (total x y f) s.0,
      IsSorted-sorted_insert x ys s.1,
    )
  ]

  pub IsSorted-sorted : (xs : List A) → IsSorted le (sorted le xs)
  IsSorted-sorted [] = tt
  IsSorted-sorted (x ∷ xs) = IsSorted-sorted_insert x (sorted le xs) (IsSorted-sorted xs)

-- A list that is in order stays as it is.
module _ {ℓ} {A : Type ℓ} (le : A → A → Bool) where
  sorted_insert-least :
      (x : A) (xs : List A) → All (λ y. le x y ≡ true) xs → sorted_insert le x xs ≡ x ∷ xs
  sorted_insert-least x [] h = refl
  sorted_insert-least x (y ∷ ys) h = rw h.0 refl

  pub sorted-fixed : (xs : List A) → IsSorted le xs → sorted le xs ≡ xs
  sorted-fixed [] s = refl
  sorted-fixed (x ∷ xs) s = rw (sorted-fixed xs s.1) (sorted_insert-least x xs s.0)

  length-sorted_insert : (x : A) (xs : List A) → length (sorted_insert le x xs) ≡ length (x ∷ xs)
  length-sorted_insert x [] = refl
  length-sorted_insert x (y ∷ ys) = ground (arith, length-sorted_insert x ys)

  pub length-sorted : (xs : List A) → length (sorted le xs) ≡ length xs
  length-sorted [] = refl
  length-sorted (x ∷ xs) = length-sorted_insert x (sorted le xs) ∙ ap suc (length-sorted xs)

-- What holds of every element of the sorted list holds of every element.
module _ {ℓ κ} {A : Type ℓ} (le : A → A → Bool) (P : A → Type κ) where
  All-unsorted_insert : (x : A) (xs : List A) → All P (sorted_insert le x xs) → P x × All P xs
  All-unsorted_insert x [] h = h
  All-unsorted_insert x (y ∷ ys) h = elim (Bool-cases (le x y)) [
    | inl first ↦
        subst (All P) (ap (λ b. if b then x ∷ y ∷ ys else y ∷ sorted_insert le x ys) first) h
    | inr behind ↦
        let moved : All P (y ∷ sorted_insert le x ys) =
          subst (All P) (ap (λ b. if b then x ∷ y ∷ ys else y ∷ sorted_insert le x ys) behind) h in
        let (own, rest) = All-unsorted_insert x ys moved.1 in (own, (moved.0, rest))
  ]

  pub All-unsorted : (xs : List A) → All P (sorted le xs) → All P xs
  All-unsorted [] h = h
  All-unsorted (x ∷ xs) h =
      let (own, rest) = All-unsorted_insert x (sorted le xs) h in (own, All-unsorted xs rest)
