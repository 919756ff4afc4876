-- ===== src/Prelude/Ids/Laws.antt =====
-- How `in`, distinctness and inclusion pass through filters, prefixes and permutations of a list.
use Prim.Native.Nat.{ℕ, zero, suc}
use mathlib.Core.Path.{◌≡◌, refl, ap}
use mathlib.Core.Logic.{inl, inr}
use mathlib.Core.Bool.{Bool, true, false, not, ◌||◌}
use mathlib.Core.List.{List, [], ◌∷◌, ◌++◌, map}
use native.Mathlib.Omega.{arith}
use attention_sink.Prelude.Tests.{Eq, ◌==◌, ==_refl, Bool-cases}
use attention_sink.Prelude.Lists.{All, filter, take}
use attention_sink.Prelude.Ids.{contains, distinct, subset, disjoint}

module _ {ℓ} {A : Type ℓ} ⦃e : Eq A⦄ where
  -- Two equality tests the other way round agree.
  pub ==_sym : (a b : A) → (a == b) ≡ (b == a)
  ==_sym a b = ground (arith, e.eqb_iff a b, e.eqb_iff b a)

  pub contains-filter :
      (p : A → Bool) (xs : List A) (a : A)
      → contains xs a ≡ false
      → contains (filter p xs) a ≡ false
  contains-filter p [] a h = refl
  contains-filter p (x ∷ xs) a h = ground (arith, contains-filter p xs a)

  pub distinct-filter :
      (p : A → Bool) (xs : List A) → distinct xs ≡ true → distinct (filter p xs) ≡ true
  distinct-filter p [] h = refl
  distinct-filter p (x ∷ xs) h = ground (arith, distinct-filter p xs, contains-filter p xs x)

  pub contains-append :
      (xs ys : List A) (a : A) → contains (xs ++ ys) a ≡ (contains xs a || contains ys a)
  contains-append [] ys a = refl
  contains-append (x ∷ xs) ys a = ground (arith, contains-append xs ys a)

  -- An element of a list that is included in another is in the other.
  pub contains-subset :
      (xs ys : List A) (a : A) → subset xs ys ≡ true → contains xs a ≡ true → contains ys a ≡ true
  contains-subset [] ys a h m = cc
  contains-subset (x ∷ xs) ys a h m = elim (Bool-cases (x == a)) [
    | inl same ↦ rw (← (e.eqb_iff x a).0 same) (ground arith)
    | inr other ↦ contains-subset xs ys a (ground arith) (ground arith)
  ]

  pub subset-cons : (xs ys : List A) (y : A) → subset xs ys ≡ true → subset xs (y ∷ ys) ≡ true
  subset-cons [] ys y h = refl
  subset-cons (x ∷ xs) ys y h = ground (arith, subset-cons xs ys y)

  pub subset_refl : (xs : List A) → subset xs xs ≡ true
  subset_refl [] = refl
  subset_refl (x ∷ xs) = ground (arith, ==_refl x, subset-cons xs xs x (subset_refl xs))

  pub subset-take : (n : ℕ) (xs : List A) → subset (take n xs) xs ≡ true
  subset-take zero xs = refl
  subset-take (suc n) [] = refl
  subset-take (suc n) (x ∷ xs) =
      ground (arith, ==_refl x, subset-cons (take n xs) xs x (subset-take n xs))

  pub contains-take :
      (n : ℕ) (xs : List A) (a : A) → contains xs a ≡ false → contains (take n xs) a ≡ false
  contains-take zero xs a h = refl
  contains-take (suc n) [] a h = refl
  contains-take (suc n) (x ∷ xs) a h = ground (arith, contains-take n xs a)

  pub distinct-take : (n : ℕ) (xs : List A) → distinct xs ≡ true → distinct (take n xs) ≡ true
  distinct-take zero xs h = refl
  distinct-take (suc n) [] h = refl
  distinct-take (suc n) (x ∷ xs) h = ground (arith, distinct-take n xs, contains-take n xs x)

  apart :
      (x : A) (xs ys : List A) → All (λ y. contains (x ∷ xs) y ≡ false) ys → contains ys x ≡ false
  apart x xs [] h = refl
  apart x xs (y ∷ ys) h = ground (arith, ==_sym x y, apart x xs ys h.1)

  apart_tail :
      (x : A) (xs ys : List A)
      → All (λ y. contains (x ∷ xs) y ≡ false) ys
      → All (λ y. contains xs y ≡ false) ys
  apart_tail x xs [] h = tt
  apart_tail x xs (y ∷ ys) h = (ground arith, apart_tail x xs ys h.1)

  pub distinct-append :
      (xs ys : List A)
      → distinct xs ≡ true
      → distinct ys ≡ true
      → All (λ y. contains xs y ≡ false) ys
      → distinct (xs ++ ys) ≡ true
  distinct-append [] ys d k h = k
  distinct-append (x ∷ xs) ys d k h =
      ground (
        arith,
        contains-append xs ys x,
        distinct-append xs ys,
        apart x xs ys h,
        apart_tail x xs ys h,
      )

  pub subset-append : (xs ys : List A) → subset xs (xs ++ ys) ≡ true
  subset-append [] ys = refl
  subset-append (x ∷ xs) ys =
      ground (arith, ==_refl x, subset-cons xs (xs ++ ys) x (subset-append xs ys))

  -- What is left when a list's elements are filtered out shares nothing with the list.
  pub disjoint-filter :
      (gone xs : List A) → disjoint (filter (λ x. not (contains gone x)) xs) gone ≡ true
  disjoint-filter gone [] = refl
  disjoint-filter gone (x ∷ xs) = ground (arith, disjoint-filter gone xs)

  -- Filtering out what is not there changes nothing.
  pub filter-absent :
      (a : A) (xs : List A) → contains xs a ≡ false → filter (λ x. not (a == x)) xs ≡ xs
  filter-absent a [] h = refl
  filter-absent a (x ∷ xs) h = ground (arith, filter-absent a xs, ==_sym a x)

  -- Filtering out nothing.
  pub filter-nothing : (xs : List A) → filter (λ x. not (contains [] x)) xs ≡ xs
  filter-nothing [] = refl
  filter-nothing (x ∷ xs) = ap (◌∷◌ x) (filter-nothing xs)

  -- Filtering in two steps.
  pub filter-filter-not :
      (a : A) (gone xs : List A)
      → filter (λ x. not (contains gone x)) (filter (λ x. not (a == x)) xs)
        ≡ filter (λ x. not (contains (a ∷ gone) x)) xs
  filter-filter-not a gone [] = refl
  filter-filter-not a gone (x ∷ xs) = ground (arith, filter-filter-not a gone xs)

module _ {ℓ κ} {A : Type ℓ} {B : Type κ} where
  pub take-map : (f : A → B) (n : ℕ) (xs : List A) → take n (map f xs) ≡ map f (take n xs)
  take-map f zero xs = refl
  take-map f (suc n) [] = refl
  take-map f (suc n) (x ∷ xs) = ap (◌∷◌ (f x)) (take-map f n xs)

-- `distinct` of the images survives a filter on the sources.
module _ {ℓ κ} {A : Type ℓ} {B : Type κ} ⦃e : Eq B⦄ (f : A → B) where
  pub contains-map-filter :
      (p : A → Bool) (xs : List A) (b : B)
      → contains (map f xs) b ≡ false
      → contains (map f (filter p xs)) b ≡ false
  contains-map-filter p [] b h = refl
  contains-map-filter p (x ∷ xs) b h = ground (arith, contains-map-filter p xs b)

  pub distinct-map-filter :
      (p : A → Bool) (xs : List A)
      → distinct (map f xs) ≡ true
      → distinct (map f (filter p xs)) ≡ true
  distinct-map-filter p [] h = refl
  distinct-map-filter p (x ∷ xs) h =
      ground (arith, distinct-map-filter p xs, contains-map-filter p xs (f x))
