-- ===== src/Prelude/Sorting/Ranges.antt =====
-- `sorted(set(xs))` of the numbers of an interval is the interval, in order.
use Prim.Native.Nat.{ℕ, zero, suc, ◌+◌, ◌≤◌, ◌<◌}
use mathlib.Core.Path.{◌≡◌, refl, sym, ap, ◌∙◌}
use mathlib.Core.Logic.{inl, inr}
use mathlib.Core.Bool.{true, false}
use mathlib.Core.List.{List, [], ◌∷◌, map}
use native.Mathlib.Omega.{arith}
use attention_sink.Prelude.Tests.{leb, nat_eq, Bool-cases}
use attention_sink.Prelude.Lists.{All, range_from}
use attention_sink.Prelude.Ids.{contains, distinct}
use attention_sink.Prelude.Sorting.{sorted, IsSorted}
use attention_sink.Prelude.Sorting.Laws.{IsSorted-sorted, contains-sorted, distinct-sorted}

-- Each number is below all that follow it.
abbrev IsStrict : List ℕ → Type 0
IsStrict [] = Unit
IsStrict (x ∷ xs) = All (λ y. x < y) xs × IsStrict xs

below : (x : ℕ) (ys : List ℕ) (c : ℕ) → All (λ y. x < y) ys → contains ys c ≡ true → x < c
below x [] c h m = cc
below x (y ∷ ys) c h m = ground (arith, below x ys c h.1)

strictly :
    (x : ℕ) (ys : List ℕ)
    → All (λ y. leb x y ≡ true) ys
    → contains ys x ≡ false
    → All (λ y. x < y) ys
strictly x [] h m = tt
strictly x (y ∷ ys) h m = (ground arith, strictly x ys h.1 (ground arith))

IsStrict-of : (xs : List ℕ) → IsSorted leb xs → distinct xs ≡ true → IsStrict xs
IsStrict-of [] s d = tt
IsStrict-of (x ∷ xs) s d = (strictly x xs s.0 (ground arith), IsStrict-of xs s.1 (ground arith))

-- The members of an interval.
abbrev Between : ℕ → ℕ → List ℕ → Type 0
Between a n xs =
    ((c : ℕ) → contains xs c ≡ true → (a ≤ c) × (c < a + n))
    × ((c : ℕ) → a ≤ c → c < a + n → contains xs c ≡ true)

first_of : (a n x : ℕ) (xs : List ℕ) → IsStrict (x ∷ xs) → Between a (suc n) (x ∷ xs) → x ≡ a
first_of a n x xs s b =
    let low = b.0 x (ground arith) in
    let here = b.1 a (omega arith) (omega arith) in
    elim (Bool-cases (contains xs a)) [
      | inl later ↦ absurd (ground (arith, below x xs a s.0 later))
      | inr other ↦ ground arith
    ]

rest_of :
    (a n x : ℕ) (xs : List ℕ)
    → IsStrict (x ∷ xs)
    → Between a (suc n) (x ∷ xs)
    → x ≡ a
    → Between (suc a) n xs
rest_of a n x xs s b e =
    (λ c m. ground (arith, b.0 c, below x xs c s.0 m), λ c low high. ground (arith, b.1 c))

range_of : (n a : ℕ) (xs : List ℕ) → IsStrict xs → Between a n xs → xs ≡ range_from a n
range_of zero a [] s b = refl
range_of zero a (x ∷ xs) s b = absurd (ground (arith, b.0 x))
range_of (suc n) a [] s b = absurd (ground (arith, b.1 a))
range_of (suc n) a (x ∷ xs) s b =
    let e = first_of a n x xs s b in rw (e, range_of n (suc a) xs s.1 (rest_of a n x xs s b e)) refl

leb_total : (a b : ℕ) → leb a b ≡ false → leb b a ≡ true
leb_total a b h = ground arith

leb_trans : (a b c : ℕ) → leb a b ≡ true → leb b c ≡ true → leb a c ≡ true
leb_trans a b c h k = ground arith

map_id : (xs : List ℕ) → map (λ (x : ℕ). x) xs ≡ xs
map_id [] = refl
map_id (x ∷ xs) = ap (◌∷◌ x) (map_id xs)

contains-sorted-leb : (xs : List ℕ) (c : ℕ) → contains (sorted leb xs) c ≡ contains xs c
contains-sorted-leb xs c =
    ap (λ ys. contains ys c) (sym (map_id (sorted leb xs)))
    ∙ contains-sorted leb (λ x. x) xs c
    ∙ ap (λ ys. contains ys c) (map_id xs)

distinct-sorted-leb : (xs : List ℕ) → distinct xs ≡ true → distinct (sorted leb xs) ≡ true
distinct-sorted-leb xs h =
    ap distinct (sym (map_id (sorted leb xs)))
    ∙ distinct-sorted leb (λ x. x) xs (ap distinct (map_id xs) ∙ h)

-- Distinct numbers that are those of an interval sort to it.
pub sorted-range :
    (a n : ℕ) (xs : List ℕ)
    → distinct xs ≡ true
    → ((c : ℕ) → contains xs c ≡ true → (a ≤ c) × (c < a + n))
    → ((c : ℕ) → a ≤ c → c < a + n → contains xs c ≡ true)
    → sorted leb xs ≡ range_from a n
sorted-range a n xs d inside all_of =
    range_of n a (sorted leb xs)
      (IsStrict-of (sorted leb xs) (IsSorted-sorted leb leb_total leb_trans xs)
        (distinct-sorted-leb xs d))
      (
        λ c m. inside c (sym (contains-sorted-leb xs c) ∙ m),
        λ c low high. contains-sorted-leb xs c ∙ all_of c low high,
      )
