-- ===== src/Prelude/Comparing.antt =====
-- Three-way comparisons that order their values, and the ones that the program composes.
use Prim.Native.Nat.{ℕ, compare, Ordering}
use mathlib.Core.Path.{◌≡◌, refl}
use mathlib.Core.Bool.{true}
use mathlib.Core.List.{List, [], ◌∷◌}
use native.Mathlib.Omega.{arith}
use attention_sink.Prelude.Tests.{is_le}
use attention_sink.Prelude.Int.{compare_ℤ}
use attention_sink.Prelude.Text.{codes, compare_codes, compare_text}

abbrev pub opposite : Ordering → Ordering
opposite Ordering.lt = Ordering.gt
opposite Ordering.eq = Ordering.eq
opposite Ordering.gt = Ordering.lt

-- The first comparison decides, or else the second.
abbrev pub then_by : Ordering → Ordering → Ordering
then_by Ordering.lt rest = Ordering.lt
then_by Ordering.gt rest = Ordering.gt
then_by Ordering.eq rest = rest

-- A comparison that can be turned round, and whose `<=` is transitive.
pub record IsOrder {ℓ} {A : Type ℓ} (cmp : A → A → Ordering) : Type ℓ where
  pub turned : (a b : A) → cmp b a ≡ opposite (cmp a b)
  pub trans : (a b c : A) → is_le (cmp a b) ≡ true → is_le (cmp b c) ≡ true → is_le (cmp a c) ≡ true

then_by-opposite : (x y : Ordering) → then_by (opposite x) (opposite y) ≡ opposite (then_by x y)
then_by-opposite Ordering.lt y = refl
then_by-opposite Ordering.eq y = refl
then_by-opposite Ordering.gt y = refl

then_by_trans :
    (x y z u v w : Ordering)
    → (is_le x ≡ true → is_le y ≡ true → is_le z ≡ true)
    → (is_le y ≡ true → is_le (opposite z) ≡ true → is_le (opposite x) ≡ true)
    → (is_le (opposite z) ≡ true → is_le x ≡ true → is_le (opposite y) ≡ true)
    → (is_le u ≡ true → is_le v ≡ true → is_le w ≡ true)
    → is_le (then_by x u) ≡ true
    → is_le (then_by y v) ≡ true
    → is_le (then_by z w) ≡ true
then_by_trans x y z u v w h k l m p q = ground arith

-- The lexicographic composition orders.
pub then_by-IsOrder {ℓ} :
    {A : Type ℓ} (f g : A → A → Ordering)
    → IsOrder f
    → IsOrder g
    → IsOrder (λ a b. then_by (f a b) (g a b))
then_by-IsOrder f g F G = record {
  turned = λ a b. rw (F.turned a b, G.turned a b) (then_by-opposite (f a b) (g a b));
  trans = λ a b c.
      then_by_trans (f a b) (f b c) (f a c) (g a b) (g b c) (g a c) (F.trans a b c)
        (λ p q. rw (F.turned a b) at (F.trans b c a p (rw (F.turned a c) q)))
        (λ p q. rw (F.turned b c) at (F.trans c a b (rw (F.turned a c) p) q)) (G.trans a b c);
}

pub by-IsOrder {ℓ κ} :
    {A : Type ℓ} {B : Type κ} (cmp : B → B → Ordering) (fn : A → B)
    → IsOrder cmp
    → IsOrder (λ (a b : A). cmp (fn a) (fn b))
by-IsOrder cmp fn F = record {
  turned = λ a b. F.turned (fn a) (fn b);
  trans = λ a b c. F.trans (fn a) (fn b) (fn c);
}

pub compare-IsOrder : IsOrder compare
compare-IsOrder = record { turned = λ a b. ground arith; trans = λ a b c. ground arith }

pub compare_ℤ-IsOrder : IsOrder compare_ℤ
compare_ℤ-IsOrder = record { turned = λ a b. ground arith; trans = λ a b c. ground arith }

compare_codes-turned : (xs ys : List ℕ) → compare_codes ys xs ≡ opposite (compare_codes xs ys)
compare_codes-turned [] [] = refl
compare_codes-turned [] (y ∷ ys) = refl
compare_codes-turned (x ∷ xs) [] = refl
compare_codes-turned (x ∷ xs) (y ∷ ys) = ground (arith, compare_codes-turned xs ys)

compare_codes_trans :
    (xs ys zs : List ℕ)
    → is_le (compare_codes xs ys) ≡ true
    → is_le (compare_codes ys zs) ≡ true
    → is_le (compare_codes xs zs) ≡ true
compare_codes_trans [] ys [] h k = refl
compare_codes_trans [] ys (z ∷ zs) h k = refl
compare_codes_trans (x ∷ xs) [] zs h k = absurd (ground arith)
compare_codes_trans (x ∷ xs) (y ∷ ys) [] h k = absurd (ground arith)
compare_codes_trans (x ∷ xs) (y ∷ ys) (z ∷ zs) h k = ground (arith, compare_codes_trans xs ys zs)

pub compare_text-IsOrder : IsOrder compare_text
unfolding compare_text
compare_text-IsOrder = record {
  turned = λ s t. compare_codes-turned (codes s) (codes t);
  trans = λ s t u. compare_codes_trans (codes s) (codes t) (codes u);
}

pub always-IsOrder {ℓ} : {A : Type ℓ} → IsOrder (λ (a b : A). Ordering.eq)
always-IsOrder = record { turned = λ a b. refl; trans = λ a b c p q. refl }
