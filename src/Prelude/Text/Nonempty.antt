-- ===== src/Prelude/Text/Nonempty.antt =====
-- Texts that are built from a part that is not empty are not empty.
use Prim.Native.String.{String, ◌++◌}
use mathlib.Core.Path.{◌≡◌}
use mathlib.Core.Logic.{inl, inr}
use mathlib.Core.Bool.{true, false}
use mathlib.Core.List.{List, [], ◌∷◌}
use text.Mathlib.TextEquality.{eq_iff}
use text.Mathlib.TextLemmas.{append-eq-nil_iff}
use attention_sink.Prelude.Tests.{◌==◌, string_eq, Bool-cases}
use attention_sink.Prelude.Text.{concat, join}

append-empty : (s t : String) → ((s ++ t) == "") ≡ true → ((s == "") ≡ true) × ((t == "") ≡ true)
append-empty s t h =
    let (p, q) = append-eq-nil_iff.0 ((eq_iff (s ++ t) "").0 h) in
    ((eq_iff s "").1 p, (eq_iff t "").1 q)

pub append-ne-empty_left : (s t : String) → (s == "") ≡ false → ((s ++ t) == "") ≡ false
append-ne-empty_left s t h = elim (Bool-cases ((s ++ t) == "")) [
  | inl e ↦ let (p, q) = append-empty s t e in cc (p, h)
  | inr f ↦ f
]

pub append-ne-empty_right : (s t : String) → (t == "") ≡ false → ((s ++ t) == "") ≡ false
append-ne-empty_right s t h = elim (Bool-cases ((s ++ t) == "")) [
  | inl e ↦ let (p, q) = append-empty s t e in cc (q, h)
  | inr f ↦ f
]

pub concat-ne-empty :
    (s : String) (ss : List String) → (s == "") ≡ false → (concat (s ∷ ss) == "") ≡ false
unfolding concat
concat-ne-empty s ss h = append-ne-empty_left s (concat ss) h

pub concat-ne-empty_rest :
    (s : String) (ss : List String) → (concat ss == "") ≡ false → (concat (s ∷ ss) == "") ≡ false
unfolding concat
concat-ne-empty_rest s ss h = append-ne-empty_right s (concat ss) h

pub join-ne-empty :
    (sep s : String) (ss : List String) → (s == "") ≡ false → (join sep (s ∷ ss) == "") ≡ false
unfolding join
join-ne-empty sep s [] h = h
join-ne-empty sep s (t ∷ ss) h = append-ne-empty_left s _ h
