-- ===== src/Prelude/Dict/Laws.antt =====
-- A dictionary that is built from values with distinct keys holds them in their order.
use Prim.Native.String.{String}
use mathlib.Core.Path.{◌≡◌, refl, sym, ap, ◌∙◌}
use mathlib.Core.Bool.{Bool, true, false, not, ◌&&◌}
use mathlib.Core.List.{List, [], ◌∷◌, ◌++◌, map, append-nil, append_assoc}
use native.Mathlib.Omega.{arith}
use attention_sink.Prelude.Tests.{string_eq}
use attention_sink.Prelude.Ids.{contains, distinct}
use attention_sink.Prelude.Ids.Laws.{contains-append, ==_sym}
use attention_sink.Prelude.Dict.{Dict, insert, values, keys, from_list}

module _ {ℓ} {V : Type ℓ} where
  insert-fresh :
      (k : String) (v : V) (d : Dict V)
      → contains (keys d) k ≡ false
      → insert k v d ≡ d ++ (k, v) ∷ []
  insert-fresh k v [] h = refl
  insert-fresh k v ((j, w) ∷ d) h = ground (arith, insert-fresh k v d)

  keys-append : (c d : Dict V) → keys (c ++ d) ≡ keys c ++ keys d
  keys-append [] d = refl
  keys-append ((j, w) ∷ c) d = ap (◌∷◌ j) (keys-append c d)

module _ {ℓ} {V : Type ℓ} (key : V → String) where
  -- The entries of the values under their keys.
  abbrev pub keyed : List V → Dict V
  keyed [] = []
  keyed (x ∷ xs) = (key x, x) ∷ keyed xs

  -- No value's key is in the dictionary.
  abbrev fresh : List V → Dict V → Bool
  fresh [] d = true
  fresh (x ∷ xs) d = not (contains (keys d) (key x)) && fresh xs d

  fresh-insert :
      (x : V) (xs : List V) (d : Dict V)
      → contains (map key xs) (key x) ≡ false
      → fresh xs d ≡ true
      → fresh xs (d ++ (key x, x) ∷ []) ≡ true
  fresh-insert x [] d h f = refl
  fresh-insert x (y ∷ ys) d h f = ground (
    arith,
    fresh-insert x ys d,
    keys-append d ((key x, x) ∷ []),
    contains-append (keys d) (key x ∷ []) (key y),
    ==_sym (key x) (key y),
  )

  from_list-fresh :
      (xs : List V) (d : Dict V)
      → distinct (map key xs) ≡ true
      → fresh xs d ≡ true
      → from_list key xs d ≡ d ++ keyed xs
  from_list-fresh [] d h f = sym (append-nil d)
  from_list-fresh (x ∷ xs) d h f = rw (insert-fresh (key x) x d (ground arith)) (
      from_list-fresh xs (d ++ (key x, x) ∷ []) (ground arith)
        (fresh-insert x xs d (ground arith) (ground arith))
      ∙ append_assoc d ((key x, x) ∷ []) (keyed xs))

  fresh-empty : (xs : List V) → fresh xs [] ≡ true
  fresh-empty [] = refl
  fresh-empty (x ∷ xs) = fresh-empty xs

  pub from_list-keyed :
      (xs : List V) → distinct (map key xs) ≡ true → from_list key xs [] ≡ keyed xs
  from_list-keyed xs h = from_list-fresh xs [] h (fresh-empty xs)

  pub values-keyed : (xs : List V) → values (keyed xs) ≡ xs
  values-keyed [] = refl
  values-keyed (x ∷ xs) = ap (◌∷◌ x) (values-keyed xs)
