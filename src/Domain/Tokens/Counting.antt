-- ===== src/Domain/Tokens/Counting.antt =====
-- The heuristic counter: what a text costs, a text that is a part of another costs no more.
use Prim.Native.Nat.{max}
use Prim.Native.Char.{code}
use Prim.Native.String.{◌++◌ as append_text}
use text.Mathlib.TextLemmas.{nil-append, cons-append}
use attention_sink.Prelude.{
  ℕ, zero, suc, ◌+◌, ◌/◌, ◌≤◌, ◌≡◌, refl, ap, ◌∙◌, String, List, [], ◌∷◌, ◌++◌, length,
  length-append, sum_by, arith, if◌then◌else◌, Bool-cases, inl, inr,
}
use attention_sink.Prelude.Text.{codes, is_space}
use attention_sink.Domain.Tokens.{flush, split_behind, word_cost, heuristic_count}

-- What a word of `n` characters costs; no word costs nothing.
abbrev cost_of : ℕ → ℕ
cost_of zero = 0
cost_of (suc n) = max 1 ((suc n + 3) / 4)

-- The cost of what is left of a text, behind `n` characters of a word.
abbrev cost_behind : ℕ → List ℕ → ℕ
cost_behind n [] = cost_of n
cost_behind n (c ∷ cs) = if is_space c then cost_of n + cost_behind 0 cs else cost_behind (suc n) cs

flush-cost :
    (word : List ℕ) (words : List (List ℕ))
    → sum_by word_cost (flush word words) ≡ cost_of (length word) + sum_by word_cost words
flush-cost [] words = omega arith
flush-cost (c ∷ cs) words = refl

split-cost :
    (word cs : List ℕ) → sum_by word_cost (split_behind word cs) ≡ cost_behind (length word) cs
unfolding split_behind
split-cost word [] = omega (arith, flush-cost word [])
split-cost word (c ∷ cs) = elim (Bool-cases (is_space c)) [
  | inl space ↦ rw space (
      flush-cost word (split_behind [] cs) ∙ ap (λ n. cost_of (length word) + n) (split-cost [] cs))
  | inr letter ↦ rw letter (
      split-cost (word ++ c ∷ []) cs
      ∙ ap (λ n. cost_behind n cs) (length-append word (c ∷ []) ∙ omega arith))
]

cost_of_mono : (n m : ℕ) → n ≤ m → cost_of n ≤ cost_of m
cost_of_mono n m h = ground arith

cost_behind_mono : (n m : ℕ) (cs : List ℕ) → n ≤ m → cost_behind n cs ≤ cost_behind m cs
cost_behind_mono n m [] h = cost_of_mono n m h
cost_behind_mono n m (c ∷ cs) h =
    ground (arith, cost_of_mono n m h, cost_behind_mono (suc n) (suc m) cs)

cost_behind-least : (n : ℕ) (cs : List ℕ) → cost_of n ≤ cost_behind n cs
cost_behind-least n [] = omega arith
cost_behind-least n (c ∷ cs) = ground (arith, cost_of_mono n (suc n), cost_behind-least (suc n) cs)

cost_behind-prefix : (n : ℕ) (xs ys : List ℕ) → cost_behind n xs ≤ cost_behind n (xs ++ ys)
cost_behind-prefix n [] ys = cost_behind-least n ys
cost_behind-prefix n (c ∷ xs) ys =
    ground (arith, cost_behind-prefix 0 xs ys, cost_behind-prefix (suc n) xs ys)

cost_behind-suffix : (n : ℕ) (xs ys : List ℕ) → cost_behind 0 ys ≤ cost_behind n (xs ++ ys)
cost_behind-suffix n [] ys = cost_behind_mono 0 n ys (omega arith)
cost_behind-suffix n (c ∷ xs) ys =
    ground (arith, cost_behind-suffix 0 xs ys, cost_behind-suffix (suc n) xs ys)

codes-append : (s t : String) → codes (append_text s t) ≡ codes s ++ codes t
codes-append String.[] t = ap codes (nil-append t)
codes-append (String.◌∷◌ c s) t =
    ap codes (cons-append c s t) ∙ ap (λ cs. code c ∷ cs) (codes-append s t)

-- A text costs at least as much as each of two texts that it is put together from.
pub heuristic_count_mono :
    (s t : String)
    → (heuristic_count s ≤ heuristic_count (append_text s t))
      × (heuristic_count t ≤ heuristic_count (append_text s t))
unfolding heuristic_count
heuristic_count_mono s t =
    rw
      (
        split-cost [] (codes s),
        split-cost [] (codes t),
        split-cost [] (codes (append_text s t)),
        codes-append s t,
      )
      (cost_behind-prefix 0 (codes s) (codes t), cost_behind-suffix 0 (codes s) (codes t))
