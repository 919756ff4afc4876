-- ===== src/Domain/Tokens.antt =====
-- packages/domain/attention_sink/domain/tokens.py: the budget of an arm, and the counter of its tokens. Costs are integers, and may be
-- compared before they are known not to be negative.
pub mod Counting
use Prim.Native.Nat.{max}
use attention_sink.Prelude.{
  ℕ, ◌+◌, ◌/◌, String, Bool, List, [], ◌∷◌, ◌++◌, ltb, length, sum_by, if◌then◌else◌,
}
use attention_sink.Prelude.Text.{codes, is_space}
use attention_sink.Prelude.Int.{ℤ, pos, leb_ℤ}

pub record TokenBudget : Type 0 where
  pub max_active_tokens : ℕ
  pub counter_version : String

abbrev pub is_satisfied_by : TokenBudget → ℤ → Bool
is_satisfied_by budget total_tokens = leb_ℤ total_tokens (pos budget.max_active_tokens)

-- `Field(gt=0)`
abbrev pub budget_valid : TokenBudget → Bool
budget_valid budget = ltb 0 budget.max_active_tokens

-- What a word that is begun ends as.
abbrev flush : List ℕ → List (List ℕ) → List (List ℕ)
flush [] words = words
flush (c ∷ cs) words = (c ∷ cs) ∷ words

-- `text.split()`, on the code points, behind a word that is begun.
unfoldable pub split_behind : List ℕ → List ℕ → List (List ℕ)
split_behind word [] = flush word []
split_behind word (c ∷ cs) =
    let after = split_behind [] cs in
    let within = split_behind (word ++ c ∷ []) cs in if is_space c then flush word after else within

-- `max(1, math.ceil(len(word) / 4))`
abbrev pub word_cost : List ℕ → ℕ
word_cost word = max 1 ((length word + 3) / 4)

-- `HeuristicTokenCounter.count`
unfoldable pub heuristic_count : String → ℕ
unfolding split_behind
heuristic_count text = sum_by word_cost (split_behind [] (codes text))
