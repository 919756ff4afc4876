-- ===== src/Policies/Base/Greedy.antt =====
-- `greedy_victims` takes the shortest prefix of the candidates that brings the arm within its budget.
use attention_sink.Prelude.{
  ℕ, zero, suc, ◌-◌, ◌≤◌, ◌<◌, ◌≡◌, refl, ◌⊎◌, inl, inr, String, List, [], ◌∷◌, arith, leb, leb→le,
  Bool-cases, if◌then◌else◌, take,
}
use attention_sink.Prelude.Int.{pos, sub-pos}
use attention_sink.Domain.Tokens.{TokenBudget}
use attention_sink.Domain.Memory.{Memory}
use attention_sink.Domain.State.{cost}
use attention_sink.Policies.Base.{greedy_victims}
use attention_sink.Policies.Base.Ranking.{keyed_by}

module _ {S : Type 0} (key : Memory S → String) (budget : TokenBudget) where
  -- How many memories are taken from an arm that costs `tokens`.
  abbrev pub taken : List (Memory S) → ℕ → ℕ
  taken [] tokens = 0
  taken (m ∷ ms) tokens =
      let rest = taken ms (tokens - m.token_count) in
      if leb tokens budget.max_active_tokens then 0 else suc rest

  pub greedy_victims-take :
      (ms : List (Memory S)) (tokens : ℕ)
      → cost ms ≤ tokens
      → greedy_victims (keyed_by key ms) (pos tokens) budget
        ≡ (take (taken ms tokens) ms, pos (tokens - cost (take (taken ms tokens) ms)))
  unfolding greedy_victims
  greedy_victims-take [] tokens h = ground arith
  greedy_victims-take (m ∷ ms) tokens h =
      rw
        (
          sub-pos tokens m.token_count (omega arith),
          greedy_victims-take ms (tokens - m.token_count) (omega arith),
        )
        (ground arith)

  -- If the candidates run out, none is left; otherwise the arm fits.
  pub greedy-fits :
      (ms : List (Memory S)) (tokens : ℕ)
      → cost ms ≤ tokens
      → tokens - cost ms ≤ budget.max_active_tokens
      → tokens - cost (take (taken ms tokens) ms) ≤ budget.max_active_tokens
  greedy-fits [] tokens c h = h
  greedy-fits (m ∷ ms) tokens c h = ground (arith, greedy-fits ms (tokens - m.token_count))

  pub greedy-exhausts :
      (ms : List (Memory S)) (tokens : ℕ)
      → cost ms ≤ tokens
      → budget.max_active_tokens < tokens - cost ms
      → take (taken ms tokens) ms ≡ ms
  greedy-exhausts [] tokens c h = refl
  greedy-exhausts (m ∷ ms) tokens c h = ground (arith, greedy-exhausts ms (tokens - m.token_count))

  -- No shorter prefix is enough.
  pub greedy-shortest :
      (ms : List (Memory S)) (tokens j : ℕ)
      → cost ms ≤ tokens
      → j < taken ms tokens
      → budget.max_active_tokens < tokens - cost (take j ms)
  greedy-shortest [] tokens j c h = absurd (omega arith)
  greedy-shortest (m ∷ ms) tokens zero c h = ground arith
  greedy-shortest (m ∷ ms) tokens (suc j) c h =
      ground (arith, greedy-shortest ms (tokens - m.token_count) j)

  greedy-stops :
      (ms : List (Memory S)) (tokens : ℕ)
      → cost ms ≤ tokens
      → (tokens - cost (take (taken ms tokens) ms) ≤ budget.max_active_tokens)
        ⊎ (take (taken ms tokens) ms ≡ ms)
  greedy-stops ms tokens c = elim (Bool-cases (leb (tokens - cost ms) budget.max_active_tokens)) [
    | inl fits ↦ inl (greedy-fits ms tokens c (leb→le _ _ fits))
    | inr over ↦ inr (greedy-exhausts ms tokens c (ground (arith, over)))
  ]

  -- The victims are a prefix of the candidates, and the cost is counted down by theirs; no shorter prefix brings the
  -- cost within the budget, and either this one does or it takes every candidate.
  pub greedy_victims-prefix :
      (ms : List (Memory S)) (tokens : ℕ)
      → cost ms ≤ tokens
      → (n : ℕ) × (greedy_victims (keyed_by key ms) (pos tokens) budget
          ≡ (take n ms, pos (tokens - cost (take n ms))))
        × ((j : ℕ) → j < n → budget.max_active_tokens < tokens - cost (take j ms))
        × ((tokens - cost (take n ms) ≤ budget.max_active_tokens) ⊎ (take n ms ≡ ms))
  greedy_victims-prefix ms tokens c = (
    taken ms tokens,
    greedy_victims-take ms tokens c,
    λ j h. greedy-shortest ms tokens j c h,
    greedy-stops ms tokens c,
  )
