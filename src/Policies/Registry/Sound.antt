-- ===== src/Policies/Registry/Sound.antt =====
-- What every evicting mechanism of the registry needs of the budget, and that its decision is carried out.
use attention_sink.Prelude.{
  ℕ, ◌≤◌, ◌<◌, ◌≡◌, refl, Bool, true, false, ◌==◌, string_eq, none, some, arith,
}
use attention_sink.Domain.Enums.{
  evicted_oldest, evicted_least_recently_cited, evicted_outside_window,
}
use attention_sink.Domain.Errors.{raise, unsatisfiable_budget}
use attention_sink.Domain.Runtime.{Host, Float}
use attention_sink.Domain.Tokens.{TokenBudget}
use attention_sink.Domain.Cycle.{CycleContext}
use attention_sink.Domain.State.{MemoryState, active_tokens}
use attention_sink.Policies.Base.{policy_context, ordered_decision, code_for}
use attention_sink.Policies.Base.Ready.{protected_tokens, IsReady, Rebalanced}
use attention_sink.Policies.Base.Ordered.{greedy-Rebalanced, greedy-raises}
use attention_sink.Policies.Fifo.{fifo_ordering, fifo_rebalance}
use attention_sink.Policies.Lru.{lru_ordering, lru_rebalance}
use attention_sink.Policies.HeavyHitter.{heavy_ordering, heavy_code, reserved_ids, heavy_rebalance}
use attention_sink.Policies.PinnedOrigin.{is_pinned, pinned_rebalance}
use attention_sink.Policies.Reference.Sound.{
  full-Rebalanced, full-raises, stateless-Rebalanced, stateless-raises,
}
use attention_sink.Policies.SeededRandom.Sound.{random-Rebalanced, random-raises}
use attention_sink.Policies.Registry.{
  MemoryPolicy, fifo, lru, random, full, stateless, heavy, pinned, summarizing, policy_version,
  rebalance,
}

-- The mechanisms that only keep and evict: all but the summarizing one.
unfoldable pub only_evicts : MemoryPolicy → Bool
only_evicts fifo = true
only_evicts lru = true
only_evicts random = true
only_evicts full = true
only_evicts stateless = true
only_evicts (heavy config) = true
only_evicts (pinned config) = true
only_evicts (summarizing config) = false

-- The tokens that a mechanism may not retire.
unfoldable pub floor_tokens : {S : Type 0} → MemoryPolicy → MemoryState S → CycleContext → ℕ
floor_tokens fifo state context = protected_tokens state context none
floor_tokens lru state context = protected_tokens state context none
floor_tokens random state context = protected_tokens state context none
floor_tokens full state context = active_tokens state
floor_tokens stateless state context = protected_tokens state context none
floor_tokens (heavy config) state context = protected_tokens state context none
floor_tokens (pinned config) state context =
    protected_tokens state context (some (is_pinned config))
floor_tokens (summarizing config) state context = protected_tokens state context none

module _ {S : Type 0} ⦃host : Host⦄ ⦃float : Float S⦄ (state : MemoryState S) (budget : TokenBudget)
    (context : CycleContext) (ready : IsReady state budget context)
    (seed : (context.run_random_seed == "") ≡ false) where
  -- If a ready state's protected memories fit the budget and the run has a seed, every evicting mechanism decides, `apply` carries the
  -- decision out, and the next state is valid and within the budget.
  pub rebalance-Rebalanced :
      (policy : MemoryPolicy)
      → only_evicts policy ≡ true
      → floor_tokens policy state context ≤ budget.max_active_tokens
      → Rebalanced state budget (rebalance policy state budget context)
  unfolding only_evicts floor_tokens rebalance fifo_rebalance lru_rebalance heavy_rebalance
      pinned_rebalance ordered_decision
  rebalance-Rebalanced fifo e fits =
      greedy-Rebalanced state budget context ready "fifo-v1" (code_for evicted_oldest)
        (fifo_ordering S) refl none fits
  rebalance-Rebalanced lru e fits =
      greedy-Rebalanced state budget context ready "lru-v1" (code_for evicted_least_recently_cited)
        (lru_ordering S) refl none fits
  rebalance-Rebalanced full e fits = full-Rebalanced state budget context ready fits
  rebalance-Rebalanced stateless e fits = stateless-Rebalanced state budget context ready fits
  rebalance-Rebalanced (heavy config) e fits =
      greedy-Rebalanced state budget context ready "heavy-v1"
        (heavy_code (reserved_ids config state)) (heavy_ordering (reserved_ids config state)) refl
        none fits
  rebalance-Rebalanced (pinned config) e fits =
      greedy-Rebalanced state budget context ready "sink-v1" (code_for evicted_outside_window)
        (fifo_ordering S) refl (some (is_pinned config)) fits
  rebalance-Rebalanced random e fits = random-Rebalanced state budget context ready seed fits
  rebalance-Rebalanced (summarizing config) e fits = ground arith

  -- If a ready state's protected memories exceed the budget and the run has a seed, every evicting mechanism raises, and names the run,
  -- the arm, the cycle and its version.
  pub rebalance-raises :
      (policy : MemoryPolicy)
      → only_evicts policy ≡ true
      → budget.max_active_tokens < floor_tokens policy state context
      → rebalance policy state budget context
        ≡ raise (unsatisfiable_budget (policy_context context (policy_version policy)))
  unfolding only_evicts floor_tokens rebalance fifo_rebalance lru_rebalance heavy_rebalance
      pinned_rebalance ordered_decision
  rebalance-raises fifo e over =
      greedy-raises state budget context ready "fifo-v1" (code_for evicted_oldest) (fifo_ordering S)
        refl none over
  rebalance-raises lru e over =
      greedy-raises state budget context ready "lru-v1" (code_for evicted_least_recently_cited)
        (lru_ordering S) refl none over
  rebalance-raises full e over = full-raises state budget context ready over
  rebalance-raises stateless e over = stateless-raises state budget context ready over
  rebalance-raises (heavy config) e over =
      greedy-raises state budget context ready "heavy-v1" (heavy_code (reserved_ids config state))
        (heavy_ordering (reserved_ids config state)) refl none over
  rebalance-raises (pinned config) e over =
      greedy-raises state budget context ready "sink-v1" (code_for evicted_outside_window)
        (fifo_ordering S) refl (some (is_pinned config)) over
  rebalance-raises random e over = random-raises state budget context ready seed over
  rebalance-raises (summarizing config) e over = ground arith
