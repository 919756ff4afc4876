-- ===== src/Policies/SeededRandom.antt =====
-- packages/policies/attention_sink/policies/seeded_random.py: victims drawn from the recorded seed.
pub mod Remaining
pub mod Picks
pub mod Rounds
pub mod Drawn
pub mod Sound
use Prim.Native.String.{slice}
use attention_sink.Prelude.{
  ℕ, zero, suc, String, true, false, Option, none, some, List, [], ◌∷◌, ◌++◌, ◌||◌, is_empty,
  length, get_elem?, sorted,
}
use attention_sink.Prelude.Dict
use attention_sink.Prelude.Dict.{Dict}
use attention_sink.Prelude.Int.{ℤ, pos, ◌-ℤ◌}
use attention_sink.Prelude.Text.{concat, str, text_leb}
use attention_sink.Domain.Enums.{arm_value, evicted_random}
use attention_sink.Domain.Errors.{Result, ok, raise, index_error, key_error, ◌>>=◌, ◌>>◌}
use attention_sink.Domain.Runtime.{Host}
use attention_sink.Domain.Hashing.{selection_digest}
use attention_sink.Domain.Tokens.{TokenBudget, is_satisfied_by}
use attention_sink.Domain.Memory.{Memory}
use attention_sink.Domain.Decision.{
  RandomDraw, draw_check, RandomProvenance, provenance_check, PolicyDecision,
}
use attention_sink.Domain.Cycle.{CycleContext}
use attention_sink.Domain.State.{MemoryState, active_tokens}
use attention_sink.Policies.Base.{Candidate, eligible_memories, proposal, code_for, build_decision}

-- The variables of the loop.
pub record Drawing (S : Type 0) : Type 0 where
  pub remaining : Dict (Memory S)
  pub tokens_after : ℤ
  pub victims : List (Memory S)
  pub draws : List RandomDraw
  pub drawn : List (Candidate S)

-- `xs[i]`, `d[k]`
abbrev pub or_raise {ℓ} : {A : Type ℓ} → Option A → Result A → Result A
or_raise none e = e
or_raise (some a) e = ok a

draw_key : RandomDraw → String
unfolding concat str
draw_key draw = concat (
    "draw="
    ∷ str draw.decision_index
    ∷ ";selected_index="
    ∷ str draw.selected_index
    ∷ ";digest="
    ∷ slice draw.digest 0 16
    ∷ ";memory_id="
    ∷ draw.selected_memory_id
    ∷ [])

undrawn_key : String → String
unfolding concat
undrawn_key memory_id = concat ("draw=none;memory_id=" ∷ memory_id ∷ [])

-- `RandomProvenance(...) if draws else None`
unfoldable pub provenance : CycleContext → List RandomDraw → Result (Option RandomProvenance)
provenance context [] = ok none
provenance context (draw ∷ draws) = do
  let p : RandomProvenance = record {
    run_random_seed = context.run_random_seed;
    draws = draw ∷ draws;
  }
  provenance_check p
  ok (some p)

module _ ⦃host : Host⦄ where
  -- The draw over the sorted candidates.
  unfoldable pub make_draw : CycleContext → ℕ → List String → Result RandomDraw
  make_draw context decision_index candidate_ids = do
    let digest =
        selection_digest context.run_random_seed (arm_value context.arm_id) context.cycle
          decision_index candidate_ids
    let selected_index = host.randrange digest (length candidate_ids)
    selected_id ← or_raise (get_elem? candidate_ids selected_index) (raise index_error)
    let draw : RandomDraw = record {
      decision_index = decision_index;
      digest = digest;
      candidate_memory_ids = candidate_ids;
      selected_index = selected_index;
      selected_memory_id = selected_id;
    }
    draw_check draw
    ok draw

module _ {S : Type 0} where
  unfoldable pub undrawn : Dict (Memory S) → List (Candidate S)
  unfolding undrawn_key
  undrawn [] = []
  undrawn ((memory_id, m) ∷ rest) = (m, undrawn_key memory_id) ∷ undrawn rest

  -- The entries of the dictionary, `sorted` by their keys.
  abbrev pub by_key : Dict (Memory S) → Dict (Memory S)
  by_key = sorted (λ a b. text_leb a.0 b.0)

module _ {S : Type 0} ⦃host : Host⦄ where
  -- One round of the loop.
  unfoldable pub draw_round : CycleContext → Drawing S → Result (Drawing S)
  unfolding make_draw draw_key
  draw_round context d = do
    draw ← make_draw context (length d.draws) (sorted text_leb (Dict.keys d.remaining))
    selected ← or_raise (Dict.lookup draw.selected_memory_id d.remaining) (raise key_error)
    ok (record {
      remaining = Dict.erase draw.selected_memory_id d.remaining;
      tokens_after = d.tokens_after -ℤ pos selected.token_count;
      victims = d.victims ++ selected ∷ [];
      draws = d.draws ++ draw ∷ [];
      drawn = d.drawn ++ (selected, draw_key draw) ∷ [];
    })

  -- `while remaining and not budget.is_satisfied_by(tokens_after)`: each round removes one memory, so as
  -- many rounds as there are memories are enough.
  unfoldable pub draw_loop : ℕ → TokenBudget → CycleContext → Drawing S → Result (Drawing S)
  draw_loop zero budget context d = ok d
  draw_loop (suc fuel) budget context d =
      elim (is_empty d.remaining || is_satisfied_by budget d.tokens_after) [
        | true ↦ ok d
        | false ↦ draw_round context d >>= λ d'. draw_loop fuel budget context d'
      ]

  abbrev pub start_drawing : MemoryState S → CycleContext → Drawing S
  start_drawing state context = record {
    remaining = Dict.from_list (λ m. m.memory_id) (eligible_memories state context none) [];
    tokens_after = pos (active_tokens state);
    victims = [];
    draws = [];
    drawn = [];
  }

  -- `SeededRandomPolicy.rebalance`
  unfoldable pub random_rebalance :
      MemoryState S → TokenBudget → CycleContext → Result (PolicyDecision S)
  unfolding draw_loop draw_round undrawn provenance
  random_rebalance state budget context = do
    let start = start_drawing state context
    d ← draw_loop (length start.remaining) budget context start
    random_provenance ← provenance context d.draws
    build_decision state budget context "random-v1"
        (record (proposal (code_for evicted_random d.victims)
          (d.drawn ++ undrawn (by_key d.remaining)) d.victims d.tokens_after) {
            random_provenance = random_provenance;
          })
