-- ===== src/Policies/SeededRandom/Drawn.antt =====
-- The loop of the drawing ends with its fuel to spare, and what it leaves is a proposal that is accepted.
use attention_sink.Prelude.{
  ℕ, zero, suc, ◌≤◌, ◌≡◌, ◌⊎◌, refl, ap, ◌∙◌, String, true, false, ◌||◌, List, [], ◌∷◌, map, arith,
  ◌==◌, string_eq, nat_eq, list_eq, length, is_empty, contains, All, Bool-cases, inl, inr,
}
use attention_sink.Prelude.Dict.{Dict}
use attention_sink.Prelude.Text.Nonempty.{concat-ne-empty}
use attention_sink.Domain.Errors.{ok, ◌>>=◌, for_each}
use attention_sink.Domain.Runtime.{Host, Float}
use attention_sink.Domain.Tokens.{TokenBudget, is_satisfied_by}
use attention_sink.Domain.Memory.{Memory}
use attention_sink.Domain.Decision.{rank_check}
use attention_sink.Domain.Cycle.{CycleContext}
use attention_sink.Domain.State.{MemoryState, ids, active_tokens}
use attention_sink.Domain.State.Retire.{by_id}
use attention_sink.Policies.Base.{Candidate, ranks_from}
use attention_sink.Policies.Base.Evicting.{candidate_ids}
use attention_sink.Policies.SeededRandom.{Drawing, draw_loop, draw_round, undrawn, undrawn_key}
use attention_sink.Policies.SeededRandom.Rounds.{Unnamed, IsUnderway, draw_round-Advances}

module _ {S : Type 0} ⦃host : Host⦄ ⦃float : Float S⦄ (state : MemoryState S) (budget : TokenBudget)
    (context : CycleContext) (total : ℕ) (bound : total ≤ active_tokens state) where
  -- The end of the loop: nothing remains, or the cost is within the budget.
  pub record Ends (fuel : ℕ) (d : Drawing S) : Type 0 where
    pub rest : List (Memory S)
    pub last : Drawing S
    pub looped : draw_loop fuel budget context d ≡ ok last
    pub underway : IsUnderway state context total rest last
    pub stopped : (rest ≡ []) ⊎ (is_satisfied_by budget last.tokens_after ≡ true)

  loop_stop :
      (fuel : ℕ) (d : Drawing S)
      → (is_empty d.remaining || is_satisfied_by budget d.tokens_after) ≡ true
      → draw_loop (suc fuel) budget context d ≡ ok d
  unfolding draw_loop
  loop_stop fuel d h =
      ap
        (λ b. elim b [
          | true ↦ ok d
          | false ↦ draw_round context d >>= λ d'. draw_loop fuel budget context d'
        ])
        h

  loop_round :
      (fuel : ℕ) (d next : Drawing S)
      → (is_empty d.remaining || is_satisfied_by budget d.tokens_after) ≡ false
      → draw_round context d ≡ ok next
      → draw_loop (suc fuel) budget context d ≡ draw_loop fuel budget context next
  unfolding draw_loop
  loop_round fuel d next h e =
      ap
        (λ b. elim b [
          | true ↦ ok d
          | false ↦ draw_round context d >>= λ d'. draw_loop fuel budget context d'
        ])
        h
      ∙ ap (λ r. r >>= λ d'. draw_loop fuel budget context d') e

  -- As many rounds as there are memories are enough.
  pub draw_loop-Ends :
      (fuel : ℕ) (rest : List (Memory S)) (d : Drawing S)
      → length rest ≤ fuel
      → IsUnderway state context total rest d
      → Ends fuel d
  unfolding draw_loop
  draw_loop-Ends zero [] d h u = record {
    rest = [];
    last = d;
    looped = refl;
    underway = u;
    stopped = inl refl;
  }
  draw_loop-Ends zero (m ∷ ms) d h u = absurd (omega arith)
  draw_loop-Ends (suc fuel) [] d h u = record {
    rest = [];
    last = d;
    looped =
        loop_stop fuel d
          (ap (λ r. is_empty r || is_satisfied_by budget d.tokens_after) u.remaining);
    underway = u;
    stopped = inl refl;
  }
  draw_loop-Ends (suc fuel) (m ∷ ms) d h u =
      elim (Bool-cases (is_satisfied_by budget d.tokens_after)) [
        | inl fits ↦ record {
          rest = m ∷ ms;
          last = d;
          looped =
              loop_stop fuel d
                (ap (λ r. is_empty r || is_satisfied_by budget d.tokens_after) u.remaining ∙ fits);
          underway = u;
          stopped = inr fits;
        }
        | inr over ↦
            let a = draw_round-Advances state context total (m ∷ ms) d bound (omega arith) u in
            let e = draw_loop-Ends fuel a.next_rest a.next (omega (arith, a.shorter)) a.underway in
            record {
              rest = e.rest;
              last = e.last;
              looped =
                  loop_round fuel d a.next
                    (ap (λ r. is_empty r || is_satisfied_by budget d.tokens_after) u.remaining
                      ∙ over)
                    a.drew
                  ∙ e.looped;
              underway = e.underway;
              stopped = e.stopped;
            }
      ]

module _ {S : Type 0} where
  abbrev pub entry_id : String × Memory S → String
  entry_id e = e.1.memory_id

  pub undrawn-ids : (d : Dict (Memory S)) → candidate_ids (undrawn d) ≡ map entry_id d
  unfolding undrawn
  undrawn-ids [] = refl
  undrawn-ids (e ∷ d) = ap (◌∷◌ e.1.memory_id) (undrawn-ids d)

  pub undrawn-keyed :
      (d : Dict (Memory S)) → All (λ (c : Candidate S). (c.1 == "") ≡ false) (undrawn d)
  unfolding undrawn undrawn_key
  undrawn-keyed [] = tt
  undrawn-keyed (e ∷ d) = (concat-ne-empty "draw=none;memory_id=" (e.0 ∷ []) refl, undrawn-keyed d)

  pub entry_ids-by_id : (ms : List (Memory S)) → map entry_id (by_id ms) ≡ ids ms
  entry_ids-by_id [] = refl
  entry_ids-by_id (m ∷ ms) = ap (◌∷◌ m.memory_id) (entry_ids-by_id ms)

  pub length-by_id : (ms : List (Memory S)) → length (by_id ms) ≡ length ms
  length-by_id [] = refl
  length-by_id (m ∷ ms) = ap suc (length-by_id ms)

  pub Unnamed-entries :
      (vs ms : List (Memory S))
      → Unnamed vs ms
      → All (λ e. contains (ids vs) (entry_id e) ≡ false) (by_id ms)
  Unnamed-entries vs [] h = tt
  Unnamed-entries vs (m ∷ ms) h = (h.0, Unnamed-entries vs ms h.1)

  pub All-entry_id :
      (P : String → Type 0) (d : Dict (Memory S))
      → All (λ e. P (entry_id e)) d
      → All P (map entry_id d)
  All-entry_id P [] h = tt
  All-entry_id P (e ∷ d) h = (h.0, All-entry_id P d h.1)

  ids-of_candidates :
      (cs : List (Candidate S)) → candidate_ids cs ≡ ids (map (λ (c : Candidate S). c.0) cs)
  ids-of_candidates [] = refl
  ids-of_candidates (c ∷ cs) = ap (◌∷◌ c.0.memory_id) (ids-of_candidates cs)

  pub drawn-ids :
      (cs : List (Candidate S)) (vs : List (Memory S))
      → map (λ (c : Candidate S). c.0) cs ≡ vs
      → candidate_ids cs ≡ ids vs
  drawn-ids cs vs h = ids-of_candidates cs ∙ ap ids h

  pub ranks-checked :
      (k : ℕ) (cs : List (Candidate S))
      → All (λ (c : Candidate S). (c.1 == "") ≡ false) cs
      → for_each rank_check (ranks_from k cs) ≡ ok tt
  unfolding rank_check
  ranks-checked k [] h = refl
  ranks-checked k (c ∷ cs) h = rw h.0 (ranks-checked (suc k) cs h.1)
