-- ===== src/Policies/Base/Order.antt =====
-- The order of a ranking: what its candidates are, and which come first.
use mathlib.Core.List.{Perm}
use mathlib.Core.Path.{subst}
use attention_sink.Prelude.{◌≡◌, sym, ap, true, false, List, [], ◌∷◌, map, arith, sorted, IsSorted}
use attention_sink.Prelude.Sorting.Laws.{sorted-Perm, IsSorted-sorted}
use attention_sink.Prelude.Comparing.{
  IsOrder, then_by-IsOrder, by-IsOrder, compare_ℤ-IsOrder, compare_text-IsOrder, always-IsOrder,
}
use attention_sink.Domain.Errors.{ok, value_error, require, >>=-eq-ok}
use attention_sink.Domain.Runtime.{Float}
use attention_sink.Domain.Memory.{Memory}
use attention_sink.Domain.State.Sound.{ok-injective}
use attention_sink.Policies.Base.{
  RankField, int_field, float_field, text_field, RankOrdering, Candidate, compare_field, compare_by,
  precedes, render_key, ends_in_memory_id, rank_candidates,
}
use attention_sink.Policies.Base.Ranking.{keyed_by, memories-keyed_by}

module _ {S : Type 0} ⦃float : Float S⦄ (ordered : IsOrder float.compare) where
  compare_field-IsOrder : (f : RankField S) → IsOrder (compare_field f)
  unfolding compare_field
  compare_field-IsOrder (int_field name fn) = by-IsOrder _ fn compare_ℤ-IsOrder
  compare_field-IsOrder (float_field name fn) = by-IsOrder _ fn ordered
  compare_field-IsOrder (text_field name fn) = by-IsOrder _ fn compare_text-IsOrder

  pub compare_by-IsOrder : (ordering : RankOrdering S) → IsOrder (compare_by ordering)
  unfolding compare_by
  compare_by-IsOrder [] = always-IsOrder
  compare_by-IsOrder (f ∷ fs) =
      then_by-IsOrder (compare_field f) (compare_by fs) (compare_field-IsOrder f)
        (compare_by-IsOrder fs)

  precedes-total :
      (ordering : RankOrdering S) (m n : Memory S)
      → precedes ordering m n ≡ false
      → precedes ordering n m ≡ true
  precedes-total ordering m n h = rw ((compare_by-IsOrder ordering).turned m n) (ground (arith, h))

  pub ranking-IsSorted :
      (ordering : RankOrdering S) (ms : List (Memory S))
      → IsSorted (precedes ordering) (sorted (precedes ordering) ms)
  ranking-IsSorted ordering ms =
      IsSorted-sorted (precedes ordering) (precedes-total ordering)
        (compare_by-IsOrder ordering).trans ms

  -- The candidates of a ranking are the memories, rearranged so that each precedes or ties all that follow it; each
  -- stands with its key.
  pub record Ranked (ordering : RankOrdering S) (ms : List (Memory S)) (cs : List (Candidate S))
      : Type 0 where
    pub rearranged : Perm (map (λ (c : Candidate S). c.0) cs) ms
    pub in_order : IsSorted (precedes ordering) (map (λ (c : Candidate S). c.0) cs)
    pub keyed : cs ≡ keyed_by (render_key ordering) (map (λ (c : Candidate S). c.0) cs)

  -- If a ranking returns candidates, they are the memories, each once, rearranged so that each precedes or ties all
  -- that follow it in Python's order of the tuples of keys, and each stands with its own key.
  pub rank_candidates-Ranked :
      (ordering : RankOrdering S) (ms : List (Memory S)) (cs : List (Candidate S))
      → rank_candidates ms ordering ≡ ok cs
      → Ranked ordering ms cs
  unfolding rank_candidates
  rank_candidates-Ranked ordering ms cs h =
      let ends = >>=-eq-ok (require (ends_in_memory_id ordering) value_error) _ h in
      let ranking = sorted (precedes ordering) ms in
      let same = memories-keyed_by (render_key ordering) ranking in
      let out : Ranked ordering ms (keyed_by (render_key ordering) ranking) = record {
        rearranged = rw same (sorted-Perm (precedes ordering) ms);
        in_order = rw same (ranking-IsSorted ordering ms);
        keyed = ap (keyed_by (render_key ordering)) (sym same);
      } in
      subst (Ranked ordering ms) (ok-injective ends.2) out
