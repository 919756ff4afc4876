-- ===== src/Policies/Base/Ranking.antt =====
-- The ranked candidates: every key says something, and ranking rearranges the eligible memories.
use attention_sink.Prelude.{
  ℕ, suc, ◌≡◌, refl, ap, String, true, false, List, [], ◌∷◌, map, ◌==◌, string_eq,
}
use attention_sink.Prelude.Text.Nonempty.{concat-ne-empty, concat-ne-empty_rest, join-ne-empty}
use attention_sink.Domain.Errors.{ok, for_each}
use attention_sink.Domain.Runtime.{Float}
use attention_sink.Domain.Memory.{Memory}
use attention_sink.Domain.Decision.{rank_check}
use attention_sink.Domain.State.{ids}
use attention_sink.Policies.Base.{
  RankField, int_field, float_field, text_field, RankOrdering, Candidate, ends_in_memory_id,
  render_pair, render_field, render_key, ranks_from,
}
use attention_sink.Policies.Base.Evicting.{candidate_ids}

module _ {S : Type 0} where
  -- Each memory with its key.
  abbrev pub keyed_by : (Memory S → String) → List (Memory S) → List (Candidate S)
  keyed_by key = map λ m. (m, key m)

  pub candidate_ids-keyed_by :
      (key : Memory S → String) (ms : List (Memory S)) → candidate_ids (keyed_by key ms) ≡ ids ms
  candidate_ids-keyed_by key [] = refl
  candidate_ids-keyed_by key (m ∷ ms) = ap (◌∷◌ m.memory_id) (candidate_ids-keyed_by key ms)

  pub memories-keyed_by :
      (key : Memory S → String) (ms : List (Memory S))
      → map (λ (c : Candidate S). c.0) (keyed_by key ms) ≡ ms
  memories-keyed_by key [] = refl
  memories-keyed_by key (m ∷ ms) = ap (◌∷◌ m) (memories-keyed_by key ms)

  pub keys-checked :
      (key : Memory S → String)
      → ((m : Memory S) → (key m == "") ≡ false)
      → (k : ℕ) (ms : List (Memory S))
      → for_each rank_check (ranks_from k (keyed_by key ms)) ≡ ok tt
  unfolding rank_check
  keys-checked key h k [] = refl
  keys-checked key h k (m ∷ ms) = rw (h m) (keys-checked key h (suc k) ms)

render_pair-ne-empty : (name value : String) → (render_pair name value == "") ≡ false
unfolding render_pair
render_pair-ne-empty name value =
    concat-ne-empty_rest name ("=" ∷ value ∷ []) (concat-ne-empty "=" (value ∷ []) refl)

module _ {S : Type 0} ⦃float : Float S⦄ where
  render_field-ne-empty : (m : Memory S) (f : RankField S) → (render_field m f == "") ≡ false
  unfolding render_field
  render_field-ne-empty m (int_field name fn) = render_pair-ne-empty name _
  render_field-ne-empty m (float_field name fn) = render_pair-ne-empty name _
  render_field-ne-empty m (text_field name fn) = render_pair-ne-empty name _

  -- A total ordering renders no empty key.
  pub render_key-ne-empty :
      (ordering : RankOrdering S)
      → ends_in_memory_id ordering ≡ true
      → (m : Memory S) → (render_key ordering m == "") ≡ false
  unfolding render_key
  render_key-ne-empty [] h m = cc
  render_key-ne-empty (f ∷ fs) h m =
      join-ne-empty ";" (render_field m f) (map (render_field m) fs) (render_field-ne-empty m f)
