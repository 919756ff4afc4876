-- ===== src/Policies/SeededRandom/Picks.antt =====
-- One draw: it raises nothing over sorted candidates, and picks one of them.
use attention_sink.Prelude.{
  ℕ, ◌<◌, ◌≡◌, refl, sym, ap, ◌∙◌, String, true, false, List, [], ◌∷◌, map, arith, lt→ltb,
  string_eq, option_eq, list_eq, ==_refl, length, is_empty, contains, distinct, sorted,
}
use attention_sink.Prelude.Sorting.Laws.{
  contains-sorted, distinct-sorted, sorted-fixed, IsSorted-sorted,
}
use attention_sink.Prelude.Comparing.{compare_text-IsOrder}
use attention_sink.Prelude.Text.{text_leb}
use attention_sink.Domain.Enums.{arm_value}
use attention_sink.Domain.Errors.{ok}
use attention_sink.Domain.Runtime.{Host}
use attention_sink.Domain.Hashing.{selection_digest}
use attention_sink.Domain.Decision.{RandomDraw, draw_check}
use attention_sink.Domain.Cycle.{CycleContext}
use attention_sink.Policies.SeededRandom.{make_draw}
use attention_sink.Policies.SeededRandom.Remaining.{get_elem?-contains}

text_leb-total : (s t : String) → text_leb s t ≡ false → text_leb t s ≡ true
unfolding text_leb
text_leb-total s t h = rw (compare_text-IsOrder.turned s t) (ground (arith, h))

text_leb_trans : (s t u : String) → text_leb s t ≡ true → text_leb t u ≡ true → text_leb s u ≡ true
unfolding text_leb
text_leb_trans s t u = compare_text-IsOrder.trans s t u

-- Sorting sorted texts changes nothing.
pub sorted-sorted : (xs : List String) → sorted text_leb (sorted text_leb xs) ≡ sorted text_leb xs
sorted-sorted xs =
    sorted-fixed text_leb (sorted text_leb xs)
      (IsSorted-sorted text_leb text_leb-total text_leb_trans xs)

map-id : (xs : List String) → map (λ x. x) xs ≡ xs
map-id [] = refl
map-id (x ∷ xs) = ap (◌∷◌ x) (map-id xs)

pub contains-sorted_texts :
    (xs : List String) (k : String) → contains (sorted text_leb xs) k ≡ true → contains xs k ≡ true
contains-sorted_texts xs k h =
    sym (ap (λ ks. contains ks k) (map-id xs))
    ∙ sym (contains-sorted text_leb (λ x. x) xs k)
    ∙ ap (λ ks. contains ks k) (map-id (sorted text_leb xs))
    ∙ h

pub distinct-sorted_texts :
    (xs : List String) → distinct xs ≡ true → distinct (sorted text_leb xs) ≡ true
distinct-sorted_texts xs h =
    rw (map-id (sorted text_leb xs)) at (distinct-sorted text_leb (λ x. x) xs (rw (map-id xs) h))

not_empty : (xs : List String) → 0 < length xs → is_empty xs ≡ false
not_empty [] h = absurd (omega arith)
not_empty (x ∷ xs) h = refl

module _ ⦃host : Host⦄ (context : CycleContext) where
  -- A draw that its constructor accepts, of one of the candidates.
  pub record Draws (index : ℕ) (candidates : List String) : Type 0 where
    pub draw : RandomDraw
    pub made : make_draw context index candidates ≡ ok draw
    pub known : contains candidates draw.selected_memory_id ≡ true
    pub numbered : draw.decision_index ≡ index

  pub make_draw-eq-ok :
      (index : ℕ) (candidates : List String)
      → 0 < length candidates
      → distinct candidates ≡ true
      → sorted text_leb candidates ≡ candidates
      → Draws index candidates
  unfolding make_draw draw_check selection_digest
  make_draw-eq-ok index candidates positive once in_order =
      let digest =
        selection_digest context.run_random_seed (arm_value context.arm_id) context.cycle index
          candidates in
      let below = host.randrange-lt digest (length candidates) positive in
      let found = get_elem?-contains candidates (host.randrange digest (length candidates)) below in
      record {
        draw = record {
          decision_index = index;
          digest = digest;
          candidate_memory_ids = candidates;
          selected_index = host.randrange digest (length candidates);
          selected_memory_id = found.0;
        };
        made = simp (
          found.1,
          host.sha256-hex,
          not_empty candidates positive,
          once,
          in_order,
          ==_refl candidates,
          lt→ltb _ _ below,
          ==_refl found.0,
        );
        known = found.2;
        numbered = refl;
      }
