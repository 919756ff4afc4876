-- ===== src/Policies/SeededRandom/Rounds.antt =====
-- One round of the drawing: it raises nothing, and moves one memory from those that remain to the victims.
use attention_sink.Prelude.{
  ℕ, zero, suc, ◌+◌, ◌-◌, ◌≤◌, ◌<◌, ◌≡◌, refl, ap, ◌∙◌, true, false, some, List, [], ◌∷◌, ◌++◌, map,
  arith, ◌==◌, string_eq, option_eq, list_eq, length, length-append, length-map, sum_by-append,
  contains, distinct, All, All-append, sorted, range_from,
}
use attention_sink.Prelude.Ids.Laws.{==_sym, contains-append, distinct-append}
use attention_sink.Prelude.Sorting.Laws.{length-sorted}
use attention_sink.Prelude.Int.{pos, ◌-ℤ◌, sub-pos}
use attention_sink.Prelude.Text.Nonempty.{concat-ne-empty}
use Prim.Native.String.{slice}
use attention_sink.Prelude.Text.{str, text_leb}
use attention_sink.Domain.Errors.{ok}
use attention_sink.Domain.Runtime.{Host, Float}
use attention_sink.Domain.Memory.{Memory}
use attention_sink.Domain.Decision.{RandomDraw}
use attention_sink.Domain.Cycle.{CycleContext}
use attention_sink.Domain.State.{MemoryState, ids, cost, find, active_tokens}
use attention_sink.Domain.State.Retire.{by_id, lookup-by_id}
use attention_sink.Domain.State.Leave.{IsRemovable}
use attention_sink.Policies.Base.{Candidate}
use attention_sink.Policies.SeededRandom.{Drawing, draw_key, make_draw, draw_round}
use attention_sink.Policies.SeededRandom.Remaining.{
  remove, erase-by_id, keys-by_id, find-some, remove-length, remove-cost, remove-All,
  remove-distinct,
}
use attention_sink.Policies.SeededRandom.Picks.{
  sorted-sorted, contains-sorted_texts, distinct-sorted_texts, make_draw-eq-ok,
}

draw_key-ne-empty : (draw : RandomDraw) → (draw_key draw == "") ≡ false
unfolding draw_key
draw_key-ne-empty draw =
    concat-ne-empty "draw="
      (str draw.decision_index
        ∷ ";selected_index="
        ∷ str draw.selected_index
        ∷ ";digest="
        ∷ slice draw.digest 0 16
        ∷ ";memory_id="
        ∷ draw.selected_memory_id
        ∷ [])
      refl

range_from-snoc : (k n : ℕ) → range_from k n ++ (k + n) ∷ [] ≡ range_from k (suc n)
range_from-snoc k zero = ap (λ j. j ∷ []) (omega arith)
range_from-snoc k (suc n) =
    ap (◌∷◌ k) (ap (λ j. range_from (suc k) n ++ j ∷ []) (omega arith) ∙ range_from-snoc (suc k) n)

pub map-append {ℓ κ} :
    {A : Type ℓ} {B : Type κ} (f : A → B) (xs ys : List A) → map f (xs ++ ys) ≡ map f xs ++ map f ys
map-append f [] ys = refl
map-append f (x ∷ xs) ys = ap (◌∷◌ (f x)) (map-append f xs ys)

module _ {S : Type 0} where
  -- Memories that a list does not name.
  abbrev pub Unnamed : List (Memory S) → List (Memory S) → Type 0
  Unnamed vs = All λ r. contains (ids vs) r.memory_id ≡ false

  Unnamed-snoc :
      (m : Memory S) (vs rs : List (Memory S))
      → contains (ids rs) m.memory_id ≡ false
      → Unnamed vs rs
      → Unnamed (vs ++ m ∷ []) rs
  Unnamed-snoc m vs [] h u = tt
  Unnamed-snoc m vs (r ∷ rs) h u = (
    rw
        (
          map-append (λ (v : Memory S). v.memory_id) vs (m ∷ []),
          contains-append (ids vs) (m.memory_id ∷ []) r.memory_id,
        )
        (ground (arith, u.0, ==_sym m.memory_id r.memory_id)),
    Unnamed-snoc m vs rs (ground arith) u.1,
  )

  snoc-distinct :
      (m : Memory S) (vs : List (Memory S))
      → contains (ids vs) m.memory_id ≡ false
      → distinct (ids vs) ≡ true
      → distinct (ids (vs ++ m ∷ [])) ≡ true
  snoc-distinct m vs h d =
      rw (map-append (λ (v : Memory S). v.memory_id) vs (m ∷ []))
        (distinct-append (ids vs) (m.memory_id ∷ []) d refl (h, tt))

module _ {S : Type 0} ⦃host : Host⦄ ⦃float : Float S⦄ (state : MemoryState S)
    (context : CycleContext) (total : ℕ) where
  -- After some rounds, of which `rest` is what remains to be drawn.
  pub record IsUnderway (rest : List (Memory S)) (d : Drawing S) : Type 0 where
    pub remaining : d.remaining ≡ by_id rest
    pub rest_removable : All (IsRemovable context.cycle state.memories) rest
    pub rest_once : distinct (ids rest) ≡ true
    pub removable : All (IsRemovable context.cycle state.memories) d.victims
    pub once : distinct (ids d.victims) ≡ true
    pub apart : Unnamed d.victims rest
    pub spent : cost d.victims + cost rest ≡ total
    pub tokens : d.tokens_after ≡ pos (active_tokens state - cost d.victims)
    pub drawn : map (λ (c : Candidate S). c.0) d.drawn ≡ d.victims
    pub keyed : All (λ (c : Candidate S). (c.1 == "") ≡ false) d.drawn
    pub numbered : map (λ draw. draw.decision_index) d.draws ≡ range_from 0 (length d.draws)
    pub counted : length d.draws ≡ length d.victims

  pub record Advances (rest : List (Memory S)) (d : Drawing S) : Type 0 where
    pub next_rest : List (Memory S)
    pub next : Drawing S
    pub drew : draw_round context d ≡ ok next
    pub shorter : length rest ≡ suc (length next_rest)
    pub underway : IsUnderway next_rest next

  module _ (rest : List (Memory S)) (d : Drawing S) (bound : total ≤ active_tokens state)
      (u : IsUnderway rest d) (draw : RandomDraw) (m : Memory S)
      (found : find draw.selected_memory_id rest ≡ some m)
      (same : m.memory_id ≡ draw.selected_memory_id)
      (made : make_draw context (length d.draws) (sorted text_leb (ids rest)) ≡ ok draw)
      (numbered : draw.decision_index ≡ length d.draws) where
    abbrev left : List (Memory S)
    left = remove draw.selected_memory_id rest

    abbrev drawn_one : Drawing S
    drawn_one = record {
      remaining = by_id left;
      tokens_after = d.tokens_after -ℤ pos m.token_count;
      victims = d.victims ++ m ∷ [];
      draws = d.draws ++ draw ∷ [];
      drawn = d.drawn ++ (m, draw_key draw) ∷ [];
    }

    round-eq-ok : draw_round context d ≡ ok drawn_one
    unfolding draw_round
    round-eq-ok = simp (
      u.remaining,
      keys-by_id rest,
      made,
      lookup-by_id draw.selected_memory_id rest,
      found,
      erase-by_id draw.selected_memory_id rest,
    )

    cost-after : cost (d.victims ++ m ∷ []) ≡ cost d.victims + m.token_count
    cost-after = omega (arith, sum_by-append (λ (v : Memory S). v.token_count) d.victims (m ∷ []))

    tokens-after :
        (d.tokens_after -ℤ pos m.token_count)
        ≡ pos (active_tokens state - cost (d.victims ++ m ∷ []))
    tokens-after =
        ap (λ z. z -ℤ pos m.token_count) u.tokens
        ∙ sub-pos (active_tokens state - cost d.victims) m.token_count
            (omega (arith, bound, u.spent, remove-cost draw.selected_memory_id m rest found))
        ∙ ap pos (omega (arith, cost-after))

    length-snoc : suc (length d.draws) ≡ length (d.draws ++ draw ∷ [])
    length-snoc = omega (arith, length-append d.draws (draw ∷ []))

    numbers-after :
        map (λ (r : RandomDraw). r.decision_index) (d.draws ++ draw ∷ [])
        ≡ range_from 0 (length (d.draws ++ draw ∷ []))
    numbers-after =
        map-append (λ (r : RandomDraw). r.decision_index) d.draws (draw ∷ [])
        ∙ ap (λ ks. ks ++ draw.decision_index ∷ []) u.numbered
        ∙ ap (λ k. range_from 0 (length d.draws) ++ k ∷ []) (numbered ∙ omega arith)
        ∙ range_from-snoc 0 (length d.draws)
        ∙ ap (range_from 0) length-snoc

    IsUnderway-after : IsUnderway left drawn_one
    IsUnderway-after =
        let apart =
          remove-All draw.selected_memory_id m (λ r. contains (ids d.victims) r.memory_id ≡ false)
            rest found u.apart in
        let removable =
          remove-All draw.selected_memory_id m (IsRemovable context.cycle state.memories) rest found
            u.rest_removable in
        let once = remove-distinct draw.selected_memory_id rest u.rest_once in
        record {
          remaining = refl;
          rest_removable = removable.1;
          rest_once = once.0;
          removable =
              All-append (IsRemovable context.cycle state.memories) d.victims (m ∷ []) u.removable
                (removable.0, tt);
          once = snoc-distinct m d.victims apart.0 u.once;
          apart = Unnamed-snoc m d.victims left (ap (contains (ids left)) same ∙ once.1) apart.1;
          spent =
              omega (arith, cost-after, remove-cost draw.selected_memory_id m rest found, u.spent);
          tokens = tokens-after;
          drawn =
              map-append (λ (c : Candidate S). c.0) d.drawn ((m, draw_key draw) ∷ [])
              ∙ ap (λ vs. vs ++ m ∷ []) u.drawn;
          keyed =
              All-append (λ (c : Candidate S). (c.1 == "") ≡ false) d.drawn
                ((m, draw_key draw) ∷ []) u.keyed (draw_key-ne-empty draw, tt);
          numbered = numbers-after;
          counted = omega (arith, length-snoc, length-append d.victims (m ∷ []), u.counted);
        }

    round-Advances : Advances rest d
    round-Advances = record {
      next_rest = left;
      next = drawn_one;
      drew = round-eq-ok;
      shorter = remove-length draw.selected_memory_id m rest found;
      underway = IsUnderway-after;
    }

  -- A round raises nothing while a memory remains.
  pub draw_round-Advances :
      (rest : List (Memory S)) (d : Drawing S)
      → total ≤ active_tokens state
      → 0 < length rest
      → IsUnderway rest d
      → Advances rest d
  draw_round-Advances rest d bound some_left u =
      let made =
        make_draw-eq-ok context (length d.draws) (sorted text_leb (ids rest))
          (rw (length-sorted text_leb (ids rest), length-map (λ (m : Memory S). m.memory_id) rest)
            some_left)
          (distinct-sorted_texts (ids rest) u.rest_once) (sorted-sorted (ids rest)) in
      let found =
        find-some made.draw.selected_memory_id rest
          (contains-sorted_texts (ids rest) made.draw.selected_memory_id made.known) in
      round-Advances rest d bound u made.draw found.0 found.1 found.2 made.made made.numbered
