-- ===== src/Policies/Summarization/Plans.antt =====
-- `_plan_compression` finds the shortest prefix that is long enough and fits, if there is one.
use attention_sink.Prelude.{
  ℕ, suc, ◌+◌, ◌≤◌, ◌<◌, ◌≡◌, refl, sym, ap, ◌∙◌, String, Bool, true, false, ◌&&◌, Option, none,
  some, List, [], ◌∷◌, leb, lt→ltb, leb→le, le→leb, length, length-take, length-map, take, contains,
  distinct, arith, string_eq, Bool-cases, inl, inr, if◌then◌else◌, and-left,
}
use attention_sink.Prelude.Ids.Laws.{distinct-take, take-map, contains-take}
use attention_sink.Prelude.Int.{ℤ, pos, ◌+ℤ◌, ◌-ℤ◌, leb_ℤ}
use attention_sink.Domain.Errors.{ok, >>=-eq-ok}
use attention_sink.Domain.Tokens.{TokenBudget}
use attention_sink.Domain.Memory.{Memory}
use attention_sink.Domain.Decision.{CompressionPlan, plan_check}
use attention_sink.Domain.Configuration.{SummarizationConfig}
use attention_sink.Domain.State.{ids, cost}
use attention_sink.Domain.State.Sound.{ok-injective}
use attention_sink.Policies.Summarization.{
  plan_fits, checked_plan, plan_of, plan_loop, plan_compression,
}

0+ : (n : ℕ) → 0 + n ≡ n
0+ n = omega arith

-- What fits with the margin at the limit fits without it at less.
pub margin-left :
    (n freed limit ceiling margin tokens : ℕ)
    → leb_ℤ (pos n -ℤ pos freed +ℤ pos limit) (pos ceiling -ℤ pos margin) ≡ true
    → tokens ≤ limit
    → leb_ℤ (pos n -ℤ pos freed +ℤ pos tokens) (pos ceiling) ≡ true
unfolding ◌+ℤ◌ ◌-ℤ◌
margin-left n freed limit ceiling margin tokens h le = ground arith

size+1 : (n : ℕ) → n + 1 ≡ suc n
size+1 n = omega arith

checked_plan-eq-ok : (o r : Option CompressionPlan) → checked_plan o ≡ ok r → o ≡ r
checked_plan-eq-ok none r h = ok-injective h
checked_plan-eq-ok (some plan) r h = ok-injective (>>=-eq-ok (plan_check plan) _ h).2

module _ {S : Type 0} (config : SummarizationConfig) (sources : List (Memory S)) (tokens_before : ℤ)
    (budget : TokenBudget) (summary_memory_id : String) where
  -- A prefix that is long enough, and whose summary fits even at the longest it may be.
  abbrev pub suits : ℕ → Bool
  suits k =
      leb config.min_sources k && plan_fits config tokens_before budget (cost (take k sources))

  -- A plan over the shortest such prefix of more than `from` sources.
  pub record IsShortest (from to : ℕ) (plan : CompressionPlan) : Type 0 where
    pub size : ℕ
    pub above : from < size
    pub below : size ≤ to
    pub is_plan : plan ≡ plan_of config sources summary_memory_id size (cost (take size sources))
    pub suitable : suits size ≡ true
    pub shortest : (j : ℕ) → from < j → j < size → suits j ≡ false

  -- No prefix of more than `from` sources, up to `to`, will do.
  abbrev pub NoneSuits : ℕ → ℕ → Type 0
  NoneSuits from to = (j : ℕ) → from < j → j ≤ to → suits j ≡ false

  Found : ℕ → ℕ → Option CompressionPlan → Type 0
  Found from to none = NoneSuits from to
  Found from to (some plan) = IsShortest from to plan

  Found-later :
      (from to : ℕ) (o : Option CompressionPlan)
      → suits (suc from) ≡ false
      → Found (suc from) to o
      → Found from to o
  unfolding Found
  Found-later from to none h f = λ j a b. elim (Bool-cases (leb j (suc from))) [
    | inl t ↦ ap suits (omega (arith, leb→le j (suc from) t)) ∙ h
    | inr t ↦ f j (ground (arith, t)) b
  ]
  Found-later from to (some plan) h f = record {
    size = f.size;
    above = omega (arith, f.above);
    below = f.below;
    is_plan = f.is_plan;
    suitable = f.suitable;
    shortest = λ j a b. elim (Bool-cases (leb j (suc from))) [
      | inl t ↦ ap suits (omega (arith, leb→le j (suc from) t)) ∙ h
      | inr t ↦ f.shortest j (ground (arith, t)) b
    ];
  }

  Found-step :
      (from to freed : ℕ) (later : Option CompressionPlan) (b : Bool)
      → suc from ≤ to
      → freed ≡ cost (take (suc from) sources)
      → suits (suc from) ≡ b
      → Found (suc from) to later
      → Found from to
          (if b then some (plan_of config sources summary_memory_id (suc from) freed) else later)
  unfolding Found
  Found-step from to freed later true bound e h f = record {
    size = suc from;
    above = omega arith;
    below = bound;
    is_plan = ap (plan_of config sources summary_memory_id (suc from)) e;
    suitable = h;
    shortest = λ j a b. absurd (omega arith);
  }
  Found-step from to freed later false bound e h f = Found-later from to later h f

  -- `freed` and `rest` are what the loop has passed and what it still has to see.
  plan_loop-Found :
      (rest : List (Memory S)) (size freed : ℕ)
      → ((k : ℕ) → cost (take (size + k) sources) ≡ freed + cost (take k rest))
      → Found size
          (size + length rest)
          (plan_loop config sources tokens_before budget summary_memory_id rest size freed)
  unfolding plan_loop Found
  plan_loop-Found [] size freed h = λ j a b. absurd (omega arith)
  plan_loop-Found (m ∷ rest) size freed h =
      let shift : (k : ℕ) → suc size + k ≡ size + suc k = λ k. omega arith in
      let here : freed + m.token_count ≡ cost (take (suc size) sources) =
        omega (arith, h 1, ap (λ n. cost (take n sources)) (size+1 size)) in
      let later : Found (suc size) (size + length (m ∷ rest)) (
          plan_loop config sources tokens_before budget summary_memory_id rest (suc size)
            (freed + m.token_count)) =
        rw (shift (length rest)) at (
          plan_loop-Found rest (suc size) (freed + m.token_count)
            (λ k. ap (λ n. cost (take n sources)) (shift k) ∙ h (suc k) ∙ omega arith)) in
      Found-step size (size + length (m ∷ rest)) (freed + m.token_count) _
        (leb config.min_sources (suc size)
          && plan_fits config tokens_before budget (freed + m.token_count))
        (omega arith) here
        (ap (λ n. leb config.min_sources (suc size) && plan_fits config tokens_before budget n)
          (sym here))
        later

  -- If a plan is found, it covers the shortest prefix of the sources that has the least number of sources and
  -- whose summary, at its target limit, fits the budget less the margin.
  pub plan_compression-IsShortest :
      (plan : CompressionPlan)
      → plan_compression config sources tokens_before budget summary_memory_id ≡ ok (some plan)
      → IsShortest 0 (length sources) plan
  unfolding plan_compression Found
  plan_compression-IsShortest plan h =
      rw (checked_plan-eq-ok _ (some plan) h, 0+ (length sources)) at
        (plan_loop-Found sources 0 0
          (λ k. ap (λ n. cost (take n sources)) (0+ k) ∙ sym (0+ (cost (take k sources)))))

  -- If no plan is found, then no prefix of the sources both has the least number of sources and fits.
  pub plan_compression-none :
      (j : ℕ)
      → 0 < j
      → j ≤ length sources
      → plan_compression config sources tokens_before budget summary_memory_id ≡ ok none
      → suits j ≡ false
  unfolding plan_compression Found
  plan_compression-none j above below h =
      (rw (checked_plan-eq-ok _ none h, 0+ (length sources)) at
          (plan_loop-Found sources 0 0
            (λ k. ap (λ n. cost (take n sources)) (0+ k) ∙ sym (0+ (cost (take k sources))))))
        j above below

  plan_of-checked :
      (size : ℕ)
      → distinct (ids sources) ≡ true
      → contains (ids sources) summary_memory_id ≡ false
      → 2 ≤ config.min_sources
      → 0 < config.summary_target_token_limit
      → size ≤ length sources
      → suits size ≡ true
      → plan_check (plan_of config sources summary_memory_id size (cost (take size sources)))
        ≡ ok tt
  unfolding plan_check
  plan_of-checked size d fresh enough positive bound s = simp (
    sym (take-map (λ (m : Memory S). m.memory_id) size sources),
    distinct-take size (ids sources) d,
    contains-take size (ids sources) summary_memory_id fresh,
    lt→ltb 0 config.summary_target_token_limit positive,
    length-take size (ids sources) (rw (length-map (λ (m : Memory S). m.memory_id) sources) bound),
    le→leb 2 size (omega (arith, leb→le config.min_sources size (and-left _ _ s))),
  )

  returns_of :
      (o : Option CompressionPlan)
      → distinct (ids sources) ≡ true
      → contains (ids sources) summary_memory_id ≡ false
      → 2 ≤ config.min_sources
      → 0 < config.summary_target_token_limit
      → Found 0 (length sources) o
      → checked_plan o ≡ ok o
  unfolding Found
  returns_of none d fresh enough positive f = refl
  returns_of (some plan) d fresh enough positive f =
      simp (f.is_plan, plan_of-checked f.size d fresh enough positive f.below f.suitable)

  -- Over distinct sources, with a fresh identifier for the summary and a valid configuration, planning raises
  -- nothing.
  pub plan_compression-returns :
      distinct (ids sources) ≡ true
      → contains (ids sources) summary_memory_id ≡ false
      → 2 ≤ config.min_sources
      → 0 < config.summary_target_token_limit
      → (o : Option CompressionPlan) × (plan_compression config sources tokens_before budget
            summary_memory_id
          ≡ ok o)
  unfolding plan_compression
  plan_compression-returns d fresh enough positive = (
    plan_loop config sources tokens_before budget summary_memory_id sources 0 0,
    returns_of _ d fresh enough positive (
        rw (0+ (length sources)) at (
          plan_loop-Found sources 0 0
            (λ k. ap (λ n. cost (take n sources)) (0+ k) ∙ sym (0+ (cost (take k sources)))))),
  )
