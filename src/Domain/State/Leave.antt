-- ===== src/Domain/State/Leave.antt =====
-- The retirements of a decision, one after the other: the loop of `apply` succeeds, and this is the list
-- of memories that it leaves.
use attention_sink.Prelude.{
  ℕ, ◌+◌, ◌≤◌, ◌≡◌, refl, sym, ap, ◌∙◌, true, false, not, List, [], ◌∷◌, arith, string_eq, some,
  All, filter, contains, distinct,
}
use attention_sink.Prelude.Ids.Laws.{==_sym, filter-filter-not, filter-nothing}
use attention_sink.Prelude.Dict
use attention_sink.Domain.Enums.{MemoryStatus, PolicyDecisionCode, is_retired_status}
use attention_sink.Domain.Errors.{Error, ok}
use attention_sink.Domain.Runtime.{Host, Float}
use attention_sink.Domain.Memory.{Memory, is_active, retire}
use attention_sink.Domain.Memory.Transitions.{IsValid, retired, retired-IsValid, retire-eq-ok}
use attention_sink.Domain.Decision.{MemoryRetirement, retire_as}
use attention_sink.Domain.State.{ids, cost, active_of, find, retire_one, retire_found, retire_loop}
use attention_sink.Domain.State.Skeleton.{SameSkeleton, SameSkeleton-ids}
use attention_sink.Domain.State.Retire.{
  by_id, put, w, lookup-by_id, insert-by_id, put-skeleton, put-find, put-cost, put-ids,
}

module _ {S : Type 0} where
  abbrev pub leave : MemoryStatus → ℕ → List (Memory S) → List (Memory S) → List (Memory S)
  leave status cycle [] ms = ms
  leave status cycle (v ∷ vs) ms = leave status cycle vs (put (retired status cycle v) ms)

module _ {S : Type 0} ⦃host : Host⦄ ⦃float : Float S⦄ where
  -- A memory of the list that may be retired in the cycle.
  pub record IsRemovable (cycle : ℕ) (ms : List (Memory S)) (v : Memory S) : Type 0 where
    pub found : find v.memory_id ms ≡ some v
    pub is_live : is_active v ≡ true
    pub unpinned : v.pinned ≡ false
    pub born : v.birth_cycle ≤ cycle
    pub valid : IsValid v

  -- Distinct memories, each of which may be retired.
  pub record AreRemovable (cycle : ℕ) (ms vs : List (Memory S)) : Type 0 where
    pub each : All (IsRemovable cycle ms) vs
    pub once : distinct (ids vs) ≡ true

  retire_found-eq-ok :
      (e : Error) (cycle : ℕ) (d : Dict.Dict (Memory S)) (r : MemoryRetirement)
      (target left : Memory S)
      → is_active target ≡ true
      → target.pinned ≡ false
      → retire r.status cycle target ≡ ok left
      → retire_found e cycle d r (some target) ≡ ok (Dict.insert r.memory_id left d)
  unfolding retire_found
  retire_found-eq-ok e cycle d r target left a p h = simp (a, p, h)

  module _ (status : MemoryStatus) (is_retired : is_retired_status status ≡ true) (cycle : ℕ) where
    IsRemovable-after :
        (v : Memory S) (ms vs : List (Memory S))
        → contains (ids vs) v.memory_id ≡ false
        → All (IsRemovable cycle ms) vs
        → All (IsRemovable cycle (put (w v status cycle) ms)) vs
    IsRemovable-after v ms [] h a = tt
    IsRemovable-after v ms (u ∷ us) h (r, rs) = (
      record {
        found =
            put-find v status cycle u.memory_id ms (ground (arith, ==_sym u.memory_id v.memory_id))
            ∙ r.found;
        is_live = r.is_live;
        unpinned = r.unpinned;
        born = r.born;
        valid = r.valid;
      },
      IsRemovable-after v ms us (ground arith) rs,
    )

    AreRemovable-after :
        (v : Memory S) (ms vs : List (Memory S))
        → AreRemovable cycle ms (v ∷ vs)
        → AreRemovable cycle (put (w v status cycle) ms) vs
    AreRemovable-after v ms vs a = record {
      each = IsRemovable-after v ms vs (ground arith) a.each.1;
      once = ground arith;
    }

    put-distinct :
        (v : Memory S) (ms vs : List (Memory S))
        → AreRemovable cycle ms (v ∷ vs)
        → distinct (ids ms) ≡ true
        → distinct (ids (put (w v status cycle) ms)) ≡ true
    put-distinct v ms vs a d =
        rw (SameSkeleton-ids ms _ (put-skeleton v status cycle ms a.each.0.found)) at d

    pub leave-skeleton :
        (vs ms : List (Memory S))
        → AreRemovable cycle ms vs
        → SameSkeleton ms (leave status cycle vs ms)
    leave-skeleton [] ms a = refl
    leave-skeleton (v ∷ vs) ms a =
        put-skeleton v status cycle ms a.each.0.found
        ∙ leave-skeleton vs (put (w v status cycle) ms) (AreRemovable-after v ms vs a)

    put-IsValid :
        (v : Memory S) (ms : List (Memory S))
        → IsValid (w v status cycle)
        → All IsValid ms
        → All IsValid (put (w v status cycle) ms)
    put-IsValid v [] h a = tt
    put-IsValid v (m ∷ ms) h (a, as') = ground (arith, put-IsValid v ms h as')

    -- Every record that is left is one that its constructor accepts.
    pub leave-IsValid :
        (vs ms : List (Memory S))
        → AreRemovable cycle ms vs
        → All IsValid ms
        → All IsValid (leave status cycle vs ms)
    leave-IsValid [] ms a h = h
    leave-IsValid (v ∷ vs) ms a h = leave-IsValid vs _ (AreRemovable-after v ms vs a) (
        put-IsValid v ms
          (retired-IsValid v status cycle a.each.0.valid a.each.0.unpinned a.each.0.born is_retired)
          h)

    -- The active set loses what the retired memories cost.
    pub leave-cost :
        (vs ms : List (Memory S))
        → AreRemovable cycle ms vs
        → cost (active_of (leave status cycle vs ms)) + cost vs ≡ cost (active_of ms)
    leave-cost [] ms a = omega arith
    leave-cost (v ∷ vs) ms a = omega (
      arith,
      leave-cost vs (put (w v status cycle) ms) (AreRemovable-after v ms vs a),
      put-cost v status cycle ms a.each.0.found a.each.0.is_live is_retired,
    )

    -- The identifiers of the active set lose those of the retired memories.
    pub leave-ids :
        (vs ms : List (Memory S))
        → AreRemovable cycle ms vs
        → distinct (ids ms) ≡ true
        → ids (active_of (leave status cycle vs ms))
          ≡ filter (λ k. not (contains (ids vs) k)) (ids (active_of ms))
    leave-ids [] ms a d = sym (filter-nothing (ids (active_of ms)))
    leave-ids (v ∷ vs) ms a d =
        leave-ids vs _ (AreRemovable-after v ms vs a) (put-distinct v ms vs a d)
        ∙ ap (filter (λ k. not (contains (ids vs) k)))
            (put-ids v status cycle ms a.each.0.found d a.each.0.is_live is_retired)
        ∙ filter-filter-not v.memory_id (ids vs) (ids (active_of ms))

    -- One retirement of the loop.
    retire_one-eq-ok :
        (e : Error) (code : PolicyDecisionCode) (v : Memory S) (ms : List (Memory S))
        → IsRemovable cycle ms v
        → retire_one e cycle
            (by_id ms)
            (record { memory_id = v.memory_id; status = status; reason = code })
          ≡ ok (by_id (put (w v status cycle) ms))
    retire_one-eq-ok e code v ms r =
        rw (lookup-by_id v.memory_id ms, r.found)
          (retire_found-eq-ok e cycle (by_id ms) _ v (w v status cycle) r.is_live r.unpinned
              (retire-eq-ok v status cycle r.valid r.unpinned r.born is_retired)
            ∙ ap ok (insert-by_id (w v status cycle) v ms r.found))

    pub retire_loop-eq-ok :
        (e : Error) (code : PolicyDecisionCode) (vs ms : List (Memory S))
        → AreRemovable cycle ms vs
        → retire_loop e cycle (by_id ms) (retire_as status code (ids vs))
          ≡ ok (by_id (leave status cycle vs ms))
    unfolding retire_loop
    retire_loop-eq-ok e code [] ms a = refl
    retire_loop-eq-ok e code (v ∷ vs) ms a =
        rw (retire_one-eq-ok e code v ms a.each.0)
          (retire_loop-eq-ok e code vs (put (w v status cycle) ms) (AreRemovable-after v ms vs a))
