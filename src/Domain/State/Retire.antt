-- ===== src/Domain/State/Retire.antt =====
-- One retirement in the list of memories: what it leaves as it was, and what leaves the active set.
use attention_sink.Prelude.{
  ℕ, ◌+◌, ◌≡◌, refl, String, true, false, not, none, some, List, [], ◌∷◌, arith, ◌==◌, string_eq,
  ==_refl, if◌then◌else◌, All, filter, contains, distinct,
}
use attention_sink.Prelude.Ids.Laws.{==_sym, contains-map-filter, filter-absent}
use attention_sink.Prelude.Dict
use attention_sink.Prelude.Dict.Laws.{keyed}
use text.Mathlib.TextEquality.{eq_iff}
use attention_sink.Domain.Enums.{MemoryStatus, is_retired_status}
use attention_sink.Domain.Memory.{Memory, is_active}
use attention_sink.Domain.Memory.Transitions.{retired}
use attention_sink.Domain.State.{ids, cost, active_of, find}
use attention_sink.Domain.State.Skeleton.{SameSkeleton}

module _ {S : Type 0} where
  abbrev pub by_id : List (Memory S) → Dict.Dict (Memory S)
  by_id = keyed λ m. m.memory_id

  -- `n` in the place of the memory that has its identifier.
  abbrev pub put : Memory S → List (Memory S) → List (Memory S)
  put n [] = []
  put n (m ∷ ms) = if m.memory_id == n.memory_id then n ∷ ms else m ∷ put n ms

  pub lookup-by_id : (k : String) (ms : List (Memory S)) → Dict.lookup k (by_id ms) ≡ find k ms
  lookup-by_id k [] = refl
  lookup-by_id k (m ∷ ms) = ground (arith, lookup-by_id k ms)

  pub insert-by_id :
      (n m : Memory S) (ms : List (Memory S))
      → find n.memory_id ms ≡ some m
      → Dict.insert n.memory_id n (by_id ms) ≡ by_id (put n ms)
  insert-by_id n m [] h = cc
  insert-by_id n m (x ∷ xs) h = ground (arith, insert-by_id n m xs, eq_iff x.memory_id n.memory_id)

  -- A memory that is not in the list is not found.
  find-none : (k : String) (ms : List (Memory S)) → contains (ids ms) k ≡ false → find k ms ≡ none
  find-none k [] h = refl
  find-none k (m ∷ ms) h = ground (arith, find-none k ms)

  contains-find :
      (k : String) (m : Memory S) (ms : List (Memory S))
      → find k ms ≡ some m
      → contains (ids ms) k ≡ true
  contains-find k m [] h = cc
  contains-find k m (x ∷ xs) h = ground (arith, contains-find k m xs)

  -- Where the identifiers are distinct, every memory is found under its own.
  find-members :
      (x : Memory S) (xs ms : List (Memory S))
      → contains (ids ms) x.memory_id ≡ false
      → All (λ m. find m.memory_id xs ≡ some m) ms
      → All (λ m. find m.memory_id (x ∷ xs) ≡ some m) ms
  find-members x xs [] h a = tt
  find-members x xs (m ∷ ms) h a =
      (ground (arith, ==_sym x.memory_id m.memory_id), find-members x xs ms (ground arith) a.1)

  pub find-All :
      (ms : List (Memory S)) → distinct (ids ms) ≡ true → All (λ m. find m.memory_id ms ≡ some m) ms
  find-All [] h = tt
  find-All (m ∷ ms) h =
      (rw (==_refl m.memory_id), find-members m ms ms (ground arith) (find-All ms (ground arith)))

module _ {S : Type 0} (v : Memory S) (status : MemoryStatus) (cycle : ℕ) where
  abbrev pub w : Memory S
  w = retired status cycle v

  pub put-skeleton :
      (ms : List (Memory S)) → find v.memory_id ms ≡ some v → SameSkeleton ms (put w ms)
  put-skeleton [] h = refl
  put-skeleton (m ∷ ms) h = ground (arith, put-skeleton ms)

  -- Another memory is found as before.
  pub put-find :
      (k : String) (ms : List (Memory S))
      → (v.memory_id == k) ≡ false
      → find k (put w ms) ≡ find k ms
  put-find k [] h = refl
  put-find k (m ∷ ms) h =
      ground (arith, put-find k ms, eq_iff m.memory_id v.memory_id, eq_iff v.memory_id k)

  -- The active set loses the cost of `v`, and its identifier.
  pub put-cost :
      (ms : List (Memory S))
      → find v.memory_id ms ≡ some v
      → is_active v ≡ true
      → is_retired_status status ≡ true
      → cost (active_of (put w ms)) + v.token_count ≡ cost (active_of ms)
  put-cost [] h a r = cc
  put-cost (m ∷ ms) h a r = ground (arith, put-cost ms)

  pub put-ids :
      (ms : List (Memory S))
      → find v.memory_id ms ≡ some v
      → distinct (ids ms) ≡ true
      → is_active v ≡ true
      → is_retired_status status ≡ true
      → ids (active_of (put w ms)) ≡ filter (λ k. not (v.memory_id == k)) (ids (active_of ms))
  put-ids [] h d a r = refl
  put-ids (m ∷ ms) h d a r = ground (
    arith,
    put-ids ms,
    contains-map-filter (λ (n : Memory S). n.memory_id) is_active ms v.memory_id,
    filter-absent v.memory_id (ids (active_of ms)),
    eq_iff m.memory_id v.memory_id,
    eq_iff v.memory_id m.memory_id,
  )
