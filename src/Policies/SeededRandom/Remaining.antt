-- ===== src/Policies/SeededRandom/Remaining.antt =====
-- The memories that are still to be drawn, by identifier: one is found, and taken out.
use attention_sink.Prelude.{
  ℕ, zero, suc, ◌+◌, ◌<◌, ◌≡◌, refl, ap, String, true, false, some, List, [], ◌∷◌, arith, ◌==◌,
  string_eq, ==_refl, if◌then◌else◌, length, get_elem?, contains, distinct, All, Bool-cases, inl,
  inr,
}
use attention_sink.Prelude.Dict
use text.Mathlib.TextEquality.{eq_iff}
use attention_sink.Domain.Memory.{Memory}
use attention_sink.Domain.State.{ids, cost, find}
use attention_sink.Domain.State.Retire.{by_id}

-- What is in a list at an index is in the list.
pub get_elem?-contains :
    (xs : List String) (i : ℕ)
    → i < length xs
    → (k : String) × (get_elem? xs i ≡ some k) × (contains xs k ≡ true)
get_elem?-contains [] i h = absurd (omega arith)
get_elem?-contains (x ∷ xs) zero h = (x, refl, rw (==_refl x) refl)
get_elem?-contains (x ∷ xs) (suc i) h =
    let rest = get_elem?-contains xs i (omega arith) in (rest.0, rest.1, ground (arith, rest.2))

module _ {S : Type 0} where
  abbrev pub remove : String → List (Memory S) → List (Memory S)
  remove k [] = []
  remove k (m ∷ ms) = if m.memory_id == k then ms else m ∷ remove k ms

  pub erase-by_id :
      (k : String) (ms : List (Memory S)) → Dict.erase k (by_id ms) ≡ by_id (remove k ms)
  erase-by_id k [] = refl
  erase-by_id k (m ∷ ms) = ground (arith, erase-by_id k ms)

  pub keys-by_id : (ms : List (Memory S)) → Dict.keys (by_id ms) ≡ ids ms
  keys-by_id [] = refl
  keys-by_id (m ∷ ms) = ap (◌∷◌ m.memory_id) (keys-by_id ms)

  pub find-some :
      (k : String) (ms : List (Memory S))
      → contains (ids ms) k ≡ true
      → (m : Memory S) × (find k ms ≡ some m) × (m.memory_id ≡ k)
  find-some k [] h = absurd (ground arith)
  find-some k (m ∷ ms) h = elim (Bool-cases (m.memory_id == k)) [
    | inl same ↦ (m, rw same refl, (eq_iff m.memory_id k).0 same)
    | inr other ↦
        let rest = find-some k ms (ground (arith, other)) in (rest.0, rw other rest.1, rest.2)
  ]

  module _ (k : String) (m : Memory S) where
    pub remove-length :
        (ms : List (Memory S)) → find k ms ≡ some m → length ms ≡ suc (length (remove k ms))
    remove-length [] h = cc
    remove-length (n ∷ ms) h = ground (arith, remove-length ms)

    pub remove-cost :
        (ms : List (Memory S)) → find k ms ≡ some m → cost ms ≡ m.token_count + cost (remove k ms)
    remove-cost [] h = cc
    remove-cost (n ∷ ms) h = ground (arith, remove-cost ms)

    pub remove-All {ℓ} :
        (P : Memory S → Type ℓ) (ms : List (Memory S))
        → find k ms ≡ some m
        → All P ms
        → P m × All P (remove k ms)
    remove-All P [] h a = cc
    remove-All P (n ∷ ms) h a = ground (arith, remove-All P ms)

  pub remove-contains :
      (k j : String) (ms : List (Memory S))
      → contains (ids ms) j ≡ false
      → contains (ids (remove k ms)) j ≡ false
  remove-contains k j [] h = refl
  remove-contains k j (m ∷ ms) h = ground (arith, remove-contains k j ms)

  pub remove-distinct :
      (k : String) (ms : List (Memory S))
      → distinct (ids ms) ≡ true
      → (distinct (ids (remove k ms)) ≡ true) × (contains (ids (remove k ms)) k ≡ false)
  remove-distinct k [] d = (refl, refl)
  remove-distinct k (m ∷ ms) d =
      ground (arith, remove-distinct k ms, remove-contains k m.memory_id ms, eq_iff m.memory_id k)
