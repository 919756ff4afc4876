-- ===== src/Domain/State/Admit.antt =====
-- `admit`: what it demands of the new memories, and that slots only ever go up.
use mathlib.Core.List.{append-nil}
use mathlib.Core.Path.{subst}
use attention_sink.Prelude.{
  ℕ, ◌+◌, ◌≤◌, ◌≡◌, refl, sym, ap, String, Bool, true, false, not, List, [], ◌∷◌, ◌++◌, arith, leb,
  leb→le, le→leb, string_eq, contains, All, All-append,
}
use attention_sink.Domain.Errors.{
  Error, ok, state_error, require, for_each, >>=-eq-ok, require-eq-ok,
}
use attention_sink.Domain.Runtime.{Host, Float}
use attention_sink.Domain.Memory.{Memory, edge_check, is_active}
use attention_sink.Domain.Memory.Transitions.{IsValid}
use attention_sink.Domain.State.{
  MemoryState, ids, state_check, rebuild, admit_context, admit_loop, admit,
}
use attention_sink.Domain.State.Applied.{StateIsValid}
use attention_sink.Domain.State.Sound.{ok-injective}

not-true : (b : Bool) → not b ≡ true → b ≡ false
not-true b h = ground arith

module _ {S : Type 0} where
  -- New, active memories, each in a slot behind the one before, from `cursor` up to `next`.
  unfoldable pub AreAdmissible : List String → ℕ → ℕ → List (Memory S) → Type 0
  AreAdmissible known cursor next [] = cursor ≡ next
  AreAdmissible known cursor next (m ∷ ms) =
      (contains known m.memory_id ≡ false)
      × (is_active m ≡ true)
      × (cursor ≤ m.creation_sequence)
      × AreAdmissible known (m.creation_sequence + 1) next ms

  admit_loop-AreAdmissible :
      (e : Error) (known : List String) (cursor next : ℕ) (ms : List (Memory S))
      → admit_loop e known cursor ms ≡ ok next
      → AreAdmissible known cursor next ms
  unfolding admit_loop AreAdmissible
  admit_loop-AreAdmissible e known cursor next [] h = ok-injective h
  admit_loop-AreAdmissible e known cursor next (m ∷ ms) h =
      let fresh = >>=-eq-ok (require (not (contains known m.memory_id)) e) _ h in
      let live = >>=-eq-ok (require (is_active m) e) _ fresh.2 in
      let slot = >>=-eq-ok (require (leb cursor m.creation_sequence) e) _ live.2 in
      (
        not-true _ (require-eq-ok _ e fresh.1),
        require-eq-ok _ e live.1,
        leb→le cursor m.creation_sequence (require-eq-ok _ e slot.1),
        admit_loop-AreAdmissible e known (m.creation_sequence + 1) next ms slot.2,
      )

  admit_loop-eq-ok :
      (e : Error) (known : List String) (cursor next : ℕ) (ms : List (Memory S))
      → AreAdmissible known cursor next ms
      → admit_loop e known cursor ms ≡ ok next
  unfolding admit_loop AreAdmissible
  admit_loop-eq-ok e known cursor next [] h = ap ok h
  admit_loop-eq-ok e known cursor next (m ∷ ms) h = simp (
    h.0,
    h.1,
    le→leb cursor m.creation_sequence h.2,
    admit_loop-eq-ok e known (m.creation_sequence + 1) next ms h.3,
  )

  AreAdmissible-le :
      (known : List String) (cursor next : ℕ) (ms : List (Memory S))
      → AreAdmissible known cursor next ms
      → cursor ≤ next
  unfolding AreAdmissible
  AreAdmissible-le known cursor next [] h = omega (arith, h)
  AreAdmissible-le known cursor next (m ∷ ms) h =
      omega (arith, h.2, AreAdmissible-le known (m.creation_sequence + 1) next ms h.3)

module _ {S : Type 0} ⦃host : Host⦄ ⦃float : Float S⦄ where
  -- What `admit` promises.
  pub record Admitted (s : MemoryState S) (ms : List (Memory S)) (t : MemoryState S) : Type 0 where
    pub appended : t.memories ≡ s.memories ++ ms
    pub admissible :
        AreAdmissible (ids s.memories) s.next_creation_sequence t.next_creation_sequence ms
    pub later : s.next_creation_sequence ≤ t.next_creation_sequence
    pub edges : t.lineage_edges ≡ s.lineage_edges

  rebuild-same :
      (s t : MemoryState S)
      → rebuild s ≡ ok t
      → (s ≡ t) × (for_each edge_check s.lineage_edges ≡ ok tt) × (state_check s ≡ ok tt)
  unfolding rebuild
  rebuild-same s t h =
      let edges = >>=-eq-ok (for_each edge_check s.lineage_edges) _ h in
      let checked = >>=-eq-ok (state_check s) _ edges.2 in
      (ok-injective checked.2, edges.1, checked.1)

  -- If `admit` returns a state, then it appended the memories and no other, each new, active, and in a slot at or
  -- behind the next free one and behind the memory before it, and the next free slot has not gone down.
  pub admit-Admitted :
      (s t : MemoryState S) (ms : List (Memory S)) → admit s ms ≡ ok t → Admitted s ms t
  unfolding admit AreAdmissible
  admit-Admitted s t [] h =
      let same : Admitted s [] s = record {
        appended = sym (append-nil s.memories);
        admissible = refl;
        later = omega arith;
        edges = refl;
      } in
      subst (Admitted s []) (ok-injective h) same
  admit-Admitted s t (m ∷ ms) h =
      let looped =
        >>=-eq-ok
          (admit_loop (state_error (admit_context s)) (ids s.memories) s.next_creation_sequence
            (m ∷ ms))
          _ h in
      let admissible =
        admit_loop-AreAdmissible (state_error (admit_context s)) (ids s.memories)
          s.next_creation_sequence looped.0 (m ∷ ms) looped.1 in
      let next : MemoryState S = record s {
        memories = s.memories ++ m ∷ ms;
        next_creation_sequence = looped.0;
      } in
      let out : Admitted s (m ∷ ms) next = record {
        appended = refl;
        admissible = admissible;
        later =
            AreAdmissible-le (ids s.memories) s.next_creation_sequence looped.0 (m ∷ ms) admissible;
        edges = refl;
      } in
      rw (rebuild-same next t looped.2).0 at out

  -- If `admit` returns a state, of a valid state and valid memories, then the state is valid.
  pub admit-StateIsValid :
      (s t : MemoryState S) (ms : List (Memory S))
      → StateIsValid s
      → All IsValid ms
      → admit s ms ≡ ok t
      → StateIsValid t
  unfolding admit
  admit-StateIsValid s t [] v a h = rw (ok-injective h) at v
  admit-StateIsValid s t (m ∷ ms) v a h =
      let looped =
        >>=-eq-ok
          (admit_loop (state_error (admit_context s)) (ids s.memories) s.next_creation_sequence
            (m ∷ ms))
          _ h in
      let next : MemoryState S = record s {
        memories = s.memories ++ m ∷ ms;
        next_creation_sequence = looped.0;
      } in
      let built = rebuild-same next t looped.2 in
      let out : StateIsValid next = record {
        members = All-append IsValid s.memories (m ∷ ms) v.members a;
        edges = built.1;
        checked = built.2;
      } in
      rw built.0 at out
