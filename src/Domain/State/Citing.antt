-- ===== src/Domain/State/Citing.antt =====
-- `record_cycle_citations`: which citations count, and what a citation may change.
use mathlib.Core.Path.{fun_ext, subst}
use attention_sink.Prelude.{
  ℕ, ◌≡◌, refl, sym, ap, ◌∙◌, String, ◌++◌, Bool, true, false, not, ◌&&◌, ◌||◌, List, [], ◌∷◌,
  arith, ◌==◌, ◌!=◌, string_eq, nat_eq, filter, length, Bool-cases, inl, inr, All, if◌then◌else◌,
  if-cases, ◌⊎◌, ◌≢◌,
}
use attention_sink.Domain.Enums.{arm_eq, active, status_eq, interview, evaluation}
use attention_sink.Domain.Errors.{ok, ◌>>=◌, for_each, traverse, >>=-eq-ok}
use attention_sink.Domain.Runtime.{Host, Float, float_is_zero}
use attention_sink.Domain.Memory.{
  Memory, edge_check, is_active, fill_content_hash, check_fields, check_invariants, validate, cite,
  with_citation_cycle,
}
use attention_sink.Domain.Memory.Transitions.{IsValid}
use attention_sink.Domain.Citations.{VerifiedCitation}
use attention_sink.Domain.State.{
  MemoryState, ids, active_of, active_memory_ids, active_tokens, cost, counts_for, count_citations,
  state_check, rebuild, update_citations, record_cycle_citations,
}
use attention_sink.Domain.State.Applied.{StateIsValid}
use attention_sink.Domain.State.Sound.{ok-injective, validate-IsValid}

module _ {S : Type 0} where
  -- A citation that a memory of the state must not count: it is no writer's, or it is of another run or arm.
  abbrev pub IsForeign : MemoryState S → VerifiedCitation → Type 0
  IsForeign s c =
      (c.source ≡ interview)
      ⊎ (c.source ≡ evaluation)
      ⊎ (c.run_id ≢ s.run_id)
      ⊎ (c.arm_id ≢ s.arm_id)

  IsForeign-counts_for :
      (s : MemoryState S) (c : VerifiedCitation) → IsForeign s c → counts_for s c ≡ false
  unfolding counts_for
  IsForeign-counts_for s c (inl asked) = rw asked refl
  IsForeign-counts_for s c (inr (inl judged)) = rw judged refl
  IsForeign-counts_for s c (inr (inr (inl other))) =
      ground (arith, string_eq.eqb_iff c.run_id s.run_id, other)
  IsForeign-counts_for s c (inr (inr (inr other))) =
      ground (arith, arm_eq.eqb_iff c.arm_id s.arm_id, other)

  counted-without :
      (s : MemoryState S) (c : VerifiedCitation) (k : String) (before after : List VerifiedCitation)
      → counts_for s c ≡ false
      → length (filter (λ d. counts_for s d && d.memory_id == k) (before ++ c ∷ after))
        ≡ length (filter (λ d. counts_for s d && d.memory_id == k) (before ++ after))
  counted-without s c k [] after h = rw h refl
  counted-without s c k (b ∷ before) after h = ground (arith, counted-without s c k before after h)

  -- What a citation leaves alone.
  pub record Alike (m n : Memory S) : Type 0 where
    pub same_id : n.memory_id ≡ m.memory_id
    pub same_status : n.status ≡ m.status
    pub same_tokens : n.token_count ≡ m.token_count
    pub same_text : n.text ≡ m.text
    pub same_pin : n.pinned ≡ m.pinned

  -- The memories of two lists, one by one.
  unfoldable pub Pointwise :
      (Memory S → Memory S → Type 0) → List (Memory S) → List (Memory S) → Type 0
  Pointwise R [] [] = Unit
  Pointwise R [] (n ∷ ns) = ⊥
  Pointwise R (m ∷ ms) [] = ⊥
  Pointwise R (m ∷ ms) (n ∷ ns) = R m n × Pointwise R ms ns

  -- A retired memory is left as it is.
  abbrev pub Cited : Memory S → Memory S → Type 0
  Cited m n = Alike m n × (is_active m ≡ false → n ≡ m)

  Alike-refl : (m : Memory S) → Alike m m
  Alike-refl m = record {
    same_id = refl;
    same_status = refl;
    same_tokens = refl;
    same_text = refl;
    same_pin = refl;
  }

  Alike-trans : (a b c : Memory S) → Alike a b → Alike b c → Alike a c
  Alike-trans a b c p q = record {
    same_id = q.same_id ∙ p.same_id;
    same_status = q.same_status ∙ p.same_status;
    same_tokens = q.same_tokens ∙ p.same_tokens;
    same_text = q.same_text ∙ p.same_text;
    same_pin = q.same_pin ∙ p.same_pin;
  }

  if-Alike : (b : Bool) (m x y : Memory S) → Alike m x → Alike m y → Alike m (if b then x else y)
  if-Alike true m x y p q = p
  if-Alike false m x y p q = q

  -- The active memories are the same, and cost the same.
  pub active-Alike :
      (ms ns : List (Memory S))
      → Pointwise Cited ms ns
      → (ids (active_of ns) ≡ ids (active_of ms)) × (cost (active_of ns) ≡ cost (active_of ms))
  unfolding Pointwise
  active-Alike [] [] h = (refl, refl)
  active-Alike [] (n ∷ ns) h = absurd h
  active-Alike (m ∷ ms) [] h = absurd h
  active-Alike (m ∷ ms) (n ∷ ns) h =
      let rest = active-Alike ms ns h.1 in
      let same : is_active n ≡ is_active m = ap (λ status. status == active) h.0.0.same_status in
      elim (Bool-cases (is_active m)) [
        | inl live ↦
            simp (same, live)
              (simp (h.0.0.same_id, rest.0), omega (arith, h.0.0.same_tokens, rest.1))
        | inr gone ↦ simp (same, gone) rest
      ]

module _ {S : Type 0} ⦃host : Host⦄ ⦃float : Float S⦄ where
  cite-Alike :
      (m : Memory S) (cycle citations : ℕ) (decay : S) → Alike m (cite cycle citations decay m)
  unfolding cite
  cite-Alike m cycle citations decay =
      if-Alike (citations == 0) m _ _
        (record {
          same_id = refl;
          same_status = refl;
          same_tokens = refl;
          same_text = refl;
          same_pin = refl;
        })
        (record {
          same_id = refl;
          same_status = refl;
          same_tokens = refl;
          same_text = refl;
          same_pin = refl;
        })

  fill-Alike : (m : Memory S) → Alike m (fill_content_hash m)
  unfolding fill_content_hash
  fill-Alike m =
      if-Alike (m.content_hash == "" && m.text != "") m _ m
        (record {
          same_id = refl;
          same_status = refl;
          same_tokens = refl;
          same_text = refl;
          same_pin = refl;
        })
        (Alike-refl m)

  validate-Alike : (m n : Memory S) → validate m ≡ ok n → Alike m n
  unfolding validate
  validate-Alike m n h =
      let fields = >>=-eq-ok (check_fields (fill_content_hash m)) _ h in
      let rest = >>=-eq-ok (check_invariants (fill_content_hash m)) _ fields.2 in
      subst (Alike m) (ok-injective rest.2) (fill-Alike m)

  update-Cited :
      (counts : String → ℕ) (cycle : ℕ) (decay : S) (m n : Memory S)
      → update_citations counts cycle decay m ≡ ok n
      → Cited m n
  unfolding update_citations with_citation_cycle
  update-Cited counts cycle decay m n h = elim (Bool-cases (is_active m)) [
    | inl live ↦
        if-cases (counts m.memory_id == 0 && float_is_zero m.discounted_citation_score)
          (simp live at h)
          (λ same. (subst (Alike m) (ok-injective same) (Alike-refl m), λ gone. cc))
          (λ cited. (
            Alike-trans m (cite cycle (counts m.memory_id) decay m) n
                (cite-Alike m cycle (counts m.memory_id) decay) (validate-Alike _ n cited),
            λ gone. cc,
          ))
    | inr gone ↦ (
      subst (Alike m) (ok-injective (simp gone at h)) (Alike-refl m),
      λ same. sym (ok-injective (simp gone at h)),
    )
  ]

  traverse-Cited :
      (counts : String → ℕ) (cycle : ℕ) (decay : S) (ms ns : List (Memory S))
      → traverse (update_citations counts cycle decay) ms ≡ ok ns
      → Pointwise Cited ms ns
  unfolding Pointwise
  traverse-Cited counts cycle decay [] ns h = subst (Pointwise Cited []) (ok-injective h) tt
  traverse-Cited counts cycle decay (m ∷ ms) ns h =
      let first = >>=-eq-ok (update_citations counts cycle decay m) _ h in
      let rest = >>=-eq-ok (traverse (update_citations counts cycle decay) ms) _ first.2 in
      subst (Pointwise Cited (m ∷ ms)) (ok-injective rest.2) (
        update-Cited counts cycle decay m first.0 first.1,
        traverse-Cited counts cycle decay ms rest.0 rest.1,
      )

  module _ (s t : MemoryState S) (citations : List VerifiedCitation) (cycle : ℕ) (decay : S) where
    recorded :
        record_cycle_citations s citations cycle decay ≡ ok t
        → (ns : List (Memory S)) × (traverse
              (update_citations (count_citations s citations) cycle decay)
              s.memories
            ≡ ok ns)
          × (record s { memories = ns } ≡ t)
          × (for_each edge_check s.lineage_edges ≡ ok tt)
          × (state_check (record s { memories = ns }) ≡ ok tt)
    unfolding record_cycle_citations rebuild
    recorded h =
        let updated =
          >>=-eq-ok
            (traverse (update_citations (count_citations s citations) cycle decay) s.memories) _
            h in
        let edges = >>=-eq-ok (for_each edge_check s.lineage_edges) _ updated.2 in
        let checked = >>=-eq-ok (state_check (record s { memories = updated.0 })) _ edges.2 in
        (updated.0, updated.1, ok-injective checked.2, edges.1, checked.1)

    -- Recording citations changes no memory's identifier, status, cost, text or pin, changes nothing of a retired
    -- memory, and leaves the active memories, their order and their cost as they were.
    pub record_cycle_citations-Cited :
        record_cycle_citations s citations cycle decay ≡ ok t
        → Pointwise Cited s.memories t.memories
          × (active_memory_ids t ≡ active_memory_ids s)
          × (active_tokens t ≡ active_tokens s)
    record_cycle_citations-Cited h =
        let r = recorded h in
        let cited =
          subst (λ (u : MemoryState S). Pointwise Cited s.memories u.memories) r.2
            (traverse-Cited (count_citations s citations) cycle decay s.memories r.0 r.1) in
        let same = active-Alike s.memories t.memories cited in (cited, same.0, same.1)

    updated-IsValid :
        (counts : String → ℕ) (ms ns : List (Memory S))
        → All IsValid ms
        → traverse (update_citations counts cycle decay) ms ≡ ok ns
        → All IsValid ns
    unfolding update_citations with_citation_cycle
    updated-IsValid counts [] ns v h = subst (All IsValid) (ok-injective h) tt
    updated-IsValid counts (m ∷ ms) ns v h =
        let first = >>=-eq-ok (update_citations counts cycle decay m) _ h in
        let rest = >>=-eq-ok (traverse (update_citations counts cycle decay) ms) _ first.2 in
        subst (All IsValid) (ok-injective rest.2) (
          if-cases
              (not (is_active m)
                || counts m.memory_id == 0 && float_is_zero m.discounted_citation_score)
              first.1 (λ same. subst IsValid (ok-injective same) v.0)
              (λ cited. validate-IsValid _ first.0 cited),
          updated-IsValid counts ms rest.0 v.1 rest.1,
        )

    -- Recording citations in a valid state leaves a valid state.
    pub record_cycle_citations-StateIsValid :
        StateIsValid s → record_cycle_citations s citations cycle decay ≡ ok t → StateIsValid t
    record_cycle_citations-StateIsValid v h =
        let r = recorded h in
        let out : StateIsValid (record s { memories = r.0 }) = record {
          members = updated-IsValid (count_citations s citations) s.memories r.0 v.members r.1;
          edges = r.3;
          checked = r.4;
        } in
        subst StateIsValid r.2 out

  -- A citation that is of an interview or an evaluation, or of another run or arm, changes nothing: wherever it stands
  -- among the citations, the outcome is the same without it.
  pub record_cycle_citations-isolated :
      (s : MemoryState S) (c : VerifiedCitation) (before after : List VerifiedCitation) (cycle : ℕ)
      (decay : S)
      → IsForeign s c
      → record_cycle_citations s (before ++ c ∷ after) cycle decay
        ≡ record_cycle_citations s (before ++ after) cycle decay
  unfolding record_cycle_citations count_citations
  record_cycle_citations-isolated s c before after cycle decay foreign =
      ap
        (λ counts. traverse (update_citations counts cycle decay) s.memories >>= λ updated.
          rebuild (record s { memories = updated }))
        (fun_ext λ k. counted-without s c k before after (IsForeign-counts_for s c foreign))
