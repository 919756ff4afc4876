-- ===== src/Domain/State/Sound.antt =====
-- What a transition that returns has checked: the state that it returns is valid.
use attention_sink.Prelude.{
  ℕ, suc, ◌+◌, ◌≡◌, sym, ap, true, ◌&&◌, List, [], ◌∷◌, ◌++◌, arith, ◌==◌, string_eq, list_eq, All,
  nat_beq_iff,
}
use attention_sink.Prelude.Dict
use attention_sink.Prelude.Int.{ℤ, pos, negsuc, eq_ℤ}
use attention_sink.Domain.Enums.{arm_eq}
use attention_sink.Domain.Errors.{
  ok, value_error, policy_error, lineage_error, require, for_each, traverse, >>=-eq-ok,
  require-eq-ok,
}
use attention_sink.Domain.Runtime.{Host, Float}
use attention_sink.Domain.Hashing.{content_hash}
use attention_sink.Domain.Memory.{
  Memory, edge_check, fill_content_hash, check_fields, check_invariants, check_lineage,
  check_retirement, validate,
}
use attention_sink.Domain.Memory.Transitions.{IsValid}
use attention_sink.Domain.Decision.{PolicyDecision}
use attention_sink.Domain.State.{
  MemoryState, active_memory_ids, active_tokens, state_check, rebuild, revalidate, admit,
  apply_context, check_created, retire_loop, apply,
}
use attention_sink.Domain.State.Applied.{StateIsValid}

pub ok-injective {ℓ} : {A : Type ℓ} {a b : A} → ok a ≡ ok b → a ≡ b
ok-injective h = cc

eq_ℤ-pos : (n : ℕ) (z : ℤ) → eq_ℤ (pos n) z ≡ true → z ≡ pos n
eq_ℤ-pos n (pos k) h = ap pos (omega (arith, (nat_beq_iff (n + 0) (k + 0)).0 h))
eq_ℤ-pos n (negsuc k) h = absurd (omega (arith, (nat_beq_iff (n + suc k) (0 + 0)).0 h))

module _ {S : Type 0} ⦃host : Host⦄ ⦃float : Float S⦄ where
  filled-IsValid : (m : Memory S) → check_fields m ≡ ok tt → check_invariants m ≡ ok tt → IsValid m
  unfolding check_invariants
  filled-IsValid m f h =
      let hash = >>=-eq-ok (require (m.content_hash == content_hash m.text) value_error) _ h in
      let lineage = >>=-eq-ok (check_lineage m) _ hash.2 in
      let retirement = >>=-eq-ok (check_retirement m) _ lineage.2 in
      record {
        fields = f;
        hash =
            (string_eq.eqb_iff m.content_hash (content_hash m.text)).0
              (require-eq-ok _ value_error hash.1);
        lineage = lineage.1;
        retirement = retirement.1;
        citations = retirement.2;
      }

  -- If the constructor returns a memory, it has the hash of its text, and passes the checks of its fields, its
  -- lineage, its retirement and its citations.
  pub validate-IsValid : (m n : Memory S) → validate m ≡ ok n → IsValid n
  unfolding validate
  validate-IsValid m n h =
      let fields = >>=-eq-ok (check_fields (fill_content_hash m)) _ h in
      let rest = >>=-eq-ok (check_invariants (fill_content_hash m)) _ fields.2 in
      rw (ok-injective rest.2) at (filled-IsValid (fill_content_hash m) fields.1 rest.1)

  traverse-IsValid : (ms ns : List (Memory S)) → traverse validate ms ≡ ok ns → All IsValid ns
  traverse-IsValid [] ns h = rw (sym (ok-injective h)) tt
  traverse-IsValid (m ∷ ms) ns h =
      let first = >>=-eq-ok (validate m) _ h in
      let rest = >>=-eq-ok (traverse validate ms) _ first.2 in
      rw (sym (ok-injective rest.2))
        (validate-IsValid m first.0 first.1, traverse-IsValid ms rest.0 rest.1)

  -- A state that is built anew is valid.
  pub revalidate-StateIsValid : (s t : MemoryState S) → revalidate s ≡ ok t → StateIsValid t
  unfolding revalidate rebuild
  revalidate-StateIsValid s t h =
      let members = >>=-eq-ok (traverse validate s.memories) _ h in
      let edges = >>=-eq-ok (for_each edge_check s.lineage_edges) _ members.2 in
      let checked = >>=-eq-ok (state_check (record s { memories = members.0 })) _ edges.2 in
      let valid : StateIsValid (record s { memories = members.0 }) = record {
        members = traverse-IsValid s.memories members.0 members.1;
        edges = edges.1;
        checked = checked.1;
      } in
      rw (ok-injective checked.2) at valid

  -- What `apply` promises of the state that it returns.
  pub record CarriedOut (d : PolicyDecision S) (t : MemoryState S) : Type 0 where
    pub valid : StateIsValid t
    pub kept : active_memory_ids t ≡ d.kept_memory_ids
    pub cost_after : d.tokens_after ≡ pos (active_tokens t)

  -- If `apply` returns a state, then the state is valid, its active memories are in order those that the
  -- decision keeps, and they cost what the decision says.
  pub apply-CarriedOut :
      (s t : MemoryState S) (d : PolicyDecision S) → apply s d ≡ ok t → CarriedOut d t
  unfolding apply
  apply-CarriedOut s t d h =
      let policy = policy_error (apply_context s d) in
      let owner = >>=-eq-ok (require (d.run_id == s.run_id && d.arm_id == s.arm_id) policy) _ h in
      let by_id =
        >>=-eq-ok
          (retire_loop policy d.cycle (Dict.from_list (λ (m : Memory S). m.memory_id) s.memories [])
            d.retirements)
          _ owner.2 in
      let created =
        >>=-eq-ok
          (for_each (check_created (lineage_error (apply_context s d)) d.retirements)
            d.created_memories)
          _ by_id.2 in
      let retired =
        >>=-eq-ok (revalidate (record s { memories = Dict.values by_id.0 })) _ created.2 in
      let admitted = >>=-eq-ok (admit retired.0 d.created_memories) _ retired.2 in
      let rebuilt =
        >>=-eq-ok
          (revalidate
            (record admitted.0 { lineage_edges = admitted.0.lineage_edges ++ d.lineage_edges }))
          _ admitted.2 in
      let kept =
        >>=-eq-ok (require (active_memory_ids rebuilt.0 == d.kept_memory_ids) policy) _ rebuilt.2 in
      let tokens =
        >>=-eq-ok (require (eq_ℤ (pos (active_tokens rebuilt.0)) d.tokens_after) policy) _ kept.2 in
      let out : CarriedOut d rebuilt.0 = record {
        valid = revalidate-StateIsValid _ rebuilt.0 rebuilt.1;
        kept = (list_eq.eqb_iff _ d.kept_memory_ids).0 (require-eq-ok _ policy kept.1);
        cost_after =
            eq_ℤ-pos (active_tokens rebuilt.0) d.tokens_after (require-eq-ok _ policy tokens.1);
      } in
      rw (ok-injective tokens.2) at out
