-- ===== src/Pilot/Engine/Claims.antt =====
-- packages/pilot/attention_sink/pilot/engine.py: which of a writer's citations count.
use attention_sink.Prelude.{
  ◌+◌, String, ◌≡◌, refl, sym, Bool, true, false, not, ◌&&◌, ◌||◌, Option, none, some, List, [],
  ◌∷◌, string_eq, ◌==◌, contains, distinct, All, arith, Bool-cases, inl, inr, ap, ℕ, if◌then◌else◌,
  map,
}
use mathlib.Core.Path.{subst}
use attention_sink.Prelude.Ids.Laws.{==_sym}
use attention_sink.Domain.Memory.{Memory, is_active}
use attention_sink.Domain.State.{MemoryState, get}
use attention_sink.Pilot.Snapshots.{RejectedClaim, duplicate, not_active, RejectionReason}

-- `memory is not None and memory.is_active`
abbrev pub counts : {S : Type 0} → Option (Memory S) → Bool
counts none = false
counts (some m) = is_active m

-- How often a list names a memory.
abbrev pub occurrences : String → List String → ℕ
occurrences k [] = 0
occurrences k (id ∷ ids) = (if id == k then 1 else 0) + occurrences k ids

-- The memories of the rejected claims.
abbrev pub rejected_ids : List RejectedClaim → List String
rejected_ids = map λ r. r.memory_id

module _ {S : Type 0} (state : MemoryState S) where
  -- The loop of `validate_claims`, with the identifiers that it has seen: what it accepts and what it rejects.
  unfoldable pub claims_loop : List String → List String → List String × List RejectedClaim
  claims_loop seen [] = ([], [])
  claims_loop seen (memory_id ∷ rest) = elim (counts (get state memory_id)) [
    | false ↦
        let (accepted, rejected) = claims_loop seen rest in
        (accepted, record { memory_id = memory_id; reason = not_active } ∷ rejected)
    | true ↦ elim (contains seen memory_id) [
      | true ↦
          let (accepted, rejected) = claims_loop seen rest in
          (accepted, record { memory_id = memory_id; reason = duplicate } ∷ rejected)
      | false ↦
          let (accepted, rejected) = claims_loop (memory_id ∷ seen) rest in
          (memory_id ∷ accepted, rejected)
    ]
  ]

  unfoldable pub validate_claims : List String → List String × List RejectedClaim
  unfolding claims_loop
  validate_claims = claims_loop []

  -- A claim on a memory that is active is rejected only as a duplicate, and any other as not active.
  abbrev pub IsExplained : RejectedClaim → Type 0
  IsExplained r = r.reason ≡ (if counts (get state r.memory_id) then duplicate else not_active)

  -- What is accepted is active and new, and every claim is accepted or recorded as rejected, with its own memory and
  -- its reason.
  pub record Split (seen cited : List String) (out : List String × List RejectedClaim)
      : Type 0 where
    pub once : distinct out.0 ≡ true
    pub active : All (λ memory_id. counts (get state memory_id) ≡ true) out.0
    pub unseen : All (λ memory_id. contains seen memory_id ≡ false) out.0
    pub counted :
        (k : String)
        → occurrences k out.0 + occurrences k (rejected_ids out.1) ≡ occurrences k cited
    pub explained : All IsExplained out.1
    pub complete :
        (memory_id : String)
        → contains cited memory_id ≡ true
        → counts (get state memory_id) ≡ true
        → (contains out.0 memory_id || contains seen memory_id) ≡ true

  -- A claim is rejected: its memory is not active, or was seen.
  rejected-Split :
      (seen rest : List String) (memory_id : String) (reason : RejectionReason)
      (out : List String × List RejectedClaim)
      → (counts (get state memory_id) && not (contains seen memory_id)) ≡ false
      → IsExplained (record { memory_id = memory_id; reason = reason })
      → Split seen rest out
      → Split seen
          (memory_id ∷ rest)
          (out.0, record { memory_id = memory_id; reason = reason } ∷ out.1)
  rejected-Split seen rest memory_id reason out why because s = record {
    once = s.once;
    active = s.active;
    unseen = s.unseen;
    counted = λ k. omega (arith, s.counted k);
    explained = (because, s.explained);
    complete = λ id cited live. elim (Bool-cases (memory_id == id)) [
      | inl same ↦
          let e = (string_eq.eqb_iff memory_id id).0 same in
          rw (← e) (ground (arith, subst (λ k. counts (get state k) ≡ true) (sym e) live))
      | inr other ↦ s.complete id (ground arith) live
    ];
  }

  new_first :
      (memory_id : String) (seen accepted : List String)
      → All (λ id. contains (memory_id ∷ seen) id ≡ false) accepted
      → contains accepted memory_id ≡ false
  new_first memory_id seen [] h = refl
  new_first memory_id seen (id ∷ accepted) h =
      ground (arith, ==_sym memory_id id, new_first memory_id seen accepted h.1)

  still_unseen :
      (memory_id : String) (seen accepted : List String)
      → All (λ id. contains (memory_id ∷ seen) id ≡ false) accepted
      → All (λ id. contains seen id ≡ false) accepted
  still_unseen memory_id seen [] h = tt
  still_unseen memory_id seen (id ∷ accepted) h =
      (ground arith, still_unseen memory_id seen accepted h.1)

  -- A claim is accepted, and is seen from then on.
  accepted-Split :
      (seen rest : List String) (memory_id : String) (out : List String × List RejectedClaim)
      → counts (get state memory_id) ≡ true
      → contains seen memory_id ≡ false
      → Split (memory_id ∷ seen) rest out
      → Split seen (memory_id ∷ rest) (memory_id ∷ out.0, out.1)
  accepted-Split seen rest memory_id out live fresh s = record {
    once = ground (arith, s.once, new_first memory_id seen out.0 s.unseen);
    active = (live, s.active);
    unseen = (fresh, still_unseen memory_id seen out.0 s.unseen);
    counted = λ k. omega (arith, s.counted k);
    explained = s.explained;
    complete = λ id cited lives. elim (Bool-cases (memory_id == id)) [
      | inl same ↦ ground arith
      | inr other ↦ ground (arith, s.complete id (ground arith) lives)
    ];
  }

  claims_loop-Split : (seen cited : List String) → Split seen cited (claims_loop seen cited)
  unfolding claims_loop
  claims_loop-Split seen [] = record {
    once = refl;
    active = tt;
    unseen = tt;
    counted = λ k. refl;
    explained = tt;
    complete = λ memory_id h. cc;
  }
  claims_loop-Split seen (memory_id ∷ rest) = elim (Bool-cases (counts (get state memory_id))) [
    | inr stale ↦
        rw (stale, claims_loop)
          (rejected-Split seen rest memory_id not_active _ (ground arith)
            (ap (λ b. if b then duplicate else not_active) (sym stale))
            (claims_loop-Split seen rest))
    | inl live ↦ elim (Bool-cases (contains seen memory_id)) [
      | inl again ↦
          rw (live, again, claims_loop)
            (rejected-Split seen rest memory_id duplicate _ (ground arith)
              (ap (λ b. if b then duplicate else not_active) (sym live))
              (claims_loop-Split seen rest))
      | inr fresh ↦
          rw (live, fresh, claims_loop)
            (accepted-Split seen rest memory_id _ live fresh
              (claims_loop-Split (memory_id ∷ seen) rest))
    ]
  ]

  -- Of a writer's claims, `validate_claims` accepts each memory at most once and only while it is
  -- active, leaves out no active memory that is claimed, and records each claim that it does not accept,
  -- with its own memory and the reason: accepted and recorded together, each memory stands as often as
  -- it is claimed, and what is recorded is a duplicate if its memory is active, and not active
  -- otherwise.
  pub validate_claims-Split : (cited : List String) → Split [] cited (validate_claims cited)
  unfolding validate_claims
  validate_claims-Split cited = claims_loop-Split [] cited
