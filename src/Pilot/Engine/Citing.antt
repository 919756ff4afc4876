-- ===== src/Pilot/Engine/Citing.antt =====
-- packages/pilot/attention_sink/pilot/engine.py: a writer's claims as records, and the citations that a mechanism reads.
use attention_sink.Prelude.{ℕ, suc, String, Option, none, some, List, [], ◌∷◌}
use attention_sink.Prelude.Dict.{Dict, lookup, insert}
use attention_sink.Domain.Enums.{ArmId, writer}
use attention_sink.Domain.Errors.{
  Result, ok, raise, key_error, value_error, not_implemented, ◌>>=◌, ◌>>◌, traverse,
}
use attention_sink.Domain.Citations.{CitationClaim, VerifiedCitation, citation_check}
use attention_sink.Pilot.Configuration.{CitationMode, claimed_validated, audited}

-- The `zip` with `strict=True`, from an index on.
unfoldable pub claims_from :
    String → ArmId → ℕ → ℕ → List String → List String → Result (List CitationClaim)
claims_from run_id arm_id cycle index [] [] = ok []
claims_from run_id arm_id cycle index (memory_id ∷ memory_ids) (span ∷ spans) =
    claims_from run_id arm_id cycle (suc index) memory_ids spans >>= λ claims. ok (
      record {
        run_id = run_id;
        arm_id = arm_id;
        cycle = cycle;
        memory_id = memory_id;
        claim_index = index;
        quoted_span = some span;
      }
      ∷ claims)
claims_from run_id arm_id cycle index memory_ids spans = raise value_error

-- `claim.quoted_span or ""`
abbrev span_or_empty : Option String → String
span_or_empty none = ""
span_or_empty (some span) = span

-- `{claim.memory_id: claim.quoted_span or "" for claim in claims}`
abbrev pub spans_of : List CitationClaim → Dict String → Dict String
spans_of [] spans = spans
spans_of (claim ∷ claims) spans =
    spans_of claims (insert claim.memory_id (span_or_empty claim.quoted_span) spans)

abbrev pub or_no_span : Option String → Result String
or_no_span none = raise key_error
or_no_span (some span) = ok span

-- CLAIMED_VALIDATOR_VERSION of snapshots.py
abbrev claimed_validator_version : String
claimed_validator_version = "claimed.validated-v1"

-- One citation of `_citations`, which its constructor checks.
abbrev cite : String → ArmId → ℕ → Dict String → String → Result VerifiedCitation
cite run_id arm_id cycle spans memory_id = do
  evidence ← or_no_span (lookup memory_id spans)
  let citation : VerifiedCitation = record {
    run_id = run_id;
    arm_id = arm_id;
    cycle = cycle;
    memory_id = memory_id;
    source = writer;
    auditor_version = claimed_validator_version;
    evidence = evidence;
  }
  citation_check citation
  ok citation

-- `_citations`
unfoldable pub citations_of :
    CitationMode → String → ArmId → ℕ → List String → Dict String → Result (List VerifiedCitation)
citations_of audited run_id arm_id cycle accepted spans = raise not_implemented
citations_of claimed_validated run_id arm_id cycle accepted spans =
    traverse (cite run_id arm_id cycle spans) accepted
