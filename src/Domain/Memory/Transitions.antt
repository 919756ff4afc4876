-- ===== src/Domain/Memory/Transitions.antt =====
-- What `retire` and `with_citation_cycle` of memory.py make of a valid memory.
use attention_sink.Prelude.{
  ℕ, ◌≤◌, ◌≡◌, ap, sym, ◌!=◌, true, false, ◌&&◌, some, arith, ◌==◌, string_eq, ==_refl, Bool-cases,
  inl, inr,
}
use attention_sink.Domain.Enums.{MemoryStatus, status_eq, is_retired_status}
use attention_sink.Domain.Errors.{ok}
use attention_sink.Domain.Runtime.{Host, Float}
use attention_sink.Domain.Hashing.{content_hash}
use attention_sink.Domain.Memory.{
  Memory, check_lineage, check_retirement, check_citations, check_fields, check_invariants,
  fill_content_hash, validate, retire,
}

abbrev pub retired : {S : Type 0} → MemoryStatus → ℕ → Memory S → Memory S
retired status cycle m = record m { status = status; retirement_cycle = some cycle }

module _ {S : Type 0} ⦃host : Host⦄ ⦃float : Float S⦄ where
  -- What the constructor guarantees of a memory.
  pub record IsValid (m : Memory S) : Type 0 where
    pub fields : check_fields m ≡ ok tt
    pub hash : m.content_hash ≡ content_hash m.text
    pub lineage : check_lineage m ≡ ok tt
    pub retirement : check_retirement m ≡ ok tt
    pub citations : check_citations m ≡ ok tt

  fill_content_hash-eq :
      (m : Memory S) → m.content_hash ≡ content_hash m.text → fill_content_hash m ≡ m
  unfolding fill_content_hash
  fill_content_hash-eq m e = elim (Bool-cases (m.content_hash == "" && m.text != "")) [
    | inl t ↦ rw t (ap (λ h. record m { content_hash = h }) (sym e))
    | inr f ↦ rw f
  ]

  pub validate_of_IsValid : (m : Memory S) → IsValid m → validate m ≡ ok m
  unfolding validate check_invariants
  validate_of_IsValid m v =
      rw (fill_content_hash-eq m v.hash, v.fields, v.lineage, v.retirement, v.citations)
        (rw (v.hash, ==_refl (content_hash m.text)))

  pub retired-IsValid :
      (m : Memory S) (status : MemoryStatus) (cycle : ℕ)
      → IsValid m
      → m.pinned ≡ false
      → m.birth_cycle ≤ cycle
      → is_retired_status status ≡ true
      → IsValid (retired status cycle m)
  unfolding check_fields check_lineage check_retirement check_citations
  retired-IsValid m status cycle v pin born ret = record {
    fields = v.fields;
    hash = v.hash;
    lineage = v.lineage;
    retirement = rw (ret, pin) (ground arith);
    citations = v.citations;
  }

  -- A valid memory that is not pinned, and was born no later than the cycle, can be retired into every retired status,
  -- and only its status and retirement cycle change.
  pub retire-eq-ok :
      (m : Memory S) (status : MemoryStatus) (cycle : ℕ)
      → IsValid m
      → m.pinned ≡ false
      → m.birth_cycle ≤ cycle
      → is_retired_status status ≡ true
      → retire status cycle m ≡ ok (retired status cycle m)
  unfolding retire
  retire-eq-ok m status cycle v pin born ret =
      rw ret (validate_of_IsValid _ (retired-IsValid m status cycle v pin born ret))
