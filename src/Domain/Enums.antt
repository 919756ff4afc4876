-- ===== src/Domain/Enums.antt =====
-- packages/domain/attention_sink/domain/enums.py: the closed vocabularies. `value` is the text that is
-- stored; the order of the constructors is the order of the declarations.
use attention_sink.Prelude.{
  ℕ, String, ◌≡◌, ◌↔◌, Bool, true, false, List, [], ◌∷◌, arith, Eq, nat_beq,
}

pub data ArmId : Type 0 where
  arm_fifo arm_lru arm_heavy arm_sink arm_random arm_summary arm_full arm_stateless : ArmId

abbrev pub arm_value : ArmId → String
arm_value arm_fifo = "arm_fifo"
arm_value arm_lru = "arm_lru"
arm_value arm_heavy = "arm_heavy"
arm_value arm_sink = "arm_sink"
arm_value arm_random = "arm_random"
arm_value arm_summary = "arm_summary"
arm_value arm_full = "arm_full"
arm_value arm_stateless = "arm_stateless"

abbrev pub canonical_arms : List ArmId
canonical_arms = arm_fifo ∷ arm_lru ∷ arm_heavy ∷ arm_sink ∷ arm_random ∷ arm_summary ∷ []

abbrev pub reference_arms : List ArmId
reference_arms = arm_full ∷ arm_stateless ∷ []

pub data MemoryKind : Type 0 where
  seed generated summary external : MemoryKind

pub data MemoryStatus : Type 0 where
  active evicted compressed superseded : MemoryStatus

-- `status in RETIRED_STATUSES`
abbrev pub is_retired_status : MemoryStatus → Bool
is_retired_status active = false
is_retired_status evicted = true
is_retired_status compressed = true
is_retired_status superseded = true

pub data LineageRelation : Type 0 where
  compressed_into superseded_by : LineageRelation

pub data CitationSource : Type 0 where
  writer interview evaluation : CitationSource

pub data PolicyDecisionCode : Type 0 where
  no_action_within_budget evicted_oldest evicted_least_recently_cited : PolicyDecisionCode
  evicted_lowest_retention_density heavy_hitter_reserve_broken : PolicyDecisionCode
  evicted_outside_window evicted_random evicted_stateless retained_all : PolicyDecisionCode
  compression_planned compression_committed summary_fallback_fifo : PolicyDecisionCode

pub data CycleStatus : Type 0 where
  pending running committed failed : CycleStatus

-- The equality of each vocabulary, by the place of its constructors.
abbrev arm_index : ArmId → ℕ
arm_index arm_fifo = 0
arm_index arm_lru = 1
arm_index arm_heavy = 2
arm_index arm_sink = 3
arm_index arm_random = 4
arm_index arm_summary = 5
arm_index arm_full = 6
arm_index arm_stateless = 7

abbrev pub arm_beq : ArmId → ArmId → Bool
arm_beq a b = nat_beq (arm_index a) (arm_index b)

pub arm_beq_iff : (a b : ArmId) → (arm_beq a b ≡ true) ↔ (a ≡ b)
arm_beq_iff a b = ground arith

instance abbrev pub arm_eq : Eq ArmId
arm_eq = record { eqb = arm_beq; eqb_iff = arm_beq_iff }

abbrev kind_index : MemoryKind → ℕ
kind_index seed = 0
kind_index generated = 1
kind_index summary = 2
kind_index external = 3

abbrev pub kind_beq : MemoryKind → MemoryKind → Bool
kind_beq a b = nat_beq (kind_index a) (kind_index b)

pub kind_beq_iff : (a b : MemoryKind) → (kind_beq a b ≡ true) ↔ (a ≡ b)
kind_beq_iff a b = ground arith

instance abbrev pub kind_eq : Eq MemoryKind
kind_eq = record { eqb = kind_beq; eqb_iff = kind_beq_iff }

abbrev status_index : MemoryStatus → ℕ
status_index active = 0
status_index evicted = 1
status_index compressed = 2
status_index superseded = 3

abbrev pub status_beq : MemoryStatus → MemoryStatus → Bool
status_beq a b = nat_beq (status_index a) (status_index b)

pub status_beq_iff : (a b : MemoryStatus) → (status_beq a b ≡ true) ↔ (a ≡ b)
status_beq_iff a b = ground arith

instance abbrev pub status_eq : Eq MemoryStatus
status_eq = record { eqb = status_beq; eqb_iff = status_beq_iff }
