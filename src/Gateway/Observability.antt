-- ===== src/Gateway/Observability.antt =====
-- packages/model_gateway/attention_sink/model_gateway/observability.py: the roles of the calls, and the record
-- of one call with what its constructor checks.
use attention_sink.Prelude.{
  ℕ, String, ◌≡◌, ◌↔◌, Bool, true, not, Option, none, some, ◌==◌, string_eq, Eq, nat_beq, arith,
  List, [], ◌∷◌, if◌then◌else◌, refl, ap,
}
use attention_sink.Domain.Errors.{Result, value_error, require}
use attention_sink.Domain.Memory.{is_some}

pub data ModelRole : Type 0 where
  writer auditor summarizer interviewer evaluator embedding token_counter : ModelRole

abbrev pub role_value : ModelRole → String
role_value writer = "writer"
role_value auditor = "auditor"
role_value summarizer = "summarizer"
role_value interviewer = "interviewer"
role_value evaluator = "evaluator"
role_value embedding = "embedding"
role_value token_counter = "token_counter"

abbrev role_index : ModelRole → ℕ
role_index writer = 0
role_index auditor = 1
role_index summarizer = 2
role_index interviewer = 3
role_index evaluator = 4
role_index embedding = 5
role_index token_counter = 6

abbrev pub role_beq : ModelRole → ModelRole → Bool
role_beq a b = nat_beq (role_index a) (role_index b)

pub role_beq_iff : (a b : ModelRole) → (role_beq a b ≡ true) ↔ (a ≡ b)
role_beq_iff a b = ground arith

instance abbrev pub role_eq : Eq ModelRole
role_eq = record { eqb = role_beq; eqb_iff = role_beq_iff }

-- `ModelRole(value)`
abbrev all_roles : List ModelRole
all_roles = writer ∷ auditor ∷ summarizer ∷ interviewer ∷ evaluator ∷ embedding ∷ token_counter ∷ []

abbrev of_value : List ModelRole → String → Option ModelRole
of_value [] text = none
of_value (r ∷ rs) text = if role_value r == text then some r else of_value rs text

of_value-role_value : (a : ModelRole) → of_value all_roles (role_value a) ≡ some a
of_value-role_value writer = refl
of_value-role_value auditor = refl
of_value-role_value summarizer = refl
of_value-role_value interviewer = refl
of_value-role_value evaluator = refl
of_value-role_value embedding = refl
of_value-role_value token_counter = refl

role_value-inj : (a b : ModelRole) → role_value a ≡ role_value b → a ≡ b
role_value-inj a b h = cc (of_value-role_value a, of_value-role_value b, ap (of_value all_roles) h)

-- The texts of two roles agree exactly when the roles do.
pub role_value-eq : (a b : ModelRole) → (role_value a == role_value b) ≡ (a == b)
role_value-eq a b =
    ground
      (arith, string_eq.eqb_iff (role_value a) (role_value b), role_beq_iff a b, role_value-inj a b)

pub data ModelErrorCode : Type 0 where
  validation_error access_denied throttling model_timeout transient_server_error : ModelErrorCode
  unsupported_model malformed_structured_output token_limit_exceeded : ModelErrorCode

pub data CallOutcome : Type 0 where
  success failure : CallOutcome

-- The fields that the program reads back.
pub record CallMetadata : Type 0 where
  pub role : ModelRole
  pub outcome : CallOutcome
  pub retry_count : ℕ
  pub simulated : Bool
  pub input_tokens : Option ℕ
  pub output_tokens : Option ℕ
  pub error_code : Option ModelErrorCode
  pub prompt_hash : Option String

abbrev outcome_agrees : CallOutcome → Option ModelErrorCode → Bool
outcome_agrees failure code = is_some code
outcome_agrees success code = not (is_some code)

-- A call that failed names its error, and only such a call does.
unfoldable pub metadata_check : CallMetadata → Result (Unit {0})
metadata_check m = require (outcome_agrees m.outcome m.error_code) value_error
