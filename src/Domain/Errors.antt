-- ===== src/Domain/Errors.antt =====
-- packages/domain/attention_sink/domain/errors.py, and exceptions as values. The message texts are not
-- modelled: an error is its class and the context that it carries. `value_error` is also what a failed
-- validation of a record raises; `key_error` is a missing key of
-- a mapping, `index_error` an index past the end. The classes of the pilot and of its store follow:
-- `budget_exceeded` is ModelCallBudgetExceeded, `sequence_error` CycleSequenceError, `invocation_error`
-- ModelInvocationError, `prepared_conflict` PreparedCycleConflict, and `integrity_error` is what sqlite3 raises on a
-- broken constraint. `unfinished` is no exception of the code: a loop of the model was given too few rounds.
use attention_sink.Prelude.{ℕ, String, ◌≡◌, refl, Bool, true, false, Option, List, [], ◌∷◌}

pub record ErrorContext : Type 0 where
  pub run_id : Option String
  pub arm_id : Option String
  pub cycle : Option ℕ
  pub policy_version : Option String

pub data Error : Type 0 where
  unsatisfiable_budget policy_error lineage_error state_error : ErrorContext → Error
  value_error key_error index_error : Error
  budget_exceeded sequence_error not_implemented type_error invocation_error : Error
  persistence_error concurrent_run_update lock_not_held prepared_conflict : Error
  integrity_error run_not_found run_paused service_error : Error
  unfinished : Error

pub data Result {ℓ} (A : Type ℓ) : Type ℓ where
  ok : A → Result A
  raise : Error → Result A

infixl 5 ◌>>=◌ ◌>>◌
abbrev pub ◌>>=◌ {ℓ κ} : {A : Type ℓ} {B : Type κ} → Result A → (A → Result B) → Result B
raise error >>= rest = raise error
ok value >>= rest = rest value

abbrev pub ◌>>◌ {κ} : {B : Type κ} → Result (Unit {0}) → Result B → Result B
first >> second = first >>= λ done. second

-- `if not test: raise e`
abbrev pub require : Bool → Error → Result (Unit {0})
require true e = ok tt
require false e = raise e

-- A loop that checks each element.
abbrev pub for_each {ℓ} : {A : Type ℓ} → (A → Result (Unit {0})) → List A → Result (Unit {0})
for_each f [] = ok tt
for_each f (x ∷ xs) = f x >> for_each f xs

-- A comprehension whose elements may raise.
abbrev pub traverse {ℓ κ} : {A : Type ℓ} {B : Type κ} → (A → Result B) → List A → Result (List B)
traverse f [] = ok []
traverse f (x ∷ xs) = f x >>= λ y. traverse f xs >>= λ ys. ok (y ∷ ys)

-- The value of a chain that did not raise, taken apart at its first step.
pub >>=-eq-ok {ℓ κ} :
    {A : Type ℓ} {B : Type κ} {out : B} (first : Result A) (rest : A → Result B)
    → (first >>= rest) ≡ ok out
    → (value : A) × (first ≡ ok value) × (rest value ≡ ok out)
>>=-eq-ok (raise error) rest h = cc
>>=-eq-ok (ok value) rest h = (value, refl, h)

pub require-eq-ok : (b : Bool) (e : Error) {u : Unit {0}} → require b e ≡ ok u → b ≡ true
require-eq-ok true e h = refl
require-eq-ok false e h = cc
