-- ===== src/Pilot/Spending/Reach.antt =====
-- packages/pilot/attention_sink/pilot/budget.py: what every sequence of whole calls keeps, and the ceiling of a run
-- over several processes.
use attention_sink.Prelude.{
  ℕ, ◌+◌, ◌≤◌, ◌<◌, String, ◌≡◌, refl, Bool, Option, List, [], ◌∷◌, ◌++◌, length, filter,
  filter-append, length-append, ◌==◌, string_eq, if◌then◌else◌, arith,
}
use attention_sink.Prelude.Counts.{counted, total_count, counted-add_count, total_count-add_count}
use attention_sink.Domain.Errors.{ok}
use attention_sink.Domain.Memory.{is_some}
use attention_sink.Gateway.Observability.{
  ModelRole, role_value, role_eq, role_value-eq, CallMetadata,
}
use attention_sink.Pilot.Spending.{
  ModelCallLimits, CallLedgerEntry, ModelUsage, cycle_calls, ModelCallBudget, fresh_budget,
  open_cycle, allowance, run_total, charge, spend, record_call, usage_of, merge_usage,
}

-- One whole call of a method that returns.
pub data Step (b : ModelCallBudget) : ModelCallBudget → Type 0 where
  opened : (cycle : ℕ) (checkpoint : Bool) → Step b (open_cycle cycle checkpoint b)
  spent :
      (role : ModelRole) (arm_id : Option String) {c : ModelCallBudget}
      → spend role arm_id b ≡ ok c
      → Step b c
  recorded : (metadata : CallMetadata) → Step b (record_call metadata b)

pub data Reach (b : ModelCallBudget) : ModelCallBudget → Type 0 where
  here : Reach b b
  next : {c d : ModelCallBudget} → Reach b c → Step c d → Reach b d

-- The calls of a role in a ledger.
abbrev pub calls_of : ModelRole → List CallLedgerEntry → ℕ
calls_of role ledger = length (filter (λ entry. entry.operation == role_value role) ledger)

-- The tallies agree with the ledger, no role is over its allowance in the cycle, and the run is not over its ceiling.
pub record WithinLimits (limits : ModelCallLimits) (previous : ℕ) (b : ModelCallBudget)
    : Type 0 where
  pub same_limits : b.limits ≡ limits
  pub same_previous : b.previously_spent ≡ previous
  pub accounted : length b.ledger ≡ total_count b.run_counts
  pub by_role : (role : ModelRole) → calls_of role b.ledger ≡ counted b.run_counts role
  pub in_cycle : (role : ModelRole) → counted b.cycle_counts role ≤ allowance b role
  pub in_run : 0 < length b.ledger → previous + length b.ledger ≤ limits.max_model_calls_per_run

module _ {limits : ModelCallLimits} {previous : ℕ} {b : ModelCallBudget}
    (w : WithinLimits limits previous b) where
  open_cycle-WithinLimits :
      (cycle : ℕ) (checkpoint : Bool) → WithinLimits limits previous (open_cycle cycle checkpoint b)
  unfolding open_cycle
  open_cycle-WithinLimits cycle checkpoint = record {
    same_limits = w.same_limits;
    same_previous = w.same_previous;
    accounted = w.accounted;
    by_role = w.by_role;
    in_cycle = λ role. omega arith;
    in_run = w.in_run;
  }

  record_call-WithinLimits :
      (metadata : CallMetadata) → WithinLimits limits previous (record_call metadata b)
  unfolding record_call
  record_call-WithinLimits metadata = record {
    same_limits = w.same_limits;
    same_previous = w.same_previous;
    accounted = w.accounted;
    by_role = w.by_role;
    in_cycle = w.in_cycle;
    in_run = w.in_run;
  }

-- What a granted call had to pass.
pub spend-eq-ok :
    (role : ModelRole) (arm_id : Option String) (b : ModelCallBudget) {c : ModelCallBudget}
    → spend role arm_id b ≡ ok c
    → (c ≡ charge role arm_id b)
      × (counted b.cycle_counts role < allowance b role)
      × (run_total b < b.limits.max_model_calls_per_run)
unfolding spend
spend-eq-ok role arm_id b h = ground arith

length-snoc {ℓ} : {A : Type ℓ} (xs : List A) (x : A) → length (xs ++ x ∷ []) ≡ length xs + 1
length-snoc xs x = omega (arith, length-append xs (x ∷ []))

-- One more call of a role.
calls_of-charge :
    (role r : ModelRole) (arm_id : Option String) (b : ModelCallBudget)
    → calls_of r (charge role arm_id b).ledger ≡ calls_of r b.ledger + (if role == r then 1 else 0)
unfolding charge
calls_of-charge role r arm_id b =
    rw (filter-append, length-append {0}, role_value-eq) (ground arith)

charge-WithinLimits :
    {limits : ModelCallLimits} {previous : ℕ} {b : ModelCallBudget} (role : ModelRole)
    (arm_id : Option String)
    → WithinLimits limits previous b
    → counted b.cycle_counts role < allowance b role
    → run_total b < b.limits.max_model_calls_per_run
    → WithinLimits limits previous (charge role arm_id b)
unfolding charge run_total
charge-WithinLimits {limits} {previous} {b} role arm_id w room ceiling = record {
  same_limits = w.same_limits;
  same_previous = w.same_previous;
  accounted =
      omega (arith, length-snoc {0}, total_count-add_count role 1 b.run_counts, w.accounted);
  by_role = λ r. ground (
    arith,
    calls_of-charge role r arm_id b,
    counted-add_count role r 1 b.run_counts,
    w.by_role r,
  );
  in_cycle = λ r.
      ground
        (arith, role_eq.eqb_iff role r, counted-add_count role r 1 b.cycle_counts, w.in_cycle r);
  in_run = λ some_call. ground (
    arith,
    length-append b.ledger (
        record {
          run_id = b.run_id;
          cycle = b.cycle;
          arm_id = arm_id;
          operation = role_value role;
          checkpoint = b.checkpoint;
        }
        ∷ []),
    w.same_limits,
    w.same_previous,
    w.accounted,
  );
}

fresh_budget-WithinLimits :
    (limits : ModelCallLimits) (run_id : String) (previous : ℕ)
    → WithinLimits limits previous (fresh_budget limits run_id previous)
unfolding fresh_budget
fresh_budget-WithinLimits limits run_id previous = record {
  same_limits = refl;
  same_previous = refl;
  accounted = refl;
  by_role = λ role. refl;
  in_cycle = λ role. omega arith;
  in_run = λ some_call. omega arith;
}

Step-WithinLimits :
    {limits : ModelCallLimits} {previous : ℕ} {b c : ModelCallBudget}
    → Step b c
    → WithinLimits limits previous b
    → WithinLimits limits previous c
Step-WithinLimits (opened cycle checkpoint) w = open_cycle-WithinLimits w cycle checkpoint
Step-WithinLimits (recorded metadata) w = record_call-WithinLimits w metadata
Step-WithinLimits (spent role arm_id {c} h) w =
    let (same, room, ceiling) = spend-eq-ok role arm_id _ h in
    rw same (charge-WithinLimits role arm_id w room ceiling)

Reach-WithinLimits :
    {limits : ModelCallLimits} {previous : ℕ} {b c : ModelCallBudget}
    → Reach b c
    → WithinLimits limits previous b
    → WithinLimits limits previous c
Reach-WithinLimits here w = w
Reach-WithinLimits (next r s) w = Step-WithinLimits s (Reach-WithinLimits r w)

-- After any sequence of calls of `open_cycle`, `spend` and `record` that return, on a new budget, the
-- ledger has as many entries as were counted, of each role as well, no role is over its allowance in
-- the open cycle, and, once a call was granted, what was spent before and the ledger together are
-- within the ceiling of the run.
pub fresh-WithinLimits :
    (limits : ModelCallLimits) (run_id : String) (previous : ℕ) (b : ModelCallBudget)
    → Reach (fresh_budget limits run_id previous) b
    → WithinLimits limits previous b
fresh-WithinLimits limits run_id previous b r =
    Reach-WithinLimits r (fresh_budget-WithinLimits limits run_id previous)

length-filter-le {ℓ} : {A : Type ℓ} (p : A → Bool) (xs : List A) → length (filter p xs) ≤ length xs
length-filter-le p [] = omega arith
length-filter-le p (x ∷ xs) = ground (arith, length-filter-le p xs)

-- The calls charged to arms add up.
cycle_calls-merge_usage :
    (previous addition : ModelUsage)
    → cycle_calls (merge_usage previous addition) ≡ cycle_calls previous + cycle_calls addition
unfolding cycle_calls merge_usage
cycle_calls-merge_usage previous addition = rw (filter-append, length-append {0}) refl

-- If the calls that a stored usage charges to arms are within the run's ceiling, then after any
-- sequence of calls on a budget that starts at that number, the merged usage still charges no more
-- calls to arms than the ceiling.
pub run-ceiling :
    (limits : ModelCallLimits) (run_id : String) (stored : ModelUsage) (b : ModelCallBudget)
    → cycle_calls stored ≤ limits.max_model_calls_per_run
    → Reach (fresh_budget limits run_id (cycle_calls stored)) b
    → cycle_calls (merge_usage stored (usage_of b)) ≤ limits.max_model_calls_per_run
unfolding cycle_calls usage_of
run-ceiling limits run_id stored b h r =
    let w = fresh-WithinLimits limits run_id (cycle_calls stored) b r in
    let bound = w.in_run in
    let fewer = length-filter-le (λ (entry : CallLedgerEntry). is_some entry.arm_id) b.ledger in
    ground (arith, cycle_calls-merge_usage stored (usage_of b))
