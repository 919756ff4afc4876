-- ===== src/Pilot/Spending/Granted.antt =====
-- packages/pilot/attention_sink/pilot/budget.py: which claims are granted, and what each leaves for the next.
use attention_sink.Prelude.{
  ℕ, ◌+◌, ◌≤◌, ◌<◌, String, ◌≡◌, refl, Bool, Option, ◌==◌, length, if◌then◌else◌, Bool-cases,
  ==_refl, inl, inr, leb, List, [], ◌∷◌, arith,
}
use attention_sink.Prelude.Counts.{counted-add_count, total_count-add_count}
use attention_sink.Domain.Errors.{Result, ok, raise, budget_exceeded, ◌>>=◌}
use attention_sink.Gateway.Observability.{ModelRole, role_eq}
use attention_sink.Pilot.Spending.{
  ModelCallBudget, open_cycle, allowance_of, remaining, run_total, charge, spend,
}

-- What one claim comes to: a slot of this role is gone and no other, and the run's total is one more; or a refusal,
-- since the cycle or the run has none left.
pub data Claimed (role : ModelRole) (b : ModelCallBudget) (out : Result ModelCallBudget)
    : Type 0 where
  granted :
      0 < remaining b role
      → run_total b < b.limits.max_model_calls_per_run
      → (c : ModelCallBudget) → out ≡ ok c
      → ((r : ModelRole) → remaining c r + (if role == r then 1 else 0) ≡ remaining b r)
      → run_total c ≡ run_total b + 1
      → Claimed role b out
  no_slot : remaining b role ≡ 0 → out ≡ raise budget_exceeded → Claimed role b out
  no_call :
      0 < remaining b role
      → b.limits.max_model_calls_per_run ≤ run_total b
      → out ≡ raise budget_exceeded
      → Claimed role b out

module _ (role : ModelRole) (arm_id : Option String) (b : ModelCallBudget) where
  remaining-charge :
      (r : ModelRole)
      → 0 < remaining b role
      → remaining (charge role arm_id b) r + (if role == r then 1 else 0) ≡ remaining b r
  unfolding remaining charge
  remaining-charge r room =
      ground (arith, role_eq.eqb_iff role r, counted-add_count role r 1 b.cycle_counts)

  run_total-charge : run_total (charge role arm_id b) ≡ run_total b + 1
  unfolding run_total charge
  run_total-charge = omega (arith, total_count-add_count role 1 b.run_counts)

  spend-refused :
      0 < remaining b role
      → b.limits.max_model_calls_per_run ≤ run_total b
      → spend role arm_id b ≡ raise budget_exceeded
  unfolding spend remaining
  spend-refused room full = ground arith

  spend-no_slot : remaining b role ≡ 0 → spend role arm_id b ≡ raise budget_exceeded
  unfolding spend remaining
  spend-no_slot none_left = ground arith

  spend-granted :
      0 < remaining b role
      → run_total b < b.limits.max_model_calls_per_run
      → spend role arm_id b ≡ ok (charge role arm_id b)
  unfolding spend remaining
  spend-granted room below = ground arith

  -- A claim is granted just if the role has a call left in the cycle and the run is below its ceiling;
  -- then the role has one call fewer left, every other role as many as before, and the run one more;
  -- otherwise `ModelCallBudgetExceeded` is raised.
  pub spend-Claimed : Claimed role b (spend role arm_id b)
  spend-Claimed = elim (Bool-cases (leb (remaining b role) 0)) [
    | inl empty ↦ no_slot (ground arith) (spend-no_slot (ground arith))
    | inr room ↦ elim (Bool-cases (leb b.limits.max_model_calls_per_run (run_total b))) [
      | inl full ↦
          no_call (ground arith) (ground arith) (spend-refused (ground arith) (ground arith))
      | inr below ↦
          granted (ground arith) (ground arith) (charge role arm_id b)
            (spend-granted (ground arith) (ground arith)) (λ r. remaining-charge r (ground arith))
            run_total-charge
    ]
  ]

-- A run of claims, each for an arm of its own.
abbrev pub spend_times : ModelRole → List (Option String) → ModelCallBudget → Result ModelCallBudget
spend_times role [] b = ok b
spend_times role (arm_id ∷ arms) b = spend role arm_id b >>= λ c. spend_times role arms c

same_limits-charge :
    (role : ModelRole) (arm_id : Option String) (b : ModelCallBudget)
    → (charge role arm_id b).limits ≡ b.limits
unfolding charge
same_limits-charge role arm_id b = refl

one_slot :
    (role : ModelRole) (arm_id : Option String) (b : ModelCallBudget)
    → 0 < remaining b role
    → remaining (charge role arm_id b) role + 1 ≡ remaining b role
one_slot role arm_id b room = ground (arith, remaining-charge role arm_id b role room, ==_refl role)

-- As many claims as are left are all granted while the run's ceiling has room for them.
spend_times-granted :
    (role : ModelRole) (arms : List (Option String)) (b : ModelCallBudget)
    → length arms ≤ remaining b role
    → run_total b + length arms ≤ b.limits.max_model_calls_per_run
    → (c : ModelCallBudget) × (spend_times role arms b ≡ ok c)
      × (remaining c role + length arms ≡ remaining b role)
spend_times-granted role [] b fits below = (b, refl, omega arith)
spend_times-granted role (arm_id ∷ arms) b fits below =
    let one = one_slot role arm_id b (omega arith) in
    let total = run_total-charge role arm_id b in
    let same = same_limits-charge role arm_id b in
    let (c, done, left) =
      spend_times-granted role arms (charge role arm_id b) (omega arith) (ground arith) in
    (c, rw (spend-granted role arm_id b (omega arith) (omega arith)) done, omega arith)

run_total-open_cycle :
    (cycle : ℕ) (checkpoint : Bool) (b : ModelCallBudget) (arms : List (Option String))
    → run_total b + length arms ≤ b.limits.max_model_calls_per_run
    → run_total (open_cycle cycle checkpoint b) + length arms
      ≤ (open_cycle cycle checkpoint b).limits.max_model_calls_per_run
unfolding run_total open_cycle
run_total-open_cycle cycle checkpoint b arms below = below

remaining-open_cycle :
    (role : ModelRole) (cycle : ℕ) (checkpoint : Bool) (b : ModelCallBudget)
    → remaining (open_cycle cycle checkpoint b) role ≡ allowance_of b.limits checkpoint role
unfolding remaining open_cycle
remaining-open_cycle role cycle checkpoint b = omega arith

-- If the run's ceiling has room for the allowance of a role, then in a newly opened cycle that many
-- claims of the role are all granted, and the next one is refused.
pub open_cycle-grants :
    (role : ModelRole) (cycle : ℕ) (checkpoint : Bool) (b : ModelCallBudget)
    (arms : List (Option String)) (arm_id : Option String)
    → length arms ≡ allowance_of b.limits checkpoint role
    → run_total b + length arms ≤ b.limits.max_model_calls_per_run
    → (c : ModelCallBudget) × (spend_times role arms (open_cycle cycle checkpoint b) ≡ ok c)
      × (spend role arm_id c ≡ raise budget_exceeded)
open_cycle-grants role cycle checkpoint b arms arm_id full below =
    let opened = open_cycle cycle checkpoint b in
    let slots = remaining-open_cycle role cycle checkpoint b in
    let (c, done, left) =
      spend_times-granted role arms opened (omega arith)
        (run_total-open_cycle cycle checkpoint b arms below) in
    (c, done, spend-no_slot role arm_id c (omega arith))
