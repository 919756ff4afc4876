-- ===== src/Lib.antt =====
-- A model of the experiment: what one arm remembers, the policies that decide what it forgets, the transitions that
-- carry a decision out, the engine that runs a cycle of all arms, what it may spend on models, and the store that keeps
-- the runs. Paths are from the repository's root.
--
-- The parts and how they interact. The engine asks each arm's writer, folds the validated citations and the new memory
-- into the arm's state, and hands it to the arm's policy with a token budget and a narrow context
-- (`MemoryPolicy.rebalance`). The policy ranks the memories that it may retire, chooses victims or plans a summary,
-- and returns a decision, which it never carries out itself. `MemoryState.apply` replays the decision on the state and
-- refuses it if the outcome differs from what it says. Every call of a model is first claimed from the budget of the
-- run. The states and snapshots of a cycle are staged in the store, and committed under the run's lock by a
-- transaction.
--
-- The files, and the code that they model.
--   Domain: packages/domain/attention_sink/domain. Enums is enums.py; Errors is errors.py, with exceptions as values of
--     `Result`; Actions is a method of a mutable object, which may raise; Hashing is hashing.py; Tokens is tokens.py;
--     Identifiers is the version token of identifiers.py; Memory is memory.py, where `validate` is what building
--     a record runs; Citations is citations.py; Decision is decision.py; Explain is explain.py; Cycle is cycle.py;
--     State is state.py, with `mint`, `admit`, `record_cycle_citations` and `apply`; Configuration is configuration.py;
--     Ledger is the evidence of a metric of ledger.py.
--   Policies: packages/policies/attention_sink/policies. Base is base.py; Fifo, Lru, HeavyHitter, PinnedOrigin,
--     Reference, SeededRandom and Summarization are the modules of those names; Registry is registry.py and the
--     protocol of policy.py, with the classes as constructors and their dispatch as `rebalance`.
--   Gateway: Observability is the record of one call, packages/model_gateway/attention_sink/model_gateway/
--     observability.py.
--   Pilot: packages/pilot/attention_sink/pilot. Spending is budget.py, with the limits of protocol.py; Configuration is
--     configuration.py; Snapshots is snapshots.py and canonical.py; Records is the records of repositories.py; Engine
--     is engine.py: its Claims, Citing and Generation are `generate_arm_cycle`, Seeds and Starting are
--     `initialize_pilot_run`, Rebalancing is `rebalance_arm_memory`, Results is
--     `finalize_arm_result`, Cycle is `stage_cycle`, `complete_cycle_in_memory` and `run_cycle`, and Checkpoints is `run_checkpoint`; RunSnapshots is the record
--     of a whole run, of snapshots.py.
--   Persistence: packages/persistence/attention_sink/persistence. Database is the tables of migrations.py, Sql the
--     statements on them and the transaction, and Store the methods of `SqliteRepository` in sqlite.py: Runs, Locks,
--     Checks and Cycles (what a commit checks, and what it writes), Arms, Measurements and Reports.
--   Service: packages/pilot/attention_sink/pilot/service.py, over the engine and the store: `begin_run` is `create_run`,
--     `checkpoint_run` is `run_checkpoint`.
--   Prelude: what the others share: Boolean tests, lists, sets of identifiers, the stable sort, Python's integers,
--     texts and dictionaries.
--   Tests: states, runs and the theorems at concrete inputs.
-- The children of a module hold its theorems and are named for what they are about: Domain/State/Applied that a decision
-- which only retires is carried out, Domain/State/Sound what every transition that returns has checked,
-- Policies/Base/Ready which states a policy may be handed, Policies/Base/Ordered the common body of the order-driven
-- arms, Policies/Registry/Sound, Within and Commits the
-- mechanisms together; Pilot/Spending/Reach sequences of calls of the
-- budget; Pilot/Engine/Cycle/Steady what the calls of a cycle leave alone, Recorded what
-- a staged snapshot tells of the state beside it, and Validated what the staging has checked; Persistence/Commit a commit as one write,
-- and Persistence/History what sequences of operations do to the history of a run.
--
-- Bounds and fuel. Costs and slots are natural numbers, as their records demand; costs that a decision computes are
-- integers, since they may fall below zero before they are checked. `draw_loop` runs on fuel, as many rounds as there
-- are memories to draw, since each round removes one. `compression_rounds` runs on one round more than there are
-- summary calls left, since each round claims one. `str` writes a number in at most one more place than its value.
-- Times are numbers of microseconds.
--
-- What is not modelled. SHA-256 and the generator behind `random.Random` are the parameter `Host`, with the form of
-- a digest and the range of a draw as its laws; floats are the parameter `Float`; the JSON text of a record is the
-- parameter `Dump`; the models, with the prompts, are the parameter `Gateway` of the engine, which may answer
-- differently at each call. The texts of error messages, `schema_version`, the patterns of identifiers, and the fields
-- of the model and of inference are left out: no decision reads them. A tuple of a ranking compares fields of the same
-- type, which `RankField` states in its constructors. A payload of the store is the record itself, since reading back
-- what was written gives it again; its connections, their threads and the loop of its migrations are left out: each
-- method is one whole action, which the transaction sees to. The arms' writers, which the engine runs side by side, run
-- in the configured order. The service's calls run one at a time. Left out are the loading and validation of the
-- experiment protocol, the command line, exports and gates, the ledger's events, the calls of model services, the cloud
-- adapters, the HTTP interface, the analysis and the web application.
pub mod Prelude
pub mod Domain
pub mod Policies
pub mod Gateway
pub mod Pilot
pub mod Persistence
pub mod Service
pub mod Tests
