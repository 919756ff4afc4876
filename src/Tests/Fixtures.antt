-- ===== src/Tests/Fixtures.antt =====
-- A host, floats and states for the tests: a constant digest, a generator that always draws the first
-- candidate, and whole numbers for floats.
use Prim.Native.Nat.{compare}
use attention_sink.Prelude.{ℕ, ◌+◌, ◌*◌, ◌/◌, ◌<◌, ◌≡◌, refl, String, false, true, none, [], ◌∷◌}
use attention_sink.Prelude.Text.{str, is_hex_digest}
use attention_sink.Domain.Enums.{ArmId, generated, active}
use attention_sink.Domain.Runtime.{Host, Float}
use attention_sink.Domain.Hashing.{content_hash}
use attention_sink.Domain.Memory.{Memory, make_memory_id}
use attention_sink.Domain.Tokens.{TokenBudget}
use attention_sink.Domain.Cycle.{CycleContext}
use attention_sink.Domain.State.{MemoryState}

abbrev pub zeros : String
zeros = "0000000000000000000000000000000000000000000000000000000000000000"

pub zeros-hex : (text : String) → is_hex_digest zeros ≡ true
unfolding is_hex_digest
zeros-hex text = refl

pub first-lt : (digest : String) (n : ℕ) → 0 < n → 0 < n
first-lt digest n h = h

instance abbrev pub host : Host
host = record {
  sha256_hexdigest = λ text. zeros;
  randrange = λ digest n. 0;
  sha256-hex = zeros-hex;
  randrange-lt = first-lt;
}

instance abbrev pub whole : Float ℕ
whole = record { of_int = λ n. n; add = ◌+◌; mul = ◌*◌; div = ◌/◌; compare = compare; repr = str }

-- The memory of slot `n`, born in `cycle`.
abbrev pub memory : ArmId → ℕ → ℕ → ℕ → Memory ℕ
memory arm n cycle tokens = record {
  memory_id = make_memory_id arm n;
  run_id = "run-1";
  arm_id = arm;
  text = "a memory";
  token_count = tokens;
  memory_kind = generated;
  status = active;
  birth_cycle = cycle;
  retirement_cycle = none;
  citation_count = 0;
  discounted_citation_score = 0;
  last_verified_citation_cycle = none;
  pinned = false;
  source_stimulus_id = none;
  parent_memory_ids = [];
  content_hash = content_hash "a memory";
  creation_sequence = n;
}

-- Three memories of 40, 30 and 20 tokens, the last born in cycle 2.
abbrev pub three : ArmId → MemoryState ℕ
three arm = record {
  run_id = "run-1";
  arm_id = arm;
  memories = memory arm 0 0 40 ∷ memory arm 1 1 30 ∷ memory arm 2 2 20 ∷ [];
  lineage_edges = [];
  next_creation_sequence = 3;
}

abbrev pub budget : ℕ → TokenBudget
budget n = record { max_active_tokens = n; counter_version = "heuristic-v1" }

abbrev pub context : ArmId → ℕ → CycleContext
context arm cycle = record {
  run_id = "run-1";
  arm_id = arm;
  cycle = cycle;
  stimulus_id = "s";
  protocol_version = "p1";
  prompt_version = "p1";
  run_random_seed = "seed-0001";
}
