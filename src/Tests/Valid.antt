-- ===== src/Tests/Valid.antt =====
-- The states of the fixtures are ready for every mechanism.
use attention_sink.Prelude.{refl, arith}
use attention_sink.Domain.Enums.{arm_fifo}
use attention_sink.Domain.Memory.{
  make_memory_id, check_fields, check_lineage, check_retirement, check_citations,
}
use attention_sink.Domain.Memory.Transitions.{IsValid}
use attention_sink.Domain.Hashing.{content_hash}
use attention_sink.Domain.State.{state_check, check_identity}
use attention_sink.Domain.State.Applied.{StateIsValid}
use attention_sink.Policies.Base.Ready.{IsReady}
use attention_sink.Tests.Fixtures.{host, whole, memory, three, budget, context}

pub first-IsValid : IsValid (memory arm_fifo 0 0 40)
unfolding check_fields check_lineage check_retirement check_citations content_hash make_memory_id
first-IsValid = record {
  fields = refl;
  hash = refl;
  lineage = refl;
  retirement = refl;
  citations = refl;
}

second-IsValid : IsValid (memory arm_fifo 1 1 30)
unfolding check_fields check_lineage check_retirement check_citations content_hash make_memory_id
second-IsValid = record {
  fields = refl;
  hash = refl;
  lineage = refl;
  retirement = refl;
  citations = refl;
}

third-IsValid : IsValid (memory arm_fifo 2 2 20)
unfolding check_fields check_lineage check_retirement check_citations content_hash make_memory_id
third-IsValid = record {
  fields = refl;
  hash = refl;
  lineage = refl;
  retirement = refl;
  citations = refl;
}

pub three-StateIsValid : StateIsValid (three arm_fifo)
unfolding state_check check_identity make_memory_id
three-StateIsValid = record {
  members = (first-IsValid, (second-IsValid, (third-IsValid, tt)));
  edges = refl;
  checked = refl;
}

-- In cycle 2, of 90 tokens, with a budget of 60, of which the newborn memory keeps 20.
pub three-IsReady : IsReady (three arm_fifo) (budget 60) (context arm_fifo 2)
three-IsReady = record {
  valid = three-StateIsValid;
  positive = omega arith;
  same_run = refl;
  same_arm = refl;
  born = (omega arith, (omega arith, (omega arith, tt)));
}

-- A budget that the newborn memory exceeds.
pub tight-IsReady : IsReady (three arm_fifo) (budget 10) (context arm_fifo 2)
tight-IsReady = record {
  valid = three-StateIsValid;
  positive = omega arith;
  same_run = refl;
  same_arm = refl;
  born = (omega arith, (omega arith, (omega arith, tt)));
}
