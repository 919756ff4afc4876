-- ===== src/Domain/Explain/Nonempty.antt =====
-- Every explanation says something.
use attention_sink.Prelude.{◌≡◌, refl, false, ◌==◌, string_eq}
use attention_sink.Prelude.Text.Nonempty.{concat-ne-empty}
use attention_sink.Domain.Enums.{
  ArmId, arm_value, arm_fifo, arm_lru, arm_heavy, arm_sink, arm_random, arm_summary, arm_full,
  arm_stateless,
}
use attention_sink.Domain.Explain.{Facts, after_arm, render_explanation}

arm_value-ne-empty : (arm : ArmId) → (arm_value arm == "") ≡ false
arm_value-ne-empty arm_fifo = refl
arm_value-ne-empty arm_lru = refl
arm_value-ne-empty arm_heavy = refl
arm_value-ne-empty arm_sink = refl
arm_value-ne-empty arm_random = refl
arm_value-ne-empty arm_summary = refl
arm_value-ne-empty arm_full = refl
arm_value-ne-empty arm_stateless = refl

pub render_explanation-ne-empty : (f : Facts) → (render_explanation f == "") ≡ false
unfolding render_explanation
render_explanation-ne-empty f =
    concat-ne-empty (arm_value f.arm_id) (after_arm f) (arm_value-ne-empty f.arm_id)
