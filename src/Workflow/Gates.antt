-- ===== src/Workflow/Gates.antt =====
-- domain/gates.py. Python's floating-point numbers are a parameter: what `ceil(expected * ratio)` is
-- for a ratio in thousandths, the quotient, and `0.0`.
use pages_to_rgb.Prelude.{ℕ, Bool, ◌&&◌, leb, ltb, ◌==◌, if◌then◌else◌}
use pages_to_rgb.Common.Value.{Value}

pub record Floats : Type 0 where
  pub ceil_product : ℕ → ℕ → ℕ
  pub quotient : ℕ → ℕ → Value
  pub nought : Value

pub record GateResult : Type 0 where
  pub gate : ℕ
  pub ready : ℕ
  pub expected : ℕ
  pub required : ℕ
  pub passed : Bool
  pub degraded : Bool
  pub ratio : Value

module _ (floats : Floats) where
  ratio_of : ℕ → ℕ → Value
  ratio_of ready expected = if expected == 0 then floats.nought else floats.quotient ready expected

  unfoldable pub evaluate_gate_1 : ℕ → ℕ → ℕ → GateResult
  unfolding ratio_of
  evaluate_gate_1 ready expected minimum_ratio =
      let required = floats.ceil_product expected minimum_ratio in
      record {
        gate = 1;
        ready = ready;
        expected = expected;
        required = required;
        passed = leb required ready;
        degraded = leb required ready && ltb ready expected;
        ratio = ratio_of ready expected;
      }

  unfoldable pub evaluate_gate_2 : ℕ → ℕ → ℕ → GateResult
  unfolding ratio_of
  evaluate_gate_2 validated expected minimum_ratio =
      let required = floats.ceil_product expected minimum_ratio in
      record {
        gate = 2;
        ready = validated;
        expected = expected;
        required = required;
        passed = leb required validated;
        degraded = leb required validated && ltb validated expected;
        ratio = ratio_of validated expected;
      }
