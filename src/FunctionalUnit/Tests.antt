-- ===== src/FunctionalUnit/Tests.antt =====
-- The integer unit with an addition.
use risc_v_cpu_simulator.Base.{◌≡◌, true, false, ◌&&◌, ◌||◌, not, if◌then◌else◌}
use risc_v_cpu_simulator.Instruction.{add}
use risc_v_cpu_simulator.Signals.{Execute, no_execute, no_result}
use risc_v_cpu_simulator.FunctionalUnit.{reset, apply, latch, execute_instruction}
use risc_v_cpu_simulator.FunctionalUnit.Hold.{latch-apply}

abbrev addition : Execute
addition = record no_execute {
  op = add;
  operand1 = 2;
  operand2 = 3;
  tag = record { index = 0; generation = 1; valid = true };
  valid = true;
}

latch-apply_example :
    let o = apply reset addition false false in
    (o.1 ≡ (
      addition.valid
      && (execute_instruction addition).valid
      && (false || not reset.current_result.valid)))
    × ((latch o.0).current_result ≡ (if o.1 then execute_instruction addition else no_result))
latch-apply_example = latch-apply reset addition false false
