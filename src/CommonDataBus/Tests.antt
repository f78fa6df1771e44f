-- ===== src/CommonDataBus/Tests.antt =====
-- The bus with two results at once.
use risc_v_cpu_simulator.Base.{◌≡◌, ◌⊎◌, refl, true}
use risc_v_cpu_simulator.Signals.{FuResult, no_result}
use risc_v_cpu_simulator.CommonDataBus.{CdbInputs, reset, plan, valid_candidate, select_integer}
use risc_v_cpu_simulator.CommonDataBus.Arbitration.{cycle, plan_lem, waits_one_cycle}

abbrev a_result : FuResult
a_result = record no_result {
  tag = record { index = 1; generation = 1; valid = true };
  result = 10;
  valid = true;
}

abbrev a_load : FuResult
a_load = record no_result {
  tag = record { index = 2; generation = 1; valid = true };
  result = 20;
  valid = true;
}

abbrev both : CdbInputs
both = record { integer_result = a_result; load_result = a_load }

plan_lem_example : (plan reset both).outputs.completion ≡ a_result
unfolding plan valid_candidate select_integer
plan_lem_example = ((plan_lem reset both).3 refl).1.0

waits_one_cycle_example :
    ((plan reset both).outputs.load_granted ≡ true)
    ⊎ ((plan (cycle reset both) both).outputs.load_granted ≡ true)
unfolding valid_candidate
waits_one_cycle_example = (waits_one_cycle reset both both).1 refl refl
