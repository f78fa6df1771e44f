-- ===== src/BranchPredictor/Tests.antt =====
-- The predictor on the branch of a loop.
use risc_v_cpu_simulator.Base.{◌≡◌, refl, true, arith}
use risc_v_cpu_simulator.BranchPredictor.{BranchPredictorUpdate, no_update, reset, predict_taken}
use risc_v_cpu_simulator.BranchPredictor.Counters.{
  IsPredictor, cycle, cycle-IsPredictor, predict-cycle,
}

abbrev taken : BranchPredictorUpdate
taken = record no_update { pc = 0x1010; actual_taken = true; actual_next_pc = 0x1000; valid = true }

reset-IsPredictor : IsPredictor reset
reset-IsPredictor = record {
  two_bits = λ k. omega arith;
  counts = omega arith;
  small = omega arith;
}

cycle-IsPredictor_example : IsPredictor (cycle reset taken)
cycle-IsPredictor_example = cycle-IsPredictor reset taken reset-IsPredictor (omega arith)

predict-cycle_example : predict_taken (cycle (cycle reset taken) taken) 0x1010 ≡ true
predict-cycle_example = (predict-cycle reset taken taken reset-IsPredictor refl refl refl).0 refl
