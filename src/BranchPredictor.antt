-- ===== src/BranchPredictor.antt =====
-- include/tomasulo/branch_predictor.hpp and src/tomasulo/branch_predictor.cpp: 256 two-bit counters.
pub mod Counters
mod Tests
use risc_v_cpu_simulator.Base.{
  ℕ, ◌+◌, ◌-◌, ◌%◌, ◌^◌, bit_and, Bool, true, false, not, ltb, leb, ◌==◌,
}
use risc_v_cpu_simulator.Base.{if◌then◌else◌, Array, update, fill}
use risc_v_cpu_simulator.Types.{shr32}

pub record BranchPredictorUpdate : Type 0 where
  pub pc : ℕ
  pub actual_taken : Bool
  pub predicted_next_pc : ℕ
  pub actual_next_pc : ℕ
  pub valid : Bool

abbrev pub no_update : BranchPredictorUpdate
no_update = record {
  pc = 0;
  actual_taken = false;
  predicted_next_pc = 0;
  actual_next_pc = 0;
  valid = false;
}

pub record BranchPredictor : Type 0 where
  pub current : Array ℕ
  pub next : Array ℕ
  pub prediction_count : ℕ
  pub next_prediction_count : ℕ
  pub correct_count : ℕ
  pub next_correct_count : ℕ

abbrev pub weak_not_taken : ℕ
weak_not_taken = 1

abbrev pub weak_taken : ℕ
weak_taken = 2

abbrev pub strong_taken : ℕ
strong_taken = 3

abbrev pub reset : BranchPredictor
reset = record {
  current = fill weak_not_taken;
  next = fill weak_not_taken;
  prediction_count = 0;
  next_prediction_count = 0;
  correct_count = 0;
  next_correct_count = 0;
}

-- `(pc >> 2) & (kTableSize - 1)`
unfoldable pub index_of : ℕ → ℕ
index_of pc = bit_and (shr32 pc 2) 255

unfoldable pub predict_taken : BranchPredictor → ℕ → Bool
predict_taken p pc = leb weak_taken (p.current (index_of pc))

-- The saturating step of a counter.
unfoldable pub step_counter : Bool → ℕ → ℕ
step_counter actual_taken state =
    if actual_taken
    then (if ltb state strong_taken then state + 1 else state)
    else (if ltb 0 state then state - 1 else state)

unfoldable pub apply : BranchPredictor → BranchPredictorUpdate → BranchPredictor
apply p u =
    let i = index_of u.pc in
    let correct =
      if u.predicted_next_pc == u.actual_next_pc
      then (p.correct_count + 1) % 2 ^ 64
      else p.correct_count in
    if not u.valid
    then record p {
      next = p.current;
      next_prediction_count = p.prediction_count;
      next_correct_count = p.correct_count;
    }
    else record p {
      next = update p.current i (step_counter u.actual_taken (p.current i));
      next_prediction_count = (p.prediction_count + 1) % 2 ^ 64;
      next_correct_count = correct;
    }

unfoldable pub latch : BranchPredictor → BranchPredictor
latch p = record p {
  current = p.next;
  prediction_count = p.next_prediction_count;
  correct_count = p.next_correct_count;
}
