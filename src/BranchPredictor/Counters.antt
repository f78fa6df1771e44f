-- ===== src/BranchPredictor/Counters.antt =====
-- src/tomasulo/branch_predictor.cpp: the two-bit counters and what they predict.
use risc_v_cpu_simulator.Base.{ℕ, ◌+◌, ◌/◌, ◌%◌, ◌^◌, ◌≤◌, ◌<◌, ◌≡◌, arith, true, false, ◌&&◌, ◌==◌}
use risc_v_cpu_simulator.Base.Bits.{bit_and_mask}
use risc_v_cpu_simulator.BranchPredictor.{BranchPredictor, BranchPredictorUpdate, index_of}
use risc_v_cpu_simulator.BranchPredictor.{predict_taken, step_counter, apply, latch}

-- The index is that of the word address in a table of 256, so it lies in the table.
pub index_of_mod : (pc : ℕ) → index_of pc ≡ pc / 4 % 256
unfolding index_of
index_of_mod pc = bit_and_mask 8 (pc / 2 ^ 2)

pub record IsPredictor (p : BranchPredictor) : Type 0 where
  pub two_bits : (k : ℕ) → p.current k ≤ 3
  pub counts : p.correct_count ≤ p.prediction_count
  pub small : p.prediction_count < 2 ^ 64

unfoldable pub cycle : BranchPredictor → BranchPredictorUpdate → BranchPredictor
cycle p u = latch (apply p u)

-- While the number of predictions does not reach 2 ^ 64, a cycle keeps every counter a two-bit
-- number and the correct predictions no more than the predictions.
pub cycle-IsPredictor :
    (p : BranchPredictor) (u : BranchPredictorUpdate)
    → IsPredictor p
    → p.prediction_count + 1 < 2 ^ 64
    → IsPredictor (cycle p u)
unfolding cycle latch apply step_counter
cycle-IsPredictor p u v h = record {
  two_bits = λ k. ground (arith, v.two_bits k, v.two_bits (index_of u.pc));
  counts = ground arith;
  small = ground arith;
}

-- A branch that goes the same way twice in a row is predicted that way, whatever its counter was;
-- one outcome against a saturated counter does not change the prediction.
pub predict-cycle :
    (p : BranchPredictor) (u w : BranchPredictorUpdate)
    → IsPredictor p
    → u.valid ≡ true
    → w.valid ≡ true
    → index_of u.pc ≡ index_of w.pc
    → (u.actual_taken ≡ w.actual_taken → predict_taken (cycle (cycle p u) w) w.pc ≡ w.actual_taken)
      × (p.current (index_of u.pc) ≡ 3 → predict_taken (cycle p u) u.pc ≡ true)
      × (p.current (index_of u.pc) ≡ 0 → predict_taken (cycle p u) u.pc ≡ false)
unfolding predict_taken cycle latch apply step_counter
predict-cycle p u w v uv wv e =
    (λ same. ground (arith, v.two_bits (index_of u.pc)), λ h. ground arith, λ h. ground arith)

-- A branch of another index keeps its prediction, and so does every branch in a cycle without a
-- committed branch.
pub predict-cycle_other :
    (p : BranchPredictor) (u : BranchPredictorUpdate) (pc : ℕ)
    → (u.valid && index_of u.pc == index_of pc) ≡ false
    → predict_taken (cycle p u) pc ≡ predict_taken p pc
unfolding predict_taken cycle latch apply step_counter
predict-cycle_other p u pc h = ground arith
