-- ===== src/Cpu/Inputs.antt =====
-- src/tomasulo/cpu.cpp: what the `apply` calls of a cycle are given, and the next program counter.
use risc_v_cpu_simulator.Base.{ℕ, Bool, true, false, not, ◌&&◌, if◌then◌else◌}
use risc_v_cpu_simulator.Instruction.{op_eq, halt}
use risc_v_cpu_simulator.Signals.{Execute}
use risc_v_cpu_simulator.MemoryUnit.{DataMemoryRequest}
use risc_v_cpu_simulator.RegisterFile.{RegisterWrite, no_write}
use risc_v_cpu_simulator.RenameTable.{RatWrite, no_rat_write, RatCommit, no_rat_commit}
use risc_v_cpu_simulator.ReorderBuffer.{RobInputs, RobOutputs}
use risc_v_cpu_simulator.ReservationStation.{RsInputs, RsDecision}
use risc_v_cpu_simulator.LoadStoreQueue.{LsqInputs, LsqDecision}
use risc_v_cpu_simulator.FunctionalUnit
use risc_v_cpu_simulator.CommonDataBus.{CdbDecision}
use risc_v_cpu_simulator.BranchPredictor.{BranchPredictorUpdate, no_update}
use risc_v_cpu_simulator.IssueUnit.{is_issued}
use risc_v_cpu_simulator.Cpu.State.{Cpu}
use risc_v_cpu_simulator.Cpu.Plan.{Wires, Plans}

-- What the `apply` calls are given, and the next program counter.
pub record ApplyInputs : Type 0 where
  pub cdb_decision : CdbDecision
  pub rob_inputs : RobInputs
  pub rob_decision : RobOutputs
  pub rs_inputs : RsInputs
  pub rs_decision : RsDecision
  pub lsq_inputs : LsqInputs
  pub lsq_decision : LsqDecision
  pub execute : Execute
  pub preview_flush : Bool
  pub integer_granted : Bool
  pub register_write : RegisterWrite
  pub rat_write : RatWrite
  pub rat_commit : RatCommit
  pub rob_flush : Bool
  pub predictor_update : BranchPredictorUpdate
  pub memory_request : DataMemoryRequest

unfoldable pub issue_effective : Plans → Bool
issue_effective p = is_issued p.issue_outputs.status && not p.rob_decision.flush

unfoldable pub register_write_of : RobOutputs → RegisterWrite
register_write_of d =
    let entry = d.commit.entry in
    if d.commit.valid && entry.writes_rd
    then record { rd = entry.rd; value = entry.value; valid = true }
    else no_write

unfoldable pub rat_write_of : Plans → RatWrite
rat_write_of p =
    let rename = p.issue_outputs.rename in
    if rename.valid && issue_effective p
    then record { rd = rename.rd; tag = rename.tag; valid = true }
    else no_rat_write

unfoldable pub rat_commit_of : RobOutputs → RatCommit
rat_commit_of d =
    let entry = d.commit.entry in
    if d.commit.valid && entry.writes_rd
    then record { rd = entry.rd; tag = entry.tag; valid = true }
    else no_rat_commit

unfoldable pub predictor_update_of : RobOutputs → BranchPredictorUpdate
predictor_update_of d =
    let entry = d.commit.entry in
    if d.commit.valid && entry.is_branch
    then record {
      pc = entry.pc;
      actual_taken = entry.branch_taken;
      predicted_next_pc = entry.predicted_next_pc;
      actual_next_pc = entry.actual_next_pc;
      valid = true;
    }
    else no_update

unfoldable pub apply_inputs : Cpu → Wires → Plans → ApplyInputs
apply_inputs c w p =
    let issue = p.issue_outputs in
    let bus = w.cdb_decision.outputs in
    let flush = w.preview.flush in
    record {
      cdb_decision = w.cdb_decision;
      rob_inputs = record {
        issue_entry = issue.rob_entry;
        issue_valid = issue.write_rob && not flush;
        completion = bus.completion;
        store_completion = p.lsq_decision.store_completion;
      };
      rob_decision = p.rob_decision;
      rs_inputs = record {
        issue_entry = issue.rs_entry;
        issue_valid = issue.write_rs && issue_effective p;
        cdb = bus.broadcast;
        fu_available = FunctionalUnit.can_accept c.functional_unit bus.integer_granted;
        flush = flush;
      };
      rs_decision = p.rs_decision;
      lsq_inputs = record {
        issue_entry = issue.lsq_entry;
        issue_valid = issue.write_lsq && not flush;
        cdb = bus.broadcast;
        flush = flush;
      };
      lsq_decision = p.lsq_decision;
      execute = p.rs_decision.dispatch;
      preview_flush = flush;
      integer_granted = bus.integer_granted;
      register_write = register_write_of p.rob_decision;
      rat_write = rat_write_of p;
      rat_commit = rat_commit_of p.rob_decision;
      rob_flush = p.rob_decision.flush;
      predictor_update = predictor_update_of p.rob_decision;
      memory_request = p.lsq_decision.memory_request;
    }

-- `next_pc_` and `next_fetch_stopped_`.
unfoldable pub next_pc_of : Cpu → Plans → ℕ
next_pc_of c p =
    if p.rob_decision.flush
    then p.rob_decision.redirect_pc
    else (if issue_effective p then p.issue_outputs.rob_entry.predicted_next_pc else c.current_pc)

unfoldable pub next_fetch_stopped_of : Cpu → Plans → Bool
next_fetch_stopped_of c p =
    if p.rob_decision.flush
    then false
    else (if issue_effective p && op_eq p.issue_outputs.rob_entry.op halt
        then true
        else c.fetch_stopped)
