-- ===== src/Cpu/Lockstep.antt =====
-- src/tomasulo/cpu.cpp: a cycle in which all parts plan, then all change, at once.
use risc_v_cpu_simulator.Base.{ℕ, ◌+◌, ◌%◌, ◌^◌, ◌<◌, bit_and, false, not, ◌&&◌, if◌then◌else◌}
use mathlib.Core.List.{Perm}
use risc_v_cpu_simulator.Instruction.{op_eq, halt}
use risc_v_cpu_simulator.MemoryUnit
use risc_v_cpu_simulator.RegisterFile
use risc_v_cpu_simulator.RenameTable
use risc_v_cpu_simulator.ReorderBuffer
use risc_v_cpu_simulator.ReservationStation
use risc_v_cpu_simulator.LoadStoreQueue
use risc_v_cpu_simulator.FunctionalUnit
use risc_v_cpu_simulator.CommonDataBus
use risc_v_cpu_simulator.BranchPredictor
use risc_v_cpu_simulator.IssueUnit
use risc_v_cpu_simulator.IssueUnit.{no_issue}
use risc_v_cpu_simulator.Cpu.State.{
  Cpu, Orders, base_plan, base_apply, base_latch, order_variant_count,
}
use risc_v_cpu_simulator.Cpu.Plan.{Plans, observe, fetches, fetch_and_decoded, issue_inputs}
use risc_v_cpu_simulator.Cpu.Inputs.{ApplyInputs, apply_inputs, next_pc_of, next_fetch_stopped_of}
use risc_v_cpu_simulator.Cpu.Cycle.{Accepted, next_status_of}

-- Every order that a cycle can use has each module of the phase once.
pub record AreShuffled (o : Orders) : Type 0 where
  pub plan : (k : ℕ) → k < order_variant_count → Perm (o.plan_orders k) base_plan
  pub apply : (k : ℕ) → k < order_variant_count → Perm (o.apply_orders k) base_apply
  pub latch : (k : ℕ) → k < order_variant_count → Perm (o.latch_orders k) base_latch

-- All four plans of one state.
abbrev pub plans : Cpu → Plans
plans c =
    let w = observe c in
    let fetched = fetch_and_decoded c in
    record {
      issue_outputs =
          if fetches c w && not fetched.1
          then IssueUnit.plan (issue_inputs c w fetched.0)
          else no_issue;
      rob_decision = ReorderBuffer.plan c.rob;
      rs_decision = ReservationStation.plan c.reservation_station w.preview.flush;
      lsq_decision = LoadStoreQueue.plan c.load_store_queue w.lsq_observe;
      fetch_error = if fetches c w then fetched.1 else false;
    }

-- The inputs of the parts in one cycle, and their answers.
abbrev pub inputs : Cpu → ApplyInputs
inputs c = apply_inputs c (observe c) (plans c)

abbrev pub answers : Cpu → Accepted
answers c =
    let i = inputs c in
    record {
      rob = (ReorderBuffer.apply c.rob i.rob_inputs i.rob_decision).1;
      rs = (ReservationStation.apply c.reservation_station i.rs_inputs i.rs_decision).1;
      lsq = (LoadStoreQueue.apply c.load_store_queue i.lsq_inputs i.lsq_decision).1;
      fu = (FunctionalUnit.apply c.functional_unit i.execute i.preview_flush i.integer_granted).1;
      memory = (MemoryUnit.apply c.memory_unit i.memory_request).1;
    }

-- The cycle of a running processor: every part applies its inputs and goes to its next state.
abbrev pub lockstep : Cpu → Cpu
lockstep c =
    let p = plans c in
    let i = inputs c in
    let commit = p.rob_decision.commit in
    record c {
      memory_unit = MemoryUnit.latch (MemoryUnit.apply c.memory_unit i.memory_request).0;
      register_file = RegisterFile.latch (RegisterFile.apply c.register_file i.register_write);
      rename_table =
          RenameTable.latch (RenameTable.apply c.rename_table i.rat_write i.rat_commit i.rob_flush);
      rob = ReorderBuffer.latch (ReorderBuffer.apply c.rob i.rob_inputs i.rob_decision).0;
      reservation_station =
          ReservationStation.latch
            (ReservationStation.apply c.reservation_station i.rs_inputs i.rs_decision).0;
      load_store_queue =
          LoadStoreQueue.latch
            (LoadStoreQueue.apply c.load_store_queue i.lsq_inputs i.lsq_decision).0;
      functional_unit =
          FunctionalUnit.latch
            (FunctionalUnit.apply c.functional_unit i.execute i.preview_flush i.integer_granted).0;
      common_data_bus = CommonDataBus.latch (CommonDataBus.apply c.common_data_bus i.cdb_decision);
      branch_predictor =
          BranchPredictor.latch (BranchPredictor.apply c.branch_predictor i.predictor_update);
      current_pc = next_pc_of c p;
      next_pc = next_pc_of c p;
      fetch_stopped = next_fetch_stopped_of c p;
      next_fetch_stopped = next_fetch_stopped_of c p;
      status = next_status_of c p;
      cycle_count = (c.cycle_count + 1) % 2 ^ 64;
      committed_count =
          if commit.valid && not (op_eq commit.entry.op halt)
          then (c.committed_count + 1) % 2 ^ 64
          else c.committed_count;
      exit_code =
          if commit.halted
          then bit_and (RegisterFile.read c.register_file 10) 0xff
          else c.exit_code;
    }
