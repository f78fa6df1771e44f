-- ===== src/Cpu/Cycle.antt =====
-- src/tomasulo/cpu.cpp: the cycle, in the orders that its tables give, and the run loop.
use risc_v_cpu_simulator.Base.{
  ℕ, zero, suc, ◌+◌, ◌%◌, ◌^◌, bit_and, Bool, true, false, not, ◌||◌, ◌&&◌, if◌then◌else◌,
}
use risc_v_cpu_simulator.Base.{Option, none, some, List, [], ◌∷◌}
use risc_v_cpu_simulator.Instruction.{op_eq, halt}
use risc_v_cpu_simulator.MemoryUnit
use risc_v_cpu_simulator.RegisterFile
use risc_v_cpu_simulator.RenameTable
use risc_v_cpu_simulator.ReorderBuffer
use risc_v_cpu_simulator.ReservationStation
use risc_v_cpu_simulator.LoadStoreQueue
use risc_v_cpu_simulator.FunctionalUnit
use risc_v_cpu_simulator.CommonDataBus
use risc_v_cpu_simulator.BranchPredictor
use risc_v_cpu_simulator.IssueUnit.{IssueStatus}
use risc_v_cpu_simulator.Cpu.State.{
  Cpu, Status, is_running, halted, fetch_out_of_bound, memory_out_of_bound, internal_error,
}
use risc_v_cpu_simulator.Cpu.State.{ApplyModule, LatchModule, order_variant_count, RunResult}
use risc_v_cpu_simulator.Cpu.Plan.{Plans, no_plans, observe, run_plans}
use risc_v_cpu_simulator.Cpu.Inputs.{ApplyInputs, issue_effective}
use risc_v_cpu_simulator.Cpu.Inputs.{apply_inputs, next_pc_of, next_fetch_stopped_of}

-- What the `apply` calls return.
pub record Accepted : Type 0 where
  pub rob : Bool
  pub rs : Bool
  pub lsq : Bool
  pub fu : Bool
  pub memory : Bool

abbrev pub none_accepted : Accepted
none_accepted = record { rob = false; rs = false; lsq = false; fu = false; memory = false }

-- The state of the second loop.
pub record Applied : Type 0 where
  pub cpu : Cpu
  pub accepted : Accepted

-- Phase C: a part prepares its next state.
unfoldable pub apply_step : ApplyInputs → ApplyModule → Applied → Applied
apply_step i ApplyModule.common_data_bus s = record s {
  cpu = record (s.cpu) {
    common_data_bus = CommonDataBus.apply s.cpu.common_data_bus i.cdb_decision;
  };
}
apply_step i ApplyModule.reorder_buffer s =
    let r = ReorderBuffer.apply s.cpu.rob i.rob_inputs i.rob_decision in
    record { cpu = record (s.cpu) { rob = r.0 }; accepted = record (s.accepted) { rob = r.1 } }
apply_step i ApplyModule.reservation_station s =
    let r = ReservationStation.apply s.cpu.reservation_station i.rs_inputs i.rs_decision in
    record {
      cpu = record (s.cpu) { reservation_station = r.0 };
      accepted = record (s.accepted) { rs = r.1 };
    }
apply_step i ApplyModule.load_store_queue s =
    let r = LoadStoreQueue.apply s.cpu.load_store_queue i.lsq_inputs i.lsq_decision in
    record {
      cpu = record (s.cpu) { load_store_queue = r.0 };
      accepted = record (s.accepted) { lsq = r.1 };
    }
apply_step i ApplyModule.functional_unit s =
    let r =
      FunctionalUnit.apply s.cpu.functional_unit i.execute i.preview_flush i.integer_granted in
    record {
      cpu = record (s.cpu) { functional_unit = r.0 };
      accepted = record (s.accepted) { fu = r.1 };
    }
apply_step i ApplyModule.register_file s = record s {
  cpu = record (s.cpu) { register_file = RegisterFile.apply s.cpu.register_file i.register_write };
}
apply_step i ApplyModule.rename_table s = record s {
  cpu = record (s.cpu) {
    rename_table = RenameTable.apply s.cpu.rename_table i.rat_write i.rat_commit i.rob_flush;
  };
}
apply_step i ApplyModule.branch_predictor s = record s {
  cpu = record (s.cpu) {
    branch_predictor = BranchPredictor.apply s.cpu.branch_predictor i.predictor_update;
  };
}
apply_step i ApplyModule.memory_unit s =
    let r = MemoryUnit.apply s.cpu.memory_unit i.memory_request in
    record {
      cpu = record (s.cpu) { memory_unit = r.0 };
      accepted = record (s.accepted) { memory = r.1 };
    }

unfoldable pub run_applies : ApplyInputs → List ApplyModule → Applied → Applied
run_applies i [] s = s
run_applies i (m ∷ order) s = run_applies i order (apply_step i m s)

-- Phase D: a part installs its next state.
unfoldable pub latch_step : LatchModule → Cpu → Cpu
latch_step LatchModule.register_file c = record c {
  register_file = RegisterFile.latch c.register_file;
}
latch_step LatchModule.rename_table c = record c { rename_table = RenameTable.latch c.rename_table }
latch_step LatchModule.reorder_buffer c = record c { rob = ReorderBuffer.latch c.rob }
latch_step LatchModule.reservation_station c = record c {
  reservation_station = ReservationStation.latch c.reservation_station;
}
latch_step LatchModule.load_store_queue c = record c {
  load_store_queue = LoadStoreQueue.latch c.load_store_queue;
}
latch_step LatchModule.functional_unit c = record c {
  functional_unit = FunctionalUnit.latch c.functional_unit;
}
latch_step LatchModule.common_data_bus c = record c {
  common_data_bus = CommonDataBus.latch c.common_data_bus;
}
latch_step LatchModule.memory_unit c = record c { memory_unit = MemoryUnit.latch c.memory_unit }
latch_step LatchModule.branch_predictor c = record c {
  branch_predictor = BranchPredictor.latch c.branch_predictor;
}

unfoldable pub run_latches : List LatchModule → Cpu → Cpu
run_latches [] c = c
run_latches (m ∷ order) c = run_latches order (latch_step m c)

-- `cycle_count_ % kOrderVariantCount`
unfoldable pub order_index : Cpu → ℕ
order_index c = c.cycle_count % order_variant_count

unfoldable pub latch_all : Cpu → Cpu
latch_all c = run_latches (c.orders.latch_orders (order_index c)) c

-- The assertions after the `apply` calls.
unfoldable pub assertions : Plans → ApplyInputs → Accepted → Bool
assertions p i a =
    (not (issue_effective p)
      || a.rob
        && (not p.issue_outputs.write_rs || a.rs)
        && (not p.issue_outputs.write_lsq || a.lsq))
    && (not (p.rs_decision.dispatch_valid && i.rs_inputs.fu_available && not i.preview_flush)
        || a.fu)
    && (not p.lsq_decision.memory_request.valid || a.memory)

unfoldable pub is_invalid : IssueStatus → Bool
is_invalid IssueStatus.invalid_instruction = true
is_invalid _ = false

unfoldable pub is_unallocated : IssueStatus → Bool
is_unallocated IssueStatus.invalid_allocation = true
is_unallocated _ = false

-- `next_status`, by the last of the assignments that are made.
unfoldable pub next_status_of : Cpu → Plans → Status
next_status_of c p =
    let empty = ReorderBuffer.empty c.rob in
    if p.rob_decision.commit.halted
    then halted
    else (if p.lsq_decision.memory_error
        then memory_out_of_bound
        else (if is_unallocated p.issue_outputs.status
            then internal_error
            else (if is_invalid p.issue_outputs.status && empty
                then Status.invalid_instruction
                else (if p.fetch_error && empty then fetch_out_of_bound else c.status))))

-- The counts and the exit code after the `apply` calls.
unfoldable pub account : Plans → Cpu → Cpu
account p c =
    let commit = p.rob_decision.commit in
    record c {
      committed_count =
          if commit.valid && not (op_eq commit.entry.op halt)
          then (c.committed_count + 1) % 2 ^ 64
          else c.committed_count;
      exit_code =
          if commit.halted
          then bit_and (RegisterFile.read c.register_file 10) 0xff
          else c.exit_code;
    }

-- The values that a running cycle fixes before the `apply` calls.
unfoldable pub begin : Cpu → Cpu
begin c = record c {
  cycle_count = (c.cycle_count + 1) % 2 ^ 64;
  next_pc = c.current_pc;
  next_fetch_stopped = c.fetch_stopped;
}

unfoldable pub plans_of : Cpu → Plans
plans_of c = run_plans c (observe c) (c.orders.plan_orders (order_index c)) no_plans

unfoldable pub applied_of : Cpu → Plans → Applied
applied_of c p =
    run_applies (apply_inputs c (observe c) p) (c.orders.apply_orders (order_index c)) (record {
      cpu = record c { next_pc = next_pc_of c p; next_fetch_stopped = next_fetch_stopped_of c p };
      accepted = none_accepted;
    })

-- The last three assignments.
unfoldable pub advance : Status → Cpu → Cpu
advance status c = record c {
  current_pc = c.next_pc;
  fetch_stopped = c.next_fetch_stopped;
  status = status;
}

unfoldable pub running_cycle : Cpu → Cpu
running_cycle c =
    let b = begin c in
    let p = plans_of b in
    let a = (applied_of b p).cpu in advance (next_status_of a p) (latch_all (account p a))

unfoldable pub cycle : Cpu → Cpu
cycle c = if not (is_running c.status) then c else running_cycle c

-- The `while` of `run` with fuel; `none` when the fuel runs out.
unfoldable pub run_loop : ℕ → Cpu → Option Cpu
run_loop zero c = if is_running c.status then none else some c
run_loop (suc fuel) c =
    let rest = run_loop fuel (cycle c) in if is_running c.status then rest else some c

unfoldable pub result_of : Cpu → RunResult
result_of c = record { status = c.status; value = c.exit_code }

-- `run`; its result is `result_of` of the state that it leaves.
unfoldable pub run : ℕ → Cpu → Option Cpu
run fuel c = if not (is_running c.status) then some c else run_loop fuel c
