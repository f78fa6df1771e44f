-- ===== src/Cpu/Plan.antt =====
-- src/tomasulo/cpu.cpp: what a cycle computes from the current state, before any part changes.
use risc_v_cpu_simulator.Base.{ℕ, Bool, true, false, not, ◌||◌, ◌&&◌, ◌==◌, ◌!=◌, if◌then◌else◌}
use risc_v_cpu_simulator.Base.{Option, none, some, List, [], ◌∷◌}
use risc_v_cpu_simulator.Types.{no_tag, add32}
use risc_v_cpu_simulator.Instruction.{op_eq, jal, jalr, DecodedInstruction}
use risc_v_cpu_simulator.Decoder.{decode}
use risc_v_cpu_simulator.Signals.{DecodePacket, no_packet, no_result}
use risc_v_cpu_simulator.MemoryUnit
use risc_v_cpu_simulator.MemoryUnit.{InstructionFetchResponse, DataMemoryRequest}
use risc_v_cpu_simulator.RegisterFile
use risc_v_cpu_simulator.RegisterFile.{RegisterWrite, no_write}
use risc_v_cpu_simulator.RenameTable
use risc_v_cpu_simulator.RenameTable.{RatWrite, no_rat_write, RatCommit, no_rat_commit}
use risc_v_cpu_simulator.ReorderBuffer
use risc_v_cpu_simulator.ReorderBuffer.{
  RobEntry, StoreCommitRequest, no_request, no_completion, RobInputs, RobOutputs, no_commit,
}
use risc_v_cpu_simulator.ReservationStation
use risc_v_cpu_simulator.ReservationStation.{RsInputs, RsDecision}
use risc_v_cpu_simulator.LoadStoreQueue
use risc_v_cpu_simulator.LoadStoreQueue.{LsqInputs, LsqObserveInputs, LsqDecision}
use risc_v_cpu_simulator.CommonDataBus
use risc_v_cpu_simulator.CommonDataBus.{CdbInputs, CdbOutputs, CdbDecision}
use risc_v_cpu_simulator.BranchPredictor
use risc_v_cpu_simulator.BranchPredictor.{BranchPredictorUpdate, no_update}
use risc_v_cpu_simulator.IssueUnit
use risc_v_cpu_simulator.IssueUnit.{SourceState, IssueInputs, IssueOutputs, no_issue, is_issued}
use risc_v_cpu_simulator.Cpu.State.{Cpu, PlanModule}

pub record RobPreview : Type 0 where
  pub store_request : StoreCommitRequest
  pub flush : Bool
  pub redirect_pc : ℕ

abbrev pub no_preview : RobPreview
no_preview = record { store_request = no_request; flush = false; redirect_pc = 0 }

-- The part of `preview_rob` after the test for a null pointer.
unfoldable pub preview_head : Option RobEntry → RobPreview
preview_head none = no_preview
preview_head (some head) =
    let flush =
      (head.is_branch || head.is_jump)
      && head.ready
      && head.predicted_next_pc != head.actual_next_pc in
    record {
      store_request =
          if head.is_store && not head.ready
          then record { tag = head.tag; valid = true }
          else no_request;
      flush = flush;
      redirect_pc = if flush then head.actual_next_pc else 0;
    }

unfoldable pub preview_rob : Cpu → RobPreview
preview_rob c = preview_head (ReorderBuffer.front c.rob)

-- The predicted next program counter, and `predicted_taken`.
unfoldable pub predicted_next_pc : Cpu → DecodedInstruction → ℕ → ℕ × Bool
predicted_next_pc c instruction pc =
    let sequential = add32 pc 4 in
    let taken = BranchPredictor.predict_taken c.branch_predictor pc in
    if instruction.is_branch
    then (if taken then add32 pc instruction.immediate else sequential, taken)
    else (if op_eq instruction.op jal
        then (add32 pc instruction.immediate, true)
        else (if op_eq instruction.op jalr then (sequential, false) else (sequential, false)))

-- The part of `fetchAndDecoded` after the fetch.
unfoldable pub decode_fetched : Cpu → InstructionFetchResponse → DecodePacket × Bool
decode_fetched c response =
    let decoded = decode response.instruction in
    let predicted = predicted_next_pc c decoded response.pc in
    if not response.valid || not response.success then (no_packet, true) else (
      record {
        pc = response.pc;
        instruction = response.instruction;
        decoded = decoded;
        predicted_pc = predicted.0;
        predicted_taken = predicted.1;
        valid = true;
      },
      false,
    )

-- `fetchAndDecoded`: the packet, and `fetch_error`.
unfoldable pub fetch_and_decoded : Cpu → DecodePacket × Bool
fetch_and_decoded c =
    decode_fetched c (MemoryUnit.fetch c.memory_unit (record { pc = c.current_pc; valid = true }))

-- The part of `source_state` that looks up the producer's entry.
unfoldable pub produced : SourceState → Option RobEntry → SourceState
produced source none = source
produced source (some producer) =
    if producer.ready
    then record source { producer_ready = true; producer_value = producer.value }
    else source

unfoldable pub source_state : Cpu → ℕ → SourceState
source_state c reg =
    let producer = RenameTable.lookup c.rename_table reg in
    let source : SourceState = record {
      architectural_value = RegisterFile.read c.register_file reg;
      producer = producer;
      producer_value = 0;
      producer_ready = false;
    } in
    if reg == 0
    then record {
      architectural_value = 0;
      producer = no_tag;
      producer_value = 0;
      producer_ready = false;
    }
    else (if not producer.valid
        then source
        else produced source (ReorderBuffer.lookup c.rob producer))

-- Phase A: what the parts show of their current state.
pub record Wires : Type 0 where
  pub preview : RobPreview
  pub cdb_decision : CdbDecision
  pub lsq_observe : LsqObserveInputs

unfoldable pub bus_inputs : Cpu → RobPreview → CdbInputs
bus_inputs c preview =
    if not preview.flush
    then record {
      integer_result = c.functional_unit.current_result;
      load_result = LoadStoreQueue.load_result c.load_store_queue;
    }
    else record { integer_result = no_result; load_result = no_result }

unfoldable pub observe : Cpu → Wires
observe c =
    let preview = preview_rob c in
    let cdb_decision = CommonDataBus.plan c.common_data_bus (bus_inputs c preview) in
    record {
      preview = preview;
      cdb_decision = cdb_decision;
      lsq_observe = record {
        store_request = preview.store_request;
        memory_response = MemoryUnit.data_response c.memory_unit;
        memory_available = MemoryUnit.data_port_available c.memory_unit;
        load_result_granted = cdb_decision.outputs.load_granted;
        flush = preview.flush;
      };
    }

-- Phase B: what the plans of the four modules return.
pub record Plans : Type 0 where
  pub issue_outputs : IssueOutputs
  pub rob_decision : RobOutputs
  pub rs_decision : RsDecision
  pub lsq_decision : LsqDecision
  pub fetch_error : Bool

abbrev pub no_plans : Plans
no_plans = record {
  issue_outputs = no_issue;
  rob_decision = record {
    commit = no_commit;
    store_request = no_request;
    flush = false;
    redirect_pc = 0;
  };
  rs_decision = ReservationStation.no_decision;
  lsq_decision = LoadStoreQueue.no_decision;
  fetch_error = false;
}

unfoldable pub issue_inputs : Cpu → Wires → DecodePacket → IssueInputs
issue_inputs c w packet = record {
  packet = packet;
  allocated_tag = ReorderBuffer.next_tag c.rob;
  rs1 = source_state c packet.decoded.rs1;
  rs2 = source_state c packet.decoded.rs2;
  cdb = w.cdb_decision.outputs.broadcast;
  rob_available = not (ReorderBuffer.full c.rob);
  rs_available = ReservationStation.available c.reservation_station;
  lsq_available = not (LoadStoreQueue.full c.load_store_queue);
}

-- Whether the issue module fetches.
unfoldable pub fetches : Cpu → Wires → Bool
fetches c w = not w.preview.flush && not c.fetch_stopped && not (ReorderBuffer.full c.rob)

unfoldable pub plan_step : Cpu → Wires → PlanModule → Plans → Plans
plan_step c w PlanModule.issue p =
    let (packet, fetch_error) = fetch_and_decoded c in
    record p {
      fetch_error = if fetches c w then fetch_error else p.fetch_error;
      issue_outputs =
          if fetches c w && not fetch_error
          then IssueUnit.plan (issue_inputs c w packet)
          else p.issue_outputs;
    }
plan_step c w PlanModule.reorder_buffer p = record p { rob_decision = ReorderBuffer.plan c.rob }
plan_step c w PlanModule.reservation_station p = record p {
  rs_decision = ReservationStation.plan c.reservation_station w.preview.flush;
}
plan_step c w PlanModule.load_store_queue p = record p {
  lsq_decision = LoadStoreQueue.plan c.load_store_queue w.lsq_observe;
}

-- The loop over the plan order.
unfoldable pub run_plans : Cpu → Wires → List PlanModule → Plans → Plans
run_plans c w [] p = p
run_plans c w (m ∷ order) p = run_plans c w order (plan_step c w m p)
