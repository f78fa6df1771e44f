-- ===== src/IssueUnit.antt =====
-- include/tomasulo/issue_unit.hpp and src/tomasulo/issue_unit.cpp: what one decoded instruction sends
-- to the reorder buffer, the reservation station, the load/store queue and the rename table.
pub mod Routing
pub mod Entries
pub mod Kinds
pub mod Agreement
mod Tests
use risc_v_cpu_simulator.Base.{ℕ, Bool, true, false, not, ◌||◌, ◌&&◌, ◌==◌, ◌!=◌, if◌then◌else◌}
use risc_v_cpu_simulator.Types.{RobTag, no_tag, tag_eq}
use risc_v_cpu_simulator.Instruction.{op_eq, OperandSource, DecodedInstruction, halt, invalid}
use risc_v_cpu_simulator.Signals.{Operand, no_operand, CdbMsg, DecodePacket}
use risc_v_cpu_simulator.ReorderBuffer
use risc_v_cpu_simulator.ReorderBuffer.{RobEntry}
use risc_v_cpu_simulator.ReservationStation
use risc_v_cpu_simulator.ReservationStation.{RsEntry}
use risc_v_cpu_simulator.MemoryUnit.{MemoryAccessType}
use risc_v_cpu_simulator.LoadStoreQueue
use risc_v_cpu_simulator.LoadStoreQueue.{LsqEntry}

pub data IssueStatus : Type 0 where
  invalid_instruction invalid_allocation unavailability issued empty : IssueStatus

pub record RenameUpdate : Type 0 where
  pub rd : ℕ
  pub tag : RobTag
  pub valid : Bool

abbrev pub no_rename : RenameUpdate
no_rename = record { rd = 0; tag = no_tag; valid = false }

pub record SourceState : Type 0 where
  pub architectural_value : ℕ
  pub producer : RobTag
  pub producer_value : ℕ
  pub producer_ready : Bool

pub record IssueInputs : Type 0 where
  pub packet : DecodePacket
  pub allocated_tag : RobTag
  pub rs1 : SourceState
  pub rs2 : SourceState
  pub cdb : CdbMsg
  pub rob_available : Bool
  pub rs_available : Bool
  pub lsq_available : Bool

pub record IssueOutputs : Type 0 where
  pub status : IssueStatus
  pub rob_entry : RobEntry
  pub rs_entry : RsEntry
  pub lsq_entry : LsqEntry
  pub rename : RenameUpdate
  pub pop_decode : Bool
  pub write_rob : Bool
  pub write_rs : Bool
  pub write_lsq : Bool

abbrev pub no_issue : IssueOutputs
no_issue = record {
  status = empty;
  rob_entry = ReorderBuffer.no_entry;
  rs_entry = ReservationStation.no_entry;
  lsq_entry = LoadStoreQueue.no_entry;
  rename = no_rename;
  pop_decode = false;
  write_rob = false;
  write_rs = false;
  write_lsq = false;
}

unfoldable pub is_issued : IssueStatus → Bool
is_issued issued = true
is_issued _ = false

unfoldable pub is_memory_instruction : DecodedInstruction → Bool
is_memory_instruction d = d.is_load || d.is_store

unfoldable pub ready_operand : ℕ → Operand
ready_operand v = record { value = v; tag = no_tag; ready = true }

unfoldable pub resolve_register : ℕ → SourceState → CdbMsg → Operand
resolve_register idx src msg =
    if idx == 0
    then ready_operand 0
    else (if not src.producer.valid
        then ready_operand src.architectural_value
        else (if msg.valid && msg.tag.valid && tag_eq msg.tag src.producer
            then ready_operand msg.value
            else (if src.producer_ready
                then ready_operand src.producer_value
                else record no_operand { ready = false; tag = src.producer })))

unfoldable pub select_operand : OperandSource → Operand → ℕ → ℕ → Operand
select_operand OperandSource.immediate register_operand immediate pc = ready_operand immediate
select_operand OperandSource.program_counter register_operand immediate pc = ready_operand pc
select_operand OperandSource.register register_operand immediate pc = register_operand
select_operand OperandSource.zero register_operand immediate pc = ready_operand 0

-- The entries that an accepted instruction is given.
unfoldable pub rob_entry_of : IssueInputs → RobEntry
rob_entry_of inputs =
    let d = inputs.packet.decoded in
    record (ReorderBuffer.no_entry) {
      tag = inputs.allocated_tag;
      op = d.op;
      pc = inputs.packet.pc;
      rd = d.rd;
      writes_rd = d.writes_rd && d.rd != 0;
      ready = op_eq d.op halt;
      predicted_next_pc = inputs.packet.predicted_pc;
      branch_taken = false;
      is_branch = d.is_branch;
      is_store = d.is_store;
      is_jump = d.is_jump;
      valid = true;
    }

unfoldable pub rs_entry_of : IssueInputs → RsEntry
rs_entry_of inputs =
    let d = inputs.packet.decoded in
    let rs1 = resolve_register d.rs1 inputs.rs1 inputs.cdb in
    let rs2 = resolve_register d.rs2 inputs.rs2 inputs.cdb in
    record {
      op = d.op;
      destination = inputs.allocated_tag;
      lhs = select_operand d.lhs_source rs1 d.immediate inputs.packet.pc;
      rhs = select_operand d.rhs_source rs2 d.immediate inputs.packet.pc;
      immediate = d.immediate;
      pc = inputs.packet.pc;
      predicted_next_pc = inputs.packet.predicted_pc;
      busy = true;
    }

unfoldable pub lsq_entry_of : IssueInputs → LsqEntry
lsq_entry_of inputs =
    let d = inputs.packet.decoded in
    let rs1 = resolve_register d.rs1 inputs.rs1 inputs.cdb in
    let rs2 = resolve_register d.rs2 inputs.rs2 inputs.cdb in
    record {
      type = if d.is_load then MemoryAccessType.load else MemoryAccessType.store;
      op = d.op;
      destination = inputs.allocated_tag;
      base = rs1;
      store_data = if d.is_store then rs2 else ready_operand 0;
      immediate = d.immediate;
      address = 0;
      address_ready = false;
      request_sent = false;
      valid = true;
    }

unfoldable pub needs_lsq : DecodedInstruction → Bool
needs_lsq d = is_memory_instruction d

unfoldable pub needs_rs : DecodedInstruction → Bool
needs_rs d = not (op_eq d.op halt) && not (is_memory_instruction d)

-- The tail of `plan`, once the instruction is accepted.
unfoldable pub issue : IssueInputs → IssueOutputs
issue inputs =
    let d = inputs.packet.decoded in
    let entry = rob_entry_of inputs in
    record {
      status = issued;
      rob_entry = entry;
      rs_entry = if needs_rs d then rs_entry_of inputs else ReservationStation.no_entry;
      lsq_entry = if needs_lsq d then lsq_entry_of inputs else LoadStoreQueue.no_entry;
      rename =
          if entry.writes_rd
          then record { rd = d.rd; tag = inputs.allocated_tag; valid = true }
          else no_rename;
      pop_decode = true;
      write_rob = true;
      write_rs = needs_rs d;
      write_lsq = needs_lsq d;
    }

unfoldable pub plan : IssueInputs → IssueOutputs
plan inputs =
    let d = inputs.packet.decoded in
    if not inputs.packet.valid
    then no_issue
    else (if op_eq d.op invalid
        then record no_issue { status = invalid_instruction }
        else (if not inputs.allocated_tag.valid
            then record no_issue { status = invalid_allocation }
            else (if not inputs.rob_available
                  || (needs_lsq d && not inputs.lsq_available)
                  || (needs_rs d && not inputs.rs_available)
                then record no_issue { status = unavailability }
                else issue inputs)))
