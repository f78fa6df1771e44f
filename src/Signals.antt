-- ===== src/Signals.antt =====
-- include/tomasulo/signals.hpp: what the modules of the pipeline send one another.
use risc_v_cpu_simulator.Base.{ℕ, Bool, false}
use risc_v_cpu_simulator.Types.{RobTag, no_tag}
use risc_v_cpu_simulator.Instruction.{Op, invalid, DecodedInstruction, no_instruction}

-- A source operand has its value, or waits for the broadcast of a tag.
pub record Operand : Type 0 where
  pub value : ℕ
  pub tag : RobTag
  pub ready : Bool

abbrev pub no_operand : Operand
no_operand = record { value = 0; tag = no_tag; ready = false }

pub record DecodePacket : Type 0 where
  pub pc : ℕ
  pub instruction : ℕ
  pub decoded : DecodedInstruction
  pub predicted_pc : ℕ
  pub predicted_taken : Bool
  pub valid : Bool

abbrev pub no_packet : DecodePacket
no_packet = record {
  pc = 0;
  instruction = 0;
  decoded = no_instruction;
  predicted_pc = 0;
  predicted_taken = false;
  valid = false;
}

pub record CdbMsg : Type 0 where
  pub tag : RobTag
  pub value : ℕ
  pub valid : Bool

abbrev pub no_broadcast : CdbMsg
no_broadcast = record { tag = no_tag; value = 0; valid = false }

pub record Execute : Type 0 where
  pub op : Op
  pub operand1 : ℕ
  pub operand2 : ℕ
  pub immediate : ℕ
  pub pc : ℕ
  pub tag : RobTag
  pub valid : Bool

abbrev pub no_execute : Execute
no_execute = record {
  op = invalid;
  operand1 = 0;
  operand2 = 0;
  immediate = 0;
  pc = 0;
  tag = no_tag;
  valid = false;
}

pub record FuResult : Type 0 where
  pub tag : RobTag
  pub result : ℕ
  pub actual_next_pc : ℕ
  pub branch_taken : Bool
  pub has_control_result : Bool
  pub valid : Bool

abbrev pub no_result : FuResult
no_result = record {
  tag = no_tag;
  result = 0;
  actual_next_pc = 0;
  branch_taken = false;
  has_control_result = false;
  valid = false;
}
