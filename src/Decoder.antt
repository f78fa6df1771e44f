-- ===== src/Decoder.antt =====
-- src/isa/decoder.cpp: from an instruction word to a `DecodedInstruction`. A `switch` is a chain of
-- tests; where the source assigns `op` inside a `switch`, a function of the fields gives it.
pub mod Fields
pub mod Encode
pub mod Roundtrip
pub mod Shape
mod Tests
use risc_v_cpu_simulator.Base.{ℕ, ◌+◌, Bool, true, false, ◌&&◌, ◌||◌, not, bit_and, bit_or}
use risc_v_cpu_simulator.Base.{◌==◌, ◌!=◌, if◌then◌else◌}
use risc_v_cpu_simulator.Types.{extract_bits, get_bit, sign_extend, shl32}
use risc_v_cpu_simulator.Instruction.{Op, op_eq, OperandSource, DecodedInstruction, no_instruction}
use risc_v_cpu_simulator.Instruction.{
  lui, auipc, addi, slti, sltiu, xori, ori, andi, slli, srli, srai,
}
use risc_v_cpu_simulator.Instruction.{jalr, lb, lh, lw, lbu, lhu, add, sub, and, xor, or, sll, slt}
use risc_v_cpu_simulator.Instruction.{
  sltu, srl, sra, beq, bne, blt, bge, bltu, bgeu, sb, sh, sw, jal,
}
use risc_v_cpu_simulator.Instruction.{halt, invalid}

unfoldable pub decode_register : ℕ → ℕ → ℕ → ℕ
decode_register bits high low = extract_bits bits high low

unfoldable pub write_register : ℕ → Bool
write_register rd = rd != 0

unfoldable pub decode_I_immediate : ℕ → ℕ
decode_I_immediate bits = sign_extend (extract_bits bits 31 20) 12

unfoldable pub decode_S_immediate : ℕ → ℕ
decode_S_immediate bits =
    let high = extract_bits bits 31 25 in
    let low = extract_bits bits 11 7 in sign_extend (bit_or (shl32 high 5) low) 12

-- `immediate |= field` is `bit_or immediate field`.
unfoldable pub decode_B_immediate : ℕ → ℕ
decode_B_immediate bits =
    let with_12 = if get_bit bits 31 then bit_or 0 (shl32 1 12) else 0 in
    let with_11 = if get_bit bits 7 then bit_or with_12 (shl32 1 11) else with_12 in
    let with_10 = bit_or with_11 (shl32 (extract_bits bits 30 25) 5) in
    let with_4 = bit_or with_10 (shl32 (extract_bits bits 11 8) 1) in sign_extend with_4 13

unfoldable pub decode_U_immediate : ℕ → ℕ
decode_U_immediate bits = bit_and bits 0xfffff000

unfoldable pub decode_J_immediate : ℕ → ℕ
decode_J_immediate bits =
    let with_20 = if get_bit bits 31 then bit_or 0 (shl32 1 20) else 0 in
    let with_19 = bit_or with_20 (shl32 (extract_bits bits 19 12) 12) in
    let with_11 = if get_bit bits 20 then bit_or with_19 (shl32 1 11) else with_19 in
    let with_10 = bit_or with_11 (shl32 (extract_bits bits 30 21) 1) in sign_extend with_10 21

-- The operation of an R-type word, `invalid` where the `switch` leaves it so.
unfoldable pub r_op : ℕ → ℕ → Op
r_op funct3 funct7 =
    if funct3 == 0
    then (if funct7 == 0x00 then add else (if funct7 == 0x20 then sub else invalid))
    else if funct3 == 1
    then (if funct7 == 0x00 then sll else invalid)
    else if funct3 == 2
    then (if funct7 == 0x00 then slt else invalid)
    else if funct3 == 3
    then (if funct7 == 0x00 then sltu else invalid)
    else if funct3 == 4
    then (if funct7 == 0x00 then xor else invalid)
    else if funct3 == 5
    then (if funct7 == 0x00 then srl else (if funct7 == 0x20 then sra else invalid))
    else if funct3 == 6
    then (if funct7 == 0x00 then or else invalid)
    else if funct3 == 7
    then (if funct7 == 0x00 then and else invalid)
    else invalid

unfoldable pub decode_R_type : ℕ → DecodedInstruction
decode_R_type bits =
    let op = r_op (extract_bits bits 14 12) (extract_bits bits 31 25) in
    let rd = decode_register bits 11 7 in
    if op_eq op invalid then no_instruction else record no_instruction {
      op = op;
      rd = rd;
      rs1 = decode_register bits 19 15;
      rs2 = decode_register bits 24 20;
      lhs_source = OperandSource.register;
      rhs_source = OperandSource.register;
      uses_rs1 = true;
      uses_rs2 = true;
      writes_rd = write_register rd;
    }

-- The operation of an immediate-arithmetic word; `invalid` where the code returns early.
unfoldable pub op_immediate_op : ℕ → ℕ → Op
op_immediate_op funct3 funct7 =
    if funct3 == 0
    then addi
    else if funct3 == 1
    then (if funct7 != 0x00 then invalid else slli)
    else if funct3 == 2
    then slti
    else if funct3 == 3
    then sltiu
    else if funct3 == 4
    then xori
    else if funct3 == 5
    then (if funct7 == 0x00 then srli else (if funct7 == 0x20 then srai else invalid))
    else if funct3 == 6
    then ori
    else if funct3 == 7
    then andi
    else invalid

unfoldable pub is_shift_immediate : Op → Bool
is_shift_immediate op = op_eq op slli || op_eq op srli || op_eq op srai

unfoldable pub load_op : ℕ → Op
load_op funct3 =
    if funct3 == 0
    then lb
    else if funct3 == 1
    then lh
    else if funct3 == 2
    then lw
    else if funct3 == 4
    then lbu
    else if funct3 == 5
    then lhu
    else invalid

unfoldable pub decode_op_immediate : ℕ → DecodedInstruction
decode_op_immediate bits =
    let op = op_immediate_op (extract_bits bits 14 12) (extract_bits bits 31 25) in
    let rd = decode_register bits 11 7 in
    if op_eq op invalid then no_instruction else record no_instruction {
      op = op;
      rd = rd;
      rs1 = decode_register bits 19 15;
      immediate =
          if is_shift_immediate op then extract_bits bits 24 20 else decode_I_immediate bits;
      lhs_source = OperandSource.register;
      rhs_source = OperandSource.immediate;
      uses_rs1 = true;
      writes_rd = write_register rd;
    }

unfoldable pub decode_load : ℕ → DecodedInstruction
decode_load bits =
    let op = load_op (extract_bits bits 14 12) in
    let rd = decode_register bits 11 7 in
    if op_eq op invalid then no_instruction else record no_instruction {
      op = op;
      rd = rd;
      rs1 = decode_register bits 19 15;
      immediate = decode_I_immediate bits;
      lhs_source = OperandSource.register;
      rhs_source = OperandSource.immediate;
      is_load = true;
      uses_rs1 = true;
      writes_rd = write_register rd;
    }

unfoldable pub decode_jalr : ℕ → DecodedInstruction
decode_jalr bits =
    let rd = decode_register bits 11 7 in
    if extract_bits bits 14 12 != 0 then no_instruction else record no_instruction {
      op = jalr;
      rd = rd;
      rs1 = decode_register bits 19 15;
      immediate = decode_I_immediate bits;
      lhs_source = OperandSource.register;
      rhs_source = OperandSource.immediate;
      uses_rs1 = true;
      writes_rd = write_register rd;
      is_jump = true;
    }

unfoldable pub decode_I_type : ℕ → DecodedInstruction
decode_I_type bits =
    let opcode = extract_bits bits 6 0 in
    if opcode == 0x13
    then decode_op_immediate bits
    else if opcode == 0x03
    then decode_load bits
    else if opcode == 0x67
    then decode_jalr bits
    else no_instruction

unfoldable pub store_op : ℕ → Op
store_op funct3 =
    if funct3 == 0 then sb else if funct3 == 1 then sh else if funct3 == 2 then sw else invalid

unfoldable pub decode_S_type : ℕ → DecodedInstruction
decode_S_type bits =
    let op = store_op (extract_bits bits 14 12) in
    if op_eq op invalid then no_instruction else record no_instruction {
      op = op;
      rs1 = decode_register bits 19 15;
      rs2 = decode_register bits 24 20;
      immediate = decode_S_immediate bits;
      lhs_source = OperandSource.register;
      rhs_source = OperandSource.immediate;
      uses_rs1 = true;
      uses_rs2 = true;
      is_store = true;
    }

unfoldable pub branch_op : ℕ → Op
branch_op funct3 =
    if funct3 == 0
    then beq
    else if funct3 == 1
    then bne
    else if funct3 == 4
    then blt
    else if funct3 == 5
    then bge
    else if funct3 == 6
    then bltu
    else if funct3 == 7
    then bgeu
    else invalid

unfoldable pub decode_B_type : ℕ → DecodedInstruction
decode_B_type bits =
    let op = branch_op (extract_bits bits 14 12) in
    if op_eq op invalid then no_instruction else record no_instruction {
      op = op;
      rs1 = decode_register bits 19 15;
      rs2 = decode_register bits 24 20;
      immediate = decode_B_immediate bits;
      lhs_source = OperandSource.register;
      rhs_source = OperandSource.register;
      uses_rs1 = true;
      uses_rs2 = true;
      is_branch = true;
    }

unfoldable pub decode_J_type : ℕ → DecodedInstruction
decode_J_type bits =
    let rd = decode_register bits 11 7 in
    record no_instruction {
      op = jal;
      rd = rd;
      immediate = decode_J_immediate bits;
      lhs_source = OperandSource.program_counter;
      rhs_source = OperandSource.immediate;
      writes_rd = write_register rd;
      is_jump = true;
    }

-- The common tail of the LUI and AUIPC cases.
unfoldable pub u_instruction : Op → OperandSource → ℕ → DecodedInstruction
u_instruction op lhs bits =
    let rd = decode_register bits 11 7 in
    record no_instruction {
      op = op;
      rd = rd;
      immediate = decode_U_immediate bits;
      lhs_source = lhs;
      rhs_source = OperandSource.immediate;
      writes_rd = write_register rd;
    }

unfoldable pub decode_U_type : ℕ → DecodedInstruction
decode_U_type bits =
    let opcode = extract_bits bits 6 0 in
    if opcode == 0x37
    then u_instruction lui OperandSource.zero bits
    else if opcode == 0x17
    then u_instruction auipc OperandSource.program_counter bits
    else no_instruction

unfoldable pub decode : ℕ → DecodedInstruction
decode bits =
    let opcode = extract_bits bits 6 0 in
    if bits == 0x0ff00513
    then record no_instruction { op = halt }
    else if opcode == 0x33
    then decode_R_type bits
    else if opcode == 0x03 || opcode == 0x13 || opcode == 0x67
    then decode_I_type bits
    else if opcode == 0x23
    then decode_S_type bits
    else if opcode == 0x63
    then decode_B_type bits
    else if opcode == 0x37 || opcode == 0x17
    then decode_U_type bits
    else if opcode == 0x6f
    then decode_J_type bits
    else no_instruction
