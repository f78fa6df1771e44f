-- ===== src/Decoder/Encode.antt =====
-- The instruction formats of the RV32I manual, written as an encoder: the independent description
-- that src/isa/decoder.cpp is compared with.
use risc_v_cpu_simulator.Base.{ℕ, ◌+◌, ◌*◌, ◌/◌, ◌%◌, ◌^◌}
use risc_v_cpu_simulator.Instruction.{Op, DecodedInstruction}
use risc_v_cpu_simulator.Instruction.{
  lui, auipc, addi, slti, sltiu, xori, ori, andi, slli, srli, srai,
}
use risc_v_cpu_simulator.Instruction.{jalr, lb, lh, lw, lbu, lhu, sub, and, xor, or, sll, slt}
use risc_v_cpu_simulator.Instruction.{
  sltu, srl, sra, beq, bne, blt, bge, bltu, bgeu, sb, sh, sw, jal,
}
use risc_v_cpu_simulator.Instruction.{halt, invalid}

pub data Format : Type 0 where
  r_type i_type shift_type s_type b_type u_type j_type halt_type : Format

abbrev pub format : Op → Format
format lui = u_type
format auipc = u_type
format slli = shift_type
format srli = shift_type
format srai = shift_type
format addi = i_type
format slti = i_type
format sltiu = i_type
format xori = i_type
format ori = i_type
format andi = i_type
format jalr = i_type
format lb = i_type
format lh = i_type
format lw = i_type
format lbu = i_type
format lhu = i_type
format beq = b_type
format bne = b_type
format blt = b_type
format bge = b_type
format bltu = b_type
format bgeu = b_type
format sb = s_type
format sh = s_type
format sw = s_type
format jal = j_type
format halt = halt_type
format invalid = halt_type
format _ = r_type

abbrev pub opcode : Op → ℕ
opcode lui = 0b0110111
opcode auipc = 0b0010111
opcode jal = 0b1101111
opcode jalr = 0b1100111
opcode lb = 0b0000011
opcode lh = 0b0000011
opcode lw = 0b0000011
opcode lbu = 0b0000011
opcode lhu = 0b0000011
opcode beq = 0b1100011
opcode bne = 0b1100011
opcode blt = 0b1100011
opcode bge = 0b1100011
opcode bltu = 0b1100011
opcode bgeu = 0b1100011
opcode sb = 0b0100011
opcode sh = 0b0100011
opcode sw = 0b0100011
opcode addi = 0b0010011
opcode slti = 0b0010011
opcode sltiu = 0b0010011
opcode xori = 0b0010011
opcode ori = 0b0010011
opcode andi = 0b0010011
opcode slli = 0b0010011
opcode srli = 0b0010011
opcode srai = 0b0010011
opcode halt = 0
opcode invalid = 0
opcode _ = 0b0110011

abbrev pub funct3 : Op → ℕ
funct3 sub = 0b000
funct3 sll = 0b001
funct3 slli = 0b001
funct3 bne = 0b001
funct3 lh = 0b001
funct3 sh = 0b001
funct3 slt = 0b010
funct3 slti = 0b010
funct3 lw = 0b010
funct3 sw = 0b010
funct3 sltu = 0b011
funct3 sltiu = 0b011
funct3 xor = 0b100
funct3 xori = 0b100
funct3 blt = 0b100
funct3 lbu = 0b100
funct3 srl = 0b101
funct3 sra = 0b101
funct3 srli = 0b101
funct3 srai = 0b101
funct3 bge = 0b101
funct3 lhu = 0b101
funct3 or = 0b110
funct3 ori = 0b110
funct3 bltu = 0b110
funct3 and = 0b111
funct3 andi = 0b111
funct3 bgeu = 0b111
funct3 _ = 0b000

abbrev pub funct7 : Op → ℕ
funct7 sub = 0b0100000
funct7 sra = 0b0100000
funct7 srai = 0b0100000
funct7 _ = 0b0000000

abbrev pub encode_as : Format → DecodedInstruction → ℕ
encode_as r_type d =
    funct7 d.op * 2 ^ 25
    + d.rs2 * 2 ^ 20
    + d.rs1 * 2 ^ 15
    + funct3 d.op * 2 ^ 12
    + d.rd * 2 ^ 7
    + opcode d.op
encode_as i_type d =
    d.immediate % 2 ^ 12 * 2 ^ 20
    + d.rs1 * 2 ^ 15
    + funct3 d.op * 2 ^ 12
    + d.rd * 2 ^ 7
    + opcode d.op
encode_as shift_type d =
    funct7 d.op * 2 ^ 25
    + d.immediate * 2 ^ 20
    + d.rs1 * 2 ^ 15
    + funct3 d.op * 2 ^ 12
    + d.rd * 2 ^ 7
    + opcode d.op
encode_as s_type d =
    d.immediate / 2 ^ 5 % 2 ^ 7 * 2 ^ 25
    + d.rs2 * 2 ^ 20
    + d.rs1 * 2 ^ 15
    + funct3 d.op * 2 ^ 12
    + d.immediate % 2 ^ 5 * 2 ^ 7
    + opcode d.op
encode_as b_type d =
    d.immediate / 2 ^ 12 % 2 * 2 ^ 31
    + d.immediate / 2 ^ 5 % 2 ^ 6 * 2 ^ 25
    + d.rs2 * 2 ^ 20
    + d.rs1 * 2 ^ 15
    + funct3 d.op * 2 ^ 12
    + d.immediate / 2 % 2 ^ 4 * 2 ^ 8
    + d.immediate / 2 ^ 11 % 2 * 2 ^ 7
    + opcode d.op
encode_as u_type d = d.immediate / 2 ^ 12 * 2 ^ 12 + d.rd * 2 ^ 7 + opcode d.op
encode_as j_type d =
    d.immediate / 2 ^ 20 % 2 * 2 ^ 31
    + d.immediate / 2 % 2 ^ 10 * 2 ^ 21
    + d.immediate / 2 ^ 11 % 2 * 2 ^ 20
    + d.immediate / 2 ^ 12 % 2 ^ 8 * 2 ^ 12
    + d.rd * 2 ^ 7
    + opcode d.op
encode_as halt_type d = 0x0ff00513

-- The word of an instruction; the simulator's stop marker has the word that it is defined by.
unfoldable pub encode : DecodedInstruction → ℕ
encode d = encode_as (format d.op) d
