-- ===== src/Instruction.antt =====
-- include/isa/instruction.hpp: operations, operand sources and the result of decoding.
use risc_v_cpu_simulator.Base.{ℕ, Bool, false, ◌==◌}

-- `OP`, in the order of the declaration.
pub data Op : Type 0 where
  lui auipc : Op
  addi slti sltiu xori ori andi slli srli srai jalr lb lh lw lbu lhu : Op
  add sub and xor or sll slt sltu srl sra : Op
  beq bne blt bge bltu bgeu : Op
  sb sh sw : Op
  jal : Op
  halt invalid : Op

-- The number of an enumerator, by which `==` compares.
abbrev pub op_code : Op → ℕ
op_code lui = 0
op_code auipc = 1
op_code addi = 2
op_code slti = 3
op_code sltiu = 4
op_code xori = 5
op_code ori = 6
op_code andi = 7
op_code slli = 8
op_code srli = 9
op_code srai = 10
op_code jalr = 11
op_code lb = 12
op_code lh = 13
op_code lw = 14
op_code lbu = 15
op_code lhu = 16
op_code add = 17
op_code sub = 18
op_code and = 19
op_code xor = 20
op_code or = 21
op_code sll = 22
op_code slt = 23
op_code sltu = 24
op_code srl = 25
op_code sra = 26
op_code beq = 27
op_code bne = 28
op_code blt = 29
op_code bge = 30
op_code bltu = 31
op_code bgeu = 32
op_code sb = 33
op_code sh = 34
op_code sw = 35
op_code jal = 36
op_code halt = 37
op_code invalid = 38

-- `lhs == rhs` on operations.
abbrev pub op_eq : Op → Op → Bool
op_eq a b = op_code a == op_code b

pub data OperandSource : Type 0 where
  immediate register program_counter zero : OperandSource

pub record DecodedInstruction : Type 0 where
  pub op : Op
  pub rd : ℕ
  pub rs1 : ℕ
  pub rs2 : ℕ
  pub immediate : ℕ
  pub lhs_source : OperandSource
  pub rhs_source : OperandSource
  pub uses_rs1 : Bool
  pub uses_rs2 : Bool
  pub writes_rd : Bool
  pub is_load : Bool
  pub is_store : Bool
  pub is_branch : Bool
  pub is_jump : Bool

-- `DecodedInstruction{}`
abbrev pub no_instruction : DecodedInstruction
no_instruction = record {
  op = invalid;
  rd = 0;
  rs1 = 0;
  rs2 = 0;
  immediate = 0;
  lhs_source = OperandSource.zero;
  rhs_source = OperandSource.zero;
  uses_rs1 = false;
  uses_rs2 = false;
  writes_rd = false;
  is_load = false;
  is_store = false;
  is_branch = false;
  is_jump = false;
}
