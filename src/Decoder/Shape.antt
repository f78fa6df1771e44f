-- ===== src/Decoder/Shape.antt =====
-- Every word decodes to a well-formed instruction: register numbers and immediates in range, and
-- flags and operand sources that its operation determines.
use risc_v_cpu_simulator.Base.{ℕ, ◌<◌, ◌≡◌}
use risc_v_cpu_simulator.Base.{Bool, true, false, arith, ◌==◌, ◌!=◌, ◌&&◌, if_keeps}
use risc_v_cpu_simulator.Types.{word_mod, extract_bits}
use risc_v_cpu_simulator.Types.Laws.{extract_bits_field}
use risc_v_cpu_simulator.Instruction.{Op, op_eq, OperandSource, DecodedInstruction, no_instruction}
use risc_v_cpu_simulator.Instruction.{lui, auipc}
use risc_v_cpu_simulator.Instruction.{jalr, lb, lh, lw, lbu, lhu}
use risc_v_cpu_simulator.Instruction.{jal}
use risc_v_cpu_simulator.Instruction.{halt, invalid}
use risc_v_cpu_simulator.Decoder.{
  decode, decode_R_type, decode_I_type, decode_S_type, decode_B_type,
}
use risc_v_cpu_simulator.Decoder.{decode_U_type, decode_J_type, decode_op_immediate, decode_load}
use risc_v_cpu_simulator.Decoder.{decode_jalr, u_instruction, decode_register, write_register}
use risc_v_cpu_simulator.Decoder.{
  decode_I_immediate, decode_S_immediate, decode_B_immediate, decode_J_immediate,
  decode_U_immediate,
}
use risc_v_cpu_simulator.Decoder.{r_op, op_immediate_op, load_op, store_op, branch_op}
use risc_v_cpu_simulator.Decoder.Fields.{
  decode_keeps, decode_I_immediate_field, decode_S_immediate_field,
}
use risc_v_cpu_simulator.Decoder.Fields.{decode_B_immediate_field, decode_J_immediate_field}
use risc_v_cpu_simulator.Decoder.Fields.{decode_U_immediate_field}
use risc_v_cpu_simulator.Decoder.Encode.{Format, format, r_type, i_type, shift_type, s_type, b_type}
use risc_v_cpu_simulator.Decoder.Encode.{u_type, j_type, halt_type}

-- What a format fixes: sources of the operands, whether rs1, rs2 are read, whether rd is written.
abbrev pub lhs_of : Op → OperandSource
lhs_of lui = OperandSource.zero
lhs_of auipc = OperandSource.program_counter
lhs_of jal = OperandSource.program_counter
lhs_of halt = OperandSource.zero
lhs_of invalid = OperandSource.zero
lhs_of _ = OperandSource.register

abbrev rhs_of_format : Format → OperandSource
rhs_of_format r_type = OperandSource.register
rhs_of_format b_type = OperandSource.register
rhs_of_format halt_type = OperandSource.zero
rhs_of_format _ = OperandSource.immediate

abbrev pub rhs_of : Op → OperandSource
rhs_of op = rhs_of_format (format op)

abbrev has_rd_format : Format → Bool
has_rd_format r_type = true
has_rd_format i_type = true
has_rd_format shift_type = true
has_rd_format u_type = true
has_rd_format j_type = true
has_rd_format _ = false

abbrev pub has_rd : Op → Bool
has_rd op = has_rd_format (format op)

abbrev pub loads : Op → Bool
loads lb = true
loads lh = true
loads lw = true
loads lbu = true
loads lhu = true
loads _ = false

abbrev stores_format : Format → Bool
stores_format s_type = true
stores_format _ = false

abbrev pub stores : Op → Bool
stores op = stores_format (format op)

abbrev branches_format : Format → Bool
branches_format b_type = true
branches_format _ = false

abbrev pub branches : Op → Bool
branches op = branches_format (format op)

abbrev pub jumps : Op → Bool
jumps jal = true
jumps jalr = true
jumps _ = false

abbrev two_registers_format : Format → Bool
two_registers_format r_type = true
two_registers_format _ = false

abbrev pub two_registers : Op → Bool
two_registers op = two_registers_format (format op)

pub record IsWellFormed (d : DecodedInstruction) : Type 0 where
  pub rd_in : d.rd < 32
  pub rs1_in : d.rs1 < 32
  pub rs2_in : d.rs2 < 32
  pub immediate_in : d.immediate < word_mod
  pub lhs : d.lhs_source ≡ lhs_of d.op
  pub rhs : d.rhs_source ≡ rhs_of d.op
  pub load : d.is_load ≡ loads d.op
  pub store : d.is_store ≡ stores d.op
  pub branch : d.is_branch ≡ branches d.op
  pub jump : d.is_jump ≡ jumps d.op
  pub no_immediate : (two_registers d.op && d.immediate != 0) ≡ false
  pub writes : d.writes_rd ≡ (has_rd d.op && d.rd != 0)

-- What an operation fixes, as one tuple, to state it of each table of operations.
abbrev Fixed : Op → OperandSource → OperandSource → Bool → Bool → Bool → Bool → Bool → Bool → Type 0
Fixed op lhs rhs ld st br jp rd rr =
    (lhs_of op ≡ lhs)
    × (rhs_of op ≡ rhs)
    × (loads op ≡ ld)
    × (stores op ≡ st)
    × (branches op ≡ br)
    × (jumps op ≡ jp)
    × (has_rd op ≡ rd)
    × (two_registers op ≡ rr)

r_op-Fixed :
    (f3 f7 : ℕ)
    → op_eq (r_op f3 f7) invalid ≡ false
    → Fixed
        (r_op f3 f7)
        OperandSource.register
        OperandSource.register
        false
        false
        false
        false
        true
        true
unfolding r_op
r_op-Fixed f3 f7 h = ground arith

op_immediate_op-Fixed :
    (f3 f7 : ℕ)
    → op_eq (op_immediate_op f3 f7) invalid ≡ false
    → Fixed
        (op_immediate_op f3 f7)
        OperandSource.register
        OperandSource.immediate
        false
        false
        false
        false
        true
        false
unfolding op_immediate_op
op_immediate_op-Fixed f3 f7 h = ground arith

load_op-Fixed :
    (f3 : ℕ)
    → op_eq (load_op f3) invalid ≡ false
    → Fixed
        (load_op f3)
        OperandSource.register
        OperandSource.immediate
        true
        false
        false
        false
        true
        false
unfolding load_op
load_op-Fixed f3 h = ground arith

store_op-Fixed :
    (f3 : ℕ)
    → op_eq (store_op f3) invalid ≡ false
    → Fixed
        (store_op f3)
        OperandSource.register
        OperandSource.immediate
        false
        true
        false
        false
        false
        false
unfolding store_op
store_op-Fixed f3 h = ground arith

branch_op-Fixed :
    (f3 : ℕ)
    → op_eq (branch_op f3) invalid ≡ false
    → Fixed
        (branch_op f3)
        OperandSource.register
        OperandSource.register
        false
        false
        true
        false
        false
        false
unfolding branch_op
branch_op-Fixed f3 h = ground arith

abbrev W : DecodedInstruction → Type 0
W = IsWellFormed

nothing : W no_instruction
nothing = ground arith

module _ (b : ℕ) where
  rd_lt : decode_register b 11 7 < 32
  unfolding decode_register
  rd_lt = omega (arith, extract_bits_field b 11 7)

  rs1_lt : decode_register b 19 15 < 32
  unfolding decode_register
  rs1_lt = omega (arith, extract_bits_field b 19 15)

  rs2_lt : decode_register b 24 20 < 32
  unfolding decode_register
  rs2_lt = omega (arith, extract_bits_field b 24 20)

  shift_lt : extract_bits b 24 20 < 32
  shift_lt = omega (arith, extract_bits_field b 24 20)

  immediate_I_lt : decode_I_immediate b < word_mod
  immediate_I_lt = ground (arith, decode_I_immediate_field b)

  immediate_S_lt : decode_S_immediate b < word_mod
  immediate_S_lt = ground (arith, decode_S_immediate_field b)

  immediate_B_lt : decode_B_immediate b < word_mod
  immediate_B_lt = ground (arith, decode_B_immediate_field b)

  immediate_J_lt : decode_J_immediate b < word_mod
  immediate_J_lt = ground (arith, decode_J_immediate_field b)

  R_type-IsWellFormed : W (decode_R_type b)
  unfolding decode_R_type write_register
  R_type-IsWellFormed =
      if_keeps W (op_eq (r_op (extract_bits b 14 12) (extract_bits b 31 25)) invalid) (λ _. nothing)
        λ e.
          ground (
            arith,
            r_op-Fixed (extract_bits b 14 12) (extract_bits b 31 25) e,
            rd_lt,
            rs1_lt,
            rs2_lt,
          )

  op_immediate-IsWellFormed : W (decode_op_immediate b)
  unfolding decode_op_immediate write_register
  op_immediate-IsWellFormed =
      if_keeps W (op_eq (op_immediate_op (extract_bits b 14 12) (extract_bits b 31 25)) invalid)
        (λ _. nothing)
        λ e. ground (
          arith,
          op_immediate_op-Fixed (extract_bits b 14 12) (extract_bits b 31 25) e,
          rd_lt,
          rs1_lt,
          immediate_I_lt,
          shift_lt,
        )

  load-IsWellFormed : W (decode_load b)
  unfolding decode_load write_register
  load-IsWellFormed =
      if_keeps W (op_eq (load_op (extract_bits b 14 12)) invalid) (λ _. nothing)
        λ e. ground (arith, load_op-Fixed (extract_bits b 14 12) e, rd_lt, rs1_lt, immediate_I_lt)

  jalr-IsWellFormed : W (decode_jalr b)
  unfolding decode_jalr write_register
  jalr-IsWellFormed =
      if_keeps W (extract_bits b 14 12 != 0) (λ _. nothing)
        λ _. ground (arith, rd_lt, rs1_lt, immediate_I_lt)

  I_type-IsWellFormed : W (decode_I_type b)
  unfolding decode_I_type
  I_type-IsWellFormed =
      if_keeps W (extract_bits b 6 0 == 0x13) (λ _. op_immediate-IsWellFormed)
        λ _.
          if_keeps W (extract_bits b 6 0 == 0x03) (λ _. load-IsWellFormed)
            λ _. if_keeps W (extract_bits b 6 0 == 0x67) (λ _. jalr-IsWellFormed) λ _. nothing

  S_type-IsWellFormed : W (decode_S_type b)
  unfolding decode_S_type
  S_type-IsWellFormed =
      if_keeps W (op_eq (store_op (extract_bits b 14 12)) invalid) (λ _. nothing)
        λ e. ground (arith, store_op-Fixed (extract_bits b 14 12) e, rs1_lt, rs2_lt, immediate_S_lt)

  B_type-IsWellFormed : W (decode_B_type b)
  unfolding decode_B_type
  B_type-IsWellFormed =
      if_keeps W (op_eq (branch_op (extract_bits b 14 12)) invalid) (λ _. nothing)
        λ e.
          ground (arith, branch_op-Fixed (extract_bits b 14 12) e, rs1_lt, rs2_lt, immediate_B_lt)

  J_type-IsWellFormed : W (decode_J_type b)
  unfolding decode_J_type write_register
  J_type-IsWellFormed = ground (arith, rd_lt, immediate_J_lt)

  module _ (word : b < word_mod) where
    immediate_U_lt : decode_U_immediate b < word_mod
    immediate_U_lt = omega (arith, decode_U_immediate_field b word)

    U_type-IsWellFormed : W (decode_U_type b)
    unfolding decode_U_type u_instruction write_register
    U_type-IsWellFormed =
        if_keeps W (extract_bits b 6 0 == 0x37) (λ _. ground (arith, rd_lt, immediate_U_lt))
          λ _.
            if_keeps W (extract_bits b 6 0 == 0x17) (λ _. ground (arith, rd_lt, immediate_U_lt))
              λ _. nothing

halt-IsWellFormed : W (record no_instruction { op = halt })
halt-IsWellFormed = ground arith

-- Every 32-bit word decodes to a well-formed instruction: register numbers below 32, an immediate
-- below 2 ^ 32, and the operand sources, the load, store, branch and jump flags and the writing of
-- a register other than x0 as the operation requires.
pub decode-IsWellFormed : (b : ℕ) → b < word_mod → IsWellFormed (decode b)
decode-IsWellFormed b word =
    decode_keeps W b (λ _. halt-IsWellFormed) (λ _. R_type-IsWellFormed b) (I_type-IsWellFormed b)
      (λ _. S_type-IsWellFormed b) (λ _. B_type-IsWellFormed b) (λ _. U_type-IsWellFormed b word)
      (λ _. J_type-IsWellFormed b) nothing
