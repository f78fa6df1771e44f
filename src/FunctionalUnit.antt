-- ===== src/FunctionalUnit.antt =====
-- src/tomasulo/functional_unit.cpp: the integer unit with one result register.
pub mod Hold
mod Tests
use risc_v_cpu_simulator.Base.{ℕ, ◌+◌, ◌-◌, ◌*◌, ◌/◌, ◌%◌, ◌^◌, bit_and, bit_or, bit_xor}
use risc_v_cpu_simulator.Base.{
  Bool, true, false, not, ◌||◌, ◌&&◌, ltb, leb, ◌==◌, ◌!=◌, if◌then◌else◌,
}
use risc_v_cpu_simulator.Base.Int.{signed32, ltb_ℤ}
use risc_v_cpu_simulator.Types.{add32, sub32, shl32, shr32, max_word}
use risc_v_cpu_simulator.Instruction.{Op, op_eq}
use risc_v_cpu_simulator.Instruction.{
  lui, auipc, addi, slti, sltiu, xori, ori, andi, slli, srli, srai,
}
use risc_v_cpu_simulator.Instruction.{jalr, lb, lh, lw, lbu, lhu, add, sub, and, xor, or, sll, slt}
use risc_v_cpu_simulator.Instruction.{
  sltu, srl, sra, beq, bne, blt, bge, bltu, bgeu, sb, sh, sw, jal,
}
use risc_v_cpu_simulator.Signals.{Execute, FuResult, no_result}

unfoldable pub sequential_pc : ℕ → ℕ
sequential_pc pc = add32 pc 4

unfoldable pub signed_greater_equal : ℕ → ℕ → Bool
signed_greater_equal lhs rhs = not (ltb_ℤ (signed32 lhs) (signed32 rhs))

unfoldable pub signed_less_than : ℕ → ℕ → Bool
signed_less_than lhs rhs = ltb_ℤ (signed32 lhs) (signed32 rhs)

unfoldable pub arithmetic_shift_right : ℕ → ℕ → ℕ
arithmetic_shift_right value shift =
    let amount = bit_and shift 31 in
    let result = shr32 value amount in
    if amount == 0
    then value
    else (if bit_and value 0x80000000 != 0
        then bit_or result (shl32 max_word (32 - amount))
        else result)

-- `rhs & kShiftMask`
unfoldable pub shift_amount : ℕ → ℕ
shift_amount rhs = bit_and rhs 0x1f

abbrev pub bool_word : Bool → ℕ
bool_word b = if b then 1 else 0

-- The `break` of a case that only sets `result`.
unfoldable pub plain : Execute → ℕ → FuResult
plain e result = record {
  tag = e.tag;
  result = result;
  actual_next_pc = sequential_pc e.pc;
  branch_taken = false;
  has_control_result = false;
  valid = true;
}

-- The `break` of a conditional branch, with what follows the `switch` for it.
unfoldable pub branch : Execute → Bool → FuResult
branch e taken = record {
  tag = e.tag;
  result = 0;
  actual_next_pc = if taken then add32 e.pc e.immediate else sequential_pc e.pc;
  branch_taken = taken;
  has_control_result = true;
  valid = true;
}

unfoldable pub jump : Execute → ℕ → FuResult
jump e target = record {
  tag = e.tag;
  result = sequential_pc e.pc;
  actual_next_pc = target;
  branch_taken = true;
  has_control_result = true;
  valid = true;
}

-- The `switch` of `execute_instruction`, on the operation of `e`.
unfoldable pub execute_op : Op → Execute → FuResult
execute_op add e = plain e (add32 e.operand1 e.operand2)
execute_op addi e = plain e (add32 e.operand1 e.operand2)
execute_op and e = plain e (bit_and e.operand1 e.operand2)
execute_op andi e = plain e (bit_and e.operand1 e.operand2)
execute_op lui e = plain e (add32 e.operand1 e.operand2)
execute_op auipc e = plain e (add32 e.operand1 e.operand2)
execute_op beq e = branch e (e.operand1 == e.operand2)
execute_op bge e = branch e (signed_greater_equal e.operand1 e.operand2)
execute_op bgeu e = branch e (leb e.operand2 e.operand1)
execute_op blt e = branch e (signed_less_than e.operand1 e.operand2)
execute_op bltu e = branch e (ltb e.operand1 e.operand2)
execute_op bne e = branch e (e.operand1 != e.operand2)
execute_op jal e = jump e (add32 e.pc e.immediate)
execute_op jalr e = jump e (bit_and (add32 e.operand1 e.immediate) 0xfffffffe)
execute_op or e = plain e (bit_or e.operand1 e.operand2)
execute_op ori e = plain e (bit_or e.operand1 e.operand2)
execute_op sll e = plain e (shl32 e.operand1 (shift_amount e.operand2))
execute_op slli e = plain e (shl32 e.operand1 (shift_amount e.operand2))
execute_op sltu e = plain e (bool_word (ltb e.operand1 e.operand2))
execute_op sltiu e = plain e (bool_word (ltb e.operand1 e.operand2))
execute_op slt e = plain e (bool_word (signed_less_than e.operand1 e.operand2))
execute_op slti e = plain e (bool_word (signed_less_than e.operand1 e.operand2))
execute_op sra e = plain e (arithmetic_shift_right e.operand1 (shift_amount e.operand2))
execute_op srai e = plain e (arithmetic_shift_right e.operand1 (shift_amount e.operand2))
execute_op srl e = plain e (shr32 e.operand1 (shift_amount e.operand2))
execute_op srli e = plain e (shr32 e.operand1 (shift_amount e.operand2))
execute_op sub e = plain e (sub32 e.operand1 e.operand2)
execute_op xor e = plain e (bit_xor e.operand1 e.operand2)
execute_op xori e = plain e (bit_xor e.operand1 e.operand2)
execute_op _ e = no_result

unfoldable pub execute_instruction : Execute → FuResult
execute_instruction e = execute_op e.op e

pub record FunctionalUnit : Type 0 where
  pub current_result : FuResult
  pub next_result : FuResult

-- What `reset()` leaves.
abbrev pub reset : FunctionalUnit
reset = record { current_result = no_result; next_result = no_result }

unfoldable pub latch : FunctionalUnit → FunctionalUnit
latch u = record u { current_result = u.next_result }

unfoldable pub can_accept : FunctionalUnit → Bool → Bool
can_accept u result_accepted = result_accepted || not u.current_result.valid

-- Returns whether the instruction was accepted. A computed result that is not valid trips an
-- assertion in the source; with assertions off it is refused, as here.
unfoldable pub apply : FunctionalUnit → Execute → Bool → Bool → FunctionalUnit × Bool
apply u e flush result_accepted =
    let kept = if result_accepted && u.current_result.valid then no_result else u.current_result in
    let computed = execute_instruction e in
    if flush
    then (record u { next_result = no_result }, false)
    else (if not e.valid
        then (record u { next_result = kept }, false)
        else (if not (can_accept u result_accepted)
            then (record u { next_result = kept }, false)
            else (if not computed.valid
                then (record u { next_result = kept }, false)
                else (record u { next_result = computed }, true))))
