-- ===== src/Interpreter.antt =====
-- include/reference/interpreter.hpp and src/reference/interpreter.cpp: the sequential interpreter
-- that the pipeline is compared with.
pub mod Effects
pub mod Invariant
pub mod Stop
mod Tests
use risc_v_cpu_simulator.Base.{ℕ, zero, suc, ◌+◌, ◌-◌, ◌*◌, ◌/◌, ◌%◌, ◌^◌, bit_and, bit_or, bit_xor}
use risc_v_cpu_simulator.Base.{
  Bool, true, false, not, ◌||◌, ◌&&◌, ltb, leb, ◌==◌, ◌!=◌, if◌then◌else◌,
}
use risc_v_cpu_simulator.Base.{Option, none, some, Array, update, fill}
use risc_v_cpu_simulator.Base.Int.{signed32, ltb_ℤ}
use risc_v_cpu_simulator.Types.{add32, sub32, shl32, shr32, max_word, sign_extend}
use risc_v_cpu_simulator.Instruction.{Op, op_eq, DecodedInstruction}
use risc_v_cpu_simulator.Instruction.{
  lui, auipc, addi, slti, sltiu, xori, ori, andi, slli, srli, srai,
}
use risc_v_cpu_simulator.Instruction.{jalr, lb, lh, lw, lbu, lhu, add, sub, and, xor, or, sll, slt}
use risc_v_cpu_simulator.Instruction.{
  sltu, srl, sra, beq, bne, blt, bge, bltu, bgeu, sb, sh, sw, jal,
}
use risc_v_cpu_simulator.Instruction.{halt, invalid}
use risc_v_cpu_simulator.Decoder.{decode}
use risc_v_cpu_simulator.Image
use risc_v_cpu_simulator.Image.{
  MemoryImage, read_byte, read_half, read_word, write_byte, write_half,
}
use risc_v_cpu_simulator.Image.{write_word, Token, FromChars, Input, ImageLoadResult, load_ok}

pub data Status : Type 0 where
  not_loaded ready running halted load_error fetch_out_of_bounds invalid_instruction : Status
  memory_out_of_bounds : Status

pub record Interpreter : Type 0 where
  pub memory : MemoryImage
  pub registers : Array ℕ
  pub status : Status
  pub pc : ℕ
  pub instruction_count : ℕ
  pub exit_code : ℕ

abbrev pub new_interpreter : Interpreter
new_interpreter = record {
  memory = Image.clear;
  registers = fill 0;
  status = not_loaded;
  pc = 0;
  instruction_count = 0;
  exit_code = 0;
}

pub record StepResult : Type 0 where
  pub status : Status
  pub value : ℕ

unfoldable pub current_result : Interpreter → StepResult
current_result s = record { status = s.status; value = s.exit_code }

-- `status == kReady || status == kRunning`
unfoldable pub can_run : Status → Bool
can_run ready = true
can_run running = true
can_run _ = false

unfoldable pub arithmetic_shift_right : ℕ → ℕ → ℕ
arithmetic_shift_right value shift =
    let amount = bit_and shift 31 in
    let result = shr32 value amount in
    if amount == 0
    then value
    else (if bit_and value 0x80000000 != 0
        then bit_or result (shl32 max_word (32 - amount))
        else result)

unfoldable pub signed_less_than : ℕ → ℕ → Bool
signed_less_than lhs rhs = ltb_ℤ (signed32 lhs) (signed32 rhs)

unfoldable pub signed_greater_equal : ℕ → ℕ → Bool
signed_greater_equal lhs rhs = not (ltb_ℤ (signed32 lhs) (signed32 rhs))

unfoldable pub load : (Token → FromChars) → Interpreter → Input → Interpreter × ImageLoadResult
load from_chars s input =
    let (image, result) = Image.load from_chars input in
    (
      record {
        memory = image;
        registers = fill 0;
        status = if load_ok result then ready else load_error;
        pc = 0;
        instruction_count = 0;
        exit_code = 0;
      },
      result,
    )

-- How the `switch` of `step` ends: with `writeback_value`, `has_writeback`, `next_pc` and the memory
-- set, or by an early return with a status.
pub data Effect : Type 0 where
  done : ℕ → Bool → ℕ → MemoryImage → Effect
  stop : Status → Effect

-- The inputs of the `switch`.
pub record Inputs : Type 0 where
  pub memory : MemoryImage
  pub cur_pc : ℕ
  pub immediate : ℕ
  pub rs1_value : ℕ
  pub rs2_value : ℕ

unfoldable pub next_of : Inputs → ℕ
next_of i = add32 i.cur_pc 4

unfoldable pub writeback : Inputs → ℕ → Effect
writeback i value = done value true (next_of i) i.memory

unfoldable pub branch_if : Inputs → Bool → Effect
branch_if i taken = done 0 false (if taken then add32 i.cur_pc i.immediate else next_of i) i.memory

abbrev pub bool_word : Bool → ℕ
bool_word b = if b then 1 else 0

-- A load: what was read, or the fault; `extend` is the conversion of the raw value.
unfoldable pub load_if : Inputs → (ℕ → ℕ) → Option ℕ → Effect
load_if i extend none = stop memory_out_of_bounds
load_if i extend (some value) = writeback i (extend value)

unfoldable pub store_if : Inputs → MemoryImage × Bool → Effect
store_if i (memory, written) =
    if not written then stop memory_out_of_bounds else done 0 false (next_of i) memory

unfoldable pub execute : Op → Inputs → Effect
execute lui i = writeback i i.immediate
execute auipc i = writeback i (add32 i.cur_pc i.immediate)
execute addi i = writeback i (add32 i.rs1_value i.immediate)
execute slt i = writeback i (bool_word (signed_less_than i.rs1_value i.immediate))
execute slti i = writeback i (bool_word (signed_less_than i.rs1_value i.immediate))
execute sltu i = writeback i (bool_word (ltb i.rs1_value i.immediate))
execute sltiu i = writeback i (bool_word (ltb i.rs1_value i.immediate))
execute xori i = writeback i (bit_xor i.rs1_value i.immediate)
execute ori i = writeback i (bit_or i.rs1_value i.immediate)
execute andi i = writeback i (bit_and i.rs1_value i.immediate)
execute slli i = writeback i (shl32 i.rs1_value (bit_and i.immediate 0x1f))
execute srli i = writeback i (shr32 i.rs1_value (bit_and i.immediate 0x1f))
execute srai i = writeback i (arithmetic_shift_right i.rs1_value (bit_and i.immediate 0x1f))
execute add i = writeback i (add32 i.rs1_value i.rs2_value)
execute sub i = writeback i (sub32 i.rs1_value i.rs2_value)
execute and i = writeback i (bit_and i.rs1_value i.rs2_value)
execute xor i = writeback i (bit_xor i.rs1_value i.rs2_value)
execute or i = writeback i (bit_or i.rs1_value i.rs2_value)
execute sll i = writeback i (shl32 i.rs1_value (bit_and i.rs2_value 0x1f))
execute srl i = writeback i (shr32 i.rs1_value (bit_and i.rs2_value 0x1f))
execute sra i = writeback i (arithmetic_shift_right i.rs1_value (bit_and i.rs2_value 0x1f))
execute jal i = done (next_of i) true (add32 i.cur_pc i.immediate) i.memory
execute jalr i = done (next_of i) true (bit_and (add32 i.rs1_value i.immediate) 0xfffffffe) i.memory
execute beq i = branch_if i (i.rs1_value == i.rs2_value)
execute bne i = branch_if i (i.rs1_value != i.rs2_value)
execute blt i = branch_if i (signed_less_than i.rs1_value i.rs2_value)
execute bge i = branch_if i (signed_greater_equal i.rs1_value i.rs2_value)
execute bltu i = branch_if i (ltb i.rs1_value i.rs2_value)
execute bgeu i = branch_if i (leb i.rs2_value i.rs1_value)
execute lb i = load_if i (λ v. sign_extend v 8) (read_byte i.memory (add32 i.rs1_value i.immediate))
execute lh i =
    load_if i (λ v. sign_extend v 16) (read_half i.memory (add32 i.rs1_value i.immediate))
execute lw i = load_if i (λ v. v) (read_word i.memory (add32 i.rs1_value i.immediate))
execute lbu i = load_if i (λ v. v) (read_byte i.memory (add32 i.rs1_value i.immediate))
execute lhu i = load_if i (λ v. v) (read_half i.memory (add32 i.rs1_value i.immediate))
execute sb i =
    store_if i (write_byte i.memory (add32 i.rs1_value i.immediate) (bit_and i.rs2_value 0xff))
execute sh i =
    store_if i (write_half i.memory (add32 i.rs1_value i.immediate) (bit_and i.rs2_value 0xffff))
execute sw i = store_if i (write_word i.memory (add32 i.rs1_value i.immediate) i.rs2_value)
execute invalid i = stop invalid_instruction
execute halt i = stop invalid_instruction

-- What follows the `switch`: write back, `register_[0] = 0`, count, go on.
unfoldable pub retire : Interpreter → ℕ → Effect → Interpreter
retire s rd (stop status) = record s { status = status }
retire s rd (done value has_writeback next_pc memory) =
    let written = if has_writeback && rd != 0 then update s.registers rd value else s.registers in
    record {
      memory = memory;
      registers = update written 0 0;
      status = running;
      pc = next_pc;
      instruction_count = (s.instruction_count + 1) % 2 ^ 64;
      exit_code = s.exit_code;
    }

-- The inputs that `step` hands to the `switch`.
unfoldable pub inputs_of : Interpreter → DecodedInstruction → Inputs
inputs_of s d = record {
  memory = s.memory;
  cur_pc = s.pc;
  immediate = d.immediate;
  rs1_value = s.registers d.rs1;
  rs2_value = s.registers d.rs2;
}

-- `step` once an instruction is fetched and decoded.
unfoldable pub step_decoded : Interpreter → DecodedInstruction → Interpreter
step_decoded s d =
    if op_eq d.op halt
    then record s { status = halted; exit_code = bit_and (s.registers 10) 0xff }
    else (if op_eq d.op invalid
        then record s { status = invalid_instruction }
        else retire s d.rd (execute d.op (inputs_of s d)))

-- `step`; its result is `current_result` of the state that it leaves.
unfoldable pub step : Interpreter → Interpreter
step s = if not (can_run s.status) then s else elim (read_word s.memory s.pc) [
  | none ↦ record s { status = fetch_out_of_bounds }
  | some word ↦ step_decoded s (decode word)
]

-- The `do ... while` of `run` with fuel; `none` when the fuel runs out.
unfoldable pub run_loop : ℕ → Interpreter → Option Interpreter
run_loop zero s = none
run_loop (suc fuel) s =
    let s' = step s in elim (s'.status) [ running ↦ run_loop fuel s' | _ ↦ some s' ]

unfoldable pub run : ℕ → Interpreter → Option Interpreter
run fuel s = if not (can_run s.status) then some s else run_loop fuel s
