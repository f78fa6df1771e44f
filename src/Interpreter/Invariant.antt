-- ===== src/Interpreter/Invariant.antt =====
-- src/reference/interpreter.cpp: what every step keeps.
use risc_v_cpu_simulator.Base.{ℕ, ◌+◌, ◌^◌, ◌<◌, ◌≡◌, refl, arith, bit_and}
use risc_v_cpu_simulator.Base.{not, leb, if_keeps, Option, none, some}
use risc_v_cpu_simulator.Base.Bits.{bit_and_mask}
use risc_v_cpu_simulator.Types.{word_mod}
use risc_v_cpu_simulator.Instruction.{op_eq, DecodedInstruction}
use risc_v_cpu_simulator.Instruction.{halt, invalid}
use risc_v_cpu_simulator.Decoder.{decode}
use risc_v_cpu_simulator.Decoder.Shape.{decode-IsWellFormed}
use risc_v_cpu_simulator.Image.{memory_size}
use risc_v_cpu_simulator.Image.Access.{IsBytes, read_lem}
use risc_v_cpu_simulator.Interpreter.{Interpreter, Effect, done, stop, retire, inputs_of}
use risc_v_cpu_simulator.Interpreter.{step, step_decoded}
use risc_v_cpu_simulator.Interpreter.{
  can_run, Status, halted, fetch_out_of_bounds, invalid_instruction,
}
use risc_v_cpu_simulator.Interpreter.Effects.{Fits, execute-Fits, read_in}

-- The state that the types and the code of the interpreter allow: bytes in the memory, words in the
-- registers and in the program counter, zero in x0, a 64-bit count, and an exit code of one byte.
pub record IsMachine (s : Interpreter) : Type 0 where
  pub bytes : IsBytes s.memory
  pub words : (k : ℕ) → s.registers k < word_mod
  pub x0 : s.registers 0 ≡ 0
  pub pc_in : s.pc < word_mod
  pub count_in : s.instruction_count < 2 ^ 64
  pub code_in : s.exit_code < 256

retire-IsMachine :
    (s : Interpreter) (rd : ℕ) (e : Effect) → IsMachine s → Fits e → IsMachine (retire s rd e)
unfolding retire
retire-IsMachine s rd (stop status) v f = record {
  bytes = v.bytes;
  words = v.words;
  x0 = v.x0;
  pc_in = v.pc_in;
  count_in = v.count_in;
  code_in = v.code_in;
}
retire-IsMachine s rd (done value has_writeback next_pc memory) v f = record {
  bytes = f.2;
  words = λ k. ground (arith, v.words k, f.0);
  x0 = refl;
  pc_in = f.1;
  count_in = omega arith;
  code_in = v.code_in;
}

with_status-IsMachine :
    (s : Interpreter) (status : Status) (code : ℕ)
    → IsMachine s
    → code < 256
    → IsMachine (record s { status = status; exit_code = code })
with_status-IsMachine s status code v h = record {
  bytes = v.bytes;
  words = v.words;
  x0 = v.x0;
  pc_in = v.pc_in;
  count_in = v.count_in;
  code_in = h;
}

decoded-IsMachine :
    (s : Interpreter) (d : DecodedInstruction)
    → IsMachine s
    → d.immediate < word_mod
    → IsMachine (step_decoded s d)
unfolding step_decoded inputs_of
decoded-IsMachine s d v h =
    if_keeps IsMachine (op_eq d.op halt)
      (λ _.
        with_status-IsMachine s halted (bit_and (s.registers 10) 0xff) v
          (omega (arith, bit_and_mask 8 (s.registers 10))))
      λ _.
        if_keeps IsMachine (op_eq d.op invalid)
          (λ _. with_status-IsMachine s invalid_instruction s.exit_code v v.code_in)
          λ _. retire-IsMachine s d.rd _ v (
            execute-Fits (inputs_of s d)
              (record {
                bytes = v.bytes;
                immediate_in = h;
                rs1_in = v.words d.rs1;
                rs2_in = v.words d.rs2;
              })
              d.op)

-- Every step keeps bytes in the memory, words in the registers and in the program counter, zero in
-- x0, the count below 2 ^ 64 and the exit code below 256, whatever program it runs and however it
-- ends.
pub step-IsMachine : (s : Interpreter) → IsMachine s → IsMachine (step s)
unfolding step
step-IsMachine s v =
    if_keeps IsMachine (not (can_run s.status)) (λ _. v)
      λ _. rw (read_lem s.memory s.pc v.bytes).2 (
        read_in s.memory s.pc v.bytes 4 (omega arith) fetched
          (with_status-IsMachine s fetch_out_of_bounds s.exit_code v v.code_in)
          (λ word h. decoded-IsMachine s (decode word) v (decode-IsWellFormed word h).immediate_in)
          (leb (s.pc + 4) memory_size))
  where
    fetched : Option ℕ → Type 0
    fetched o = IsMachine (elim o [
      | none ↦ record s { status = fetch_out_of_bounds }
      | some word ↦ step_decoded s (decode word)
    ])
