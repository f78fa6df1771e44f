-- ===== src/Interpreter/Effects.antt =====
-- src/reference/interpreter.cpp: every operation computes words from words, and bytes from bytes.
use risc_v_cpu_simulator.Base.{ℕ, zero, suc, ◌+◌, ◌%◌, ◌^◌, ◌≤◌, ◌<◌, ◌≡◌, inl, inr, arith, bit_and}
use risc_v_cpu_simulator.Base.{Bool, leb, if◌then◌else◌, if_keeps, Option, none, some, ◌-◌, ap}
use risc_v_cpu_simulator.Base.Bits.{bit_or-bound, bit_xor-bound, bit_and-le, bit_and_mask}
use risc_v_cpu_simulator.Types.{
  add32, shl32, shr32, max_word, word_mod, sign_extend, bit_mask, not32,
}
use risc_v_cpu_simulator.Instruction.{Op}
use risc_v_cpu_simulator.Instruction.{
  lui, auipc, addi, slti, sltiu, xori, ori, andi, slli, srli, srai,
}
use risc_v_cpu_simulator.Instruction.{jalr, lb, lh, lw, lbu, lhu, add, sub, and, xor, or, sll, slt}
use risc_v_cpu_simulator.Instruction.{
  sltu, srl, sra, beq, bne, blt, bge, bltu, bgeu, sb, sh, sw, jal,
}
use risc_v_cpu_simulator.Instruction.{halt, invalid}
use risc_v_cpu_simulator.Image.{MemoryImage, memory_size, write_byte}
use risc_v_cpu_simulator.Image.Access.{IsBytes, read_lem, write_lem, little_endian, Outcome}
use risc_v_cpu_simulator.Interpreter.{Effect, done, stop, Inputs, execute}
use risc_v_cpu_simulator.Interpreter.{writeback, next_of, branch_if, load_if, store_if}
use risc_v_cpu_simulator.Interpreter.{arithmetic_shift_right, bool_word}
use native.Mathlib.Nat.{div-le_self}

-- An effect keeps words words and bytes bytes.
abbrev pub Fits : Effect → Type 0
Fits (done value has_writeback next_pc memory) =
    (value < word_mod) × (next_pc < word_mod) × IsBytes memory
Fits (stop status) = Unit

pub record IsInputs (i : Inputs) : Type 0 where
  pub bytes : IsBytes i.memory
  pub immediate_in : i.immediate < word_mod
  pub rs1_in : i.rs1_value < word_mod
  pub rs2_in : i.rs2_value < word_mod

shr32_in : (v n : ℕ) → v < word_mod → shr32 v n < word_mod
shr32_in v n h = omega (arith, div-le_self v (2 ^ n))

arithmetic_shift_right_in : (v n : ℕ) → v < word_mod → arithmetic_shift_right v n < word_mod
unfolding arithmetic_shift_right
arithmetic_shift_right_in v n h =
    let k = bit_and n 31 in
    ground (
      arith,
      shr32_in v k h,
      bit_or-bound 32 (shr32 v k) (shl32 max_word (32 - k)) (shr32_in v k h) (omega arith),
    )

sign_extend_in : (v n : ℕ) → v < word_mod → sign_extend v n < word_mod
unfolding sign_extend
sign_extend_in v n h =
    let low = bit_and v (bit_mask n) in
    let below = bit_and-le v (bit_mask n) in
    ground
      (arith, below, bit_or-bound 32 low (not32 (bit_mask n)) (omega (arith, below)) (omega arith))

-- A value that was read is a word.
module _ (m : MemoryImage) (a : ℕ) (v : IsBytes m) where
  four_in : little_endian m a 4 < word_mod
  four_in = omega (arith, v a, v (a + 1), v (a + 2), v (a + 3))

  pub read_in :
      (width : ℕ)
      → width ≤ 4
      → (Q : Option ℕ → Type 0) → Q none
      → ((n : ℕ) → n < word_mod → Q (some n))
      → (t : Bool) → Q (if t then some (little_endian m a width) else none)
  read_in width h Q nothing just t =
      if_keeps Q t (λ _. just (little_endian m a width) (below width h)) (λ _. nothing)
    where
      below : (width : ℕ) → width ≤ 4 → little_endian m a width < word_mod
      below zero h = omega arith
      below (suc zero) h = omega (arith, v a)
      below (suc (suc zero)) h = omega (arith, v a, v (a + 1))
      below (suc (suc (suc zero))) h = omega (arith, v a, v (a + 1), v (a + 2))
      below (suc (suc (suc (suc zero)))) h = four_in
      below (suc (suc (suc (suc (suc n))))) h = absurd (omega arith)

module _ (i : Inputs) (v : IsInputs i) where
  next_in : next_of i < word_mod
  unfolding next_of
  next_in = omega arith

  writeback-Fits : (n : ℕ) → n < word_mod → Fits (writeback i n)
  unfolding writeback
  writeback-Fits n h = (h, next_in, v.bytes)

  branch-Fits : (taken : Bool) → Fits (branch_if i taken)
  unfolding branch_if next_of
  branch-Fits taken = (omega arith, ground arith, v.bytes)

  bool-Fits : (t : Bool) → Fits (writeback i (bool_word t))
  bool-Fits t = writeback-Fits (bool_word t) (ground arith)

  load-Fits :
      (width : ℕ) (extend : ℕ → ℕ) (a : ℕ) (o : Option ℕ)
      → width ≤ 4
      → o ≡ (if leb (a + width) memory_size then some (little_endian i.memory a width) else none)
      → ((n : ℕ) → n < word_mod → extend n < word_mod)
      → Fits (load_if i extend o)
  unfolding load_if
  load-Fits width extend a o h e f = rw e (
      read_in i.memory a v.bytes width h (λ o. Fits (load_if i extend o)) tt
        (λ n p. writeback-Fits (extend n) (f n p)) (leb (a + width) memory_size))

  store-Fits :
      (a width value : ℕ) (r : MemoryImage × Bool)
      → Outcome i.memory a width value r
      → Fits (store_if i r)
  unfolding store_if
  store-Fits a width value (m, written) (inl h) = rw h.1 (omega arith, next_in, h.2.bytes)
  store-Fits a width value (m, written) (inr h) = rw (ap (λ r. r.1) h.1) tt

  abbrev address : ℕ
  address = add32 i.rs1_value i.immediate

  pub execute-Fits : (op : Op) → Fits (execute op i)
  unfolding execute
  execute-Fits lui = writeback-Fits i.immediate v.immediate_in
  execute-Fits auipc = writeback-Fits _ (omega arith)
  execute-Fits addi = writeback-Fits _ (omega arith)
  execute-Fits slt = bool-Fits _
  execute-Fits slti = bool-Fits _
  execute-Fits sltu = bool-Fits _
  execute-Fits sltiu = bool-Fits _
  execute-Fits xori =
      writeback-Fits _ (bit_xor-bound 32 i.rs1_value i.immediate v.rs1_in v.immediate_in)
  execute-Fits ori =
      writeback-Fits _ (bit_or-bound 32 i.rs1_value i.immediate v.rs1_in v.immediate_in)
  execute-Fits andi = writeback-Fits _ (omega (arith, bit_and-le i.rs1_value i.immediate, v.rs1_in))
  execute-Fits slli = writeback-Fits _ (omega arith)
  execute-Fits srli = writeback-Fits _ (shr32_in i.rs1_value (bit_and i.immediate 0x1f) v.rs1_in)
  execute-Fits srai =
      writeback-Fits _ (arithmetic_shift_right_in i.rs1_value (bit_and i.immediate 0x1f) v.rs1_in)
  execute-Fits add = writeback-Fits _ (omega arith)
  execute-Fits sub = writeback-Fits _ (omega arith)
  execute-Fits and = writeback-Fits _ (omega (arith, bit_and-le i.rs1_value i.rs2_value, v.rs1_in))
  execute-Fits xor = writeback-Fits _ (bit_xor-bound 32 i.rs1_value i.rs2_value v.rs1_in v.rs2_in)
  execute-Fits or = writeback-Fits _ (bit_or-bound 32 i.rs1_value i.rs2_value v.rs1_in v.rs2_in)
  execute-Fits sll = writeback-Fits _ (omega arith)
  execute-Fits srl = writeback-Fits _ (shr32_in i.rs1_value (bit_and i.rs2_value 0x1f) v.rs1_in)
  execute-Fits sra =
      writeback-Fits _ (arithmetic_shift_right_in i.rs1_value (bit_and i.rs2_value 0x1f) v.rs1_in)
  execute-Fits jal = (next_in, omega arith, v.bytes)
  execute-Fits jalr = (next_in, omega (arith, bit_and-le address 0xfffffffe), v.bytes)
  execute-Fits beq = branch-Fits _
  execute-Fits bne = branch-Fits _
  execute-Fits blt = branch-Fits _
  execute-Fits bge = branch-Fits _
  execute-Fits bltu = branch-Fits _
  execute-Fits bgeu = branch-Fits _
  execute-Fits lb =
      load-Fits 1 _ address _ (omega arith) (read_lem i.memory address v.bytes).0
        λ n h. sign_extend_in n 8 h
  execute-Fits lh =
      load-Fits 2 _ address _ (omega arith) (read_lem i.memory address v.bytes).1
        λ n h. sign_extend_in n 16 h
  execute-Fits lw =
      load-Fits 4 _ address _ (omega arith) (read_lem i.memory address v.bytes).2 λ n h. h
  execute-Fits lbu =
      load-Fits 1 _ address _ (omega arith) (read_lem i.memory address v.bytes).0 λ n h. h
  execute-Fits lhu =
      load-Fits 2 _ address _ (omega arith) (read_lem i.memory address v.bytes).1 λ n h. h
  execute-Fits sb =
      store-Fits address 1 (i.rs2_value % 256)
        (write_byte i.memory address (bit_and i.rs2_value 0xff))
        (rw (bit_and_mask 8 i.rs2_value) (write_lem i.memory address i.rs2_value v.bytes).0)
  execute-Fits sh =
      store-Fits address 2 (bit_and i.rs2_value 0xffff) _
        (write_lem i.memory address (bit_and i.rs2_value 0xffff) v.bytes).1
  execute-Fits sw =
      store-Fits address 4 i.rs2_value _ (write_lem i.memory address i.rs2_value v.bytes).2
  execute-Fits invalid = tt
  execute-Fits halt = tt
