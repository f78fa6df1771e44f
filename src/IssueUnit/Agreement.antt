-- ===== src/IssueUnit/Agreement.antt =====
-- The pipeline's integer unit against the reference interpreter: src/tomasulo/functional_unit.cpp,
-- on the operands that src/tomasulo/issue_unit.cpp selects, and src/reference/interpreter.cpp.
use risc_v_cpu_simulator.Base.{ℕ, ◌<◌, ◌≡◌, ◌≢◌, ◌∙◌, sym, refl, ap, arith, Bool, true, false, not}
use risc_v_cpu_simulator.Base.{◌&&◌}
use mathlib.Core.Path.{subst}
use risc_v_cpu_simulator.Types.{RobTag, word_mod}
use risc_v_cpu_simulator.Instruction.{Op, DecodedInstruction}
use risc_v_cpu_simulator.Instruction.{lui}
use risc_v_cpu_simulator.Instruction.{lb, lh, lw, lbu, lhu, slt}
use risc_v_cpu_simulator.Instruction.{sltu, sb, sh, sw}
use risc_v_cpu_simulator.Instruction.{halt, invalid}
use risc_v_cpu_simulator.Decoder.Shape.{
  lhs_of, rhs_of, loads, stores, two_registers, IsWellFormed, decode-IsWellFormed,
}
use risc_v_cpu_simulator.Decoder.{decode}
use risc_v_cpu_simulator.Signals.{Execute, FuResult}
use risc_v_cpu_simulator.FunctionalUnit
use risc_v_cpu_simulator.FunctionalUnit.{execute_op, execute_instruction, plain, branch, jump}
use risc_v_cpu_simulator.FunctionalUnit.{sequential_pc, shift_amount}
use risc_v_cpu_simulator.Interpreter
use risc_v_cpu_simulator.Interpreter.{
  Interpreter, inputs_of, Effect, done, stop, Inputs, execute, writeback, branch_if, next_of,
}
use risc_v_cpu_simulator.IssueUnit.{select_operand, ready_operand}

-- What the station sends for an instruction whose source registers have these values.
unfoldable pub dispatched : DecodedInstruction → Inputs → RobTag → Execute
dispatched d i tag = record {
  op = d.op;
  operand1 = (select_operand d.lhs_source (ready_operand i.rs1_value) d.immediate i.cur_pc).value;
  operand2 = (select_operand d.rhs_source (ready_operand i.rs2_value) d.immediate i.cur_pc).value;
  immediate = d.immediate;
  pc = i.cur_pc;
  tag = tag;
  valid = true;
}

-- The unit's result says what the interpreter does: the value written back, if one is, and the next
-- program counter; and the memory is left alone.
abbrev pub Agrees : FuResult → Inputs → RobTag → Effect → Type 0
Agrees r i tag (done value has_writeback next_pc memory) =
    (r.valid ≡ true)
    × (r.tag ≡ tag)
    × (has_writeback ≡ true → r.result ≡ value)
    × (r.actual_next_pc ≡ next_pc)
    × (memory ≡ i.memory)
Agrees r i tag (stop status) = ⊥

-- The operations that the integer unit executes.
abbrev pub is_integer : Op → Bool
is_integer halt = false
is_integer invalid = false
is_integer op = not (loads op) && not (stores op)

abbrev pub is_register_compare : Op → Bool
is_register_compare slt = true
is_register_compare sltu = true
is_register_compare _ = false

-- The execute message with the operand sources that an operation fixes.
abbrev message : Op → Inputs → RobTag → Execute
message op i tag = record {
  op = op;
  operand1 = (select_operand (lhs_of op) (ready_operand i.rs1_value) i.immediate i.cur_pc).value;
  operand2 = (select_operand (rhs_of op) (ready_operand i.rs2_value) i.immediate i.cur_pc).value;
  immediate = i.immediate;
  pc = i.cur_pc;
  tag = tag;
  valid = true;
}

module _ (i : Inputs) (tag : RobTag) (word : i.immediate < word_mod) where
  op-Agrees :
      (op : Op)
      → is_integer op ≡ true
      → is_register_compare op ≡ false
      → Agrees (execute_op op (message op i tag)) i tag (execute op i)
  unfolding execute_op execute plain branch jump writeback branch_if sequential_pc next_of
      shift_amount select_operand ready_operand FunctionalUnit.signed_less_than
      FunctionalUnit.signed_greater_equal FunctionalUnit.arithmetic_shift_right
      Interpreter.signed_less_than Interpreter.signed_greater_equal
      Interpreter.arithmetic_shift_right
  op-Agrees lui p q = (refl, refl, λ _. omega arith, refl, refl)
  op-Agrees slt p q = absurd (cc)
  op-Agrees sltu p q = absurd (cc)
  op-Agrees lb p q = absurd (cc)
  op-Agrees lh p q = absurd (cc)
  op-Agrees lw p q = absurd (cc)
  op-Agrees lbu p q = absurd (cc)
  op-Agrees lhu p q = absurd (cc)
  op-Agrees sb p q = absurd (cc)
  op-Agrees sh p q = absurd (cc)
  op-Agrees sw p q = absurd (cc)
  op-Agrees halt p q = absurd (cc)
  op-Agrees invalid p q = absurd (cc)
  op-Agrees _ p q = (refl, refl, λ _. refl, refl, refl)

-- The register comparisons of the interpreter read the immediate, which is 0 for them.
module _ (i : Inputs) (tag : RobTag) (none : i.immediate ≡ 0) where
  sltu_disagrees :
      i.rs1_value < i.rs2_value
      → ¬ (Agrees (execute_op sltu (message sltu i tag)) i tag (execute sltu i))
  unfolding execute_op execute plain writeback select_operand ready_operand
  sltu_disagrees less agree = ground (arith, agree.2 refl)

  slt_disagrees :
      FunctionalUnit.signed_less_than i.rs1_value i.rs2_value
        ≢ FunctionalUnit.signed_less_than i.rs1_value 0
      → ¬ (Agrees (execute_op slt (message slt i tag)) i tag (execute slt i))
  unfolding execute_op execute plain writeback select_operand ready_operand
      Interpreter.signed_less_than FunctionalUnit.signed_less_than
  slt_disagrees differ agree = differ (ground (arith, agree.2 refl))

-- The decoded word's message is the one above.
dispatched-message :
    (d : DecodedInstruction) (i : Inputs) (tag : RobTag)
    → IsWellFormed d
    → i.immediate ≡ d.immediate
    → dispatched d i tag ≡ message d.op i tag
unfolding dispatched
dispatched-message d i tag w e = ground (arith, w.lhs, w.rhs, e)

module _ (bits : ℕ) (word : bits < word_mod) (s : Interpreter) (tag : RobTag) where
  abbrev d : DecodedInstruction
  d = decode bits

  abbrev i : Inputs
  i = inputs_of s d

  well : IsWellFormed d
  well = decode-IsWellFormed bits word

  same_immediate : i.immediate ≡ d.immediate
  same_immediate = unfold inputs_of in refl

  unit_result : execute_instruction (dispatched d i tag) ≡ execute_op d.op (message d.op i tag)
  unit_result =
      unfold execute_instruction dispatched in
      ap (execute_op d.op) (dispatched-message d i tag well same_immediate)

  -- For every instruction word of the integer unit but SLT and SLTU, and every state of the
  -- interpreter, the unit computes from the operands that the issue unit selects what the
  -- interpreter does: the value written back, the next program counter, and no memory change.
  pub integer-Agrees :
      is_integer d.op ≡ true
      → is_register_compare d.op ≡ false
      → Agrees (execute_instruction (dispatched d i tag)) i tag (execute d.op i)
  integer-Agrees p q =
      rw unit_result (op-Agrees i tag (rw same_immediate well.immediate_in) d.op p q)

  zero_immediate : two_registers d.op ≡ true → i.immediate ≡ 0
  zero_immediate h = same_immediate ∙ ground (arith, well.no_immediate)

  -- On every word that decodes to SLTU the two disagree whenever rs1 is below rs2; on every word
  -- that decodes to SLT they disagree whenever comparing rs1 with rs2 and with 0 differ.
  pub compare_disagrees :
      (d.op ≡ sltu
        → i.rs1_value < i.rs2_value
        → ¬ (Agrees (execute_instruction (dispatched d i tag)) i tag (execute d.op i)))
      × (d.op ≡ slt
          → FunctionalUnit.signed_less_than i.rs1_value i.rs2_value
            ≢ FunctionalUnit.signed_less_than i.rs1_value 0
          → ¬ (Agrees (execute_instruction (dispatched d i tag)) i tag (execute d.op i)))
  compare_disagrees = (
    λ e less.
        rw unit_result
          (subst P (sym e) (sltu_disagrees i tag (zero_immediate (ap two_registers e)) less)),
    λ e differ.
        rw unit_result
          (subst P (sym e) (slt_disagrees i tag (zero_immediate (ap two_registers e)) differ)),
  )
    where
      P : Op → Type 0
      P op = ¬ (Agrees (execute_op op (message op i tag)) i tag (execute op i))
