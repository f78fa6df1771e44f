-- ===== src/IssueUnit/Tests.antt =====
-- Instances of the agreement of the two machines, at a subtraction and at an unsigned comparison, and
-- of the routing.
use risc_v_cpu_simulator.Base.{false, refl, arith, true, update, fill}
use risc_v_cpu_simulator.Types.{RobTag, no_tag, extract_bits, bit_mask}
use risc_v_cpu_simulator.Decoder.{decode, decode_R_type, r_op, decode_register}
use risc_v_cpu_simulator.FunctionalUnit.{execute_instruction}
use risc_v_cpu_simulator.Interpreter.{Interpreter, new_interpreter, inputs_of, execute}
use risc_v_cpu_simulator.Signals.{no_packet, no_broadcast}
use risc_v_cpu_simulator.IssueUnit.{SourceState, IssueInputs, plan}
use risc_v_cpu_simulator.IssueUnit.Routing.{IsRouted, plan-IsRouted}
use risc_v_cpu_simulator.IssueUnit.Agreement.{Agrees, dispatched, integer-Agrees, compare_disagrees}

-- a1 is 1 and a2 is 2.
abbrev two_registers_set : Interpreter
two_registers_set = record new_interpreter { registers = update (update (fill 0) 11 1) 12 2 }

abbrev a_tag : RobTag
a_tag = record { index = 0; generation = 1; valid = true }

-- `sub a0, a1, a2`
integer-Agrees_example :
    let d = decode 0x40c58533 in
    let i = inputs_of two_registers_set d in
    Agrees (execute_instruction (dispatched d i a_tag)) i a_tag (execute d.op i)
unfolding decode decode_R_type r_op extract_bits bit_mask
integer-Agrees_example = integer-Agrees 0x40c58533 (omega arith) two_registers_set a_tag refl refl

-- `sltu a0, a1, a2`
compare_disagrees_example :
    let d = decode 0x00c5b533 in
    let i = inputs_of two_registers_set d in
    ¬ (Agrees (execute_instruction (dispatched d i a_tag)) i a_tag (execute d.op i))
unfolding decode decode_R_type r_op decode_register extract_bits bit_mask inputs_of
compare_disagrees_example =
    (compare_disagrees 0x00c5b533 (omega arith) two_registers_set a_tag).0 refl (omega arith)

-- `sub a0, a1, a2` with room everywhere.
abbrev a_source : SourceState
a_source = record {
  architectural_value = 7;
  producer = no_tag;
  producer_value = 0;
  producer_ready = false;
}

abbrev issue_sub : IssueInputs
issue_sub = record {
  packet = record no_packet { decoded = decode 0x40c58533; valid = true };
  allocated_tag = a_tag;
  rs1 = a_source;
  rs2 = a_source;
  cdb = no_broadcast;
  rob_available = true;
  rs_available = true;
  lsq_available = true;
}

plan-IsRouted_example : IsRouted issue_sub (plan issue_sub)
plan-IsRouted_example = plan-IsRouted issue_sub
