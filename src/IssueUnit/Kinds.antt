-- ===== src/IssueUnit/Kinds.antt =====
-- Where the operations of src/tomasulo/issue_unit.cpp go: to the unit of src/tomasulo/functional_unit.cpp or to the memory.
use risc_v_cpu_simulator.Base.{◌≡◌, refl, true, false}
use risc_v_cpu_simulator.Instruction.{Op, op_eq, halt, invalid}
use risc_v_cpu_simulator.Instruction.{lb, lh, lw, lbu, lhu, sb, sh, sw}
use risc_v_cpu_simulator.Signals.{Execute}
use risc_v_cpu_simulator.Decoder.Shape.{loads, stores}
use risc_v_cpu_simulator.FunctionalUnit.{execute_op, plain, branch, jump}
use risc_v_cpu_simulator.IssueUnit.Agreement.{is_integer}

-- An instruction that does not go to the load/store queue and is no marker runs in the unit.
pub integer_of :
    (op : Op)
    → op_eq op halt ≡ false
    → op_eq op invalid ≡ false
    → loads op ≡ false
    → stores op ≡ false
    → is_integer op ≡ true
unfolding op_eq
integer_of halt a b c d = absurd (cc a)
integer_of invalid a b c d = absurd (cc b)
integer_of lb a b c d = absurd (cc c)
integer_of lh a b c d = absurd (cc c)
integer_of lw a b c d = absurd (cc c)
integer_of lbu a b c d = absurd (cc c)
integer_of lhu a b c d = absurd (cc c)
integer_of sb a b c d = absurd (cc d)
integer_of sh a b c d = absurd (cc d)
integer_of sw a b c d = absurd (cc d)
integer_of _ a b c d = refl

-- The unit has a result for each of its operations.
pub execute-valid : (op : Op) (e : Execute) → is_integer op ≡ true → (execute_op op e).valid ≡ true
unfolding execute_op plain branch jump
execute-valid halt e h = absurd (cc h)
execute-valid invalid e h = absurd (cc h)
execute-valid lb e h = absurd (cc h)
execute-valid lh e h = absurd (cc h)
execute-valid lw e h = absurd (cc h)
execute-valid lbu e h = absurd (cc h)
execute-valid lhu e h = absurd (cc h)
execute-valid sb e h = absurd (cc h)
execute-valid sh e h = absurd (cc h)
execute-valid sw e h = absurd (cc h)
execute-valid _ e h = refl

pub loads-stores : (op : Op) → loads op ≡ true → stores op ≡ false
loads-stores lb h = refl
loads-stores lh h = refl
loads-stores lw h = refl
loads-stores lbu h = refl
loads-stores lhu h = refl
loads-stores sb h = absurd (cc h)
loads-stores sh h = absurd (cc h)
loads-stores sw h = absurd (cc h)
loads-stores _ h = refl
