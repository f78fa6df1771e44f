-- ===== src/ReorderBuffer/Tests.antt =====
-- A run of the reorder buffer: an addition is issued, completes and commits.
use risc_v_cpu_simulator.Base.{◌≡◌, true, false, [], ◌∷◌, ◌++◌, if◌then◌else◌}
use risc_v_cpu_simulator.Types.{RobTag}
use risc_v_cpu_simulator.Instruction.{add}
use risc_v_cpu_simulator.Signals.{no_result}
use risc_v_cpu_simulator.ReorderBuffer.{
  ReorderBuffer, RobInputs, no_entry, no_completion, reset, plan_head,
}
use risc_v_cpu_simulator.ReorderBuffer.Invariant.{IsRob, cycle, reset-IsRob, cycle-IsRob}
use risc_v_cpu_simulator.ReorderBuffer.Queue.{contents, head?, left, accepted, joining}
use risc_v_cpu_simulator.ReorderBuffer.Fifo.{cycle-contents}

abbrev first_tag : RobTag
first_tag = record { index = 0; generation = 1; valid = true }

abbrev issue_add : RobInputs
issue_add = record {
  issue_entry = record no_entry {
    tag = first_tag;
    op = add;
    rd = 5;
    writes_rd = true;
    valid = true;
  };
  issue_valid = true;
  completion = no_result;
  store_completion = no_completion;
}

abbrev complete_add : RobInputs
complete_add = record {
  issue_entry = no_entry;
  issue_valid = false;
  completion = record no_result { tag = first_tag; result = 7; valid = true };
  store_completion = no_completion;
}

abbrev issued : ReorderBuffer
issued = cycle reset issue_add

abbrev added : ReorderBuffer
added = cycle issued complete_add

cycle-IsRob_example : IsRob added
cycle-IsRob_example = cycle-IsRob issued complete_add (cycle-IsRob reset issue_add reset-IsRob)

cycle-contents_example :
    let d = plan_head (head? (contents issued)) in
    contents added
    ≡ left complete_add d (contents issued)
      ++ (if accepted issued complete_add d then joining issued complete_add ∷ [] else [])
cycle-contents_example =
    cycle-contents issued complete_add (cycle-IsRob reset issue_add reset-IsRob)
