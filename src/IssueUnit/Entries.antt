-- ===== src/IssueUnit/Entries.antt =====
-- src/tomasulo/issue_unit.cpp: the entries that an instruction is given, if it is given any.
use risc_v_cpu_simulator.Base.{◌≡◌, refl, true, false, not, ◌&&◌, ◌||◌, if_keeps}
use risc_v_cpu_simulator.Instruction.{op_eq, invalid}
use risc_v_cpu_simulator.IssueUnit.{IssueInputs, IssueOutputs, plan, issue, needs_lsq, needs_rs}
use risc_v_cpu_simulator.IssueUnit.{rob_entry_of, rs_entry_of, lsq_entry_of}

-- An output that is written is the entry of the instruction.
pub record HasEntries (i : IssueInputs) (o : IssueOutputs) : Type 0 where
  pub rob : o.write_rob ≡ true → o.rob_entry ≡ rob_entry_of i
  pub rs : o.write_rs ≡ true → o.rs_entry ≡ rs_entry_of i
  pub lsq : o.write_lsq ≡ true → o.lsq_entry ≡ lsq_entry_of i

issue-HasEntries : (i : IssueInputs) → HasEntries i (issue i)
unfolding issue
issue-HasEntries i = record { rob = λ h. refl; rs = λ h. rw h refl; lsq = λ h. rw h refl }

nothing-HasEntries :
    (i : IssueInputs) (o : IssueOutputs)
    → o.write_rob ≡ false
    → o.write_rs ≡ false
    → o.write_lsq ≡ false
    → HasEntries i o
nothing-HasEntries i o a b c = record {
  rob = λ h. absurd cc;
  rs = λ h. absurd cc;
  lsq = λ h. absurd cc;
}

pub plan-HasEntries : (i : IssueInputs) → HasEntries i (plan i)
unfolding plan
plan-HasEntries i =
    if_keeps (HasEntries i) (not i.packet.valid) (λ _. nothing-HasEntries i _ refl refl refl)
      λ _.
        if_keeps (HasEntries i) (op_eq i.packet.decoded.op invalid)
          (λ _. nothing-HasEntries i _ refl refl refl)
          λ _.
            if_keeps (HasEntries i) (not i.allocated_tag.valid)
              (λ _. nothing-HasEntries i _ refl refl refl)
              λ _.
                if_keeps (HasEntries i)
                  (not i.rob_available
                    || (needs_lsq i.packet.decoded && not i.lsq_available)
                    || (needs_rs i.packet.decoded && not i.rs_available))
                  (λ _. nothing-HasEntries i _ refl refl refl) λ _. issue-HasEntries i
