-- ===== src/IssueUnit/Routing.antt =====
-- src/tomasulo/issue_unit.cpp: which parts an instruction is given to, and that this is all or nothing.
use risc_v_cpu_simulator.Base.{
  ◌≡◌, ◌∙◌, refl, sym, arith, Bool, true, false, not, ◌&&◌, ◌||◌, ◌!=◌, if_keeps,
}
use risc_v_cpu_simulator.Instruction.{op_eq, DecodedInstruction, invalid, halt}
use risc_v_cpu_simulator.IssueUnit.{
  IssueInputs, IssueOutputs, plan, issue, is_issued, needs_lsq, needs_rs, is_memory_instruction,
}
use risc_v_cpu_simulator.IssueUnit.{invalid_instruction, invalid_allocation, unavailability}
use risc_v_cpu_simulator.IssueUnit.{no_issue, rob_entry_of, rs_entry_of, lsq_entry_of}

-- A load or a store goes to the load/store queue, and any other instruction but the stop marker to the
-- reservation station.
abbrev pub accesses : DecodedInstruction → Bool
accesses d = d.is_load || d.is_store

abbrev pub computes : DecodedInstruction → Bool
computes d = not (op_eq d.op halt) && not (accesses d)

-- What the plan of an instruction says to the parts: all that it needs have room and then all are
-- written, with the same tag, or none is.
pub record IsRouted (i : IssueInputs) (o : IssueOutputs) : Type 0 where
  pub accepted : is_issued o.status ≡ (
      i.packet.valid
      && not (op_eq i.packet.decoded.op invalid)
      && i.allocated_tag.valid
      && i.rob_available
      && (not (accesses i.packet.decoded) || i.lsq_available)
      && (not (computes i.packet.decoded) || i.rs_available))
  pub pops : o.pop_decode ≡ is_issued o.status
  pub to_rob : o.write_rob ≡ is_issued o.status
  pub to_rs : o.write_rs ≡ (is_issued o.status && computes i.packet.decoded)
  pub to_lsq : o.write_lsq ≡ (is_issued o.status && accesses i.packet.decoded)
  pub one_queue : (o.write_rs && o.write_lsq) ≡ false
  pub renames :
      o.rename.valid
      ≡ (is_issued o.status && i.packet.decoded.writes_rd && i.packet.decoded.rd != 0)
  pub rob_tag : o.write_rob ≡ true → o.rob_entry.tag ≡ i.allocated_tag
  pub rs_tag : o.write_rs ≡ true → o.rs_entry.destination ≡ i.allocated_tag
  pub lsq_tag : o.write_lsq ≡ true → o.lsq_entry.destination ≡ i.allocated_tag
  pub rename_tag :
      o.rename.valid ≡ true → (o.rename.tag ≡ i.allocated_tag) × (o.rename.rd ≡ i.packet.decoded.rd)

issue-IsRouted :
    (i : IssueInputs)
    → i.packet.valid ≡ true
    → op_eq i.packet.decoded.op invalid ≡ false
    → i.allocated_tag.valid ≡ true
    → (not i.rob_available
        || (needs_lsq i.packet.decoded && not i.lsq_available)
        || (needs_rs i.packet.decoded && not i.rs_available))
      ≡ false
    → IsRouted i (issue i)
unfolding issue is_issued rob_entry_of rs_entry_of lsq_entry_of needs_rs needs_lsq
    is_memory_instruction
issue-IsRouted i v k t a = record {
  accepted = ground arith;
  pops = refl;
  to_rob = refl;
  to_rs = refl;
  to_lsq = refl;
  one_queue = ground arith;
  renames = ground arith;
  rob_tag = λ _. refl;
  rs_tag = λ h. ground arith;
  lsq_tag = λ h. ground arith;
  rename_tag = λ h. (ground arith, ground arith);
}

refused-IsRouted :
    (i : IssueInputs) (o : IssueOutputs)
    → is_issued o.status ≡ false
    → (i.packet.valid
        && not (op_eq i.packet.decoded.op invalid)
        && i.allocated_tag.valid
        && i.rob_available
        && (not (accesses i.packet.decoded) || i.lsq_available)
        && (not (computes i.packet.decoded) || i.rs_available))
      ≡ false
    → (o.pop_decode ≡ false)
      × (o.write_rob ≡ false)
      × (o.write_rs ≡ false)
      × (o.write_lsq ≡ false)
      × (o.rename.valid ≡ false)
    → IsRouted i o
refused-IsRouted i o s r (a, b, c, d, e) = record {
  accepted = s ∙ sym r;
  pops = a ∙ sym s;
  to_rob = b ∙ sym s;
  to_rs = ground arith;
  to_lsq = ground arith;
  one_queue = ground arith;
  renames = ground arith;
  rob_tag = λ h. absurd cc;
  rs_tag = λ h. absurd cc;
  lsq_tag = λ h. absurd cc;
  rename_tag = λ h. absurd cc;
}

-- An instruction is issued exactly if its packet and tag are valid, it is no invalid instruction,
-- and the reorder buffer and the queue that it needs have room: the load/store queue for a memory
-- access, none for the stop marker, else the station. An issued instruction leaves the decode
-- register and enters the reorder buffer and at most that one queue, all with the allocated tag,
-- and renames its destination if it writes one other than x0. One that is not issued changes
-- nothing.
pub plan-IsRouted : (i : IssueInputs) → IsRouted i (plan i)
unfolding plan is_issued needs_rs needs_lsq is_memory_instruction
plan-IsRouted i =
    if_keeps (IsRouted i) (not i.packet.valid)
      (λ e. refused-IsRouted i no_issue refl (ground arith) (refl, refl, refl, refl, refl))
      λ v.
        if_keeps (IsRouted i) (op_eq d.op invalid)
          (λ e.
            refused-IsRouted i (record no_issue { status = invalid_instruction }) refl
              (ground arith) (refl, refl, refl, refl, refl))
          λ k.
            if_keeps (IsRouted i) (not i.allocated_tag.valid)
              (λ e.
                refused-IsRouted i (record no_issue { status = invalid_allocation }) refl
                  (ground arith) (refl, refl, refl, refl, refl))
              λ t.
                if_keeps (IsRouted i)
                  (not i.rob_available
                    || (needs_lsq d && not i.lsq_available)
                    || (needs_rs d && not i.rs_available))
                  (λ e.
                    refused-IsRouted i (record no_issue { status = unavailability }) refl
                      (ground arith) (refl, refl, refl, refl, refl))
                  λ a. issue-IsRouted i (ground arith) k (ground arith) a
  where
    d : DecodedInstruction
    d = i.packet.decoded
