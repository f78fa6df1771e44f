-- ===== src/Cpu/Issued.antt =====
-- src/tomasulo/cpu.cpp with src/tomasulo/issue_unit.cpp: what a cycle issues.
use risc_v_cpu_simulator.Base.{◌≡◌, ◌∙◌, refl, sym, ap, arith, true, false, not, ◌&&◌, if_keeps}
use mathlib.Core.Path.{subst}
use risc_v_cpu_simulator.Instruction.{op_eq, invalid, DecodedInstruction}
use risc_v_cpu_simulator.Signals.{DecodePacket}
use risc_v_cpu_simulator.Decoder.Shape.{IsWellFormed}
use risc_v_cpu_simulator.Image.Access.{IsBytes}
use risc_v_cpu_simulator.MemoryUnit.{is_store_access}
use risc_v_cpu_simulator.ReorderBuffer
use risc_v_cpu_simulator.ReservationStation
use risc_v_cpu_simulator.LoadStoreQueue
use risc_v_cpu_simulator.LoadStoreQueue.{LsqEntry}
use risc_v_cpu_simulator.LoadStoreQueue.Invariant.{IsAccess}
use risc_v_cpu_simulator.IssueUnit
use risc_v_cpu_simulator.IssueUnit.{
  IssueInputs, IssueOutputs, no_issue, is_issued, needs_lsq, needs_rs, is_memory_instruction,
  lsq_entry_of, rs_entry_of, rob_entry_of,
}
use risc_v_cpu_simulator.IssueUnit.Agreement.{is_integer}
use risc_v_cpu_simulator.IssueUnit.Routing.{IsRouted, plan-IsRouted}
use risc_v_cpu_simulator.IssueUnit.Entries.{HasEntries, plan-HasEntries}
use risc_v_cpu_simulator.Cpu.State.{Cpu}
use risc_v_cpu_simulator.Cpu.Plan.{observe, fetches, fetch_and_decoded, issue_inputs}
use risc_v_cpu_simulator.Cpu.Lockstep.{plans}
use risc_v_cpu_simulator.IssueUnit.Kinds.{integer_of, loads-stores}
use risc_v_cpu_simulator.Cpu.Fetched.{IsPacket, fetched}

-- What is known of the outputs of the issue unit in a cycle.
pub record IsIssue (c : Cpu) (o : IssueOutputs) : Type 0 where
  pub calm : is_issued o.status ≡ true → (observe c).preview.flush ≡ false
  pub room : is_issued o.status ≡ true → ReorderBuffer.full c.rob ≡ false
  pub allocated : is_issued o.status ≡ true → (ReorderBuffer.next_tag c.rob).valid ≡ true
  pub to_rob : o.write_rob ≡ is_issued o.status
  pub rob_valid : o.write_rob ≡ true → o.rob_entry.valid ≡ true
  pub rob_tag : o.write_rob ≡ true → o.rob_entry.tag ≡ ReorderBuffer.next_tag c.rob
  pub to_rs : o.write_rs ≡ true → is_issued o.status ≡ true
  pub rs_room : o.write_rs ≡ true → ReservationStation.available c.reservation_station ≡ true
  pub rs_op : o.write_rs ≡ true → is_integer o.rs_entry.op ≡ true
  pub to_lsq : o.write_lsq ≡ true → is_issued o.status ≡ true
  pub lsq_room : o.write_lsq ≡ true → LoadStoreQueue.full c.load_store_queue ≡ false
  pub lsq_valid : o.write_lsq ≡ true → o.lsq_entry.valid ≡ true
  pub lsq_access : o.write_lsq ≡ true → IsAccess (record (o.lsq_entry) { valid = true })
  pub rename_tag : o.rename.valid ≡ true → o.rename.tag ≡ ReorderBuffer.next_tag c.rob
  pub named : is_issued o.status ≡ true → o.rename.valid ≡ o.rob_entry.writes_rd
  pub renames :
      o.rename.valid ≡ true
      → (is_issued o.status ≡ true)
        × (o.rob_entry.writes_rd ≡ true)
        × (o.rob_entry.rd ≡ o.rename.rd)

-- The access of a decoded memory instruction.
lsq_entry-IsAccess :
    (i : IssueInputs)
    → IsWellFormed i.packet.decoded
    → i.allocated_tag.valid ≡ true
    → needs_lsq i.packet.decoded ≡ true
    → IsAccess (record (lsq_entry_of i) { valid = true })
unfolding lsq_entry_of needs_lsq is_memory_instruction is_store_access
lsq_entry-IsAccess i w t n = record {
  tagged = λ _. t;
  memory = λ _. ground (arith, w.load, w.store);
  typed = λ _. ground (arith, w.load, w.store, loads-stores i.packet.decoded.op);
}

-- The operation of a decoded instruction for the reservation station.
rs_op-integer :
    (d : DecodedInstruction)
    → IsWellFormed d
    → op_eq d.op invalid ≡ false
    → needs_rs d ≡ true
    → is_integer d.op ≡ true
unfolding needs_rs is_memory_instruction
rs_op-integer d w k n =
    integer_of d.op (ground arith) k (ground (arith, w.load)) (ground (arith, w.store))

nothing-IsIssue : (c : Cpu) → IsIssue c no_issue
unfolding is_issued
nothing-IsIssue c = record {
  calm = λ h. absurd cc;
  room = λ h. absurd cc;
  allocated = λ h. absurd cc;
  to_rob = refl;
  rob_valid = λ h. absurd cc;
  rob_tag = λ h. absurd cc;
  to_rs = λ h. absurd cc;
  rs_room = λ h. absurd cc;
  rs_op = λ h. absurd cc;
  to_lsq = λ h. absurd cc;
  lsq_room = λ h. absurd cc;
  lsq_valid = λ h. absurd cc;
  lsq_access = λ h. absurd cc;
  rename_tag = λ h. absurd cc;
  named = λ h. absurd cc;
  renames = λ h. absurd cc;
}

module _ (c : Cpu) (p : DecodePacket) (pk : IsPacket p)
    (fetching : fetches c (observe c) ≡ true) where
  abbrev i : IssueInputs
  i = issue_inputs c (observe c) p

  abbrev o : IssueOutputs
  o = IssueUnit.plan i

  r : IsRouted i o
  r = plan-IsRouted i

  h : HasEntries i o
  h = plan-HasEntries i

  calm_now : (observe c).preview.flush ≡ false
  calm_now = unfold fetches in ground arith

  room_now : ReorderBuffer.full c.rob ≡ false
  room_now = unfold fetches in ground arith

  tag_now : is_issued o.status ≡ true → (ReorderBuffer.next_tag c.rob).valid ≡ true
  unfolding issue_inputs
  tag_now e = ground (arith, r.accepted)

  known : is_issued o.status ≡ true → op_eq p.decoded.op invalid ≡ false
  unfolding issue_inputs
  known e = ground (arith, r.accepted)

  rs_issued : o.write_rs ≡ true → (is_issued o.status ≡ true) × (needs_rs p.decoded ≡ true)
  unfolding issue_inputs needs_rs needs_lsq is_memory_instruction
  rs_issued e = ground (arith, r.to_rs)

  lsq_issued : o.write_lsq ≡ true → (is_issued o.status ≡ true) × (needs_lsq p.decoded ≡ true)
  unfolding issue_inputs needs_rs needs_lsq is_memory_instruction
  lsq_issued e = ground (arith, r.to_lsq)

  rs_free : o.write_rs ≡ true → ReservationStation.available c.reservation_station ≡ true
  unfolding issue_inputs needs_rs needs_lsq is_memory_instruction
  rs_free e = ground (arith, r.accepted, rs_issued e)

  lsq_free : o.write_lsq ≡ true → LoadStoreQueue.full c.load_store_queue ≡ false
  unfolding issue_inputs needs_rs needs_lsq is_memory_instruction
  lsq_free e = ground (arith, r.accepted, lsq_issued e)

  entry_of :
      o.write_rob ≡ true
      → (o.rob_entry.valid ≡ true) × (o.rob_entry.tag ≡ ReorderBuffer.next_tag c.rob)
  unfolding rob_entry_of issue_inputs
  entry_of e = (
    ap (λ (x : ReorderBuffer.RobEntry). x.valid) (h.rob e),
    ap (λ (x : ReorderBuffer.RobEntry). x.tag) (h.rob e),
  )

  renamed :
      o.rename.valid ≡ true
      → (is_issued o.status ≡ true)
        × (o.rob_entry.writes_rd ≡ true)
        × (o.rob_entry.rd ≡ o.rename.rd)
  unfolding issue_inputs
  renamed e =
      let issued : is_issued o.status ≡ true = ground (arith, r.renames) in
      let same = h.rob (r.to_rob ∙ issued) in
      (
        issued,
        ap (λ (x : ReorderBuffer.RobEntry). x.writes_rd) same
            ∙ (unfold rob_entry_of in ground (arith, r.renames)),
        ap (λ (x : ReorderBuffer.RobEntry). x.rd) same
            ∙ (unfold rob_entry_of in sym (r.rename_tag e).1),
      )

  named_now : is_issued o.status ≡ true → o.rename.valid ≡ o.rob_entry.writes_rd
  named_now e =
      r.renames
      ∙ sym (
          ap (λ (x : ReorderBuffer.RobEntry). x.writes_rd) (h.rob (r.to_rob ∙ e))
          ∙ (unfold rob_entry_of in ground arith))

  rs_integer : o.write_rs ≡ true → is_integer o.rs_entry.op ≡ true
  rs_integer e =
      ap (λ (x : ReservationStation.RsEntry). is_integer x.op) (h.rs e)
      ∙ (unfold rs_entry_of issue_inputs in
          rs_op-integer p.decoded pk.well (known (rs_issued e).0) (rs_issued e).1)

  lsq_entry :
      o.write_lsq ≡ true
      → (o.lsq_entry.valid ≡ true) × IsAccess (record (o.lsq_entry) { valid = true })
  lsq_entry e = (
    ap (λ (x : LsqEntry). x.valid) (h.lsq e) ∙ (unfold lsq_entry_of in refl),
    subst (λ (x : LsqEntry). IsAccess (record x { valid = true })) (sym (h.lsq e))
        (lsq_entry-IsAccess i (unfold issue_inputs in pk.well)
          (unfold issue_inputs in tag_now (lsq_issued e).0)
          (unfold issue_inputs in (lsq_issued e).1)),
  )

  planned-IsIssue : IsIssue c o
  planned-IsIssue = record {
    calm = λ _. calm_now;
    room = λ _. room_now;
    allocated = tag_now;
    to_rob = r.to_rob;
    rob_valid = λ e. (entry_of e).0;
    rob_tag = λ e. (entry_of e).1;
    to_rs = λ e. (rs_issued e).0;
    rs_room = rs_free;
    rs_op = rs_integer;
    to_lsq = λ e. (lsq_issued e).0;
    lsq_room = lsq_free;
    lsq_valid = λ e. (lsq_entry e).0;
    lsq_access = λ e. (lsq_entry e).1;
    rename_tag = λ e. unfold issue_inputs in (r.rename_tag e).0;
    named = named_now;
    renames = renamed;
  }

-- In a processor whose memory holds bytes, the outputs of the issue unit are as said above.
pub plans-IsIssue : (c : Cpu) → IsBytes c.memory_unit.memory → IsIssue c (plans c).issue_outputs
plans-IsIssue c v =
    let q = fetch_and_decoded c in
    if_keeps (IsIssue c) (fetches c (observe c) && not q.1)
      (λ e. planned-IsIssue c q.0 (fetched c v (ground arith)) (ground arith))
      λ _. nothing-IsIssue c
