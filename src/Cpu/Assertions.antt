-- ===== src/Cpu/Assertions.antt =====
-- src/tomasulo/cpu.cpp: the assertions of a cycle.
use risc_v_cpu_simulator.Base.{
  ℕ, ◌≡◌, ◌∙◌, refl, sym, ap, arith, Bool, true, false, not, ◌&&◌, ◌==◌, Bool-cases, inl, inr,
}
use risc_v_cpu_simulator.Types.{tag_eq}
use risc_v_cpu_simulator.Types.Tags.{tag_eq_self}
use risc_v_cpu_simulator.Signals.{Execute}
use risc_v_cpu_simulator.FunctionalUnit
use risc_v_cpu_simulator.FunctionalUnit.Hold.{latch-apply}
use risc_v_cpu_simulator.MemoryUnit
use risc_v_cpu_simulator.MemoryUnit.{MemoryUnit, DataMemoryRequest, data_port_available}
use risc_v_cpu_simulator.ReorderBuffer
use risc_v_cpu_simulator.ReorderBuffer.{ReorderBuffer, RobInputs, RobOutputs, next_tag, full}
use risc_v_cpu_simulator.ReservationStation
use risc_v_cpu_simulator.ReservationStation.{
  make_execute, select_ready_index, invalid_index, is_ready,
}
use risc_v_cpu_simulator.ReservationStation.Slots.{size-cycle, selected-IsReady}
use risc_v_cpu_simulator.LoadStoreQueue
use risc_v_cpu_simulator.LoadStoreQueue.{make_memory_request, empty}
use risc_v_cpu_simulator.LoadStoreQueue.Order.{plan-IsOrdered}
use risc_v_cpu_simulator.LoadStoreQueue.Invariant.{IsLsq}
use risc_v_cpu_simulator.IssueUnit.{is_issued}
use risc_v_cpu_simulator.IssueUnit.Agreement.{is_integer}
use risc_v_cpu_simulator.Cpu.State.{Cpu}
use risc_v_cpu_simulator.Cpu.Plan.{observe, Plans}
use risc_v_cpu_simulator.Cpu.Inputs.{apply_inputs, issue_effective, ApplyInputs}
use risc_v_cpu_simulator.Cpu.Cycle.{Accepted, assertions, begin, plans_of, applied_of}
use risc_v_cpu_simulator.Cpu.Lockstep.{plans, inputs, answers}
use risc_v_cpu_simulator.Cpu.AnyOrder.{plans_of_lem, applied_of_lem, inputs-begin}
use risc_v_cpu_simulator.Cpu.Issued.{IsIssue, plans-IsIssue}
use risc_v_cpu_simulator.IssueUnit.Kinds.{execute-valid}
use risc_v_cpu_simulator.Cpu.Invariant.{IsCpu}

issue_step-accepts :
    (s : ReorderBuffer) (i : RobInputs) (d : RobOutputs)
    → d.flush ≡ false
    → i.issue_valid ≡ true
    → full s ≡ false
    → i.issue_entry.valid ≡ true
    → tag_eq i.issue_entry.tag (next_tag s) ≡ true
    → (ReorderBuffer.issue_step s i d).1 ≡ true
unfolding ReorderBuffer.issue_step
issue_step-accepts s i d f v room e t = ground arith

-- The commit leaves the current state, by which the issue is judged.
commit_step-same :
    (r : ReorderBuffer) (i : RobInputs) (d : RobOutputs)
    → let s = ReorderBuffer.commit_step r i d in (full s ≡ full r) × (next_tag s ≡ next_tag r)
unfolding ReorderBuffer.commit_step next_tag full
commit_step-same r i d = elim (Bool-cases d.commit.valid) [
  | inr e ↦ rw e (refl, refl)
  | inl e ↦ elim (Bool-cases d.flush) [
    | inl f ↦ rw (e, f) (refl, refl)
    | inr f ↦ rw (e, f) (refl, refl)
  ]
]

-- The reorder buffer takes an entry with its tag, when it has room and does not flush.
rob-accepts :
    (r : ReorderBuffer) (i : RobInputs) (d : RobOutputs)
    → d.flush ≡ false
    → i.issue_valid ≡ true
    → full r ≡ false
    → i.issue_entry.valid ≡ true
    → i.issue_entry.tag ≡ next_tag r
    → (ReorderBuffer.apply r i d).1 ≡ true
unfolding ReorderBuffer.apply
rob-accepts r i d f v room e t =
    let same = commit_step-same r i d in
    issue_step-accepts (ReorderBuffer.commit_step r i d) i d f v (same.0 ∙ room) e
      (ap (tag_eq i.issue_entry.tag) (same.1 ∙ sym t) ∙ tag_eq_self i.issue_entry.tag)

lsq-accepts :
    (q : LoadStoreQueue.LoadStoreQueue) (i : LoadStoreQueue.LsqInputs)
    (d : LoadStoreQueue.LsqDecision)
    → i.flush ≡ false
    → i.issue_valid ≡ true
    → LoadStoreQueue.full q ≡ false
    → i.issue_entry.valid ≡ true
    → (LoadStoreQueue.apply q i d).1 ≡ true
unfolding LoadStoreQueue.apply
lsq-accepts q i d f v room e = ground arith

memory-accepts :
    (u : MemoryUnit) (r : DataMemoryRequest)
    → data_port_available u ≡ true
    → r.valid ≡ true
    → r.tag.valid ≡ true
    → (MemoryUnit.apply u r).1 ≡ true
unfolding MemoryUnit.apply data_port_available
memory-accepts u r a v t = ground arith

fu-accepts :
    (u : FunctionalUnit.FunctionalUnit) (e : Execute) (flush granted : Bool)
    → flush ≡ false
    → e.valid ≡ true
    → is_integer e.op ≡ true
    → FunctionalUnit.can_accept u granted ≡ true
    → (FunctionalUnit.apply u e flush granted).1 ≡ true
unfolding FunctionalUnit.execute_instruction FunctionalUnit.can_accept
fu-accepts u e flush granted f v k can =
    ground (arith, (latch-apply u e flush granted).0, execute-valid e.op e k)

-- What the station sends out is a ready entry.
sent-IsInteger :
    (r : ReservationStation.ReservationStation) (flush : Bool)
    → ((i : ℕ) → (r.cur_rs i).busy ≡ true → is_integer (r.cur_rs i).op ≡ true)
    → (ReservationStation.plan r flush).dispatch_valid ≡ true
    → let e = (ReservationStation.plan r flush).dispatch in
      (e.valid ≡ true) × (is_integer e.op ≡ true)
unfolding ReservationStation.plan make_execute is_ready
sent-IsInteger r flush h e = elim (Bool-cases flush) [
  | inl f ↦ absurd (ground arith)
  | inr f ↦ elim (Bool-cases (select_ready_index r == invalid_index)) [
    | inl k ↦ absurd (ground arith)
    | inr k ↦
        let ready = (selected-IsReady r (ground arith)).1 in
        rw (f, k) (refl, h (select_ready_index r) (ground arith))
  ]
]

-- A request of the queue has a tag, since it is that of an entry.
request-tagged :
    (q : LoadStoreQueue.LoadStoreQueue) (seen : LoadStoreQueue.LsqObserveInputs)
    → IsLsq q
    → (LoadStoreQueue.plan q seen).memory_request.valid ≡ true
    → (LoadStoreQueue.plan q seen).memory_request.tag.valid ≡ true
unfolding empty
request-tagged q seen v h =
    let o = plan-IsOrdered q seen h in
    let head : (q.cur q.head).valid ≡ true =
      v.ring.occupied q.head v.ring.head_in ∙ ground (arith, o.present, v.ring.head_in) in
    ap (λ (r : DataMemoryRequest). r.tag.valid) o.head_request
    ∙ (unfold make_memory_request in (v.accesses q.head).tagged head)

module _ (c : Cpu) (v : IsCpu c) where
  abbrev p : Plans
  p = plans c

  abbrev i : ApplyInputs
  i = inputs c

  abbrev a : Accepted
  a = answers c

  abbrev o : IsIssue c (plans c).issue_outputs
  o = plans-IsIssue c v.bytes

  rob-answers : issue_effective p ≡ true → a.rob ≡ true
  unfolding issue_effective apply_inputs
  rob-answers e =
      let issued : is_issued p.issue_outputs.status ≡ true = ground arith in
      let written = o.to_rob ∙ issued in
      rob-accepts c.rob i.rob_inputs p.rob_decision (ground arith) (ground (arith, o.calm issued))
        (o.room issued) (o.rob_valid written) (o.rob_tag written)

  rs-answers : issue_effective p ≡ true → p.issue_outputs.write_rs ≡ true → a.rs ≡ true
  unfolding issue_effective apply_inputs
  rs-answers e w =
      let step = (size-cycle c.reservation_station i.rs_inputs).0 (o.calm (o.to_rs w)) in
      step.1 (o.rs_room w) ∙ ground arith

  lsq-answers : issue_effective p ≡ true → p.issue_outputs.write_lsq ≡ true → a.lsq ≡ true
  unfolding issue_effective apply_inputs
  lsq-answers e w =
      let calm = o.calm (o.to_lsq w) in
      lsq-accepts c.load_store_queue i.lsq_inputs p.lsq_decision calm (ground (arith, calm))
        (o.lsq_room w) (o.lsq_valid w)

  fu-answers :
      (p.rs_decision.dispatch_valid && i.rs_inputs.fu_available && not i.preview_flush) ≡ true
      → a.fu ≡ true
  unfolding apply_inputs
  fu-answers e =
      let flush = (observe c).preview.flush in
      let sent = sent-IsInteger c.reservation_station flush v.waiting (ground arith) in
      fu-accepts c.functional_unit p.rs_decision.dispatch flush i.integer_granted (ground arith)
        sent.0 sent.1 (ground arith)

  memory-answers : p.lsq_decision.memory_request.valid ≡ true → a.memory ≡ true
  unfolding observe apply_inputs
  memory-answers e =
      let seen = (observe c).lsq_observe in
      memory-accepts c.memory_unit p.lsq_decision.memory_request
        (plan-IsOrdered c.load_store_queue seen e).free_port e
        (request-tagged c.load_store_queue seen v.lsq e)

-- In every cycle of a processor in its invariant the assertions hold: what the issue unit sends on,
-- every part that it is sent to accepts, the functional unit accepts what the station sends when the
-- unit is free, and the memory accepts every request of the load/store queue.
pub assertions_hold :
    (c : Cpu)
    → IsCpu c
    → let b = begin c in
      let p = plans_of b in
      assertions p (apply_inputs b (observe b) p) (applied_of b p).accepted ≡ true
unfolding assertions
assertions_hold c v =
    rw (plans_of_lem c v.fair, applied_of_lem c (plans c) v.fair, inputs-begin c (plans c))
      (ground (
        arith,
        rob-answers c v,
        rs-answers c v,
        lsq-answers c v,
        fu-answers c v,
        memory-answers c v,
      ))
