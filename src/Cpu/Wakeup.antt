-- ===== src/Cpu/Wakeup.antt =====
-- src/tomasulo/cpu.cpp: a cycle of the operands without a value.
use risc_v_cpu_simulator.Base.{
  ℕ, ◌<◌, ◌≡◌, ◌∙◌, sym, ap, arith, true, false, not, ◌&&◌, ◌||◌, if_keeps,
}
use mathlib.Core.Path.{subst}
use risc_v_cpu_simulator.Types.{RobTag, tag_eq}
use risc_v_cpu_simulator.Signals.{Operand}
use risc_v_cpu_simulator.Decoder.Shape.{IsWellFormed}
use risc_v_cpu_simulator.Instruction.{OperandSource}
use risc_v_cpu_simulator.CommonDataBus.{CdbOutputs}
use risc_v_cpu_simulator.RenameTable.{valid_register}
use risc_v_cpu_simulator.ReorderBuffer
use risc_v_cpu_simulator.ReorderBuffer.{ReorderBuffer, RobEntry, matching_entry}
use risc_v_cpu_simulator.ReorderBuffer.Pending.{IsPending, cycle-IsPending, cycle-AreExclusive}
use risc_v_cpu_simulator.ReservationStation.{RsEntry, wake_operand, wake_entry}
use risc_v_cpu_simulator.ReservationStation.Slots.{cycle as rs_cycle}
use risc_v_cpu_simulator.ReservationStation.Held.{cycle-keeps}
use risc_v_cpu_simulator.LoadStoreQueue
use risc_v_cpu_simulator.LoadStoreQueue.{LsqEntry}
use risc_v_cpu_simulator.LoadStoreQueue.Order.{cycle as lsq_cycle}
use risc_v_cpu_simulator.LoadStoreQueue.Held.{cycle-keeps as lsq-keeps}
use risc_v_cpu_simulator.IssueUnit.{
  IssueOutputs, resolve_register, select_operand, ready_operand, rs_entry_of, rob_entry_of,
  lsq_entry_of,
}
use risc_v_cpu_simulator.IssueUnit.Entries.{plan-HasEntries}
use risc_v_cpu_simulator.Cpu.State.{Cpu, is_running, load, new_cpu, Orders}
use risc_v_cpu_simulator.Image.{Token, FromChars, Input}
use risc_v_cpu_simulator.Cpu.Plan.{
  bus_inputs, preview_rob, observe, source_state, issue_inputs, fetches, fetch_and_decoded,
}
use risc_v_cpu_simulator.Cpu.Inputs.{apply_inputs, issue_effective}
use risc_v_cpu_simulator.Cpu.Cycle.{cycle}
use risc_v_cpu_simulator.Cpu.Lockstep.{plans, inputs, lockstep}
use risc_v_cpu_simulator.Cpu.AnyOrder.{cycle-lockstep}
use risc_v_cpu_simulator.Cpu.Preview.{observed-Foresees}
use risc_v_cpu_simulator.Cpu.Issued.{plans-IsIssue}
use risc_v_cpu_simulator.Cpu.Fetched.{fetched}
use risc_v_cpu_simulator.Cpu.Invariant.{IsCpu}
use risc_v_cpu_simulator.Cpu.Renamed.{IsRenamed}
use risc_v_cpu_simulator.Cpu.Waiting.{
  Awaits, AreAwaited, IsAwaited, bus_agrees, wake-unready, wake_lsq-unready, resolve-unready,
  source-IsPending, writer-stores,
}

module _ (c : Cpu) (v : IsCpu c) (h : IsRenamed c) (a : IsAwaited c)
    (calm : (ReorderBuffer.plan c.rob).flush ≡ false) where
  abbrev bus : CdbOutputs
  bus = (observe c).cdb_decision.outputs

  -- An instruction whose result is not on the bus is pending still.
  unheard-IsPending :
      (t : RobTag)
      → IsPending c.rob t
      → (t.valid && bus.broadcast.valid && bus.broadcast.tag.valid && tag_eq t bus.broadcast.tag)
        ≡ false
      → IsPending (lockstep c).rob t
  unfolding apply_inputs
  unheard-IsPending t p e = cycle-IsPending c.rob (inputs c).rob_inputs t v.rob a.exclusive calm p (
      unfold matching_entry tag_eq observe in
      ground (arith, p.live, bus_agrees c.common_data_bus (bus_inputs c (preview_rob c))))

  wake-Awaits :
      (o : Operand) → Awaits c.rob o → Awaits (lockstep c).rob (wake_operand o bus.broadcast)
  wake-Awaits o p e =
      let w = wake-unready o bus.broadcast e in
      subst (IsPending (lockstep c).rob) (sym w.1) (unheard-IsPending o.tag (p w.0) w.2)

  wake_lsq-Awaits :
      (o : Operand)
      → Awaits c.rob o
      → Awaits (lockstep c).rob (LoadStoreQueue.wake_operand o bus.broadcast)
  wake_lsq-Awaits o p e =
      let w = wake_lsq-unready o bus.broadcast e in
      subst (IsPending (lockstep c).rob) (sym w.1) (unheard-IsPending o.tag (p w.0) w.2)

  wake_lsq-AreAwaited :
      (e : LsqEntry)
      → e.valid ≡ true
      → AreAwaited c.rob e
      → AreAwaited (lockstep c).rob (LoadStoreQueue.wake_entry e bus.broadcast)
  unfolding LoadStoreQueue.wake_entry
  wake_lsq-AreAwaited e there p =
      rw there (wake_lsq-Awaits e.base p.0, λ s. rw s (wake_lsq-Awaits e.store_data (p.1 s)))

  resolve-Awaits :
      (reg : ℕ)
      → reg < 32
      → Awaits (lockstep c).rob (resolve_register reg (source_state c reg) bus.broadcast)
  resolve-Awaits reg small e =
      let s = source_state c reg in
      let u = resolve-unready reg s bus.broadcast e in
      let known : valid_register reg ≡ true = unfold valid_register in ground (arith, u.0) in
      subst (IsPending (lockstep c).rob) (sym u.1) (
        unheard-IsPending s.producer (source-IsPending c reg v h known u.2 u.3)
          (unfold tag_eq in ground (arith, u.4)))

  select-Awaits :
      (source : OperandSource) (o : Operand) (immediate pc : ℕ)
      → Awaits (lockstep c).rob o
      → Awaits (lockstep c).rob (select_operand source o immediate pc)
  unfolding select_operand ready_operand
  select-Awaits OperandSource.immediate o immediate pc p e = absurd cc
  select-Awaits OperandSource.program_counter o immediate pc p e = absurd cc
  select-Awaits OperandSource.register o immediate pc p e = p e
  select-Awaits OperandSource.zero o immediate pc p e = absurd cc

-- What is written to the station and to the reorder buffer is made from the packet that was fetched.
record IsFrom (c : Cpu) (o : IssueOutputs) : Type 0 where
  rs :
      o.write_rs ≡ true
      → (o.rs_entry ≡ rs_entry_of (issue_inputs c (observe c) (fetch_and_decoded c).0))
        × IsWellFormed (fetch_and_decoded c).0.decoded
  lsq :
      o.write_lsq ≡ true
      → (o.lsq_entry ≡ lsq_entry_of (issue_inputs c (observe c) (fetch_and_decoded c).0))
        × IsWellFormed (fetch_and_decoded c).0.decoded
  rob : o.write_rob ≡ true → (o.rob_entry.writes_rd && o.rob_entry.is_store) ≡ false

plans-IsFrom : (c : Cpu) → IsCpu c → IsFrom c (plans c).issue_outputs
unfolding rob_entry_of issue_inputs
plans-IsFrom c v =
    let q = fetch_and_decoded c in
    let i = issue_inputs c (observe c) q.0 in
    let made = plan-HasEntries i in
    if_keeps (IsFrom c) (fetches c (observe c) && not q.1)
      (λ e.
        let well = (fetched c v.bytes (ground arith)).well in
        record {
          rs = λ w. (made.rs w, well);
          lsq = λ w. (made.lsq w, well);
          rob = λ w.
              ap (λ (x : RobEntry). x.writes_rd && x.is_store) (made.rob w)
              ∙ ground (arith, well.store, well.writes, writer-stores q.0.decoded.op);
        })
      λ _. record { rs = λ w. absurd cc; lsq = λ w. absurd cc; rob = λ w. absurd cc }

lockstep-IsAwaited : (c : Cpu) → IsCpu c → IsRenamed c → IsAwaited c → IsAwaited (lockstep c)
lockstep-IsAwaited c v h a =
    let from = plans-IsFrom c v in
    record {
      exclusive =
          unfold apply_inputs in
          cycle-AreExclusive c.rob (inputs c).rob_inputs (plans c).rob_decision a.exclusive
            (λ e. from.rob (ground arith));
      station =
          unfold rs_cycle apply_inputs in
          cycle-keeps P c.reservation_station (inputs c).rs_inputs waiting
            (λ e. issued (ground arith));
      queue =
          unfold lsq_cycle apply_inputs in
          lsq-keeps (AreAwaited (lockstep c).rob) (λ e p. p) address-AreAwaited c.load_store_queue
            (observe c).lsq_observe (inputs c).lsq_inputs
            (λ i there f.
              wake_lsq-AreAwaited c v h a (calm f) (c.load_store_queue.cur i) there
                (a.queue i there))
            λ e. queued (ground arith);
    }
  where
    P : RsEntry → Type 0
    P e = Awaits (lockstep c).rob e.lhs × Awaits (lockstep c).rob e.rhs

    calm : (observe c).preview.flush ≡ false → (ReorderBuffer.plan c.rob).flush ≡ false
    calm f = sym (observed-Foresees c).flush ∙ f

    address-AreAwaited :
        (e : LsqEntry)
        → AreAwaited (lockstep c).rob e
        → AreAwaited (lockstep c).rob (LoadStoreQueue.update_address e)
    address-AreAwaited e p =
        unfold LoadStoreQueue.update_address in
        if_keeps (AreAwaited (lockstep c).rob) (not e.valid || e.address_ready || not e.base.ready)
          (λ _. p) (λ _. p)

    queued :
        (plans c).issue_outputs.write_lsq ≡ true
        → AreAwaited
            (lockstep c).rob
            (record ((plans c).issue_outputs.lsq_entry) { valid = true; request_sent = false })
    queued w =
        let made = (plans-IsFrom c v).lsq w in
        let d = (fetch_and_decoded c).0.decoded in
        let o = plans-IsIssue c v.bytes in
        let f = calm (o.calm (o.to_lsq w)) in
        let rs1 = resolve-Awaits c v h a f d.rs1 made.1.rs1_in in
        let rs2 = resolve-Awaits c v h a f d.rs2 made.1.rs2_in in
        subst
          (λ (x : LsqEntry).
            AreAwaited (lockstep c).rob (record x { valid = true; request_sent = false }))
          (sym made.0)
          (unfold lsq_entry_of issue_inputs ready_operand in
            (rs1, λ s. if_keeps (Awaits (lockstep c).rob) d.is_store (λ _. rs2) (λ _ e. absurd cc)))

    waiting :
        (i : ℕ)
        → (c.reservation_station.cur_rs i).busy ≡ true
        → (observe c).preview.flush ≡ false
        → P (wake_entry (c.reservation_station.cur_rs i) (observe c).cdb_decision.outputs.broadcast)
    waiting i busy f =
        let e = c.reservation_station.cur_rs i in
        let both = a.station i busy in
        unfold wake_entry in
        rw busy
          (wake-Awaits c v h a (calm f) e.lhs both.0, wake-Awaits c v h a (calm f) e.rhs both.1)

    issued :
        (plans c).issue_outputs.write_rs && issue_effective (plans c) ≡ true
        → P (record ((plans c).issue_outputs.rs_entry) { busy = true })
    issued e =
        let made = (plans-IsFrom c v).rs (ground arith) in
        let d = (fetch_and_decoded c).0.decoded in
        let pc = (fetch_and_decoded c).0.pc in
        let f = calm (unfold issue_effective in ground (arith, (plans-IsIssue c v.bytes).calm)) in
        let lhs = resolve-Awaits c v h a f d.rs1 made.1.rs1_in in
        let rhs = resolve-Awaits c v h a f d.rs2 made.1.rs2_in in
        subst (λ (x : RsEntry). P (record x { busy = true })) (sym made.0)
          (unfold rs_entry_of issue_inputs in
            (
              select-Awaits c v h a f d.lhs_source _ d.immediate pc lhs,
              select-Awaits c v h a f d.rhs_source _ d.immediate pc rhs,
            ))

-- Every cycle keeps it: each operand without a value, in the station or in the load/store queue, waits
-- for an instruction in the reorder buffer that writes a register and has no result yet; so no result
-- goes over the bus unheard, and no operand waits for an instruction that has committed or was undone.
pub cycle-IsAwaited : (c : Cpu) → IsCpu c → IsRenamed c → IsAwaited c → IsAwaited (cycle c)
cycle-IsAwaited c v h a =
    subst IsAwaited (sym (cycle-lockstep c v.fair))
      (if_keeps IsAwaited (is_running c.status) (λ _. lockstep-IsAwaited c v h a) λ _. a)

-- A loaded program has nothing in flight.
pub load-IsAwaited :
    (from_chars : Token → FromChars) (orders : Orders) (input : Input)
    → IsAwaited (load from_chars (new_cpu orders) input).0
unfolding load
load-IsAwaited from_chars orders input = record {
  exclusive = λ i e. absurd cc;
  station = λ i e. absurd cc;
  queue = λ i e. absurd cc;
}
