-- ===== src/Cpu/Recovery.antt =====
-- src/tomasulo/cpu.cpp: the cycle in which a mispredicted jump or branch commits.
use risc_v_cpu_simulator.Base.{ℕ, ◌≡◌, ◌∙◌, sym, ap, arith, true, false, Option, some}
use mathlib.Core.Path.{subst}
use risc_v_cpu_simulator.Types.{no_tag}
use risc_v_cpu_simulator.Signals.{FuResult}
use risc_v_cpu_simulator.RenameTable
use risc_v_cpu_simulator.RenameTable.Priority.{lookup-latch-apply}
use risc_v_cpu_simulator.ReorderBuffer
use risc_v_cpu_simulator.ReorderBuffer.{
  ReorderBuffer, RobEntry, RobInputs, plan_head, front, commit_of, is_control_instruction,
}
use risc_v_cpu_simulator.ReorderBuffer.Invariant.{calm_plan}
use risc_v_cpu_simulator.ReservationStation.{size}
use risc_v_cpu_simulator.ReservationStation.Slots.{cycle as rs_cycle}
use risc_v_cpu_simulator.ReservationStation.Slots.{size-cycle}
use risc_v_cpu_simulator.LoadStoreQueue
use risc_v_cpu_simulator.FunctionalUnit.Hold.{latch-apply}
use risc_v_cpu_simulator.Cpu.State.{Cpu, is_running}
use risc_v_cpu_simulator.Cpu.Plan.{observe}
use risc_v_cpu_simulator.Cpu.Inputs.{apply_inputs, next_pc_of, next_fetch_stopped_of}
use risc_v_cpu_simulator.Cpu.Cycle.{cycle}
use risc_v_cpu_simulator.Cpu.Lockstep.{AreShuffled, inputs, lockstep}
use risc_v_cpu_simulator.Cpu.AnyOrder.{running-lockstep}
use risc_v_cpu_simulator.Cpu.Preview.{observed-Foresees}

-- A processor that has nothing in flight and goes on where the committed jump or branch goes.
pub record IsRecovered (head : RobEntry) (c : Cpu) : Type 0 where
  pub rob : ReorderBuffer.empty c.rob ≡ true
  pub station : size c.reservation_station ≡ 0
  pub queue : LoadStoreQueue.empty c.load_store_queue ≡ true
  pub result : c.functional_unit.current_result.valid ≡ false
  pub load_result : c.load_store_queue.cur_load_result.valid ≡ false
  pub renames : (reg : ℕ) → RenameTable.lookup c.rename_table reg ≡ no_tag
  pub pc : c.current_pc ≡ head.actual_next_pc
  pub fetching : c.fetch_stopped ≡ false

rob-clears :
    (r : ReorderBuffer) (i : RobInputs)
    → (ReorderBuffer.plan r).flush ≡ true
    → ReorderBuffer.empty (ReorderBuffer.latch (ReorderBuffer.apply r i (ReorderBuffer.plan r)).0)
      ≡ true
unfolding ReorderBuffer.empty ReorderBuffer.latch ReorderBuffer.apply ReorderBuffer.commit_step
    ReorderBuffer.issue_step
rob-clears r i f = ground (arith, calm_plan r)

lsq-clears :
    (q : LoadStoreQueue.LoadStoreQueue) (i : LoadStoreQueue.LsqInputs)
    (d : LoadStoreQueue.LsqDecision)
    → i.flush ≡ true
    → let q' = LoadStoreQueue.latch (LoadStoreQueue.apply q i d).0 in
      (LoadStoreQueue.empty q' ≡ true) × (q'.cur_load_result.valid ≡ false)
unfolding LoadStoreQueue.empty LoadStoreQueue.latch LoadStoreQueue.apply
lsq-clears q i d f = (ground arith, ground arith)

-- A flush is that of the head, which commits with its own target.
flush-head :
    (r : ReorderBuffer) (head : RobEntry)
    → front r ≡ some head
    → (ReorderBuffer.plan r).flush ≡ true
    → (ReorderBuffer.plan r).redirect_pc ≡ head.actual_next_pc
unfolding ReorderBuffer.plan plan_head commit_of
flush-head r head e f =
    ap (λ (o : Option RobEntry). (plan_head o).redirect_pc) e
    ∙ ground (arith, ap (λ (o : Option RobEntry). (plan_head o).flush) e)

lockstep-IsRecovered :
    (c : Cpu) (head : RobEntry)
    → front c.rob ≡ some head
    → (ReorderBuffer.plan c.rob).flush ≡ true
    → IsRecovered head (lockstep c)
lockstep-IsRecovered c head e f =
    let i = inputs c in
    let early : (observe c).preview.flush ≡ true = (observed-Foresees c).flush ∙ f in
    record {
      rob = unfold apply_inputs in rob-clears c.rob i.rob_inputs f;
      station =
          unfold apply_inputs rs_cycle in
          ((size-cycle c.reservation_station i.rs_inputs).1 early).0;
      queue =
          (lsq-clears c.load_store_queue i.lsq_inputs i.lsq_decision
            (unfold apply_inputs in early)).0;
      result =
          ap (λ (x : FuResult). x.valid)
            (latch-apply c.functional_unit i.execute i.preview_flush i.integer_granted).1
          ∙ (unfold apply_inputs in ground (arith, early));
      load_result =
          (lsq-clears c.load_store_queue i.lsq_inputs i.lsq_decision
            (unfold apply_inputs in early)).1;
      renames = λ reg.
          lookup-latch-apply c.rename_table i.rat_write i.rat_commit i.rob_flush reg
          ∙ (unfold apply_inputs in ground (arith, f));
      pc = unfold next_pc_of in ground (arith, f, flush-head c.rob head e f);
      fetching = unfold next_fetch_stopped_of in ground (arith, f);
    }

-- When a mispredicted jump or branch commits, nothing younger survives the cycle: the reorder buffer,
-- the reservation station, the load/store queue and both result registers are empty, no register
-- waits for a producer, and fetching goes on, at the instruction's actual successor.
pub cycle-IsRecovered :
    (c : Cpu) (head : RobEntry)
    → AreShuffled c.orders
    → is_running c.status ≡ true
    → front c.rob ≡ some head
    → (ReorderBuffer.plan c.rob).flush ≡ true
    → IsRecovered head (cycle c)
cycle-IsRecovered c head h r e f =
    subst (IsRecovered head) (sym (running-lockstep c h r)) (lockstep-IsRecovered c head e f)
