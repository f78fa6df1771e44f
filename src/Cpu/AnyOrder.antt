-- ===== src/Cpu/AnyOrder.antt =====
-- src/tomasulo/cpu.cpp: the cycle against the one in which all parts change at once.
use risc_v_cpu_simulator.Base.{
  ◌<◌, ◌≡◌, refl, ap, ap₂, ◌∙◌, arith, true, if◌then◌else◌, Bool-cases, inl, inr,
}
use risc_v_cpu_simulator.MemoryUnit
use risc_v_cpu_simulator.RegisterFile
use risc_v_cpu_simulator.RenameTable
use risc_v_cpu_simulator.ReorderBuffer
use risc_v_cpu_simulator.ReservationStation
use risc_v_cpu_simulator.LoadStoreQueue
use risc_v_cpu_simulator.FunctionalUnit
use risc_v_cpu_simulator.CommonDataBus
use risc_v_cpu_simulator.BranchPredictor
use risc_v_cpu_simulator.Cpu.State.{
  Cpu, is_running, base_plan, base_apply, base_latch, order_variant_count,
}
use risc_v_cpu_simulator.Cpu.Plan.{
  Plans, no_plans, observe, run_plans, plan_step, fetches, fetch_and_decoded, issue_inputs,
  preview_rob, bus_inputs, decode_fetched, predicted_next_pc, source_state,
}
use risc_v_cpu_simulator.Cpu.Inputs.{apply_inputs, next_pc_of, next_fetch_stopped_of}
use risc_v_cpu_simulator.Cpu.Cycle.{
  Applied, none_accepted, apply_step, run_applies, latch_step, run_latches, latch_all, order_index,
  next_status_of, account, begin, plans_of, applied_of, advance, running_cycle, cycle,
}
use risc_v_cpu_simulator.Cpu.Shuffle.{
  run_plans_shuffled, run_applies_shuffled, run_latches_shuffled,
}
use risc_v_cpu_simulator.Cpu.Lockstep.{AreShuffled, plans, lockstep}

index_in : (c : Cpu) → order_index c < order_variant_count
unfolding order_index
index_in c = omega arith

plans-base : (c : Cpu) → run_plans c (observe c) base_plan no_plans ≡ plans c
unfolding run_plans plan_step
plans-base c = refl

-- What the cycle fixes first is not read by the plans.
plans-begin : (c : Cpu) → plans (begin c) ≡ plans c
unfolding begin observe preview_rob bus_inputs fetches fetch_and_decoded decode_fetched
    predicted_next_pc issue_inputs source_state
plans-begin c = refl

pub inputs-begin :
    (c : Cpu) (p : Plans)
    → apply_inputs (begin c) (observe (begin c)) p ≡ apply_inputs c (observe c) p
unfolding begin observe preview_rob bus_inputs apply_inputs
inputs-begin c p = refl

-- The plans of the code, whatever their order.
pub plans_of_lem : (c : Cpu) → AreShuffled c.orders → plans_of (begin c) ≡ plans c
unfolding plans_of
plans_of_lem c h =
    run_plans_shuffled b (observe b) no_plans (b.orders.plan_orders (order_index b))
      (unfold begin in h.plan (order_index b) (index_in b))
    ∙ plans-base b
    ∙ plans-begin c
  where
    b : Cpu
    b = begin c

-- The processor after the `apply` calls, and their answers.
abbrev pub after_applies : Cpu → Plans → Applied
after_applies c p =
    let i = apply_inputs c (observe c) p in
    let b = begin c in
    let rob = ReorderBuffer.apply c.rob i.rob_inputs i.rob_decision in
    let rs = ReservationStation.apply c.reservation_station i.rs_inputs i.rs_decision in
    let lsq = LoadStoreQueue.apply c.load_store_queue i.lsq_inputs i.lsq_decision in
    let fu = FunctionalUnit.apply c.functional_unit i.execute i.preview_flush i.integer_granted in
    let memory = MemoryUnit.apply c.memory_unit i.memory_request in
    record {
      cpu = record b {
        memory_unit = memory.0;
        register_file = RegisterFile.apply c.register_file i.register_write;
        rename_table = RenameTable.apply c.rename_table i.rat_write i.rat_commit i.rob_flush;
        rob = rob.0;
        reservation_station = rs.0;
        load_store_queue = lsq.0;
        functional_unit = fu.0;
        common_data_bus = CommonDataBus.apply c.common_data_bus i.cdb_decision;
        branch_predictor = BranchPredictor.apply c.branch_predictor i.predictor_update;
        next_pc = next_pc_of c p;
        next_fetch_stopped = next_fetch_stopped_of c p;
      };
      accepted = record { rob = rob.1; rs = rs.1; lsq = lsq.1; fu = fu.1; memory = memory.1 };
    }

pub applied_of_lem :
    (c : Cpu) (p : Plans) → AreShuffled c.orders → applied_of (begin c) p ≡ after_applies c p
unfolding applied_of
applied_of_lem c p h =
    run_applies_shuffled (apply_inputs b (observe b) p) _ (b.orders.apply_orders (order_index b))
      (unfold begin in h.apply (order_index b) (index_in b))
    ∙ at_once
  where
    b : Cpu
    b = begin c

    at_once :
        run_applies (apply_inputs b (observe b) p) base_apply (record {
          cpu = record b {
            next_pc = next_pc_of b p;
            next_fetch_stopped = next_fetch_stopped_of b p;
          };
          accepted = none_accepted;
        })
        ≡ after_applies c p
    at_once =
        rw (inputs-begin c p)
          (unfold begin run_applies apply_step next_pc_of next_fetch_stopped_of in refl)

rob-count :
    (r : ReorderBuffer.ReorderBuffer) (i : ReorderBuffer.RobInputs) (d : ReorderBuffer.RobOutputs)
    → (ReorderBuffer.apply r i d).0.count ≡ r.count
unfolding ReorderBuffer.apply ReorderBuffer.commit_step ReorderBuffer.issue_step
rob-count r i d = ground arith

-- The status is decided by the current state, which the `apply` calls leave.
status_lem : (c : Cpu) (p : Plans) → next_status_of (after_applies c p).cpu p ≡ next_status_of c p
unfolding next_status_of ReorderBuffer.empty begin apply_inputs
status_lem c p =
    ap (λ n. next_status_of (record c { rob = record (c.rob) { count = n } }) p)
      (rob-count c.rob (apply_inputs c (observe c) p).rob_inputs p.rob_decision)

latch_all_lem : (c : Cpu) → AreShuffled c.orders → latch_all c ≡ run_latches base_latch c
unfolding latch_all
latch_all_lem c h =
    run_latches_shuffled c (c.orders.latch_orders (order_index c))
      (h.latch (order_index c) (index_in c))

-- The rest of the cycle, on given plans.
rest_of : Cpu → Plans → Cpu
rest_of c p =
    let a = (applied_of (begin c) p).cpu in advance (next_status_of a p) (latch_all (account p a))

rest_of_lem : (c : Cpu) → AreShuffled c.orders → rest_of c (plans c) ≡ lockstep c
unfolding rest_of
rest_of_lem c h =
    let p = plans c in
    ap (λ (x : Applied). advance (next_status_of x.cpu p) (latch_all (account p x.cpu)))
      (applied_of_lem c p h)
    ∙ ap₂ advance (status_lem c p)
        (latch_all_lem (account p (after_applies c p).cpu) (unfold account begin in h))
    ∙ (unfold advance run_latches latch_step account begin RegisterFile.read RegisterFile.apply in
        refl)

-- Whatever the orders of the modules are, as long as each module has its turn once in each phase,
-- a cycle of a running processor is the one in which all parts read the same current state and change
-- at once; a processor that does not run does nothing.
pub cycle-lockstep :
    (c : Cpu) → AreShuffled c.orders → cycle c ≡ (if is_running c.status then lockstep c else c)
unfolding cycle running_cycle rest_of
cycle-lockstep c h = elim (Bool-cases (is_running c.status)) [
  | inl e ↦ rw e (ap (rest_of c) (plans_of_lem c h) ∙ rest_of_lem c h)
  | inr e ↦ rw e refl
]

pub running-lockstep :
    (c : Cpu) → AreShuffled c.orders → is_running c.status ≡ true → cycle c ≡ lockstep c
running-lockstep c h r = cycle-lockstep c h ∙ rw r refl
