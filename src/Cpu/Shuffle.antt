-- ===== src/Cpu/Shuffle.antt =====
-- src/tomasulo/cpu.cpp: a phase gives the same result in every order of its modules, since a module
-- writes only its own fields, from inputs that the phase does not change.
use risc_v_cpu_simulator.Base.{
  ℕ, zero, suc, ◌≡◌, refl, sym, ap, ◌∙◌, fun_ext, arith, Bool, not, ◌&&◌, ◌==◌, if◌then◌else◌, List,
  [], ◌∷◌,
}
use mathlib.Core.List.{Perm, Permᴰ}
use mathlib.Core.Logic.{∥∥₁_elim}
use native.Mathlib.Nat.{ℕ_set}
use risc_v_cpu_simulator.MemoryUnit
use risc_v_cpu_simulator.RegisterFile
use risc_v_cpu_simulator.RenameTable
use risc_v_cpu_simulator.ReorderBuffer
use risc_v_cpu_simulator.ReservationStation
use risc_v_cpu_simulator.LoadStoreQueue
use risc_v_cpu_simulator.FunctionalUnit
use risc_v_cpu_simulator.CommonDataBus
use risc_v_cpu_simulator.BranchPredictor
use risc_v_cpu_simulator.IssueUnit
use risc_v_cpu_simulator.Cpu.State.{
  Cpu, PlanModule, ApplyModule, LatchModule, base_plan, base_apply, base_latch,
}
use risc_v_cpu_simulator.Cpu.Plan.{
  Wires, Plans, run_plans, plan_step, fetches, fetch_and_decoded, issue_inputs,
}
use risc_v_cpu_simulator.Cpu.Inputs.{ApplyInputs}
use risc_v_cpu_simulator.Cpu.Cycle.{Applied, apply_step, run_applies, latch_step, run_latches}

abbrev iterate {ℓ} : {A : Type ℓ} → ℕ → (A → A) → A → A
iterate zero f x = x
iterate (suc n) f x = iterate n f (f x)

module _ {A : Type 0} (number : A → ℕ) where
  -- How often the module of a number stands in an order.
  abbrev count : ℕ → List A → ℕ
  count k [] = 0
  count k (x ∷ xs) = if number x == k then suc (count k xs) else count k xs

  count-Permᴰ : (k : ℕ) {xs ys : List A} → Permᴰ xs ys → count k xs ≡ count k ys
  count-Permᴰ k Permᴰ.nil = refl
  count-Permᴰ k (Permᴰ.cons {b = b} e p) =
      rw e (ap (λ n. if number b == k then suc n else n) (count-Permᴰ k p))
  count-Permᴰ k (Permᴰ.swap e f) = rw (e, f) ground arith
  count-Permᴰ k (Permᴰ.trans p q) = count-Permᴰ k p ∙ count-Permᴰ k q

  count-Perm : (k : ℕ) {xs ys : List A} → Perm xs ys → count k xs ≡ count k ys
  count-Perm k p = ∥∥₁_elim p (ℕ_set _ _) (count-Permᴰ k)

plan_number : PlanModule → ℕ
plan_number PlanModule.issue = 0
plan_number PlanModule.reorder_buffer = 1
plan_number PlanModule.reservation_station = 2
plan_number PlanModule.load_store_queue = 3

apply_number : ApplyModule → ℕ
apply_number ApplyModule.common_data_bus = 0
apply_number ApplyModule.reorder_buffer = 1
apply_number ApplyModule.reservation_station = 2
apply_number ApplyModule.load_store_queue = 3
apply_number ApplyModule.functional_unit = 4
apply_number ApplyModule.register_file = 5
apply_number ApplyModule.rename_table = 6
apply_number ApplyModule.branch_predictor = 7
apply_number ApplyModule.memory_unit = 8

latch_number : LatchModule → ℕ
latch_number LatchModule.register_file = 0
latch_number LatchModule.rename_table = 1
latch_number LatchModule.reorder_buffer = 2
latch_number LatchModule.reservation_station = 3
latch_number LatchModule.load_store_queue = 4
latch_number LatchModule.functional_unit = 5
latch_number LatchModule.common_data_bus = 6
latch_number LatchModule.memory_unit = 7
latch_number LatchModule.branch_predictor = 8

-- The plans when each module has planned so many times.
planned : Cpu → Wires → (ℕ → ℕ) → Plans → Plans
planned c w n p =
    let (packet, fetch_error) = fetch_and_decoded c in
    record {
      issue_outputs =
          iterate (n 0)
            (λ o.
              if fetches c w && not fetch_error
              then IssueUnit.plan (issue_inputs c w packet)
              else o)
            p.issue_outputs;
      rob_decision = iterate (n 1) (λ _. ReorderBuffer.plan c.rob) p.rob_decision;
      rs_decision =
          iterate (n 2) (λ _. ReservationStation.plan c.reservation_station w.preview.flush)
            p.rs_decision;
      lsq_decision =
          iterate (n 3) (λ _. LoadStoreQueue.plan c.load_store_queue w.lsq_observe) p.lsq_decision;
      fetch_error = iterate (n 0) (λ e. if fetches c w then fetch_error else e) p.fetch_error;
    }

run_plans-planned :
    (c : Cpu) (w : Wires) (order : List PlanModule) (p : Plans)
    → run_plans c w order p ≡ planned c w (λ k. count plan_number k order) p
unfolding run_plans plan_step planned plan_number
run_plans-planned c w [] p = refl
run_plans-planned c w (PlanModule.issue ∷ order) p =
    run_plans-planned c w order (plan_step c w PlanModule.issue p)
run_plans-planned c w (PlanModule.reorder_buffer ∷ order) p =
    run_plans-planned c w order (plan_step c w PlanModule.reorder_buffer p)
run_plans-planned c w (PlanModule.reservation_station ∷ order) p =
    run_plans-planned c w order (plan_step c w PlanModule.reservation_station p)
run_plans-planned c w (PlanModule.load_store_queue ∷ order) p =
    run_plans-planned c w order (plan_step c w PlanModule.load_store_queue p)

-- Every order of the plans gives the same plans.
pub run_plans_shuffled :
    (c : Cpu) (w : Wires) (p : Plans) (order : List PlanModule)
    → Perm order base_plan
    → run_plans c w order p ≡ run_plans c w base_plan p
run_plans_shuffled c w p order h =
    run_plans-planned c w order p
    ∙ ap (λ n. planned c w n p) (fun_ext (λ k. count-Perm plan_number k h))
    ∙ sym (run_plans-planned c w base_plan p)

-- The state when each module has been applied so many times.
applied : ApplyInputs → (ℕ → ℕ) → Applied → Applied
applied i n s =
    let c = s.cpu in
    let a = s.accepted in
    let rob =
      iterate (n 1)
        (λ (q : ReorderBuffer.ReorderBuffer × Bool).
          ReorderBuffer.apply q.0 i.rob_inputs i.rob_decision)
        (c.rob, a.rob) in
    let rs =
      iterate (n 2)
        (λ (q : ReservationStation.ReservationStation × Bool).
          ReservationStation.apply q.0 i.rs_inputs i.rs_decision)
        (c.reservation_station, a.rs) in
    let lsq =
      iterate (n 3)
        (λ (q : LoadStoreQueue.LoadStoreQueue × Bool).
          LoadStoreQueue.apply q.0 i.lsq_inputs i.lsq_decision)
        (c.load_store_queue, a.lsq) in
    let fu =
      iterate (n 4)
        (λ (q : FunctionalUnit.FunctionalUnit × Bool).
          FunctionalUnit.apply q.0 i.execute i.preview_flush i.integer_granted)
        (c.functional_unit, a.fu) in
    let memory =
      iterate (n 8) (λ (q : MemoryUnit.MemoryUnit × Bool). MemoryUnit.apply q.0 i.memory_request)
        (c.memory_unit, a.memory) in
    record {
      cpu = record c {
        common_data_bus =
            iterate (n 0) (λ b. CommonDataBus.apply b i.cdb_decision) c.common_data_bus;
        rob = rob.0;
        reservation_station = rs.0;
        load_store_queue = lsq.0;
        functional_unit = fu.0;
        register_file = iterate (n 5) (λ f. RegisterFile.apply f i.register_write) c.register_file;
        rename_table =
            iterate (n 6) (λ t. RenameTable.apply t i.rat_write i.rat_commit i.rob_flush)
              c.rename_table;
        branch_predictor =
            iterate (n 7) (λ b. BranchPredictor.apply b i.predictor_update) c.branch_predictor;
        memory_unit = memory.0;
      };
      accepted = record { rob = rob.1; rs = rs.1; lsq = lsq.1; fu = fu.1; memory = memory.1 };
    }

run_applies-applied :
    (i : ApplyInputs) (order : List ApplyModule) (s : Applied)
    → run_applies i order s ≡ applied i (λ k. count apply_number k order) s
unfolding run_applies apply_step applied apply_number
run_applies-applied i [] s = refl
run_applies-applied i (ApplyModule.common_data_bus ∷ order) s =
    run_applies-applied i order (apply_step i ApplyModule.common_data_bus s)
run_applies-applied i (ApplyModule.reorder_buffer ∷ order) s =
    run_applies-applied i order (apply_step i ApplyModule.reorder_buffer s)
run_applies-applied i (ApplyModule.reservation_station ∷ order) s =
    run_applies-applied i order (apply_step i ApplyModule.reservation_station s)
run_applies-applied i (ApplyModule.load_store_queue ∷ order) s =
    run_applies-applied i order (apply_step i ApplyModule.load_store_queue s)
run_applies-applied i (ApplyModule.functional_unit ∷ order) s =
    run_applies-applied i order (apply_step i ApplyModule.functional_unit s)
run_applies-applied i (ApplyModule.register_file ∷ order) s =
    run_applies-applied i order (apply_step i ApplyModule.register_file s)
run_applies-applied i (ApplyModule.rename_table ∷ order) s =
    run_applies-applied i order (apply_step i ApplyModule.rename_table s)
run_applies-applied i (ApplyModule.branch_predictor ∷ order) s =
    run_applies-applied i order (apply_step i ApplyModule.branch_predictor s)
run_applies-applied i (ApplyModule.memory_unit ∷ order) s =
    run_applies-applied i order (apply_step i ApplyModule.memory_unit s)

-- Every order of the `apply` calls gives the same next states and the same answers.
pub run_applies_shuffled :
    (i : ApplyInputs) (s : Applied) (order : List ApplyModule)
    → Perm order base_apply
    → run_applies i order s ≡ run_applies i base_apply s
run_applies_shuffled i s order h =
    run_applies-applied i order s
    ∙ ap (λ n. applied i n s) (fun_ext (λ k. count-Perm apply_number k h))
    ∙ sym (run_applies-applied i base_apply s)

-- The state when each module has been latched so many times.
latched : (ℕ → ℕ) → Cpu → Cpu
latched n c = record c {
  register_file = iterate (n 0) RegisterFile.latch c.register_file;
  rename_table = iterate (n 1) RenameTable.latch c.rename_table;
  rob = iterate (n 2) ReorderBuffer.latch c.rob;
  reservation_station = iterate (n 3) ReservationStation.latch c.reservation_station;
  load_store_queue = iterate (n 4) LoadStoreQueue.latch c.load_store_queue;
  functional_unit = iterate (n 5) FunctionalUnit.latch c.functional_unit;
  common_data_bus = iterate (n 6) CommonDataBus.latch c.common_data_bus;
  memory_unit = iterate (n 7) MemoryUnit.latch c.memory_unit;
  branch_predictor = iterate (n 8) BranchPredictor.latch c.branch_predictor;
}

run_latches-latched :
    (order : List LatchModule) (c : Cpu)
    → run_latches order c ≡ latched (λ k. count latch_number k order) c
unfolding run_latches latch_step latched latch_number
run_latches-latched [] c = refl
run_latches-latched (LatchModule.register_file ∷ order) c =
    run_latches-latched order (latch_step LatchModule.register_file c)
run_latches-latched (LatchModule.rename_table ∷ order) c =
    run_latches-latched order (latch_step LatchModule.rename_table c)
run_latches-latched (LatchModule.reorder_buffer ∷ order) c =
    run_latches-latched order (latch_step LatchModule.reorder_buffer c)
run_latches-latched (LatchModule.reservation_station ∷ order) c =
    run_latches-latched order (latch_step LatchModule.reservation_station c)
run_latches-latched (LatchModule.load_store_queue ∷ order) c =
    run_latches-latched order (latch_step LatchModule.load_store_queue c)
run_latches-latched (LatchModule.functional_unit ∷ order) c =
    run_latches-latched order (latch_step LatchModule.functional_unit c)
run_latches-latched (LatchModule.common_data_bus ∷ order) c =
    run_latches-latched order (latch_step LatchModule.common_data_bus c)
run_latches-latched (LatchModule.memory_unit ∷ order) c =
    run_latches-latched order (latch_step LatchModule.memory_unit c)
run_latches-latched (LatchModule.branch_predictor ∷ order) c =
    run_latches-latched order (latch_step LatchModule.branch_predictor c)

-- Every order of the `latch` calls gives the same state.
pub run_latches_shuffled :
    (c : Cpu) (order : List LatchModule)
    → Perm order base_latch
    → run_latches order c ≡ run_latches base_latch c
run_latches_shuffled c order h =
    run_latches-latched order c
    ∙ ap (λ n. latched n c) (fun_ext (λ k. count-Perm latch_number k h))
    ∙ sym (run_latches-latched base_latch c)
