-- ===== src/Cpu/Tests.antt =====
-- The processor with a small program, and with an instruction ready to commit.
use risc_v_cpu_simulator.Base.{
  ℕ, ◌+◌, ◌*◌, ◌-◌, ◌≡◌, ◌⊎◌, refl, ap, arith, true, false, if◌then◌else◌, some, List, [], ◌∷◌,
  update, fill, leb, length, none,
}
use mathlib.Core.List.{Perm}
use mathlib.Core.List.Perm
use risc_v_cpu_simulator.Instruction.{halt, jal, sw, op_eq, op_code}
use risc_v_cpu_simulator.Image.{Token, FromChars, Input}
use risc_v_cpu_simulator.Types.{no_tag}
use risc_v_cpu_simulator.LoadStoreQueue
use risc_v_cpu_simulator.MemoryUnit.{MemoryAccessType}
use risc_v_cpu_simulator.RegisterFile
use risc_v_cpu_simulator.ReorderBuffer
use risc_v_cpu_simulator.ReorderBuffer.{
  ReorderBuffer, RobEntry, no_entry, front, plan_head, commit_of, is_control_instruction,
}
use risc_v_cpu_simulator.Cpu.State.{
  Cpu, Orders, new_cpu, load, base_plan, base_apply, base_latch, running, is_running, is_halted,
  initialize_execution_orders, no_orders,
}
use risc_v_cpu_simulator.Cpu.Plan.{source_state, observe}
use risc_v_cpu_simulator.Cpu.Inputs.{apply_inputs}
use risc_v_cpu_simulator.Cpu.Cycle.{cycle, begin, plans_of, applied_of, assertions, run}
use risc_v_cpu_simulator.Cpu.Lockstep.{AreShuffled, lockstep}
use risc_v_cpu_simulator.Cpu.AnyOrder.{cycle-lockstep}
use risc_v_cpu_simulator.Cpu.Seeds.{cycles, with_orders, seeds_agree}
use risc_v_cpu_simulator.Cpu.Invariant.{IsCpu, cycle-IsCpu, load-IsCpu}
use risc_v_cpu_simulator.Cpu.Assertions.{assertions_hold}
use risc_v_cpu_simulator.Cpu.Recovery.{IsRecovered, cycle-IsRecovered}
use risc_v_cpu_simulator.Cpu.Commit.{committed, counts, cycle-registers}
use risc_v_cpu_simulator.Cpu.Writes.{IsWritten, writes_asked}
use risc_v_cpu_simulator.Cpu.Stopping.{halts, outcome, cycle-outcome}
use risc_v_cpu_simulator.Cpu.Run.{run-cycles}
use risc_v_cpu_simulator.RenameTable.{valid_register}
use risc_v_cpu_simulator.ReorderBuffer.Queue.{contents}
use risc_v_cpu_simulator.ReorderBuffer.Youngest.{youngest_entry}
use risc_v_cpu_simulator.Cpu.Renamed.{IsRenamed, cycle-IsRenamed}
use risc_v_cpu_simulator.Cpu.Waiting.{IsAwaited}
use risc_v_cpu_simulator.Cpu.Wakeup.{cycle-IsAwaited}
use risc_v_cpu_simulator.Cpu.Reachable.{IsSound, reachable-IsSound}
use risc_v_cpu_simulator.Cpu.Operands.{seen, source_state_lem}

-- A shuffle that exchanges the first two elements, and counts its uses.
exchange : (A : Type 0) → List A → ℕ → List A × ℕ
exchange A [] n = ([], n + 1)
exchange A (x ∷ []) n = (x ∷ [], n + 1)
exchange A (x ∷ y ∷ xs) n = (y ∷ x ∷ xs, n + 1)

exchange-Perm : (A : Type 0) (xs : List A) (n : ℕ) → Perm (exchange A xs n).0 xs
unfolding exchange
exchange-Perm A [] n = Perm.refl []
exchange-Perm A (x ∷ []) n = Perm.refl (x ∷ [])
exchange-Perm A (x ∷ y ∷ xs) n = Perm.swap x y xs

abbrev fair : Orders
fair = record {
  plan_orders = fill base_plan;
  apply_orders = fill base_apply;
  latch_orders = fill base_latch;
}

fair-AreShuffled : AreShuffled fair
fair-AreShuffled = record {
  plan = λ k l. Perm.refl base_plan;
  apply = λ k l. Perm.refl base_apply;
  latch = λ k l. Perm.refl base_latch;
}

-- A parser of lower-case hexadecimal digits that accepts whatever follows as a digit too.
unfoldable hex_value : Token → ℕ → ℕ
hex_value [] n = n
hex_value (c ∷ text) n = hex_value text (n * 16 + (if leb c 57 then c - 48 else c - 87))

abbrev hex : Token → FromChars
hex text = record { fine = true; position = length text; value = hex_value text 0 }

-- `@0` and `13 05 50 00`, which sets a0 to 5.
abbrev set_a0 : Input
set_a0 = record {
  lines =
      ((b'@' ∷ b'0' ∷ []) ∷ [])
      ∷ ((b'1' ∷ b'3' ∷ []) ∷ (b'0' ∷ b'5' ∷ []) ∷ (b'5' ∷ b'0' ∷ []) ∷ (b'0' ∷ b'0' ∷ []) ∷ [])
      ∷ [];
  bad = false;
}

abbrev loaded : Cpu
loaded = (load hex (new_cpu fair) set_a0).0

loaded-IsCpu : IsCpu loaded
loaded-IsCpu = load-IsCpu hex fair set_a0 fair-AreShuffled

-- A processor whose reorder buffer holds one finished instruction.
abbrev about_to_commit : RobEntry → Cpu
about_to_commit entry = record (new_cpu fair) {
  status = running;
  rob = record (ReorderBuffer.reset) { cur = update (fill no_entry) 0 entry; tail = 1; count = 1 };
}

abbrev finished : RobEntry
finished = record no_entry {
  tag = record { index = 0; generation = 1; valid = true };
  ready = true;
  valid = true;
}

-- A jump that was predicted to 4 and goes to 64; its link goes to x1.
abbrev jump : RobEntry
jump = record finished {
  op = jal;
  rd = 1;
  value = 4;
  writes_rd = true;
  predicted_next_pc = 4;
  actual_next_pc = 64;
  is_jump = true;
}

abbrev stop : RobEntry
stop = record finished { op = halt }

at_front : (entry : RobEntry) → entry.valid ≡ true → front (about_to_commit entry).rob ≡ some entry
unfolding front ReorderBuffer.empty
at_front entry h = ground arith

cycle-lockstep_example :
    cycle loaded ≡ (if is_running loaded.status then lockstep loaded else loaded)
unfolding load
cycle-lockstep_example = cycle-lockstep loaded fair-AreShuffled

seeds_agree_example :
    with_orders no_orders
      (cycles 7 (load hex (new_cpu (initialize_execution_orders ℕ exchange 3)) set_a0).0)
    ≡ with_orders no_orders
        (cycles 7 (load hex (new_cpu (initialize_execution_orders ℕ exchange 8)) set_a0).0)
seeds_agree_example = seeds_agree ℕ exchange exchange-Perm hex 3 8 set_a0 7

assertions_hold_example :
    let b = begin loaded in
    let p = plans_of b in
    assertions p (apply_inputs b (observe b) p) (applied_of b p).accepted ≡ true
assertions_hold_example = assertions_hold loaded loaded-IsCpu

cycle-IsCpu_example : IsCpu (cycle loaded)
cycle-IsCpu_example = cycle-IsCpu loaded loaded-IsCpu

jump_flushes : (ReorderBuffer.plan (about_to_commit jump).rob).flush ≡ true
unfolding ReorderBuffer.plan plan_head commit_of front ReorderBuffer.empty is_control_instruction
jump_flushes = refl

cycle-IsRecovered_example : IsRecovered jump (cycle (about_to_commit jump))
unfolding is_running
cycle-IsRecovered_example =
    cycle-IsRecovered (about_to_commit jump) jump fair-AreShuffled refl (at_front jump refl)
      jump_flushes

cycle-registers_example :
    let c = about_to_commit jump in
    (RegisterFile.read (cycle c).register_file 1 ≡ committed (front c.rob) c 1)
    × ((cycle c).committed_count ≡ (if counts (front c.rob) then 1 else 0))
unfolding is_running
cycle-registers_example = cycle-registers (about_to_commit jump) 1 fair-AreShuffled refl

cycle-outcome_example :
    let c = about_to_commit stop in
    ((cycle c).status ≡ outcome c) × ((cycle c).exit_code ≡ (if halts (front c.rob) then 0 else 0))
unfolding RegisterFile.read is_running
cycle-outcome_example = cycle-outcome (about_to_commit stop) fair-AreShuffled refl

stop_halts : is_running (cycle (about_to_commit stop)).status ≡ false
unfolding is_running is_halted op_eq op_code
stop_halts =
    let o = (cycle-outcome (about_to_commit stop) fair-AreShuffled refl).0 in
    ground (arith, o, ap halts (at_front stop refl))

run-cycles_example :
    let c = about_to_commit stop in
    (run 5 c ≡ some (cycles 1 c))
    × (run 0 c ≡ (if is_running (cycles 0 c).status then none else some (cycles 0 c)))
run-cycles_example = run-cycles (about_to_commit stop) 1 5 0 (omega arith) stop_halts

-- A store of 42 to 0x100, the oldest instruction, with its operands ready.
abbrev storing : Cpu
storing = record (about_to_commit (record finished { op = sw; is_store = true; ready = false })) {
  load_store_queue = record (LoadStoreQueue.reset) {
    cur = update (fill LoadStoreQueue.no_entry) 0 (record (LoadStoreQueue.no_entry) {
      type = MemoryAccessType.store;
      op = sw;
      destination = finished.tag;
      store_data = record { value = 42; tag = no_tag; ready = true };
      address = 0x100;
      address_ready = true;
      valid = true;
    });
    tail = 1;
    count = 1;
  };
}

writes_asked_example :
    ((cycles 4 storing).memory_unit.memory ≡ (cycles 3 storing).memory_unit.memory)
    ⊎ IsWritten storing 3
writes_asked_example = writes_asked storing 3 fair-AreShuffled refl

loaded-IsSound : IsSound loaded
loaded-IsSound = reachable-IsSound hex fair set_a0 0 fair-AreShuffled

cycle-IsRenamed_example : IsRenamed (cycle loaded)
cycle-IsRenamed_example = cycle-IsRenamed loaded loaded-IsCpu loaded-IsSound.renamed

source_state_lem_example :
    (source_state loaded 0 ≡ seen none 0)
    × (source_state loaded 10
        ≡ seen
            (youngest_entry 10 (contents loaded.rob))
            (RegisterFile.read loaded.register_file 10))
unfolding valid_register
source_state_lem_example = source_state_lem loaded 10 loaded-IsCpu.rob loaded-IsSound.renamed refl

cycle-IsAwaited_example : IsAwaited (cycle loaded)
cycle-IsAwaited_example =
    cycle-IsAwaited loaded loaded-IsCpu loaded-IsSound.renamed loaded-IsSound.awaited

reachable-IsSound_example : IsSound (cycles 9 loaded)
reachable-IsSound_example = reachable-IsSound hex fair set_a0 9 fair-AreShuffled
