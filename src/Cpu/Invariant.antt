-- ===== src/Cpu/Invariant.antt =====
-- src/tomasulo/cpu.cpp: the invariants of the parts, together.
use risc_v_cpu_simulator.Base.{◌<◌, sym, arith, if_keeps}
use mathlib.Core.Path.{subst}
use risc_v_cpu_simulator.Image.{Token, FromChars, Input}
use risc_v_cpu_simulator.Image.Access.{IsBytes}
use risc_v_cpu_simulator.MemoryUnit
use risc_v_cpu_simulator.MemoryUnit.Port.{cycle as memory_cycle}
use risc_v_cpu_simulator.MemoryUnit.Bytes.{cycle-IsBytes}
use risc_v_cpu_simulator.Image.Load.{load-IsImage}
use risc_v_cpu_simulator.ReorderBuffer.Invariant.{cycle as rob_cycle}
use risc_v_cpu_simulator.ReorderBuffer.Invariant.{IsRob, cycle-IsRob, reset-IsRob}
use risc_v_cpu_simulator.ReservationStation
use risc_v_cpu_simulator.ReservationStation.Slots.{cycle as rs_cycle}
use risc_v_cpu_simulator.ReservationStation.Held.{Holds, cycle-Holds, cycle-cursor}
use risc_v_cpu_simulator.LoadStoreQueue.Order.{cycle as lsq_cycle}
use risc_v_cpu_simulator.LoadStoreQueue.Invariant.{IsLsq, cycle-IsLsq, reset-IsLsq}
use risc_v_cpu_simulator.IssueUnit.Agreement.{is_integer}
use risc_v_cpu_simulator.Cpu.State.{Cpu, is_running, new_cpu, load, Orders}
use risc_v_cpu_simulator.Cpu.Plan.{observe}
use risc_v_cpu_simulator.Cpu.Inputs.{apply_inputs}
use risc_v_cpu_simulator.Cpu.Cycle.{cycle}
use risc_v_cpu_simulator.Cpu.Lockstep.{AreShuffled, inputs, lockstep}
use risc_v_cpu_simulator.Cpu.AnyOrder.{cycle-lockstep}
use risc_v_cpu_simulator.Cpu.Issued.{plans-IsIssue}

-- The tables are fair, the memory holds bytes, the reorder buffer and the load/store queue are rings
-- of well-formed entries, and the station holds operations that its unit has.
pub record IsCpu (c : Cpu) : Type 0 where
  pub fair : AreShuffled c.orders
  pub bytes : IsBytes c.memory_unit.memory
  pub rob : IsRob c.rob
  pub lsq : IsLsq c.load_store_queue
  pub waiting : Holds is_integer c.reservation_station.cur_rs
  pub cursor : c.reservation_station.dispatch_cursor < ReservationStation.capacity

lockstep-IsCpu : (c : Cpu) → IsCpu c → IsCpu (lockstep c)
lockstep-IsCpu c v =
    let i = inputs c in
    let o = plans-IsIssue c v.bytes in
    record {
      fair = v.fair;
      bytes = unfold memory_cycle in cycle-IsBytes c.memory_unit i.memory_request v.bytes;
      rob = unfold rob_cycle apply_inputs in cycle-IsRob c.rob i.rob_inputs v.rob;
      lsq =
          unfold lsq_cycle apply_inputs in
          cycle-IsLsq c.load_store_queue (observe c).lsq_observe i.lsq_inputs v.lsq
            (λ e. o.lsq_access (ground arith));
      waiting =
          unfold rs_cycle apply_inputs in
          cycle-Holds is_integer c.reservation_station i.rs_inputs v.waiting
            (λ e. o.rs_op (ground arith));
      cursor =
          unfold rs_cycle apply_inputs in cycle-cursor c.reservation_station i.rs_inputs v.cursor;
    }

-- Every cycle keeps the invariant, whatever the program does: bytes in the memory, the reorder buffer
-- and the load/store queue rings of well-formed entries, in the station only operations of the
-- functional unit, and fair tables.
pub cycle-IsCpu : (c : Cpu) → IsCpu c → IsCpu (cycle c)
cycle-IsCpu c v =
    subst IsCpu (sym (cycle-lockstep c v.fair))
      (if_keeps IsCpu (is_running c.status) (λ _. lockstep-IsCpu c v) λ _. v)

-- A program that was loaded starts in the invariant.
pub load-IsCpu :
    (from_chars : Token → FromChars) (orders : Orders) (input : Input)
    → AreShuffled orders
    → IsCpu (load from_chars (new_cpu orders) input).0
unfolding load MemoryUnit.load_program MemoryUnit.reset
load-IsCpu from_chars orders input h = record {
  fair = h;
  bytes = (load-IsImage from_chars input).0.bytes;
  rob = reset-IsRob;
  lsq = reset-IsLsq;
  waiting = λ i e. absurd cc;
  cursor = omega arith;
}
