-- ===== src/Cpu/Reachable.antt =====
-- src/tomasulo/cpu.cpp: what holds in every state that a loaded program reaches.
use risc_v_cpu_simulator.Base.{ℕ, zero, suc}
use risc_v_cpu_simulator.Image.{Token, FromChars, Input}
use risc_v_cpu_simulator.Cpu.State.{Cpu, Orders, load, new_cpu}
use risc_v_cpu_simulator.Cpu.Cycle.{cycle}
use risc_v_cpu_simulator.Cpu.Lockstep.{AreShuffled}
use risc_v_cpu_simulator.Cpu.Seeds.{cycles}
use risc_v_cpu_simulator.Cpu.Invariant.{IsCpu, cycle-IsCpu, load-IsCpu}
use risc_v_cpu_simulator.Cpu.Renamed.{IsRenamed, cycle-IsRenamed, load-IsRenamed}
use risc_v_cpu_simulator.Cpu.Waiting.{IsAwaited}
use risc_v_cpu_simulator.Cpu.Wakeup.{cycle-IsAwaited, load-IsAwaited}

-- All invariants at once.
pub record IsSound (c : Cpu) : Type 0 where
  pub parts : IsCpu c
  pub renamed : IsRenamed c
  pub awaited : IsAwaited c

cycles-IsSound : (n : ℕ) (c : Cpu) → IsSound c → IsSound (cycles n c)
cycles-IsSound zero c s = s
cycles-IsSound (suc n) c s = cycles-IsSound n (cycle c) (record {
  parts = cycle-IsCpu c s.parts;
  renamed = cycle-IsRenamed c s.parts s.renamed;
  awaited = cycle-IsAwaited c s.parts s.renamed s.awaited;
})

-- After any number of cycles on any program the invariants of the parts hold, the rename table names
-- for each register the youngest instruction in flight that writes it, and each operand that waits
-- waits for an instruction in flight without a result.
pub reachable-IsSound :
    (from_chars : Token → FromChars) (orders : Orders) (input : Input) (n : ℕ)
    → AreShuffled orders
    → IsSound (cycles n (load from_chars (new_cpu orders) input).0)
reachable-IsSound from_chars orders input n h =
    cycles-IsSound n (load from_chars (new_cpu orders) input).0 (record {
      parts = load-IsCpu from_chars orders input h;
      renamed = load-IsRenamed from_chars orders input;
      awaited = load-IsAwaited from_chars orders input;
    })
