-- ===== src/Cpu/Fetched.antt =====
-- src/tomasulo/cpu.cpp: what `fetchAndDecoded` returns without an error is a decoded word.
use risc_v_cpu_simulator.Base.{ℕ, ◌≡◌, refl, arith, Bool, true, false, Option, none, some}
use risc_v_cpu_simulator.Signals.{DecodePacket}
use risc_v_cpu_simulator.Decoder.Shape.{IsWellFormed, decode-IsWellFormed}
use risc_v_cpu_simulator.Image.{memory_size}
use risc_v_cpu_simulator.Image.Access.{IsBytes, read_lem}
use risc_v_cpu_simulator.Interpreter.Effects.{read_in}
use risc_v_cpu_simulator.Base.{leb, ◌+◌}
use risc_v_cpu_simulator.MemoryUnit
use risc_v_cpu_simulator.MemoryUnit.{MemoryAccessType, is_store_access, InstructionFetchResponse}
use risc_v_cpu_simulator.Cpu.State.{Cpu}
use risc_v_cpu_simulator.Cpu.Plan.{fetch_and_decoded, decode_fetched}

-- A packet without an error is a decoded word.
pub record IsPacket (p : DecodePacket) : Type 0 where
  pub there : p.valid ≡ true
  pub well : IsWellFormed p.decoded

abbrev pub Fetches : DecodePacket × Bool → Type 0
Fetches q = q.1 ≡ false → IsPacket q.0

pub fetched : (c : Cpu) → IsBytes c.memory_unit.memory → Fetches (fetch_and_decoded c)
unfolding fetch_and_decoded MemoryUnit.fetch
fetched c v =
    let m = c.memory_unit.memory in
    rw (read_lem m c.current_pc v).2 (
      read_in m c.current_pc v 4 (omega arith) P (λ h. absurd (unfold decode_fetched in cc h))
        (λ word h.
          λ _. unfold decode_fetched in record { there = refl; well = decode-IsWellFormed word h })
        (leb (c.current_pc + 4) memory_size))
  where
    P : Option ℕ → Type 0
    P o = Fetches (
        decode_fetched c (elim o [
          | none ↦ record { pc = c.current_pc; instruction = 0; success = false; valid = true }
          | some instruction ↦ record {
            pc = c.current_pc;
            instruction = instruction;
            success = true;
            valid = true;
          }
        ]))
