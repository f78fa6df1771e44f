-- ===== src/Cpu/Operands.antt =====
-- src/tomasulo/cpu.cpp: what the issue unit is told of a source register.
use risc_v_cpu_simulator.Base.{
  ℕ, ◌≡◌, refl, arith, true, false, not, ◌==◌, if◌then◌else◌, Option, none, some,
}
use risc_v_cpu_simulator.Types.{RobTag, no_tag}
use risc_v_cpu_simulator.RegisterFile
use risc_v_cpu_simulator.RenameTable.{valid_register}
use risc_v_cpu_simulator.ReorderBuffer.{RobEntry}
use risc_v_cpu_simulator.ReorderBuffer.Invariant.{IsRob}
use risc_v_cpu_simulator.ReorderBuffer.Queue.{contents}
use risc_v_cpu_simulator.ReorderBuffer.Youngest.{youngest_none, youngest, youngest_entry}
use risc_v_cpu_simulator.ReorderBuffer.Producer.{IsNamed, contents-IsNamed, lookup-youngest}
use risc_v_cpu_simulator.IssueUnit.{SourceState}
use risc_v_cpu_simulator.Cpu.State.{Cpu}
use risc_v_cpu_simulator.Cpu.Plan.{source_state, produced}
use risc_v_cpu_simulator.Cpu.Renamed.{IsRenamed}

-- The state of a register, by the youngest instruction in flight that writes it.
abbrev pub seen : Option RobEntry → ℕ → SourceState
seen none value = record {
  architectural_value = value;
  producer = no_tag;
  producer_value = 0;
  producer_ready = false;
}
seen (some e) value = record {
  architectural_value = value;
  producer = e.tag;
  producer_value = if e.ready then e.value else 0;
  producer_ready = e.ready;
}

-- An instruction in flight that is ready hands on its value.
produced-seen :
    (t : RobTag) (o : Option RobEntry) (value : ℕ)
    → (o ≡ none → t ≡ no_tag)
    → ((e : RobEntry) → o ≡ some e → (e.tag ≡ t) × (t.valid ≡ true))
    → (if not t.valid
        then record {
          architectural_value = value;
          producer = t;
          producer_value = 0;
          producer_ready = false;
        }
        else produced
            (record {
              architectural_value = value;
              producer = t;
              producer_value = 0;
              producer_ready = false;
            })
            o)
      ≡ seen o value
unfolding produced
produced-seen t none value n s = ground (arith, n refl)
produced-seen t (some e) value n s = ground (arith, s e refl)

-- What the issue unit is told of a register: of x0 that it is 0; of another, if an instruction in
-- flight writes it, the tag of the youngest such instruction, with its value as soon as that is
-- ready; and else the value of the register file.
pub source_state_lem :
    (c : Cpu) (reg : ℕ)
    → IsRob c.rob
    → IsRenamed c
    → valid_register reg ≡ true
    → (source_state c 0 ≡ seen none 0)
      × (source_state c reg
          ≡ seen (youngest_entry reg (contents c.rob)) (RegisterFile.read c.register_file reg))
unfolding source_state valid_register
source_state_lem c reg v h known = (refl, one)
  where
    t : RobTag
    t = youngest reg (contents c.rob)

    n : IsNamed c.rob.cur t (youngest_entry reg (contents c.rob))
    n = contents-IsNamed c.rob v reg

    arch : ℕ
    arch = RegisterFile.read c.register_file reg

    nothing : youngest_entry reg (contents c.rob) ≡ none → t ≡ no_tag
    nothing e = youngest_none c.rob v reg (ground (arith, n.found))

    writer :
        (e : RobEntry)
        → youngest_entry reg (contents c.rob) ≡ some e
        → (e.tag ≡ t) × (t.valid ≡ true)
    writer e at = ground (arith, n.found, n.same, n.absent)

    one : source_state c reg ≡ seen (youngest_entry reg (contents c.rob)) arch
    one =
        let nonzero : (reg == 0) ≡ false = ground (arith, known) in
        rw (nonzero, h reg known, lookup-youngest c.rob v reg)
          (produced-seen t (youngest_entry reg (contents c.rob)) arch nothing writer)
