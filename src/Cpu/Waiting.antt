-- ===== src/Cpu/Waiting.antt =====
-- src/tomasulo/cpu.cpp with the parts that hear the bus: what an operand without a value waits for.
use risc_v_cpu_simulator.Base.{
  ℕ, ◌≡◌, ◌∙◌, refl, sym, ap, arith, true, false, ◌&&◌, ◌==◌, Option, none, some, [], ◌∷◌,
}
use mathlib.Core.Option.{or_else}
use mathlib.Core.Path.{subst}
use risc_v_cpu_simulator.Types.{tag_eq}
use risc_v_cpu_simulator.Signals.{Operand, CdbMsg}
use risc_v_cpu_simulator.Decoder.Shape.{stores, has_rd}
use risc_v_cpu_simulator.Instruction.{Op, sb, sh, sw}
use risc_v_cpu_simulator.CommonDataBus
use risc_v_cpu_simulator.CommonDataBus.{CdbOutputs, valid_candidate, select_integer, select_load}
use risc_v_cpu_simulator.RegisterFile
use risc_v_cpu_simulator.RenameTable.{valid_register}
use risc_v_cpu_simulator.ReorderBuffer.{ReorderBuffer, RobEntry, matching_entry}
use risc_v_cpu_simulator.ReorderBuffer.Queue.{Queue, contents}
use risc_v_cpu_simulator.ReorderBuffer.Youngest.{youngest, youngest_entry}
use risc_v_cpu_simulator.ReorderBuffer.Producer.{IsNamed, contents-IsNamed}
use risc_v_cpu_simulator.ReorderBuffer.Pending.{IsPending, AreExclusive}
use risc_v_cpu_simulator.ReservationStation.{wake_operand}
use risc_v_cpu_simulator.MemoryUnit.{is_store_access}
use risc_v_cpu_simulator.LoadStoreQueue
use risc_v_cpu_simulator.LoadStoreQueue.{LsqEntry}
use risc_v_cpu_simulator.IssueUnit.{SourceState, resolve_register, ready_operand}
use risc_v_cpu_simulator.Cpu.State.{Cpu}
use risc_v_cpu_simulator.Cpu.Plan.{source_state}
use risc_v_cpu_simulator.Cpu.Invariant.{IsCpu}
use risc_v_cpu_simulator.Cpu.Renamed.{IsRenamed}
use risc_v_cpu_simulator.Cpu.Operands.{seen, source_state_lem}

-- What an operand without a value waits for.
abbrev pub Awaits : ReorderBuffer → Operand → Type 0
Awaits r o = o.ready ≡ false → IsPending r o.tag

abbrev pub AreAwaited : ReorderBuffer → LsqEntry → Type 0
AreAwaited r e = Awaits r e.base × (is_store_access e.type ≡ true → Awaits r e.store_data)

-- Each operand that waits in the station or in the load/store queue waits for an instruction in flight that writes a register and
-- has no result yet.
pub record IsAwaited (c : Cpu) : Type 0 where
  pub exclusive : AreExclusive c.rob.cur
  pub station :
      (i : ℕ)
      → (c.reservation_station.cur_rs i).busy ≡ true
      → Awaits c.rob (c.reservation_station.cur_rs i).lhs
        × Awaits c.rob (c.reservation_station.cur_rs i).rhs
  pub queue :
      (i : ℕ)
      → (c.load_store_queue.cur i).valid ≡ true
      → AreAwaited c.rob (c.load_store_queue.cur i)

-- The bus tells the station and the reorder buffer of the same result.
pub bus_agrees :
    (b : CommonDataBus.CommonDataBus) (i : CommonDataBus.CdbInputs)
    → let o = (CommonDataBus.plan b i).outputs in
      (o.broadcast.valid ≡ o.completion.valid)
      × (o.broadcast.valid ≡ true
          → (o.broadcast.tag ≡ o.completion.tag) × (o.broadcast.tag.valid ≡ true))
unfolding CommonDataBus.plan select_integer select_load valid_candidate
bus_agrees b i = ground arith

-- An operand that is still waiting has not heard of its result.
pub wake-unready :
    (o : Operand) (cdb : CdbMsg)
    → (wake_operand o cdb).ready ≡ false
    → (o.ready ≡ false)
      × ((wake_operand o cdb).tag ≡ o.tag)
      × ((o.tag.valid && cdb.valid && cdb.tag.valid && tag_eq o.tag cdb.tag) ≡ false)
unfolding wake_operand
wake-unready o cdb h = ground arith

pub wake_lsq-unready :
    (o : Operand) (cdb : CdbMsg)
    → (LoadStoreQueue.wake_operand o cdb).ready ≡ false
    → (o.ready ≡ false)
      × ((LoadStoreQueue.wake_operand o cdb).tag ≡ o.tag)
      × ((o.tag.valid && cdb.valid && cdb.tag.valid && tag_eq o.tag cdb.tag) ≡ false)
unfolding LoadStoreQueue.wake_operand
wake_lsq-unready o cdb h = ground arith

pub resolve-unready :
    (reg : ℕ) (s : SourceState) (cdb : CdbMsg)
    → (resolve_register reg s cdb).ready ≡ false
    → ((reg == 0) ≡ false)
      × ((resolve_register reg s cdb).tag ≡ s.producer)
      × (s.producer.valid ≡ true)
      × (s.producer_ready ≡ false)
      × ((cdb.valid && cdb.tag.valid && tag_eq cdb.tag s.producer) ≡ false)
unfolding resolve_register ready_operand
resolve-unready reg s cdb h = ground arith

youngest_entry-writes :
    (reg : ℕ) (q : Queue) (e : RobEntry) → youngest_entry reg q ≡ some e → e.writes_rd ≡ true
unfolding youngest_entry or_else
youngest_entry-writes reg [] e h = absurd cc
youngest_entry-writes reg (a ∷ q) e h = ground (arith, youngest_entry-writes reg q e)

-- A producer without a value is an instruction in flight.
pub source-IsPending :
    (c : Cpu) (reg : ℕ)
    → IsCpu c
    → IsRenamed c
    → valid_register reg ≡ true
    → (source_state c reg).producer.valid ≡ true
    → (source_state c reg).producer_ready ≡ false
    → IsPending c.rob (source_state c reg).producer
unfolding matching_entry tag_eq
source-IsPending c reg v h known p u =
    let same = (source_state_lem c reg v.rob h known).1 in
    subst (λ (x : SourceState). IsPending c.rob x.producer) (sym same)
      (by (youngest_entry reg (contents c.rob)) refl
        (sym (ap (λ (x : SourceState). x.producer.valid) same) ∙ p)
        (sym (ap (λ (x : SourceState). x.producer_ready) same) ∙ u))
  where
    n : IsNamed c.rob.cur (youngest reg (contents c.rob)) (youngest_entry reg (contents c.rob))
    n = contents-IsNamed c.rob v.rob reg

    by :
        (o : Option RobEntry)
        → youngest_entry reg (contents c.rob) ≡ o
        → (seen o (RegisterFile.read c.register_file reg)).producer.valid ≡ true
        → (seen o (RegisterFile.read c.register_file reg)).producer_ready ≡ false
        → IsPending c.rob (seen o (RegisterFile.read c.register_file reg)).producer
    by none at q r = absurd cc
    by (some e) at q r = record {
      live = ground (arith, n.found, n.same, n.live, n.within, n.absent, at);
      unready = ground (arith, n.found, n.same, n.absent, at);
      writes =
          ground
            (arith, n.found, n.same, n.absent, at, youngest_entry-writes reg (contents c.rob) e at);
    }

pub writer-stores : (op : Op) → (has_rd op && stores op) ≡ false
writer-stores sb = refl
writer-stores sh = refl
writer-stores sw = refl
writer-stores _ = refl
