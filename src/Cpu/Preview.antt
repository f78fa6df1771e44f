-- ===== src/Cpu/Preview.antt =====
-- src/tomasulo/cpu.cpp: what a cycle knows early of the reorder buffer, next to what it decides.
use risc_v_cpu_simulator.Base.{◌≡◌, refl, arith, Option, none, some}
use risc_v_cpu_simulator.ReorderBuffer
use risc_v_cpu_simulator.ReorderBuffer.{RobEntry, plan_head, commit_of, is_control_instruction}
use risc_v_cpu_simulator.Cpu.State.{Cpu}
use risc_v_cpu_simulator.Cpu.Plan.{RobPreview, preview_head, preview_rob, observe}

pub record Foresees (v : RobPreview) (d : ReorderBuffer.RobOutputs) : Type 0 where
  pub flush : v.flush ≡ d.flush
  pub redirect : v.redirect_pc ≡ d.redirect_pc
  pub store : v.store_request ≡ d.store_request

head-Foresees : (o : Option RobEntry) → Foresees (preview_head o) (plan_head o)
unfolding preview_head plan_head commit_of is_control_instruction
head-Foresees none = record { flush = refl; redirect = refl; store = refl }
head-Foresees (some e) = record { flush = ground arith; redirect = ground arith; store = refl }

-- The preview of the reorder buffer, which all parts but the buffer read, says of the flush, the
-- redirection and the store to commit what the buffer's own plan then decides.
pub preview-Foresees : (c : Cpu) → Foresees (preview_rob c) (ReorderBuffer.plan c.rob)
unfolding preview_rob ReorderBuffer.plan
preview-Foresees c = head-Foresees (ReorderBuffer.front c.rob)

pub observed-Foresees : (c : Cpu) → Foresees (observe c).preview (ReorderBuffer.plan c.rob)
unfolding observe
observed-Foresees c = preview-Foresees c
