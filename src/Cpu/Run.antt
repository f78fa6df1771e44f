-- ===== src/Cpu/Run.antt =====
-- src/tomasulo/cpu.cpp: the loop of `run`, with its fuel.
use risc_v_cpu_simulator.Base.{
  ℕ, zero, suc, ◌≤◌, ◌≡◌, ◌∙◌, refl, ap, arith, false, if◌then◌else◌, Bool-cases, inl, inr, Option,
  none, some,
}
use risc_v_cpu_simulator.Cpu.State.{Cpu, is_running}
use risc_v_cpu_simulator.Cpu.Cycle.{cycle, run, run_loop}
use risc_v_cpu_simulator.Cpu.Seeds.{cycles}

-- A processor that does not run stays as it is.
stopped-cycle : (c : Cpu) → is_running c.status ≡ false → cycle c ≡ c
unfolding cycle
stopped-cycle c h = rw h refl

stopped-cycles : (n : ℕ) (c : Cpu) → is_running c.status ≡ false → cycles n c ≡ c
stopped-cycles zero c h = refl
stopped-cycles (suc n) c h = ap (cycles n) (stopped-cycle c h) ∙ stopped-cycles n c h

-- The processor after some cycles, if it has stopped by then.
abbrev stopped_within : ℕ → Cpu → Option Cpu
stopped_within n c = let c' = cycles n c in if is_running c'.status then none else some c'

run_loop-stopped_within : (fuel : ℕ) (c : Cpu) → run_loop fuel c ≡ stopped_within fuel c
unfolding run_loop
run_loop-stopped_within zero c = refl
run_loop-stopped_within (suc fuel) c = elim (Bool-cases (is_running c.status)) [
  | inl e ↦ rw e (run_loop-stopped_within fuel (cycle c))
  | inr e ↦ rw (e, stopped-cycles (suc fuel) c e, e) refl
]

run-stopped_within : (fuel : ℕ) (c : Cpu) → run fuel c ≡ stopped_within fuel c
unfolding run
run-stopped_within fuel c = elim (Bool-cases (is_running c.status)) [
  | inl e ↦ rw e (run_loop-stopped_within fuel c)
  | inr e ↦ rw (e, stopped-cycles fuel c e, e) refl
]

cycles-later :
    (n fuel : ℕ) (c : Cpu)
    → n ≤ fuel
    → is_running (cycles n c).status ≡ false
    → cycles fuel c ≡ cycles n c
cycles-later zero fuel c le h = stopped-cycles fuel c h
cycles-later (suc n) zero c le h = absurd (omega arith)
cycles-later (suc n) (suc fuel) c le h = cycles-later n fuel (cycle c) (omega arith) h

-- If the processor has stopped after some cycles, `run` with at least so much fuel returns that very
-- state; and with any fuel at all, `run` returns exactly if the processor has stopped after as many
-- cycles, and then with their result.
pub run-cycles :
    (c : Cpu) (n fuel any : ℕ)
    → n ≤ fuel
    → is_running (cycles n c).status ≡ false
    → (run fuel c ≡ some (cycles n c))
      × (run any c ≡ (if is_running (cycles any c).status then none else some (cycles any c)))
run-cycles c n fuel any le h = (
  run-stopped_within fuel c
      ∙ ap (λ (x : Cpu). if is_running x.status then none else some x) (cycles-later n fuel c le h)
      ∙ rw h refl,
  run-stopped_within any c,
)
