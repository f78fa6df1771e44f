-- ===== src/Interpreter/Tests.antt =====
-- The interpreter on an empty memory, whose first word is no instruction.
use risc_v_cpu_simulator.Base.{◌≡◌, refl, arith}
use risc_v_cpu_simulator.Interpreter.{Interpreter, new_interpreter, ready, step, run}
use risc_v_cpu_simulator.Interpreter.Invariant.{IsMachine, step-IsMachine}
use risc_v_cpu_simulator.Interpreter.Stop.{stopped_after, run_lem}

abbrev loaded : Interpreter
loaded = record new_interpreter { status = ready }

loaded-IsMachine : IsMachine loaded
loaded-IsMachine = record {
  bytes = λ a. omega arith;
  words = λ k. omega arith;
  x0 = refl;
  pc_in = omega arith;
  count_in = omega arith;
  code_in = omega arith;
}

step-IsMachine_example : IsMachine (step loaded)
step-IsMachine_example = step-IsMachine loaded loaded-IsMachine

run_lem_example : run 3 loaded ≡ stopped_after 3 loaded
run_lem_example = run_lem 3 loaded
