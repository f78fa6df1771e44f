-- ===== src/Interpreter/Stop.antt =====
-- The loop of `run` in src/reference/interpreter.cpp: it does the steps until one stops the machine.
use risc_v_cpu_simulator.Base.{
  ℕ, zero, suc, ◌≡◌, refl, ◌∙◌, Bool, true, false, if◌then◌else◌, if_keeps,
}
use risc_v_cpu_simulator.Base.{Option, none, some, Bool-cases, inl, inr}
use risc_v_cpu_simulator.Instruction.{Op, op_eq, DecodedInstruction, halt, invalid}
use risc_v_cpu_simulator.Instruction.{lb, lh, lw, lbu, lhu, sb, sh, sw}
use risc_v_cpu_simulator.Decoder.{decode}
use risc_v_cpu_simulator.Image.{MemoryImage, read_word}
use risc_v_cpu_simulator.Interpreter.{
  Interpreter, Effect, done, stop, Inputs, execute, retire, inputs_of,
}
use risc_v_cpu_simulator.Interpreter.{step, step_decoded, writeback, branch_if, load_if, store_if}
use risc_v_cpu_simulator.Interpreter.{can_run, Status, ready, running, run, run_loop}
use risc_v_cpu_simulator.Interpreter.{not_loaded, halted, load_error, fetch_out_of_bounds}
use risc_v_cpu_simulator.Interpreter.{invalid_instruction, memory_out_of_bounds}

-- The state after n steps.
abbrev pub steps : ℕ → Interpreter → Interpreter
steps zero s = s
steps (suc n) s = steps n (step s)

-- An early return stops the machine.
abbrev Stops : Effect → Type 0
Stops (done value has_writeback next_pc memory) = Unit
Stops (stop status) = can_run status ≡ false

load-Stops : (i : Inputs) (extend : ℕ → ℕ) (o : Option ℕ) → Stops (load_if i extend o)
unfolding load_if writeback can_run
load-Stops i extend none = refl
load-Stops i extend (some n) = tt

store-Stops : (i : Inputs) (r : MemoryImage × Bool) → Stops (store_if i r)
unfolding store_if can_run
store-Stops i (m, true) = tt
store-Stops i (m, false) = refl

execute-Stops : (op : Op) (i : Inputs) → Stops (execute op i)
unfolding execute writeback branch_if can_run
execute-Stops lb i = load-Stops i _ _
execute-Stops lh i = load-Stops i _ _
execute-Stops lw i = load-Stops i _ _
execute-Stops lbu i = load-Stops i _ _
execute-Stops lhu i = load-Stops i _ _
execute-Stops sb i = store-Stops i _
execute-Stops sh i = store-Stops i _
execute-Stops sw i = store-Stops i _
execute-Stops halt i = refl
execute-Stops invalid i = refl
execute-Stops _ i = tt

-- After a step the machine runs or has stopped; it is not merely ready.
abbrev Settled : Interpreter → Type 0
Settled s = can_run s.status ≡ true → s.status ≡ running

retire-Settled : (s : Interpreter) (rd : ℕ) (e : Effect) → Stops e → Settled (retire s rd e)
unfolding retire
retire-Settled s rd (done value has_writeback next_pc memory) h = λ p. refl
retire-Settled s rd (stop status) h = λ p. absurd cc

decoded-Settled : (s : Interpreter) (d : DecodedInstruction) → Settled (step_decoded s d)
unfolding step_decoded can_run
decoded-Settled s d =
    if_keeps Settled (op_eq d.op halt) (λ _ p. absurd cc)
      λ _.
        if_keeps Settled (op_eq d.op invalid) (λ _ p. absurd cc)
          λ _.
            retire-Settled s d.rd (execute d.op (inputs_of s d))
              (execute-Stops d.op (inputs_of s d))

step-Settled : (s : Interpreter) → can_run s.status ≡ true → Settled (step s)
unfolding step can_run
step-Settled s h = rw h (fetched (read_word s.memory s.pc))
  where
    fetched :
        (o : Option ℕ)
        → Settled (elim o [
          | none ↦ record s { status = fetch_out_of_bounds }
          | some word ↦ step_decoded s (decode word)
        ])
    fetched none = λ p. absurd cc
    fetched (some word) = decoded-Settled s (decode word)

steps-stopped : (n : ℕ) (s : Interpreter) → can_run s.status ≡ false → steps n s ≡ s
unfolding step
steps-stopped zero s h = refl
steps-stopped (suc n) s h = rw h (steps-stopped n s h)

-- The result of n steps, if they stop the machine.
abbrev pub stopped_after : ℕ → Interpreter → Option Interpreter
stopped_after n s = if can_run (steps n s).status then none else some (steps n s)

-- The test of the loop.
goes_on :
    (status : Status) (a b : Option Interpreter)
    → (can_run status ≡ true → status ≡ running)
    → elim status [ running ↦ a | _ ↦ b ] ≡ (if can_run status then a else b)
unfolding can_run
goes_on running a b h = refl
goes_on ready a b h = absurd (cc (h refl))
goes_on not_loaded a b h = refl
goes_on halted a b h = refl
goes_on load_error a b h = refl
goes_on fetch_out_of_bounds a b h = refl
goes_on invalid_instruction a b h = refl
goes_on memory_out_of_bounds a b h = refl

loop_lem :
    (fuel : ℕ) (s : Interpreter) → can_run s.status ≡ true → run_loop fuel s ≡ stopped_after fuel s
unfolding run_loop
loop_lem zero s h = rw h refl
loop_lem (suc fuel) s h =
    let s' = step s in
    goes_on s'.status (run_loop fuel s') (some s') (step-Settled s h)
    ∙ if_keeps (λ o. o ≡ stopped_after fuel s') (can_run s'.status) (λ e. loop_lem fuel s' e)
        λ e. rw (steps-stopped fuel s' e, e) refl

-- `run`, given fuel for n steps, returns the state after n steps if it has stopped, whether in the
-- last of them or before, and runs out of fuel otherwise. So with fuel for the number of steps after
-- which a program stops it returns, more fuel does not change the result, and a state that it
-- returns cannot run.
pub run_lem : (fuel : ℕ) (s : Interpreter) → run fuel s ≡ stopped_after fuel s
unfolding run
run_lem fuel s = elim (Bool-cases (can_run s.status)) [
  | inl e ↦ rw e (loop_lem fuel s e)
  | inr e ↦ rw (steps-stopped fuel s e, e) refl
]
