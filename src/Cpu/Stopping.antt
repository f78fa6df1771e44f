-- ===== src/Cpu/Stopping.antt =====
-- src/tomasulo/cpu.cpp: when and how a running processor stops.
use risc_v_cpu_simulator.Base.{
  ℕ, ◌%◌, ◌==◌, ◌!=◌, ◌||◌, bool_eq, ◌≡◌, ◌∙◌, refl, ap, arith, Bool, true, false, not, ◌&&◌,
  bit_and, if◌then◌else◌, if_keeps, Option, none, some,
}
use risc_v_cpu_simulator.Base.Bits.{bit_and_mask}
use risc_v_cpu_simulator.Instruction.{op_eq, halt, invalid}
use risc_v_cpu_simulator.MemoryUnit
use risc_v_cpu_simulator.RegisterFile
use risc_v_cpu_simulator.ReorderBuffer
use risc_v_cpu_simulator.ReorderBuffer.{
  RobEntry, plan_head, front, commit_of, next_tag, full, is_control_instruction,
}
use risc_v_cpu_simulator.LoadStoreQueue
use risc_v_cpu_simulator.LoadStoreQueue.{LsqObserveInputs, send, respond, matching_response}
use risc_v_cpu_simulator.IssueUnit
use risc_v_cpu_simulator.IssueUnit.{IssueOutputs, IssueInputs, no_issue, issue}
use risc_v_cpu_simulator.Cpu.State.{
  Cpu, Status, is_running, halted, running, internal_error, fetch_out_of_bound, memory_out_of_bound,
}
use risc_v_cpu_simulator.Cpu.Plan.{
  decode_fetched, observe, fetches, fetch_and_decoded, issue_inputs,
}
use risc_v_cpu_simulator.Cpu.Cycle.{cycle, next_status_of, is_unallocated, is_invalid}
use risc_v_cpu_simulator.Cpu.Lockstep.{AreShuffled, plans}
use risc_v_cpu_simulator.Cpu.Preview.{observed-Foresees}
use risc_v_cpu_simulator.Types.{tag_eq}
use risc_v_cpu_simulator.Decoder.{decode}
use risc_v_cpu_simulator.Image.{read_word}
use risc_v_cpu_simulator.MemoryUnit.{is_store_access}
use risc_v_cpu_simulator.Cpu.AnyOrder.{running-lockstep}

-- Whether the oldest instruction is the one that halts, and is done.
abbrev pub halts : Option RobEntry → Bool
halts none = false
halts (some head) = head.ready && op_eq head.op halt

commit-halts : (o : Option RobEntry) → (plan_head o).commit.halted ≡ halts o
unfolding plan_head commit_of
commit-halts none = refl
commit-halts (some head) = ground arith

planned-halts : (c : Cpu) → (ReorderBuffer.plan c.rob).commit.halted ≡ halts (front c.rob)
unfolding ReorderBuffer.plan
planned-halts c = commit-halts (front c.rob)

-- Whether the oldest instruction is a finished jump or branch that was predicted wrongly.
abbrev pub mispredicts : Option RobEntry → Bool
mispredicts none = false
mispredicts (some head) =
    head.ready && (head.is_jump || head.is_branch) && head.predicted_next_pc != head.actual_next_pc

-- Whether the memory answers the oldest access with a failure, in a cycle that undoes nothing.
abbrev pub fails_access : Cpu → Bool
fails_access c =
    let q = c.load_store_queue in
    let head = q.cur q.head in
    let response = c.memory_unit.current_response in
    not (mispredicts (front c.rob))
    && not (q.count == 0)
    && head.valid
    && response.valid
    && response.tag.valid
    && tag_eq head.destination response.tag
    && bool_eq (is_store_access head.type) response.is_store
    && not response.success

-- The status that an instruction word gives that is fetched with nothing in flight.
abbrev pub fetched_status : Option ℕ → Status
fetched_status none = fetch_out_of_bound
fetched_status (some word) =
    if op_eq (decode word).op invalid then Status.invalid_instruction else running

-- The status after a cycle of a running processor.
abbrev pub outcome : Cpu → Status
outcome c =
    if halts (front c.rob)
    then halted
    else (if fails_access c
        then memory_out_of_bound
        else (if c.rob.count == 0 && not c.fetch_stopped
            then fetched_status (read_word c.memory_unit.memory c.current_pc)
            else running))

-- An issue unit that is given a tag does not miss it.
plan-allocated :
    (i : IssueInputs)
    → i.allocated_tag.valid ≡ true
    → is_unallocated (IssueUnit.plan i).status ≡ false
unfolding IssueUnit.plan issue is_unallocated
plan-allocated i h = ground arith

plans-allocated : (c : Cpu) → is_unallocated (plans c).issue_outputs.status ≡ false
unfolding fetches issue_inputs next_tag is_unallocated
plans-allocated c =
    let packet = (fetch_and_decoded c).0 in
    if_keeps (λ (o : IssueOutputs). is_unallocated o.status ≡ false)
      (fetches c (observe c) && not (fetch_and_decoded c).1)
      (λ e. plan-allocated (issue_inputs c (observe c) packet) (ground arith)) λ _. refl

flush-mispredicts : (o : Option RobEntry) → (plan_head o).flush ≡ mispredicts o
unfolding plan_head commit_of is_control_instruction
flush-mispredicts none = refl
flush-mispredicts (some head) = ground arith

planned-mispredicts : (c : Cpu) → (observe c).preview.flush ≡ mispredicts (front c.rob)
unfolding ReorderBuffer.plan
planned-mispredicts c = (observed-Foresees c).flush ∙ flush-mispredicts (front c.rob)

memory_error-fails : (c : Cpu) → (plans c).lsq_decision.memory_error ≡ fails_access c
unfolding observe LoadStoreQueue.plan LoadStoreQueue.empty send respond matching_response
    MemoryUnit.data_response
memory_error-fails c = ground (arith, planned-mispredicts c)

-- Only a word that the decoder refuses is an invalid instruction.
plan-invalid :
    (i : IssueInputs)
    → is_invalid (IssueUnit.plan i).status ≡ (i.packet.valid && op_eq i.packet.decoded.op invalid)
unfolding IssueUnit.plan issue is_invalid
plan-invalid i = ground arith

-- With nothing in flight the processor fetches unless it was stopped.
fetches-empty : (c : Cpu) → (c.rob.count == 0) ≡ true → fetches c (observe c) ≡ not c.fetch_stopped
unfolding fetches full front ReorderBuffer.empty
fetches-empty c e = ground (arith, planned-mispredicts c, nothing)
  where
    nothing : front c.rob ≡ none
    nothing = ground (arith, e)

-- The status by the fetch alone.
fetch_status :
    (c : Cpu)
    → (c.rob.count == 0) ≡ true
    → c.fetch_stopped ≡ false
    → (if is_invalid (plans c).issue_outputs.status
        then Status.invalid_instruction
        else (if (plans c).fetch_error then fetch_out_of_bound else running))
      ≡ fetched_status (read_word c.memory_unit.memory c.current_pc)
unfolding fetch_and_decoded MemoryUnit.fetch decode_fetched issue_inputs is_invalid
fetch_status c e s = by (read_word c.memory_unit.memory c.current_pc) refl
  where
    go : fetches c (observe c) ≡ true
    go = ground (arith, fetches-empty c e, s)

    by :
        (o : Option ℕ)
        → read_word c.memory_unit.memory c.current_pc ≡ o
        → (if is_invalid (plans c).issue_outputs.status
            then Status.invalid_instruction
            else (if (plans c).fetch_error then fetch_out_of_bound else running))
          ≡ fetched_status o
    by none at = rw (go, at) refl
    by (some word) at =
        rw (go, at)
          (ground (arith, plan-invalid (issue_inputs c (observe c) (fetch_and_decoded c).0)))

-- A processor that does not fetch finds nothing wrong.
silent :
    (c : Cpu)
    → (c.rob.count == 0 && not c.fetch_stopped) ≡ false
    → ((is_invalid (plans c).issue_outputs.status && c.rob.count == 0) ≡ false)
      × (((plans c).fetch_error && c.rob.count == 0) ≡ false)
unfolding fetches is_invalid
silent c stay = (ground arith, ground arith)

-- The order of the tests.
pick_status :
    (h h' m m' u i f e stop : Bool) (s x : Status)
    → s ≡ running
    → h ≡ h'
    → m ≡ m'
    → u ≡ false
    → (e ≡ true
        → stop ≡ false
        → (if i then Status.invalid_instruction else (if f then fetch_out_of_bound else running))
          ≡ x)
    → ((e && not stop) ≡ false → ((i && e) ≡ false) × ((f && e) ≡ false))
    → (if h
        then halted
        else (if m
            then memory_out_of_bound
            else (if u
                then internal_error
                else (if i && e
                    then Status.invalid_instruction
                    else (if f && e then fetch_out_of_bound else s)))))
      ≡ (if h'
          then halted
          else (if m' then memory_out_of_bound else (if e && not stop then x else running)))
pick_status h h' m m' u i f e stop s x r a b c go stay = ground arith

status-outcome : (c : Cpu) → c.status ≡ running → next_status_of c (plans c) ≡ outcome c
unfolding next_status_of ReorderBuffer.empty
status-outcome c r =
    pick_status _ (halts (front c.rob)) _ (fails_access c) _ _ _ (c.rob.count == 0) c.fetch_stopped
      c.status (fetched_status (read_word c.memory_unit.memory c.current_pc)) r (planned-halts c)
      (memory_error-fails c) (plans-allocated c) (fetch_status c) (silent c)

running-eq : (s : Status) → is_running s ≡ true → s ≡ running
unfolding is_running
running-eq s h = ground arith

-- After a cycle a running processor is halted exactly if the oldest instruction was the finished `halt`,
-- and its exit code is then the low byte of a0; else the exit code stays. Otherwise it has stopped with
-- a memory error exactly if the memory answers the oldest access with a failure and nothing is being
-- undone. Otherwise it has stopped for an address outside the memory or an undecodable word at the
-- program counter exactly if it fetches there with nothing in flight. In every other case it runs on,
-- so it never stops with an internal error.
pub cycle-outcome :
    (c : Cpu)
    → AreShuffled c.orders
    → is_running c.status ≡ true
    → ((cycle c).status ≡ outcome c)
      × ((cycle c).exit_code ≡ (
          if halts (front c.rob) then RegisterFile.read c.register_file 10 % 256 else c.exit_code))
cycle-outcome c h r = (
  ap (λ (x : Cpu). x.status) (running-lockstep c h r) ∙ status-outcome c (running-eq c.status r),
  ap (λ (x : Cpu). x.exit_code) (running-lockstep c h r)
      ∙ ap (λ b. if b then bit_and (RegisterFile.read c.register_file 10) 0xff else c.exit_code)
          (planned-halts c)
      ∙ ap (λ n. if halts (front c.rob) then n else c.exit_code)
          (bit_and_mask 8 (RegisterFile.read c.register_file 10)),
)
