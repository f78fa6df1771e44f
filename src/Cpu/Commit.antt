-- ===== src/Cpu/Commit.antt =====
-- src/tomasulo/cpu.cpp: how a cycle changes what the program sees.
use risc_v_cpu_simulator.Base.{
  ℕ, ◌+◌, ◌%◌, ◌^◌, ◌≡◌, ◌∙◌, refl, sym, ap, arith, Bool, true, false, not, ◌&&◌, ltb, ◌==◌,
  if◌then◌else◌, Option, none, some,
}
use mathlib.Core.Path.{subst}
use risc_v_cpu_simulator.Types.{RobTag}
use risc_v_cpu_simulator.Types.Tags.{tag_eq-eq}
use risc_v_cpu_simulator.Instruction.{op_eq, halt}
use risc_v_cpu_simulator.MemoryUnit.{DataMemoryRequest, is_store_access}
use risc_v_cpu_simulator.RegisterFile
use risc_v_cpu_simulator.RegisterFile.Write.{read-latch-apply}
use risc_v_cpu_simulator.ReorderBuffer
use risc_v_cpu_simulator.ReorderBuffer.{
  ReorderBuffer, RobEntry, RobOutputs, StoreCommitRequest, plan_head, front, commit_of,
}
use risc_v_cpu_simulator.LoadStoreQueue.{make_memory_request}
use risc_v_cpu_simulator.LoadStoreQueue.Order.{plan-IsOrdered}
use risc_v_cpu_simulator.Cpu.State.{Cpu, is_running}
use risc_v_cpu_simulator.Cpu.Plan.{observe, preview_rob, preview_head}
use risc_v_cpu_simulator.Cpu.Inputs.{apply_inputs, register_write_of}
use risc_v_cpu_simulator.Cpu.Cycle.{cycle, begin, plans_of}
use risc_v_cpu_simulator.Cpu.Lockstep.{AreShuffled, plans}
use risc_v_cpu_simulator.Cpu.AnyOrder.{running-lockstep, plans_of_lem}

-- The registers after the instruction at the head has committed, if it is ready.
abbrev pub committed : Option RobEntry → Cpu → ℕ → ℕ
committed none c idx = RegisterFile.read c.register_file idx
committed (some head) c idx =
    if head.ready && head.writes_rd && idx == head.rd && ltb 0 idx && ltb idx 32
    then head.value
    else RegisterFile.read c.register_file idx

write-committed :
    (o : Option RobEntry) (c : Cpu) (idx : ℕ)
    → RegisterFile.read
        (RegisterFile.latch (RegisterFile.apply c.register_file (register_write_of (plan_head o))))
        idx
      ≡ committed o c idx
unfolding register_write_of plan_head commit_of
write-committed none c idx = (read-latch-apply c.register_file _ idx).0
write-committed (some head) c idx = (read-latch-apply c.register_file _ idx).0 ∙ ground arith

-- Whether the instruction at the head commits and is counted.
abbrev pub counts : Option RobEntry → Bool
counts none = false
counts (some head) = head.ready && not (op_eq head.op halt)

commit-counts :
    (o : Option RobEntry)
    → let commit = (plan_head o).commit in
      (commit.valid && not (op_eq commit.entry.op halt)) ≡ counts o
unfolding plan_head commit_of
commit-counts none = refl
commit-counts (some head) = ground arith

-- In a cycle of a running processor the registers change only by the commit of the head of the
-- reorder buffer, once it is ready: its register gets its value, and no other register changes. The
-- instructions committed are counted by one then, unless it is the one that halts.
pub cycle-registers :
    (c : Cpu) (idx : ℕ)
    → AreShuffled c.orders
    → is_running c.status ≡ true
    → (RegisterFile.read (cycle c).register_file idx ≡ committed (front c.rob) c idx)
      × ((cycle c).committed_count
          ≡ (if counts (front c.rob) then (c.committed_count + 1) % 2 ^ 64 else c.committed_count))
cycle-registers c idx h r = (
  ap (λ (x : Cpu). RegisterFile.read x.register_file idx) (running-lockstep c h r)
      ∙ (unfold apply_inputs ReorderBuffer.plan in write-committed (front c.rob) c idx),
  ap (λ (x : Cpu). x.committed_count) (running-lockstep c h r)
      ∙ ap (λ b. if b then (c.committed_count + 1) % 2 ^ 64 else c.committed_count)
          (unfold ReorderBuffer.plan in commit-counts (front c.rob)),
)

-- The oldest instruction is a store that waits for the memory, and has this tag.
pub record IsStoreHead (o : Option RobEntry) (t : RobTag) : Type 0 where
  pub head : RobEntry
  pub at : o ≡ some head
  pub store : head.is_store ≡ true
  pub waiting : head.ready ≡ false
  pub tag : head.tag ≡ t

preview-IsStoreHead :
    (o : Option RobEntry)
    → (preview_head o).store_request.valid ≡ true
    → IsStoreHead o (preview_head o).store_request.tag
unfolding preview_head
preview-IsStoreHead none h = absurd cc
preview-IsStoreHead (some head) h = record {
  head = head;
  at = refl;
  store = ground arith;
  waiting = ground arith;
  tag = ground arith;
}

planned_store :
    (c : Cpu)
    → let d = (plans c).lsq_decision in
      d.memory_request.valid ≡ true
      → is_store_access d.memory_request.type ≡ true
      → IsStoreHead (front c.rob) d.memory_request.tag
unfolding observe preview_rob make_memory_request
planned_store c v s =
    let seen = (observe c).lsq_observe in
    let o = plan-IsOrdered c.load_store_queue seen v in
    let head = c.load_store_queue.cur c.load_store_queue.head in
    let store : is_store_access head.type ≡ true =
      sym (ap (λ (r : DataMemoryRequest). is_store_access r.type) o.head_request) ∙ s in
    let authorised = o.authorised store in
    let same : seen.store_request.tag ≡ (plans c).lsq_decision.memory_request.tag =
      tag_eq-eq seen.store_request.tag head.destination authorised.1
      ∙ sym (ap (λ (r : DataMemoryRequest). r.tag) o.head_request) in
    subst (IsStoreHead (front c.rob)) same (preview-IsStoreHead (front c.rob) authorised.0)

-- A write that the load/store queue asks for carries the tag of the oldest instruction in flight, a
-- store that has not committed.
pub stores_at_head :
    (c : Cpu)
    → AreShuffled c.orders
    → (plans_of (begin c)).lsq_decision.memory_request.valid ≡ true
    → is_store_access (plans_of (begin c)).lsq_decision.memory_request.type ≡ true
    → IsStoreHead (front c.rob) (plans_of (begin c)).lsq_decision.memory_request.tag
stores_at_head c h = rw (plans_of_lem c h) λ v s. planned_store c v s
