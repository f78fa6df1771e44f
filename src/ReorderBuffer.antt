-- ===== src/ReorderBuffer.antt =====
-- include/tomasulo/reorder_buffer.hpp and src/tomasulo/reorder_buffer.cpp: the circular buffer of
-- instructions in flight, which commits them in order.
pub mod Window
pub mod Invariant
pub mod Queue
pub mod Fifo
pub mod Youngest
pub mod Producer
pub mod Pending
mod Tests
use risc_v_cpu_simulator.Base.{
  ℕ, ◌+◌, ◌-◌, ◌%◌, ◌^◌, Bool, true, false, not, ◌||◌, ◌&&◌, ltb, leb, ◌==◌,
}
use risc_v_cpu_simulator.Base.{◌!=◌, if◌then◌else◌, Array, update, fill, Option, none, some}
use risc_v_cpu_simulator.Types.{RobTag, no_tag, tag_eq, inc_size, dec_size}
use risc_v_cpu_simulator.Instruction.{Op, op_eq, invalid, halt}
use risc_v_cpu_simulator.Signals.{FuResult, no_result}

pub record RobEntry : Type 0 where
  pub tag : RobTag
  pub op : Op
  pub pc : ℕ
  pub rd : ℕ
  pub value : ℕ
  pub writes_rd : Bool
  pub ready : Bool
  pub predicted_next_pc : ℕ
  pub actual_next_pc : ℕ
  pub branch_taken : Bool
  pub is_branch : Bool
  pub is_store : Bool
  pub is_jump : Bool
  pub valid : Bool

abbrev pub no_entry : RobEntry
no_entry = record {
  tag = no_tag;
  op = invalid;
  pc = 0;
  rd = 0;
  value = 0;
  writes_rd = false;
  ready = false;
  predicted_next_pc = 0;
  actual_next_pc = 0;
  branch_taken = false;
  is_branch = false;
  is_store = false;
  is_jump = false;
  valid = false;
}

pub record StoreCommitRequest : Type 0 where
  pub tag : RobTag
  pub valid : Bool

pub record StoreCommitCompletion : Type 0 where
  pub tag : RobTag
  pub valid : Bool

abbrev pub no_request : StoreCommitRequest
no_request = record { tag = no_tag; valid = false }

abbrev pub no_completion : StoreCommitCompletion
no_completion = record { tag = no_tag; valid = false }

pub record RobCommit : Type 0 where
  pub entry : RobEntry
  pub valid : Bool
  pub halted : Bool
  pub mispredicted : Bool
  pub redirect_pc : ℕ

abbrev pub no_commit : RobCommit
no_commit = record {
  entry = no_entry;
  valid = false;
  halted = false;
  mispredicted = false;
  redirect_pc = 0;
}

pub record RobInputs : Type 0 where
  pub issue_entry : RobEntry
  pub issue_valid : Bool
  pub completion : FuResult
  pub store_completion : StoreCommitCompletion

-- `ROBOutputs`; its `issue_accepted` is never written, and `ROBDecision` holds nothing else.
pub record RobOutputs : Type 0 where
  pub commit : RobCommit
  pub store_request : StoreCommitRequest
  pub flush : Bool
  pub redirect_pc : ℕ

abbrev pub capacity : ℕ
capacity = 32

pub record ReorderBuffer : Type 0 where
  pub cur : Array RobEntry
  pub next : Array RobEntry
  pub generations : Array ℕ
  pub next_generations : Array ℕ
  pub head : ℕ
  pub tail : ℕ
  pub count : ℕ
  pub next_head : ℕ
  pub next_tail : ℕ
  pub next_count : ℕ

-- What `reset()` leaves.
abbrev pub reset : ReorderBuffer
reset = record {
  cur = fill no_entry;
  next = fill no_entry;
  generations = fill 0;
  next_generations = fill 0;
  head = 0;
  tail = 0;
  count = 0;
  next_head = 0;
  next_tail = 0;
  next_count = 0;
}

unfoldable pub latch : ReorderBuffer → ReorderBuffer
latch r = record r {
  cur = r.next;
  generations = r.next_generations;
  head = r.next_head;
  tail = r.next_tail;
  count = r.next_count;
}

unfoldable pub empty : ReorderBuffer → Bool
empty r = r.count == 0

unfoldable pub full : ReorderBuffer → Bool
full r = r.count == capacity

unfoldable pub following_generation : ℕ → ℕ
following_generation generation = (generation + 1) % 2 ^ 32

unfoldable pub matching_entry : RobTag → Array RobEntry → Bool
matching_entry tag entries =
    if not tag.valid
    then false
    else (if leb capacity tag.index
        then false
        else (entries tag.index).valid && tag_eq (entries tag.index).tag tag)

unfoldable pub next_tag : ReorderBuffer → RobTag
next_tag r = if full r then no_tag else record {
  index = r.tail % 2 ^ 32;
  generation = following_generation (r.generations r.tail);
  valid = true;
}

-- `front()`; the null pointer is `none`.
unfoldable pub front : ReorderBuffer → Option RobEntry
front r =
    let entry = r.cur r.head in if empty r then none else (if entry.valid then some entry else none)

unfoldable pub lookup : ReorderBuffer → RobTag → Option RobEntry
lookup r tag = if not (matching_entry tag r.cur) then none else some (r.cur tag.index)

unfoldable pub is_control_instruction : RobEntry → Bool
is_control_instruction entry = entry.is_jump || entry.is_branch

-- The part of `plan` for a head that is ready.
unfoldable pub commit_of : RobEntry → RobCommit
commit_of entry = record {
  entry = entry;
  valid = true;
  halted = op_eq entry.op halt;
  mispredicted =
      if is_control_instruction entry
      then entry.predicted_next_pc != entry.actual_next_pc
      else false;
  redirect_pc = if is_control_instruction entry then entry.actual_next_pc else 0;
}

unfoldable pub plan_head : Option RobEntry → RobOutputs
plan_head none = record {
  commit = no_commit;
  store_request = no_request;
  flush = false;
  redirect_pc = 0;
}
plan_head (some entry) =
    let commit = if entry.ready then commit_of entry else no_commit in
    record {
      commit = commit;
      store_request =
          if entry.is_store && not entry.ready
          then record { tag = entry.tag; valid = true }
          else no_request;
      flush = commit.mispredicted;
      redirect_pc = if commit.mispredicted then entry.actual_next_pc else 0;
    }

unfoldable pub plan : ReorderBuffer → RobOutputs
plan r = plan_head (front r)

-- The completed entry, and the array with it; matching is against the current entries.
unfoldable pub complete_entry : FuResult → RobEntry → RobEntry
complete_entry completion entry = record entry {
  value = completion.result;
  ready = true;
  actual_next_pc =
      if completion.has_control_result then completion.actual_next_pc else entry.actual_next_pc;
  branch_taken =
      if completion.has_control_result then completion.branch_taken else entry.branch_taken;
}

unfoldable pub apply_completion : FuResult → Array RobEntry → Array RobEntry → Array RobEntry
apply_completion completion cur next =
    let index = completion.tag.index in
    if not completion.valid || not (matching_entry completion.tag cur)
    then next
    else update next index (complete_entry completion (next index))

unfoldable pub apply_store_completion :
    StoreCommitCompletion → Array RobEntry → Array RobEntry → Array RobEntry
apply_store_completion completion cur next =
    let index = completion.tag.index in
    if not completion.valid || not (matching_entry completion.tag cur)
    then next
    else (if not (next index).is_store
        then next
        else update next index (record (next index) { ready = true }))

-- The first part of `apply`: completions, then the commit of the head with a possible flush.
unfoldable pub commit_step : ReorderBuffer → RobInputs → RobOutputs → ReorderBuffer
commit_step r inputs decision =
    let completed =
      apply_store_completion inputs.store_completion r.cur
        (apply_completion inputs.completion r.cur r.cur) in
    let new_head = (r.head + 1) % capacity in
    let copied = record r {
      next = completed;
      next_generations = r.generations;
      next_head = r.head;
      next_tail = r.tail;
      next_count = r.count;
    } in
    let committed = record copied {
      next = update completed r.head no_entry;
      next_head = new_head;
      next_count = dec_size r.count;
    } in
    let flushed = record copied {
      next = fill no_entry;
      next_head = new_head;
      next_tail = new_head;
      next_count = 0;
    } in
    if decision.commit.valid then (if decision.flush then flushed else committed) else copied

-- The second part: the issue, which a flush cancels. The tests read the current state.
unfoldable pub issue_step : ReorderBuffer → RobInputs → RobOutputs → ReorderBuffer × Bool
issue_step r inputs decision =
    let expected_tag = next_tag r in
    let entry = record (inputs.issue_entry) { tag = expected_tag; valid = true } in
    let issued = record r {
      next = update r.next r.next_tail entry;
      next_generations = update r.next_generations r.next_tail expected_tag.generation;
      next_tail = (r.next_tail + 1) % capacity;
      next_count = inc_size r.next_count;
    } in
    if not decision.flush && inputs.issue_valid
    then (if not (full r)
        then (if inputs.issue_entry.valid && tag_eq inputs.issue_entry.tag expected_tag
            then (issued, true)
            else (r, false))
        else (r, false))
    else (r, false)

unfoldable pub apply : ReorderBuffer → RobInputs → RobOutputs → ReorderBuffer × Bool
apply r inputs decision = issue_step (commit_step r inputs decision) inputs decision
