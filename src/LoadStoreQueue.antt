-- ===== src/LoadStoreQueue.antt =====
-- include/tomasulo/load_store_queue.hpp and src/tomasulo/load_store_queue.cpp: memory accesses in
-- program order, of which only the head talks to the memory.
pub mod Window
pub mod Invariant
pub mod Held
pub mod Once
pub mod Order
pub mod Agreement
mod Tests
use risc_v_cpu_simulator.Base.{ℕ, ◌+◌, ◌%◌, Bool, true, false, not, ◌||◌, ◌&&◌, ◌==◌, bool_eq}
use risc_v_cpu_simulator.Base.{if◌then◌else◌, Array, update, fill}
use risc_v_cpu_simulator.Types.{RobTag, no_tag, tag_eq, add32, sign_extend, zero_extend, inc_size}
use risc_v_cpu_simulator.Types.{dec_size}
use risc_v_cpu_simulator.Instruction.{Op, invalid, lb, lh, lw, lbu, lhu, sb, sh}
use risc_v_cpu_simulator.Signals.{Operand, no_operand, CdbMsg, FuResult, no_result}
use risc_v_cpu_simulator.MemoryUnit.{MemoryAccessType, is_store_access, MemoryWidth}
use risc_v_cpu_simulator.MemoryUnit.{DataMemoryRequest, no_request, DataMemoryResponse}
use risc_v_cpu_simulator.ReorderBuffer.{StoreCommitRequest, StoreCommitCompletion, no_completion}

pub record LsqEntry : Type 0 where
  pub type : MemoryAccessType
  pub op : Op
  pub destination : RobTag
  pub base : Operand
  pub store_data : Operand
  pub immediate : ℕ
  pub address : ℕ
  pub address_ready : Bool
  pub request_sent : Bool
  pub valid : Bool

abbrev pub no_entry : LsqEntry
no_entry = record {
  type = MemoryAccessType.load;
  op = invalid;
  destination = no_tag;
  base = no_operand;
  store_data = no_operand;
  immediate = 0;
  address = 0;
  address_ready = false;
  request_sent = false;
  valid = false;
}

-- The fields of `LSQInputs` that `apply` reads.
pub record LsqInputs : Type 0 where
  pub issue_entry : LsqEntry
  pub issue_valid : Bool
  pub cdb : CdbMsg
  pub flush : Bool

pub record LsqObserveInputs : Type 0 where
  pub store_request : StoreCommitRequest
  pub memory_response : DataMemoryResponse
  pub memory_available : Bool
  pub load_result_granted : Bool
  pub flush : Bool

-- `LSQDecision`, with the fields of its `LSQOutputs` that are written.
pub record LsqDecision : Type 0 where
  pub memory_request : DataMemoryRequest
  pub store_completion : StoreCommitCompletion
  pub memory_error : Bool
  pub completed_load_result : FuResult
  pub clear_load_result : Bool
  pub install_load_result : Bool
  pub remove_head : Bool
  pub mark_request_sent : Bool

abbrev pub no_decision : LsqDecision
no_decision = record {
  memory_request = no_request;
  store_completion = no_completion;
  memory_error = false;
  completed_load_result = no_result;
  clear_load_result = false;
  install_load_result = false;
  remove_head = false;
  mark_request_sent = false;
}

abbrev pub capacity : ℕ
capacity = 16

pub record LoadStoreQueue : Type 0 where
  pub cur : Array LsqEntry
  pub next : Array LsqEntry
  pub head : ℕ
  pub tail : ℕ
  pub count : ℕ
  pub next_head : ℕ
  pub next_tail : ℕ
  pub next_count : ℕ
  pub cur_load_result : FuResult
  pub next_load_result : FuResult

-- What `reset()` leaves.
abbrev pub reset : LoadStoreQueue
reset = record {
  cur = fill no_entry;
  next = fill no_entry;
  head = 0;
  tail = 0;
  count = 0;
  next_head = 0;
  next_tail = 0;
  next_count = 0;
  cur_load_result = no_result;
  next_load_result = no_result;
}

unfoldable pub latch : LoadStoreQueue → LoadStoreQueue
latch q = record q {
  cur = q.next;
  head = q.next_head;
  tail = q.next_tail;
  count = q.next_count;
  cur_load_result = q.next_load_result;
}

unfoldable pub empty : LoadStoreQueue → Bool
empty q = q.count == 0

unfoldable pub full : LoadStoreQueue → Bool
full q = q.count == capacity

unfoldable pub load_result : LoadStoreQueue → FuResult
load_result q = q.cur_load_result

unfoldable pub wake_operand : Operand → CdbMsg → Operand
wake_operand operand cdb =
    if operand.ready || not cdb.valid || not cdb.tag.valid || not operand.tag.valid
    then operand
    else (if tag_eq operand.tag cdb.tag
        then record { value = cdb.value; tag = no_tag; ready = true }
        else operand)

unfoldable pub wake_entry : LsqEntry → CdbMsg → LsqEntry
wake_entry entry cdb = if not entry.valid then entry else record entry {
  base = wake_operand entry.base cdb;
  store_data =
      if is_store_access entry.type then wake_operand entry.store_data cdb else entry.store_data;
}

unfoldable pub matching_response : LsqEntry → DataMemoryResponse → Bool
matching_response entry response =
    if not entry.valid || not response.valid || not response.tag.valid
    then false
    else (if not (tag_eq entry.destination response.tag)
        then false
        else bool_eq (is_store_access entry.type) response.is_store)

-- The width that an operation accesses; the source asserts that it is a memory operation.
unfoldable pub memory_width : Op → MemoryWidth
memory_width lb = MemoryWidth.byte
memory_width lbu = MemoryWidth.byte
memory_width sb = MemoryWidth.byte
memory_width lh = MemoryWidth.half
memory_width lhu = MemoryWidth.half
memory_width sh = MemoryWidth.half
memory_width _ = MemoryWidth.word

unfoldable pub extend_load_result : Op → ℕ → ℕ
extend_load_result lb raw_value = sign_extend raw_value 8
extend_load_result lh raw_value = sign_extend raw_value 16
extend_load_result lw raw_value = raw_value
extend_load_result lbu raw_value = zero_extend raw_value 8
extend_load_result lhu raw_value = zero_extend raw_value 16
extend_load_result _ raw_value = 0

-- The body of the loop of `update_addresses`.
unfoldable pub update_address : LsqEntry → LsqEntry
update_address entry =
    if not entry.valid || entry.address_ready || not entry.base.ready
    then entry
    else record entry { address = add32 entry.base.value entry.immediate; address_ready = true }

unfoldable pub make_memory_request : LsqEntry → DataMemoryRequest
make_memory_request entry = record {
  type = entry.type;
  width = memory_width entry.op;
  address = entry.address;
  value = if is_store_access entry.type then entry.store_data.value else 0;
  tag = entry.destination;
  valid = true;
}

-- What the response to the head does; `d` is the decision so far.
unfoldable pub respond : LsqEntry → DataMemoryResponse → LsqDecision → LsqDecision
respond head response d =
    let result = record no_result {
      tag = head.destination;
      result = extend_load_result head.op response.value;
      valid = true;
    } in
    if not (matching_response head response)
    then d
    else (if not response.success
        then record d { memory_error = true }
        else (if not (is_store_access head.type)
            then record d {
              completed_load_result = result;
              install_load_result = true;
              remove_head = true;
            }
            else record d {
              store_completion = record { tag = head.destination; valid = true };
              remove_head = true;
            }))

-- Whether the head may send its request.
unfoldable pub may_send : LoadStoreQueue → LsqEntry → LsqObserveInputs → Bool
may_send q head inputs =
    if not (is_store_access head.type)
    then not q.cur_load_result.valid || inputs.load_result_granted
    else head.store_data.ready
      && inputs.store_request.valid
      && tag_eq inputs.store_request.tag head.destination

unfoldable pub send : LoadStoreQueue → LsqEntry → LsqObserveInputs → LsqDecision → LsqDecision
send q head inputs d =
    if head.valid && not head.request_sent && head.address_ready && inputs.memory_available
    then (if may_send q head inputs
        then record d { memory_request = make_memory_request head; mark_request_sent = true }
        else d)
    else d

unfoldable pub plan : LoadStoreQueue → LsqObserveInputs → LsqDecision
plan q inputs =
    let head = q.cur q.head in
    let cleared = record no_decision {
      clear_load_result = inputs.load_result_granted && q.cur_load_result.valid;
    } in
    if inputs.flush
    then no_decision
    else (if not (empty q)
        then send q head inputs (respond head inputs.memory_response cleared)
        else cleared)

-- The result register after `apply`.
unfoldable pub next_result_of : LoadStoreQueue → LsqDecision → FuResult
next_result_of q d =
    if d.install_load_result
    then d.completed_load_result
    else (if d.clear_load_result then no_result else q.cur_load_result)

-- The entries after wake-up, removal of the head and marking of the head's request.
unfoldable pub served : LoadStoreQueue → LsqInputs → LsqDecision → Array LsqEntry
served q inputs d =
    let awake = λ (i : ℕ). wake_entry (q.cur i) inputs.cdb in
    let removed = if d.remove_head then update awake q.head no_entry else awake in
    if d.mark_request_sent
    then update removed q.head (record (removed q.head) { request_sent = true })
    else removed

unfoldable pub apply : LoadStoreQueue → LsqInputs → LsqDecision → LoadStoreQueue × Bool
apply q inputs d =
    let cells = served q inputs d in
    let new_head = if d.remove_head then (q.head + 1) % capacity else q.head in
    let new_count = if d.remove_head then dec_size q.count else q.count in
    let entry = record (inputs.issue_entry) { valid = true; request_sent = false } in
    let with_entry = update cells q.tail entry in
    let flushed = record q {
      next = fill no_entry;
      next_head = 0;
      next_tail = 0;
      next_count = 0;
      next_load_result = no_result;
    } in
    let kept = record q {
      next = λ i. update_address (cells i);
      next_head = new_head;
      next_tail = q.tail;
      next_count = new_count;
      next_load_result = next_result_of q d;
    } in
    let issued = record kept {
      next = λ i. update_address (with_entry i);
      next_tail = (q.tail + 1) % capacity;
      next_count = inc_size new_count;
    } in
    if inputs.flush
    then (flushed, false)
    else (if inputs.issue_valid && not (full q) && inputs.issue_entry.valid
        then (issued, true)
        else (kept, false))
