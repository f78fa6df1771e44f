-- ===== src/ReservationStation.antt =====
-- include/tomasulo/reservation_station.hpp and src/tomasulo/reservation_station.cpp: the slots in
-- which integer instructions wait for their operands.
pub mod Scan
pub mod Wake
pub mod Slots
pub mod Held
mod Tests
use risc_v_cpu_simulator.Base.{
  ℕ, zero, suc, ◌+◌, ◌%◌, Bool, true, false, not, ◌||◌, ◌&&◌, ◌==◌, ◌!=◌,
}
use risc_v_cpu_simulator.Base.{if◌then◌else◌, Array, update, fill}
use risc_v_cpu_simulator.Types.{RobTag, no_tag, tag_eq}
use risc_v_cpu_simulator.Instruction.{Op, invalid}
use risc_v_cpu_simulator.Signals.{Operand, no_operand, CdbMsg, Execute, no_execute}

pub record RsEntry : Type 0 where
  pub op : Op
  pub destination : RobTag
  pub lhs : Operand
  pub rhs : Operand
  pub immediate : ℕ
  pub pc : ℕ
  pub predicted_next_pc : ℕ
  pub busy : Bool

abbrev pub no_entry : RsEntry
no_entry = record {
  op = invalid;
  destination = no_tag;
  lhs = no_operand;
  rhs = no_operand;
  immediate = 0;
  pc = 0;
  predicted_next_pc = 0;
  busy = false;
}

pub record RsInputs : Type 0 where
  pub issue_entry : RsEntry
  pub issue_valid : Bool
  pub cdb : CdbMsg
  pub fu_available : Bool
  pub flush : Bool

-- `RSDecision`, with the fields of its `RSOutputs` that are written.
pub record RsDecision : Type 0 where
  pub dispatch : Execute
  pub dispatch_valid : Bool
  pub selected_index : ℕ

abbrev pub capacity : ℕ
capacity = 16

abbrev pub invalid_index : ℕ
invalid_index = capacity

pub record ReservationStation : Type 0 where
  pub cur_rs : Array RsEntry
  pub next_rs : Array RsEntry
  pub dispatch_cursor : ℕ
  pub next_dispatch_cursor : ℕ

-- What `reset()` leaves.
abbrev pub reset : ReservationStation
reset = record {
  cur_rs = fill no_entry;
  next_rs = fill no_entry;
  dispatch_cursor = 0;
  next_dispatch_cursor = 0;
}

unfoldable pub latch : ReservationStation → ReservationStation
latch r = record r { cur_rs = r.next_rs; dispatch_cursor = r.next_dispatch_cursor }

-- The number of busy slots among the first n.
unfoldable pub count_busy : ℕ → Array RsEntry → ℕ
count_busy zero cells = 0
count_busy (suc n) cells = count_busy n cells + (if (cells n).busy then 1 else 0)

unfoldable pub size : ReservationStation → ℕ
size r = count_busy capacity r.cur_rs

-- The loops that look for a slot, with the slots left to look at and the present one.
unfoldable pub find_free_from : Array RsEntry → ℕ → ℕ → ℕ
find_free_from cells zero index = invalid_index
find_free_from cells (suc left) index =
    let rest = find_free_from cells left (index + 1) in
    if not (cells index).busy then index else rest

unfoldable pub find_free_index : Array RsEntry → ℕ
find_free_index cells = find_free_from cells capacity 0

-- `full` returns false at the first slot that is not busy.
unfoldable pub full : ReservationStation → Bool
full r = find_free_index r.cur_rs == invalid_index

unfoldable pub available : ReservationStation → Bool
available r = not (full r)

unfoldable pub is_ready : RsEntry → Bool
is_ready entry = entry.busy && entry.lhs.ready && entry.rhs.ready

unfoldable pub select_from : ReservationStation → ℕ → ℕ → ℕ
select_from r zero offset = invalid_index
select_from r (suc left) offset =
    let index = (r.dispatch_cursor + offset) % capacity in
    let rest = select_from r left (offset + 1) in if is_ready (r.cur_rs index) then index else rest

unfoldable pub select_ready_index : ReservationStation → ℕ
select_ready_index r = select_from r capacity 0

unfoldable pub make_execute : RsEntry → Execute
make_execute entry = record {
  op = entry.op;
  operand1 = entry.lhs.value;
  operand2 = entry.rhs.value;
  immediate = entry.immediate;
  pc = entry.pc;
  tag = entry.destination;
  valid = true;
}

unfoldable pub wake_operand : Operand → CdbMsg → Operand
wake_operand operand cdb =
    if operand.ready || not operand.tag.valid || not cdb.valid || not cdb.tag.valid
    then operand
    else (if tag_eq operand.tag cdb.tag
        then record { value = cdb.value; tag = no_tag; ready = true }
        else operand)

unfoldable pub wake_entry : RsEntry → CdbMsg → RsEntry
wake_entry entry cdb =
    if not entry.busy
    then entry
    else record entry { lhs = wake_operand entry.lhs cdb; rhs = wake_operand entry.rhs cdb }

abbrev pub no_decision : RsDecision
no_decision = record {
  dispatch = no_execute;
  dispatch_valid = false;
  selected_index = invalid_index;
}

unfoldable pub plan : ReservationStation → Bool → RsDecision
plan r flush =
    let selected = select_ready_index r in
    if flush
    then no_decision
    else (if selected != invalid_index
        then record {
          dispatch = make_execute (r.cur_rs selected);
          dispatch_valid = true;
          selected_index = selected;
        }
        else no_decision)

-- The wake-up of all entries and the release of a dispatched one.
unfoldable pub woken : ReservationStation → RsInputs → RsDecision → Array RsEntry
woken r inputs decision =
    let awake = λ (i : ℕ). wake_entry (r.cur_rs i) inputs.cdb in
    if decision.selected_index != invalid_index && inputs.fu_available
    then update awake decision.selected_index no_entry
    else awake

unfoldable pub next_cursor : ReservationStation → RsInputs → RsDecision → ℕ
next_cursor r inputs decision =
    if decision.selected_index != invalid_index && inputs.fu_available
    then (decision.selected_index + 1) % capacity
    else r.dispatch_cursor

unfoldable pub apply : ReservationStation → RsInputs → RsDecision → ReservationStation × Bool
apply r inputs decision =
    let cells = woken r inputs decision in
    let cursor = next_cursor r inputs decision in
    let free_slot = find_free_index cells in
    let new_entry = record (inputs.issue_entry) { busy = true } in
    if inputs.flush
    then (record r { next_rs = fill no_entry; next_dispatch_cursor = 0 }, false)
    else (if inputs.issue_valid && free_slot != invalid_index
        then (
          record r { next_rs = update cells free_slot new_entry; next_dispatch_cursor = cursor },
          true,
        )
        else (record r { next_rs = cells; next_dispatch_cursor = cursor }, false))
