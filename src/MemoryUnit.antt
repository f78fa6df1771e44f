-- ===== src/MemoryUnit.antt =====
-- include/memory/memory_unit.hpp and src/memory/memory_unit.cpp: the data port with its latency, the
-- stores that take effect at the clock edge, and instruction fetch.
pub mod Port
pub mod Bytes
pub mod Step
mod Tests
use risc_v_cpu_simulator.Base.{
  ℕ, zero, suc, ◌+◌, ◌-◌, Bool, true, false, not, ◌||◌, ◌&&◌, ltb, ◌==◌,
}
use risc_v_cpu_simulator.Base.{if◌then◌else◌, Option, none, some, bit_and}
use risc_v_cpu_simulator.Types.{RobTag, no_tag}
use risc_v_cpu_simulator.Image
use risc_v_cpu_simulator.Image.{MemoryImage, in_bounds, read_byte, read_half, read_word}
use risc_v_cpu_simulator.Image.{write_byte, write_half, write_word, Token, FromChars, Input}
use risc_v_cpu_simulator.Image.{ImageLoadResult}

pub data MemoryAccessType : Type 0 where
  load store : MemoryAccessType

pub data MemoryWidth : Type 0 where
  byte half word : MemoryWidth

-- `type == MemoryAccessType::STORE`
unfoldable pub is_store_access : MemoryAccessType → Bool
is_store_access MemoryAccessType.load = false
is_store_access MemoryAccessType.store = true

pub record DataMemoryRequest : Type 0 where
  pub type : MemoryAccessType
  pub width : MemoryWidth
  pub address : ℕ
  pub value : ℕ
  pub tag : RobTag
  pub valid : Bool

abbrev pub no_request : DataMemoryRequest
no_request = record {
  type = MemoryAccessType.load;
  width = MemoryWidth.word;
  address = 0;
  value = 0;
  tag = no_tag;
  valid = false;
}

pub record DataMemoryResponse : Type 0 where
  pub tag : RobTag
  pub value : ℕ
  pub is_store : Bool
  pub success : Bool
  pub valid : Bool

abbrev pub no_response : DataMemoryResponse
no_response = record { tag = no_tag; value = 0; is_store = false; success = false; valid = false }

pub record InstructionFetchRequest : Type 0 where
  pub pc : ℕ
  pub valid : Bool

pub record InstructionFetchResponse : Type 0 where
  pub pc : ℕ
  pub instruction : ℕ
  pub success : Bool
  pub valid : Bool

abbrev pub data_latency : ℕ
data_latency = 3

pub record DataTransaction : Type 0 where
  pub request : DataMemoryRequest
  pub remaining_cycles : ℕ
  pub valid : Bool

abbrev pub no_transaction : DataTransaction
no_transaction = record { request = no_request; remaining_cycles = 0; valid = false }

pub record PendingStoreWrite : Type 0 where
  pub address : ℕ
  pub value : ℕ
  pub width : MemoryWidth
  pub valid : Bool

abbrev pub no_store_write : PendingStoreWrite
no_store_write = record { address = 0; value = 0; width = MemoryWidth.word; valid = false }

pub record MemoryUnit : Type 0 where
  pub memory : MemoryImage
  pub current_transaction : DataTransaction
  pub next_transaction : DataTransaction
  pub current_response : DataMemoryResponse
  pub next_response : DataMemoryResponse
  pub next_store_write : PendingStoreWrite

-- `reset()` keeps the memory.
unfoldable pub reset : MemoryUnit → MemoryUnit
reset u = record {
  memory = u.memory;
  current_transaction = no_transaction;
  next_transaction = no_transaction;
  current_response = no_response;
  next_response = no_response;
  next_store_write = no_store_write;
}

unfoldable pub clear : MemoryUnit → MemoryUnit
clear u = reset (record u { memory = Image.clear })

unfoldable pub load_program :
    (Token → FromChars) → MemoryUnit → Input → MemoryUnit × ImageLoadResult
load_program from_chars u input =
    let (image, result) = Image.load from_chars input in
    (record (reset u) { memory = image }, result)

unfoldable pub fetch : MemoryUnit → InstructionFetchRequest → InstructionFetchResponse
fetch u request =
    if not request.valid
    then record { pc = 0; instruction = 0; success = false; valid = false }
    else elim (read_word u.memory request.pc) [
      | none ↦ record { pc = request.pc; instruction = 0; success = false; valid = true }
      | some instruction ↦ record {
        pc = request.pc;
        instruction = instruction;
        success = true;
        valid = true;
      }
    ]

unfoldable pub data_port_available : MemoryUnit → Bool
data_port_available u = not u.current_transaction.valid

unfoldable pub data_response : MemoryUnit → DataMemoryResponse
data_response u = u.current_response

unfoldable pub width_in_bytes : MemoryWidth → ℕ
width_in_bytes MemoryWidth.byte = 1
width_in_bytes MemoryWidth.half = 2
width_in_bytes MemoryWidth.word = 4

-- `none` is `success == false`, with which the value 0 is returned.
unfoldable pub read_data : MemoryImage → ℕ → MemoryWidth → Option ℕ
read_data m address MemoryWidth.byte = read_byte m address
read_data m address MemoryWidth.half = read_half m address
read_data m address MemoryWidth.word = read_word m address

-- The write prepared by a store, if it lies in the memory.
unfoldable pub schedule_store : DataMemoryRequest → Option PendingStoreWrite
schedule_store request =
    let width = width_in_bytes request.width in
    if width == 0 || not (in_bounds request.address width)
    then none
    else some (record {
      address = request.address;
      value = request.value;
      width = request.width;
      valid = true;
    })

unfoldable pub load_response : RobTag → Option ℕ → DataMemoryResponse
load_response tag none = record no_response { tag = tag; valid = true }
load_response tag (some value) = record no_response {
  tag = tag;
  valid = true;
  value = value;
  success = true;
}

unfoldable pub store_response : RobTag → Bool → DataMemoryResponse
store_response tag success = record no_response {
  tag = tag;
  valid = true;
  is_store = true;
  success = success;
}

-- The next response and the prepared write of a transaction that completes.
unfoldable pub complete : MemoryImage → DataMemoryRequest → DataMemoryResponse × PendingStoreWrite
complete m request =
    let scheduled = schedule_store request in
    if not (is_store_access request.type)
    then (load_response request.tag (read_data m request.address request.width), no_store_write)
    else elim scheduled [
      | none ↦ (store_response request.tag false, no_store_write)
      | some write ↦ (store_response request.tag true, write)
    ]

unfoldable pub complete_current_transaction : MemoryUnit → MemoryUnit
complete_current_transaction u =
    let (response, write) = complete u.memory u.current_transaction.request in
    record u {
      next_response = response;
      next_transaction = no_transaction;
      next_store_write = write;
    }

-- `apply` returns whether the request was accepted. (A valid request without a valid tag trips an
-- assertion in the source; with assertions off it is refused, as here.)
unfoldable pub apply : MemoryUnit → DataMemoryRequest → MemoryUnit × Bool
apply u request =
    let current = u.current_transaction in
    let kept = record u {
      next_transaction = current;
      next_response = no_response;
      next_store_write = no_store_write;
    } in
    let waiting = record current { remaining_cycles = current.remaining_cycles - 1 } in
    if current.valid
    then (if ltb 1 current.remaining_cycles
        then (record kept { next_transaction = waiting }, false)
        else (complete_current_transaction kept, false))
    else (if not request.valid
        then (kept, false)
        else (if not request.tag.valid then (kept, false) else (
          record kept {
            next_transaction = record {
              request = request;
              remaining_cycles = data_latency;
              valid = true;
            };
          },
          true,
        )))

unfoldable pub store_by_width : MemoryImage → MemoryWidth → ℕ → ℕ → MemoryImage × Bool
store_by_width m MemoryWidth.byte address value = write_byte m address (bit_and value 0xff)
store_by_width m MemoryWidth.half address value = write_half m address (bit_and value 0xffff)
store_by_width m MemoryWidth.word address value = write_word m address value

unfoldable pub apply_store_write : MemoryImage → PendingStoreWrite → MemoryImage × Bool
apply_store_write m write =
    if not write.valid then (m, true) else store_by_width m write.width write.address write.value

unfoldable pub latch : MemoryUnit → MemoryUnit
latch u = record u {
  memory =
      if u.next_store_write.valid
      then (apply_store_write u.memory u.next_store_write).0
      else u.memory;
  current_transaction = u.next_transaction;
  current_response = u.next_response;
}
