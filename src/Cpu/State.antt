-- ===== src/Cpu/State.antt =====
-- include/tomasulo/cpu.hpp, and the constructor and `load` of src/tomasulo/cpu.cpp.
use risc_v_cpu_simulator.Base.{ℕ, zero, suc, ◌+◌, Bool, true, false, not, if◌then◌else◌}
use risc_v_cpu_simulator.Base.{Array, update, fill, List, [], ◌∷◌}
use risc_v_cpu_simulator.Image
use risc_v_cpu_simulator.Image.{Token, FromChars, Input, ImageLoadResult, load_ok}
use risc_v_cpu_simulator.MemoryUnit
use risc_v_cpu_simulator.MemoryUnit.{MemoryUnit, no_transaction, no_response, no_store_write}
use risc_v_cpu_simulator.RegisterFile
use risc_v_cpu_simulator.RegisterFile.{RegisterFile}
use risc_v_cpu_simulator.RenameTable
use risc_v_cpu_simulator.RenameTable.{RenameTable}
use risc_v_cpu_simulator.ReorderBuffer
use risc_v_cpu_simulator.ReorderBuffer.{ReorderBuffer}
use risc_v_cpu_simulator.ReservationStation
use risc_v_cpu_simulator.ReservationStation.{ReservationStation}
use risc_v_cpu_simulator.LoadStoreQueue
use risc_v_cpu_simulator.LoadStoreQueue.{LoadStoreQueue}
use risc_v_cpu_simulator.FunctionalUnit
use risc_v_cpu_simulator.FunctionalUnit.{FunctionalUnit}
use risc_v_cpu_simulator.CommonDataBus
use risc_v_cpu_simulator.CommonDataBus.{CommonDataBus}
use risc_v_cpu_simulator.BranchPredictor
use risc_v_cpu_simulator.BranchPredictor.{BranchPredictor}

pub data Status : Type 0 where
  not_loaded running halted load_error fetch_out_of_bound invalid_instruction : Status
  memory_out_of_bound internal_error : Status

-- `status == Status::Running` and `status == Status::Halted`
unfoldable pub is_running : Status → Bool
is_running running = true
is_running _ = false

unfoldable pub is_halted : Status → Bool
is_halted halted = true
is_halted _ = false

-- The modules that take a turn in each phase of a cycle; an order is a list of their numbers, here
-- of the modules themselves.
pub data PlanModule : Type 0 where
  issue reorder_buffer reservation_station load_store_queue : PlanModule

pub data ApplyModule : Type 0 where
  common_data_bus reorder_buffer reservation_station load_store_queue functional_unit : ApplyModule
  register_file rename_table branch_predictor memory_unit : ApplyModule

pub data LatchModule : Type 0 where
  register_file rename_table reorder_buffer reservation_station load_store_queue : LatchModule
  functional_unit common_data_bus memory_unit branch_predictor : LatchModule

abbrev pub base_plan : List PlanModule
base_plan =
    PlanModule.issue ∷ PlanModule.reorder_buffer ∷ PlanModule.reservation_station
    ∷ PlanModule.load_store_queue ∷ []

abbrev pub base_apply : List ApplyModule
base_apply =
    ApplyModule.common_data_bus ∷ ApplyModule.reorder_buffer ∷ ApplyModule.reservation_station
    ∷ ApplyModule.load_store_queue ∷ ApplyModule.functional_unit ∷ ApplyModule.register_file
    ∷ ApplyModule.rename_table ∷ ApplyModule.branch_predictor ∷ ApplyModule.memory_unit ∷ []

abbrev pub base_latch : List LatchModule
base_latch =
    LatchModule.register_file ∷ LatchModule.rename_table ∷ LatchModule.reorder_buffer
    ∷ LatchModule.reservation_station ∷ LatchModule.load_store_queue ∷ LatchModule.functional_unit
    ∷ LatchModule.common_data_bus ∷ LatchModule.memory_unit ∷ LatchModule.branch_predictor ∷ []

abbrev pub order_variant_count : ℕ
order_variant_count = 64

-- `plan_orders_`, `apply_orders_` and `latch_orders_`.
pub record Orders : Type 0 where
  pub plan_orders : Array (List PlanModule)
  pub apply_orders : Array (List ApplyModule)
  pub latch_orders : Array (List LatchModule)

abbrev pub no_orders : Orders
no_orders = record { plan_orders = fill []; apply_orders = fill []; latch_orders = fill [] }

-- The random engine and `std::shuffle` belong to the C++ library.
module _ (Engine : Type 0) (shuffle : (A : Type 0) → List A → Engine → List A × Engine) where
  -- The body of the loop of `initialize_execution_orders`.
  unfoldable pub shuffle_orders : ℕ → Orders → Engine → Orders × Engine
  shuffle_orders index orders engine =
      let (plan, engine1) = shuffle PlanModule base_plan engine in
      let (apply, engine2) = shuffle ApplyModule base_apply engine1 in
      let (latch, engine3) = shuffle LatchModule base_latch engine2 in
      (
        record {
          plan_orders = update orders.plan_orders index plan;
          apply_orders = update orders.apply_orders index apply;
          latch_orders = update orders.latch_orders index latch;
        },
        engine3,
      )

  -- The loop, with the rounds left and the index of the present one.
  unfoldable pub shuffle_from : ℕ → ℕ → Orders → Engine → Orders
  shuffle_from zero index orders engine = orders
  shuffle_from (suc left) index orders engine =
      let (orders', engine') = shuffle_orders index orders engine in
      shuffle_from left (index + 1) orders' engine'

  unfoldable pub initialize_execution_orders : Engine → Orders
  initialize_execution_orders engine = shuffle_from order_variant_count 0 no_orders engine

pub record Cpu : Type 0 where
  pub memory_unit : MemoryUnit
  pub register_file : RegisterFile
  pub rename_table : RenameTable
  pub rob : ReorderBuffer
  pub reservation_station : ReservationStation
  pub load_store_queue : LoadStoreQueue
  pub functional_unit : FunctionalUnit
  pub common_data_bus : CommonDataBus
  pub branch_predictor : BranchPredictor
  pub current_pc : ℕ
  pub next_pc : ℕ
  pub fetch_stopped : Bool
  pub next_fetch_stopped : Bool
  pub status : Status
  pub cycle_count : ℕ
  pub committed_count : ℕ
  pub exit_code : ℕ
  pub orders : Orders

-- The constructor, with the orders that `initialize_execution_orders` leaves.
abbrev pub new_cpu : Orders → Cpu
new_cpu orders = record {
  memory_unit = record {
    memory = Image.clear;
    current_transaction = no_transaction;
    next_transaction = no_transaction;
    current_response = no_response;
    next_response = no_response;
    next_store_write = no_store_write;
  };
  register_file = RegisterFile.reset;
  rename_table = RenameTable.reset;
  rob = ReorderBuffer.reset;
  reservation_station = ReservationStation.reset;
  load_store_queue = LoadStoreQueue.reset;
  functional_unit = FunctionalUnit.reset;
  common_data_bus = CommonDataBus.reset;
  branch_predictor = BranchPredictor.reset;
  current_pc = 0;
  next_pc = 0;
  fetch_stopped = false;
  next_fetch_stopped = false;
  status = not_loaded;
  cycle_count = 0;
  committed_count = 0;
  exit_code = 0;
  orders = orders;
}

-- `CPU::load`: every part is reset, and the image is read; the orders stay.
unfoldable pub load : (Token → FromChars) → Cpu → Input → Cpu × ImageLoadResult
load from_chars c input =
    let (loaded, result) =
      MemoryUnit.load_program from_chars (MemoryUnit.reset c.memory_unit) input in
    (
      record (new_cpu c.orders) {
        memory_unit = loaded;
        status = if load_ok result then running else load_error;
      },
      result,
    )

-- `RunResult`, with `halted()` and `failed()`.
pub record RunResult : Type 0 where
  pub status : Status
  pub value : ℕ

unfoldable pub result_halted : RunResult → Bool
result_halted r = is_halted r.status

unfoldable pub result_failed : RunResult → Bool
result_failed r = if is_running r.status then false else not (is_halted r.status)
