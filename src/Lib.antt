-- ===== src/Lib.antt =====
-- A model of the RISC-V processor simulator: an out-of-order (Tomasulo) pipeline for RV32I with a
-- reorder buffer, and the sequential interpreter that it is checked against.
--
-- Parts. A program is text that `MemoryImage::load` reads into a memory of 1 MB. The decoder turns a
-- word into a `DecodedInstruction`. The interpreter (src/reference) executes one instruction per
-- step. In the pipeline (src/tomasulo) the issue unit gives each decoded instruction an entry in the
-- reorder buffer and one in the reservation station or in the load/store queue, and renames its
-- destination; the station sends ready instructions to the functional unit; results of the unit and
-- of loads go over the common data bus to the waiting operands and to the reorder buffer, which
-- commits in order to the register file, trains the branch predictor, and flushes all parts after a
-- misprediction. Each part has current and next state: `plan` reads the current state, `apply`
-- prepares the next and `latch` is the clock edge that installs it. `CPU::cycle` lets the parts plan,
-- then apply, then latch, each time in an order that it takes from tables drawn at random; a flush is
-- foreseen from the head of the reorder buffer, so that all parts learn of it in the same cycle.
--
-- Files. Each module models the source of its name, function by function; its children hold the
-- proofs, named for what they prove, and the tests.
--   Base, Types                    include/common/types.hpp and helpers
--   Instruction, Decoder           include/isa/instruction.hpp, src/isa/decoder.cpp
--   Image, MemoryUnit              src/memory/image.cpp, src/memory/memory_unit.cpp
--   Interpreter                    src/reference/interpreter.cpp
--   Signals                        include/tomasulo/signals.hpp
--   CircularQueue                  include/common/circular_queue.hpp, a template that only its unit
--                                  tests use
--   FunctionalUnit, RegisterFile, RenameTable, CommonDataBus, BranchPredictor, ReorderBuffer,
--   ReservationStation, LoadStoreQueue, IssueUnit
--                                  src/tomasulo, the file of the same name in snake case
--   Cpu                            src/tomasulo/cpu.cpp: `State` its fields, constructor and load,
--                                  `Plan` and `Inputs` what a cycle computes first, `Cycle` the cycle
--                                  and `run`
--
-- State is a record with the fields of the class, and an operation returns the new record. An array
-- is a function of its index that the code reads below its size. Integers are natural numbers, with
-- the wrap-around of their width written out; addresses are `uint32_t`. A null pointer or an empty
-- `optional` is `none`. The definitions take the path that the code takes without assertions; those
-- of `CPU::cycle` are a Boolean of their own.
--
-- Fuel. `Interpreter::run` and `CPU::run` may not end, as a program may not; `run` takes the number of
-- steps or cycles as fuel, and a theorem for each says that fuel for those of a program is enough.
--
-- Parameters. `std::from_chars` is an argument of the loader, and the stream arrives as lines of
-- tokens. The random engine and `std::shuffle` are arguments of the constructor of `Cpu`; what is
-- asked of the shuffle is that it permutes. Not modelled: src/main.cpp, which only reads and prints;
-- accessors that return a field; the statistics that are quotients of doubles.
pub mod Base
pub mod Types
pub mod Instruction
pub mod Decoder
pub mod Image
pub mod Signals
pub mod FunctionalUnit
pub mod Interpreter
pub mod RegisterFile
pub mod RenameTable
pub mod CommonDataBus
pub mod BranchPredictor
pub mod ReorderBuffer
pub mod ReservationStation
pub mod MemoryUnit
pub mod LoadStoreQueue
pub mod IssueUnit
pub mod Cpu
pub mod CircularQueue
