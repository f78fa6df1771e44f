-- ===== src/Cpu.antt =====
-- include/tomasulo/cpu.hpp and src/tomasulo/cpu.cpp: the processor, which wires the parts together.
-- `State` has its fields and what the constructor and `load` leave, `Plan` and `Inputs` what a cycle
-- computes from the current state, and `Cycle` the cycle itself and `run`.
pub mod State
pub mod Plan
pub mod Inputs
pub mod Cycle
pub mod Shuffle
pub mod Lockstep
pub mod AnyOrder
pub mod Seeds
pub mod Preview
pub mod Fetched
pub mod Issued
pub mod Invariant
pub mod Assertions
pub mod Recovery
pub mod Commit
pub mod Writes
pub mod Run
pub mod Stopping
pub mod Renamed
pub mod Operands
pub mod Waiting
pub mod Wakeup
pub mod Reachable
mod Tests
