-- ===== src/RegisterFile.antt =====
-- include/tomasulo/register_file.hpp and src/tomasulo/register_file.cpp: the architectural registers.
pub mod Write
mod Tests
use risc_v_cpu_simulator.Base.{
  ℕ, Bool, true, false, ◌||◌, ◌==◌, leb, if◌then◌else◌, Array, update, fill,
}

pub record RegisterWrite : Type 0 where
  pub rd : ℕ
  pub value : ℕ
  pub valid : Bool

abbrev pub no_write : RegisterWrite
no_write = record { rd = 0; value = 0; valid = false }

pub record RegisterFile : Type 0 where
  pub registers : Array ℕ
  pub pending_write : RegisterWrite

abbrev pub register_count : ℕ
register_count = 32

-- What `reset()` leaves.
abbrev pub reset : RegisterFile
reset = record { registers = fill 0; pending_write = no_write }

unfoldable pub read : RegisterFile → ℕ → ℕ
read f idx = if idx == 0 || leb register_count idx then 0 else f.registers idx

unfoldable pub apply : RegisterFile → RegisterWrite → RegisterFile
apply f write = record f {
  pending_write =
      if write.rd == 0 || leb register_count write.rd
      then record write { valid = false }
      else write;
}

unfoldable pub latch : RegisterFile → RegisterFile
latch f =
    let w = f.pending_write in
    let written = if w.valid then update f.registers w.rd w.value else f.registers in
    record { registers = update written 0 0; pending_write = no_write }
