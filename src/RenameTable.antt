-- ===== src/RenameTable.antt =====
-- include/tomasulo/rename_table.hpp and src/tomasulo/rename_table.cpp: for each register the tag of
-- its youngest producer that has not committed.
pub mod Priority
mod Tests
use risc_v_cpu_simulator.Base.{ℕ, Bool, true, false, ◌||◌, ◌&&◌, not, ltb, if◌then◌else◌}
use risc_v_cpu_simulator.Base.{Array, update, fill}
use risc_v_cpu_simulator.Types.{RobTag, no_tag, tag_eq}

-- A write by an issued instruction, and a clear by a committed one.
pub record RatWrite : Type 0 where
  pub rd : ℕ
  pub tag : RobTag
  pub valid : Bool

pub record RatCommit : Type 0 where
  pub rd : ℕ
  pub tag : RobTag
  pub valid : Bool

abbrev pub no_rat_write : RatWrite
no_rat_write = record { rd = 0; tag = no_tag; valid = false }

abbrev pub no_rat_commit : RatCommit
no_rat_commit = record { rd = 0; tag = no_tag; valid = false }

pub record RenameTable : Type 0 where
  pub cur_table : Array RobTag
  pub next_table : Array RobTag

-- What `reset()` leaves.
abbrev pub reset : RenameTable
reset = record { cur_table = fill no_tag; next_table = fill no_tag }

unfoldable pub valid_register : ℕ → Bool
valid_register reg = ltb 0 reg && ltb reg 32

unfoldable pub lookup : RenameTable → ℕ → RobTag
lookup t idx =
    if not (valid_register idx) || not (t.cur_table idx).valid then no_tag else t.cur_table idx

unfoldable pub busy : RenameTable → ℕ → Bool
busy t reg = (lookup t reg).valid

unfoldable pub latch : RenameTable → RenameTable
latch t = record t { cur_table = update t.next_table 0 no_tag }

-- The commit clears first, then the issue writes.
unfoldable pub commit_table : Array RobTag → RatCommit → Array RobTag
commit_table table commit =
    if commit.valid && commit.tag.valid && valid_register commit.rd
    then (if tag_eq (table commit.rd) commit.tag then update table commit.rd no_tag else table)
    else table

unfoldable pub issue_table : Array RobTag → RatWrite → Array RobTag
issue_table table write =
    if write.valid && write.tag.valid && valid_register write.rd
    then update table write.rd write.tag
    else table

unfoldable pub apply : RenameTable → RatWrite → RatCommit → Bool → RenameTable
apply t write commit flush = if flush then record t { next_table = fill no_tag } else record t {
  next_table = update (issue_table (commit_table t.cur_table commit) write) 0 no_tag;
}
