-- ===== src/RenameTable/Priority.antt =====
-- src/tomasulo/rename_table.cpp: a cycle of the rename table, as its readers see it.
use risc_v_cpu_simulator.Base.{ℕ, ◌≡◌, arith, Bool, ◌&&◌, ◌==◌, if◌then◌else◌}
use risc_v_cpu_simulator.Types.{no_tag, tag_eq}
use risc_v_cpu_simulator.RenameTable.{RenameTable, RatWrite, RatCommit, lookup, apply, latch}
use risc_v_cpu_simulator.RenameTable.{valid_register, issue_table, commit_table}

-- After a cycle a register's producer is, in this order: nothing after a flush; the tag that an
-- issue writes to it; nothing if the committing tag is the one that it held; else what it held.
-- So an older commit never clears the mapping of a younger instruction. x0 has no producer.
pub lookup-latch-apply :
    (t : RenameTable) (w : RatWrite) (c : RatCommit) (flush : Bool) (reg : ℕ)
    → lookup (latch (apply t w c flush)) reg ≡ (
        if flush
        then no_tag
        else (if w.valid && w.tag.valid && w.rd == reg && valid_register reg
            then w.tag
            else (if c.valid && c.tag.valid && c.rd == reg && tag_eq (lookup t reg) c.tag
                then no_tag
                else lookup t reg)))
unfolding lookup latch apply valid_register issue_table commit_table tag_eq
lookup-latch-apply t w c flush reg = ground arith
