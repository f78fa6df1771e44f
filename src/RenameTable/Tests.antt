-- ===== src/RenameTable/Tests.antt =====
-- The rename table when an older instruction commits while a younger one is issued.
use risc_v_cpu_simulator.Base.{◌≡◌, true, false}
use risc_v_cpu_simulator.Types.{RobTag}
use risc_v_cpu_simulator.RenameTable.{reset, lookup, apply, latch, valid_register}
use risc_v_cpu_simulator.RenameTable.Priority.{lookup-latch-apply}

abbrev old_tag : RobTag
old_tag = record { index = 3; generation = 1; valid = true }

abbrev new_tag : RobTag
new_tag = record { index = 4; generation = 1; valid = true }

lookup-latch-apply_example :
    lookup
      (latch (
        apply reset
          (record { rd = 5; tag = new_tag; valid = true })
          (record { rd = 5; tag = old_tag; valid = true })
          false))
      5
    ≡ new_tag
unfolding valid_register
lookup-latch-apply_example =
    lookup-latch-apply reset (record { rd = 5; tag = new_tag; valid = true })
      (record { rd = 5; tag = old_tag; valid = true }) false 5
