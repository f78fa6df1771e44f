-- ===== src/RegisterFile/Tests.antt =====
-- The register file with one write.
use risc_v_cpu_simulator.Base.{◌≡◌, true, false}
use risc_v_cpu_simulator.RegisterFile.{RegisterFile, reset, read, apply, latch}
use risc_v_cpu_simulator.RegisterFile.Write.{read-latch-apply}

abbrev written : RegisterFile
written = latch (apply reset (record { rd = 5; value = 7; valid = true }))

read-latch-apply_example :
    (read written 5 ≡ 7) × (read written 0 ≡ 0) × (written.pending_write.valid ≡ false)
read-latch-apply_example = read-latch-apply reset (record { rd = 5; value = 7; valid = true }) 5
