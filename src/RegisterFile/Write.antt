-- ===== src/RegisterFile/Write.antt =====
-- src/tomasulo/register_file.cpp: a cycle of the register file, as its readers see it.
use risc_v_cpu_simulator.Base.{ℕ, ◌≡◌, refl, arith, false, ◌&&◌, ltb, ◌==◌, if◌then◌else◌}
use risc_v_cpu_simulator.RegisterFile.{RegisterFile, RegisterWrite, read, apply, latch}

-- The write request of a cycle, seen after the clock edge: it changes what is read from its register
-- if it is valid and names one of x1 to x31, and changes nothing else; x0 reads 0; no request stays.
pub read-latch-apply :
    (f : RegisterFile) (w : RegisterWrite) (idx : ℕ)
    → let f' = latch (apply f w) in
      (read f' idx
        ≡ (if w.valid && idx == w.rd && ltb 0 idx && ltb idx 32 then w.value else read f idx))
      × (read f' 0 ≡ 0)
      × (f'.pending_write.valid ≡ false)
unfolding read latch apply
read-latch-apply f w idx = (ground arith, refl, refl)

-- Before the clock edge a request changes nothing that is read.
pub read-apply :
    (f : RegisterFile) (w : RegisterWrite) (idx : ℕ) → read (apply f w) idx ≡ read f idx
unfolding read apply
read-apply f w idx = refl
