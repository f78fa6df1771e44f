-- ===== src/MemoryUnit/Bytes.antt =====
-- src/memory/memory_unit.cpp: the memory holds bytes after every cycle.
use risc_v_cpu_simulator.Base.{ℕ, ◌%◌, ◌≡◌, inl, inr, sym, arith, Bool, not, if_keeps}
use mathlib.Core.Path.{subst}
use risc_v_cpu_simulator.Base.{bit_and}
use risc_v_cpu_simulator.Base.Bits.{bit_and_mask}
use risc_v_cpu_simulator.Image.{MemoryImage}
use risc_v_cpu_simulator.Image.Access.{IsBytes, write_lem, Outcome}
use risc_v_cpu_simulator.MemoryUnit.{
  MemoryUnit, MemoryWidth, DataMemoryRequest, store_by_width, apply_store_write, apply, latch,
  complete_current_transaction,
}
use risc_v_cpu_simulator.MemoryUnit.Port.{cycle}

Outcome-IsBytes :
    (m : MemoryImage) (a w value : ℕ) (r : MemoryImage × Bool)
    → IsBytes m
    → Outcome m a w value r
    → IsBytes r.0
Outcome-IsBytes m a w value r v (inl h) = h.2.bytes
Outcome-IsBytes m a w value r v (inr h) = rw h.1 v

store_by_width-IsBytes :
    (m : MemoryImage) (w : MemoryWidth) (a value : ℕ)
    → IsBytes m
    → IsBytes (store_by_width m w a value).0
unfolding store_by_width
store_by_width-IsBytes m MemoryWidth.byte a value v =
    rw (bit_and_mask 8 value) (Outcome-IsBytes m a 1 (value % 256) _ v (write_lem m a value v).0)
store_by_width-IsBytes m MemoryWidth.half a value v =
    Outcome-IsBytes m a 2 (bit_and value 0xffff) _ v (write_lem m a (bit_and value 0xffff) v).1
store_by_width-IsBytes m MemoryWidth.word a value v =
    Outcome-IsBytes m a 4 value _ v (write_lem m a value v).2

memory_kept : (u : MemoryUnit) (r : DataMemoryRequest) → (apply u r).0.memory ≡ u.memory
unfolding apply complete_current_transaction
memory_kept u r = ground arith

pub cycle-IsBytes :
    (u : MemoryUnit) (r : DataMemoryRequest) → IsBytes u.memory → IsBytes (cycle u r).memory
unfolding cycle latch apply_store_write
cycle-IsBytes u r v =
    let o = (apply u r).0 in
    let same : IsBytes o.memory = subst IsBytes (sym (memory_kept u r)) v in
    if_keeps IsBytes o.next_store_write.valid
      (λ _.
        if_keeps (λ (p : MemoryImage × Bool). IsBytes p.0) (not o.next_store_write.valid)
          (λ _. same)
          λ _.
            store_by_width-IsBytes o.memory o.next_store_write.width o.next_store_write.address
              o.next_store_write.value same)
      λ _. same
