-- ===== src/LoadStoreQueue/Agreement.antt =====
-- The memory accesses of the pipeline against the reference interpreter: src/tomasulo/
-- load_store_queue.cpp with src/memory/memory_unit.cpp, and src/reference/interpreter.cpp.
use risc_v_cpu_simulator.Base.{
  ℕ, ◌+◌, ◌≡◌, refl, arith, Bool, true, false, ◌||◌, if◌then◌else◌, Option, none, some, ap,
}
use risc_v_cpu_simulator.Types.{RobTag, add32, zero_extend}
use risc_v_cpu_simulator.Types.Laws.{zero_extend_mod}
use risc_v_cpu_simulator.Instruction.{Op, lb, lh, lw, lbu, lhu, sb, sh, sw}
use risc_v_cpu_simulator.Decoder.Shape.{loads, stores}
use risc_v_cpu_simulator.Image.{MemoryImage, read_byte, read_half}
use risc_v_cpu_simulator.Image.Access.{IsBytes, read_lem}
use risc_v_cpu_simulator.MemoryUnit.{
  MemoryAccessType, is_store_access, read_data, load_response, store_response, store_by_width,
}
use risc_v_cpu_simulator.MemoryUnit.Port.{answer, effect}
use risc_v_cpu_simulator.Interpreter.{
  Inputs, Effect, done, stop, execute, writeback, next_of, load_if, store_if, memory_out_of_bounds,
}
use risc_v_cpu_simulator.LoadStoreQueue.{
  LsqEntry, update_address, make_memory_request, memory_width, extend_load_result,
}

-- What the pipeline does with the memory's answer to the request of an entry: a fault, or the
-- extended value for the destination, or the changed memory.
abbrev pub outcome : Inputs → LsqEntry → Effect
outcome i e =
    let r = make_memory_request e in
    let a = answer i.memory r in
    if a.success
    then (if is_store_access r.type
        then done 0 false (next_of i) (effect i.memory r)
        else writeback i (extend_load_result e.op a.value))
    else stop memory_out_of_bounds

-- The entry that the issue unit makes for an operation, once its operands are there.
abbrev pub with_operands : Op → Inputs → LsqEntry → LsqEntry
with_operands op i e = record e {
  op = op;
  type = if loads op then MemoryAccessType.load else MemoryAccessType.store;
  base = record (e.base) { value = i.rs1_value; ready = true };
  store_data = record (e.store_data) { value = i.rs2_value; ready = true };
  immediate = i.immediate;
  address_ready = false;
  request_sent = false;
  valid = true;
}

load_outcome :
    (i : Inputs) (tag : RobTag) (extend extend' : ℕ → ℕ) (o : Option ℕ)
    → ((n : ℕ) → o ≡ some n → extend n ≡ extend' n)
    → load_if i extend o ≡ (
        if (load_response tag o).success
        then writeback i (extend' (load_response tag o).value)
        else stop memory_out_of_bounds)
unfolding load_if load_response
load_outcome i tag f g none h = refl
load_outcome i tag f g (some n) h = ap (writeback i) (h n refl)

store_outcome :
    (i : Inputs) (tag : RobTag) (w : MemoryImage × Bool)
    → store_if i w ≡ (
        if (store_response tag w.1).success
        then done 0 false (next_of i) w.0
        else stop memory_out_of_bounds)
unfolding store_if store_response
store_outcome i tag (m, true) = refl
store_outcome i tag (m, false) = refl

byte_only : (m : MemoryImage) (a n : ℕ) → IsBytes m → read_byte m a ≡ some n → n ≡ zero_extend n 8
byte_only m a n v h = ground (arith, (read_lem m a v).0, v a, zero_extend_mod n 8 (omega arith), h)

half_only : (m : MemoryImage) (a n : ℕ) → IsBytes m → read_half m a ≡ some n → n ≡ zero_extend n 16
half_only m a n v h =
    ground (arith, (read_lem m a v).1, v a, v (a + 1), zero_extend_mod n 16 (omega arith), h)

-- For every load and store, an entry with its operands computes its address, asks the memory unit,
-- and gets from its answer what the interpreter does: the same value for the destination, the same
-- memory, or the same fault.
pub access-Agrees :
    (op : Op) (i : Inputs) (e : LsqEntry)
    → IsBytes i.memory
    → (loads op || stores op) ≡ true
    → execute op i ≡ outcome i (update_address (with_operands op i e))
unfolding execute update_address make_memory_request memory_width extend_load_result is_store_access
    read_data store_by_width
access-Agrees lb i e v h = load_outcome i e.destination _ _ _ (λ n _. refl)
access-Agrees lh i e v h = load_outcome i e.destination _ _ _ (λ n _. refl)
access-Agrees lw i e v h = load_outcome i e.destination _ _ _ (λ n _. refl)
access-Agrees lbu i e v h =
    load_outcome i e.destination _ _ _
      (λ n p. byte_only i.memory (add32 i.rs1_value i.immediate) n v p)
access-Agrees lhu i e v h =
    load_outcome i e.destination _ _ _
      (λ n p. half_only i.memory (add32 i.rs1_value i.immediate) n v p)
access-Agrees sb i e v h = store_outcome i e.destination _
access-Agrees sh i e v h = store_outcome i e.destination _
access-Agrees sw i e v h = store_outcome i e.destination _
access-Agrees _ i e v h = absurd cc
