-- ===== src/MemoryUnit/Port.antt =====
-- src/memory/memory_unit.cpp: a data request from its acceptance to its response.
use risc_v_cpu_simulator.Base.{
  ℕ, zero, suc, ◌<◌, ◌==◌, ◌≡◌, refl, arith, true, false, if◌then◌else◌,
}
use risc_v_cpu_simulator.Image.{MemoryImage, in_bounds, write_byte, write_half, write_word}
use risc_v_cpu_simulator.MemoryUnit.{MemoryUnit, MemoryWidth, DataMemoryRequest}
use risc_v_cpu_simulator.MemoryUnit.{DataMemoryResponse, no_response, apply, latch}
use risc_v_cpu_simulator.MemoryUnit.{
  complete, schedule_store, store_by_width, width_in_bytes, no_transaction,
}
use risc_v_cpu_simulator.MemoryUnit.{
  apply_store_write, complete_current_transaction, is_store_access,
}
use risc_v_cpu_simulator.MemoryUnit.{read_data, load_response, store_response, data_port_available}

unfoldable pub cycle : MemoryUnit → DataMemoryRequest → MemoryUnit
cycle u request = latch (apply u request).0

-- The effect of a completed request on the memory, and its answer.
abbrev pub effect : MemoryImage → DataMemoryRequest → MemoryImage
effect m r = if is_store_access r.type then (store_by_width m r.width r.address r.value).0 else m

abbrev pub answer : MemoryImage → DataMemoryRequest → DataMemoryResponse
answer m r =
    if is_store_access r.type
    then store_response r.tag (store_by_width m r.width r.address r.value).1
    else load_response r.tag (read_data m r.address r.width)

-- The bounds that `apply` tests are those of the write at the clock edge.
store_by_width-bounds :
    (m : MemoryImage) (w : MemoryWidth) (a v : ℕ)
    → (in_bounds a (width_in_bytes w) ≡ (store_by_width m w a v).1)
      × (in_bounds a (width_in_bytes w) ≡ false → (store_by_width m w a v).0 ≡ m)
unfolding store_by_width width_in_bytes write_byte write_half write_word
store_by_width-bounds m MemoryWidth.byte a v = (ground arith, λ h. rw h)
store_by_width-bounds m MemoryWidth.half a v = (ground arith, λ h. rw h)
store_by_width-bounds m MemoryWidth.word a v = (ground arith, λ h. rw h)

width-nonzero : (w : MemoryWidth) → (width_in_bytes w == 0) ≡ false
unfolding width_in_bytes
width-nonzero MemoryWidth.byte = refl
width-nonzero MemoryWidth.half = refl
width-nonzero MemoryWidth.word = refl

pub complete_lem :
    (m : MemoryImage) (r : DataMemoryRequest)
    → let (response, w) = complete m r in
      (response ≡ answer m r) × ((if w.valid then (apply_store_write m w).0 else m) ≡ effect m r)
unfolding complete schedule_store apply_store_write
complete_lem m r =
    ground (arith, width-nonzero r.width, store_by_width-bounds m r.width r.address r.value)

-- A unit whose transaction is `r` with so many cycles left.
abbrev Busy : MemoryUnit → DataMemoryRequest → ℕ → Type 0
Busy u r n = u.current_transaction ≡ record { request = r; remaining_cycles = n; valid = true }

accept :
    (u : MemoryUnit) (r : DataMemoryRequest)
    → u.current_transaction.valid ≡ false
    → r.valid ≡ true
    → r.tag.valid ≡ true
    → ((apply u r).1 ≡ true)
      × Busy (cycle u r) r 3
      × ((cycle u r).current_response ≡ no_response)
      × ((cycle u r).memory ≡ u.memory)
unfolding cycle apply latch
accept u r idle v t = rw (idle, v, t) (refl, refl, refl, refl)

wait :
    (u : MemoryUnit) (r q : DataMemoryRequest) (n : ℕ)
    → Busy u r (suc (suc n))
    → ((apply u q).1 ≡ false)
      × Busy (cycle u q) r (suc n)
      × ((cycle u q).current_response ≡ no_response)
      × ((cycle u q).memory ≡ u.memory)
unfolding cycle apply latch
wait u r q n b = ground arith

finish :
    (u : MemoryUnit) (r q : DataMemoryRequest)
    → Busy u r 1
    → ((apply u q).1 ≡ false)
      × ((cycle u q).current_transaction ≡ no_transaction)
      × ((cycle u q).current_response ≡ answer u.memory r)
      × ((cycle u q).memory ≡ effect u.memory r)
unfolding cycle apply latch complete_current_transaction
finish u r q b = ground (arith, complete_lem u.memory r)

-- The unit after a request and a number of further cycles.
abbrev pub after : ℕ → MemoryUnit → DataMemoryRequest → (ℕ → DataMemoryRequest) → MemoryUnit
after zero u r qs = cycle u r
after (suc n) u r qs = cycle (after n u r qs) (qs n)

abbrev pub IsWaiting : MemoryUnit → MemoryImage → Type 0
IsWaiting u m =
    (u.current_response.valid ≡ false) × (u.memory ≡ m) × (data_port_available u ≡ false)

-- An idle unit accepts a valid request. For three cycles it then gives no response, leaves the
-- memory as it was and its port is taken; further requests are refused. At the fourth clock edge
-- the response appears, with the raw value for a load, a store changes the memory, and the port is
-- free: a store succeeds exactly when the write does, and one out of bounds changes nothing.
pub request_lem :
    (u : MemoryUnit) (r : DataMemoryRequest) (qs : ℕ → DataMemoryRequest)
    → u.current_transaction.valid ≡ false
    → r.valid ≡ true
    → r.tag.valid ≡ true
    → ((apply u r).1 ≡ true)
      × IsWaiting (after 0 u r qs) u.memory
      × IsWaiting (after 1 u r qs) u.memory
      × IsWaiting (after 2 u r qs) u.memory
      × ((k : ℕ) → k < 3 → (apply (after k u r qs) (qs k)).1 ≡ false)
      × ((after 3 u r qs).current_response ≡ answer u.memory r)
      × ((after 3 u r qs).memory ≡ effect u.memory r)
      × (data_port_available (after 3 u r qs) ≡ true)
unfolding data_port_available
request_lem u r qs idle v t =
    let a = accept u r idle v t in
    let b = wait (after 0 u r qs) r (qs 0) 1 a.1 in
    let c = wait (after 1 u r qs) r (qs 1) 0 b.1 in
    let d = finish (after 2 u r qs) r (qs 2) c.1 in
    (
      a.0,
      ground (arith, a),
      ground (arith, a, b),
      ground (arith, a, b, c),
      refused a.1 b.1 c.1,
      ground (arith, a, b, c, d),
      ground (arith, a, b, c, d),
      ground (arith, d),
    )
  where
    refused :
        Busy (after 0 u r qs) r 3
        → Busy (after 1 u r qs) r 2
        → Busy (after 2 u r qs) r 1
        → (k : ℕ) → k < 3
        → (apply (after k u r qs) (qs k)).1 ≡ false
    refused a b c zero h = (wait (after 0 u r qs) r (qs 0) 1 a).0
    refused a b c (suc zero) h = (wait (after 1 u r qs) r (qs 1) 0 b).0
    refused a b c (suc (suc zero)) h = (finish (after 2 u r qs) r (qs 2) c).0
    refused a b c (suc (suc (suc k))) h = absurd (omega arith)
