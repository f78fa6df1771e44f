-- ===== src/MemoryUnit/Step.antt =====
-- src/memory/memory_unit.cpp: where a change of the memory and a transaction come from.
use risc_v_cpu_simulator.Base.{◌≡◌, ◌⊎◌, inl, inr, ◌∙◌, refl, arith, true, false, Bool-cases, ltb}
use risc_v_cpu_simulator.MemoryUnit.{
  MemoryUnit, DataMemoryRequest, apply, latch, complete_current_transaction, is_store_access,
}
use risc_v_cpu_simulator.MemoryUnit.Port.{cycle, effect, complete_lem}

-- What a cycle does to the memory and to the transaction, on every branch.
pub record IsStep (u : MemoryUnit) (r : DataMemoryRequest) : Type 0 where
  -- The memory changes only by the store of the transaction.
  pub memory :
      ((cycle u r).memory ≡ u.memory)
      ⊎ ((u.current_transaction.valid ≡ true)
          × (is_store_access u.current_transaction.request.type ≡ true)
          × ((cycle u r).memory ≡ effect u.memory u.current_transaction.request))
  -- A transaction is that of the cycle before, or it is the request.
  pub transaction :
      (cycle u r).current_transaction.valid ≡ true
      → ((u.current_transaction.valid ≡ true)
          × ((cycle u r).current_transaction.request ≡ u.current_transaction.request))
        ⊎ ((r.valid ≡ true) × ((cycle u r).current_transaction.request ≡ r))

-- A transaction that ends leaves its effect.
ended :
    (u : MemoryUnit) (r : DataMemoryRequest)
    → u.current_transaction.valid ≡ true
    → ltb 1 u.current_transaction.remaining_cycles ≡ false
    → ((cycle u r).memory ≡ effect u.memory u.current_transaction.request)
      × ((cycle u r).current_transaction.valid ≡ false)
unfolding cycle apply latch complete_current_transaction
ended u r v w = rw (v, w) ((complete_lem u.memory u.current_transaction.request).1, refl)

pub cycle-IsStep : (u : MemoryUnit) (r : DataMemoryRequest) → IsStep u r
unfolding cycle apply latch
cycle-IsStep u r = elim (Bool-cases u.current_transaction.valid) [
  | inl v ↦ elim (Bool-cases (ltb 1 u.current_transaction.remaining_cycles)) [
    | inl w ↦ record { memory = inl (rw (v, w) refl); transaction = λ h. inl (v, rw (v, w) refl) }
    | inr w ↦
        let e = ended u r v w in
        elim (Bool-cases (is_store_access u.current_transaction.request.type)) [
          | inl s ↦ record { memory = inr (v, s, e.0); transaction = λ h. absurd (cc (h, e.1)) }
          | inr s ↦ record {
            memory = inl (e.0 ∙ rw s refl);
            transaction = λ h. absurd (cc (h, e.1));
          }
        ]
  ]
  | inr v ↦ record {
    memory = inl (ground arith);
    transaction = λ h. inr (ground arith, ground arith);
  }
]
