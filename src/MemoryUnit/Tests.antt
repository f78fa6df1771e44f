-- ===== src/MemoryUnit/Tests.antt =====
-- The data port with a store.
use risc_v_cpu_simulator.Base.{◌≡◌, refl, true}
use risc_v_cpu_simulator.Image
use risc_v_cpu_simulator.MemoryUnit.{
  MemoryUnit, MemoryAccessType, DataMemoryRequest, no_request, no_transaction,
}
use risc_v_cpu_simulator.MemoryUnit.{no_response, no_store_write}
use risc_v_cpu_simulator.MemoryUnit.Port.{after, effect, request_lem}

abbrev idle_unit : MemoryUnit
idle_unit = record {
  memory = Image.clear;
  current_transaction = no_transaction;
  next_transaction = no_transaction;
  current_response = no_response;
  next_response = no_response;
  next_store_write = no_store_write;
}

abbrev a_store : DataMemoryRequest
a_store = record no_request {
  type = MemoryAccessType.store;
  address = 0x100;
  value = 42;
  tag = record { index = 0; generation = 1; valid = true };
  valid = true;
}

request_lem_example :
    (after 3 idle_unit a_store (λ _. no_request)).memory ≡ effect Image.clear a_store
request_lem_example = (request_lem idle_unit a_store (λ _. no_request) refl refl refl).6
