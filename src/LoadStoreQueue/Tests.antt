-- ===== src/LoadStoreQueue/Tests.antt =====
-- The queue with one load whose address is known.
use risc_v_cpu_simulator.Base.{◌≡◌, refl, arith, true, false, ◌==◌, if_keeps, update, fill}
use risc_v_cpu_simulator.Instruction.{lw, sb}
use risc_v_cpu_simulator.Signals.{no_broadcast}
use risc_v_cpu_simulator.MemoryUnit.{MemoryAccessType, no_response, is_store_access}
use risc_v_cpu_simulator.ReorderBuffer
use risc_v_cpu_simulator.LoadStoreQueue.{
  LsqEntry, no_entry, LsqInputs, LsqObserveInputs, LoadStoreQueue, reset,
}
use risc_v_cpu_simulator.LoadStoreQueue.{
  plan, send, may_send, respond, matching_response, empty, make_memory_request,
}
use risc_v_cpu_simulator.Image
use risc_v_cpu_simulator.Interpreter.{Inputs, execute}
use risc_v_cpu_simulator.LoadStoreQueue.{update_address}
use risc_v_cpu_simulator.LoadStoreQueue.Agreement.{outcome, with_operands, access-Agrees}
use risc_v_cpu_simulator.LoadStoreQueue.Invariant.{IsLsq, IsAccess}
use risc_v_cpu_simulator.LoadStoreQueue.Once.{runs, asks_once}

abbrev load_word : LsqEntry
load_word = record no_entry {
  type = MemoryAccessType.load;
  op = lw;
  destination = record { index = 0; generation = 1; valid = true };
  address = 0x100;
  address_ready = true;
  valid = true;
}

abbrev one_load : LoadStoreQueue
one_load = record reset { cur = update (fill no_entry) 0 load_word; tail = 1; count = 1 }

abbrev quiet : LsqObserveInputs
quiet = record {
  store_request = ReorderBuffer.no_request;
  memory_response = no_response;
  memory_available = true;
  load_result_granted = false;
  flush = false;
}

abbrev no_issue : LsqInputs
no_issue = record { issue_entry = no_entry; issue_valid = false; cdb = no_broadcast; flush = false }

no_answer : (q : LoadStoreQueue) → (plan q quiet).remove_head ≡ false
unfolding plan send respond matching_response
no_answer q = ground arith

one_load-IsLsq : IsLsq one_load
unfolding is_store_access
one_load-IsLsq = record {
  ring = record {
    head_in = omega arith;
    count_in = omega arith;
    tail_at = omega arith;
    occupied = λ i p. ground arith;
  };
  accesses = λ i.
      if_keeps IsAccess (0 == i)
        (λ _. record { tagged = λ h. refl; memory = λ h. refl; typed = λ h. refl })
        λ _. record { tagged = λ h. absurd cc; memory = λ h. absurd cc; typed = λ h. absurd cc };
}

asks_once_example :
    (plan (runs 6 one_load (λ _. quiet) (λ _. no_issue)) quiet).memory_request.valid ≡ false
unfolding plan send may_send respond matching_response empty make_memory_request is_store_access
asks_once_example =
    asks_once one_load (λ _. quiet) (λ _. no_issue) 5 one_load-IsLsq (λ k h. absurd cc) refl
      (λ k l. refl) (λ k l. no_answer (runs k one_load (λ _. quiet) (λ _. no_issue)))

-- The inputs of a store to 0x104.
abbrev at_100 : Inputs
at_100 = record {
  memory = Image.clear;
  cur_pc = 0;
  immediate = 4;
  rs1_value = 0x100;
  rs2_value = 42;
}

access-Agrees_example :
    execute sb at_100 ≡ outcome at_100 (update_address (with_operands sb at_100 no_entry))
access-Agrees_example = access-Agrees sb at_100 no_entry (λ a. omega arith) refl
