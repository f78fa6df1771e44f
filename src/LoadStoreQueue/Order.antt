-- ===== src/LoadStoreQueue/Order.antt =====
-- src/tomasulo/load_store_queue.cpp: what the memory is asked for, and when.
use risc_v_cpu_simulator.Base.{
  ◌+◌, ◌%◌, ◌<◌, ◌≡◌, refl, arith, Bool, true, false, not, ◌&&◌, ◌||◌, ◌==◌, if◌then◌else◌,
  if_keeps, ◌∙◌, ◌≤◌, ◌≢◌,
}
use risc_v_cpu_simulator.Types.{tag_eq}
use risc_v_cpu_simulator.MemoryUnit.{is_store_access}
use risc_v_cpu_simulator.LoadStoreQueue.{
  LsqEntry, LsqInputs, LsqObserveInputs, LsqDecision, LoadStoreQueue, capacity,
}
use risc_v_cpu_simulator.LoadStoreQueue.{
  empty, full, plan, respond, send, may_send, make_memory_request, apply, latch, served,
}
use risc_v_cpu_simulator.LoadStoreQueue.{update_address}

-- A request of the oldest access, that may be made now.
pub record IsOrdered (q : LoadStoreQueue) (inputs : LsqObserveInputs) (d : LsqDecision)
    : Type 0 where
  pub calm : inputs.flush ≡ false
  pub present : empty q ≡ false
  pub free_port : inputs.memory_available ≡ true
  pub head_request : d.memory_request ≡ make_memory_request (q.cur q.head)
  pub fresh : (q.cur q.head).request_sent ≡ false
  pub addressed : (q.cur q.head).address_ready ≡ true
  pub authorised :
      is_store_access (q.cur q.head).type ≡ true
      → (inputs.store_request.valid ≡ true)
        × (tag_eq inputs.store_request.tag (q.cur q.head).destination ≡ true)
        × ((q.cur q.head).store_data.ready ≡ true)
  pub buffered :
      is_store_access (q.cur q.head).type ≡ false
      → (not q.cur_load_result.valid || inputs.load_result_granted) ≡ true
  pub marked : d.mark_request_sent ≡ true

-- A decision that asks for nothing, or in order.
abbrev Asks : LoadStoreQueue → LsqObserveInputs → LsqDecision → Type 0
Asks q inputs d = d.memory_request.valid ≡ true → IsOrdered q inputs d

respond-silent :
    (head : LsqEntry) (inputs : LsqObserveInputs) (d : LsqDecision)
    → d.memory_request.valid ≡ false
    → (respond head inputs.memory_response d).memory_request.valid ≡ false
unfolding respond
respond-silent head inputs d h = ground arith

send-Asks :
    (q : LoadStoreQueue) (inputs : LsqObserveInputs) (d : LsqDecision)
    → inputs.flush ≡ false
    → empty q ≡ false
    → d.memory_request.valid ≡ false
    → Asks q inputs (send q (q.cur q.head) inputs d)
unfolding send may_send
send-Asks q inputs d f e silent =
    if_keeps (Asks q inputs)
      ((q.cur q.head).valid
        && not (q.cur q.head).request_sent
        && (q.cur q.head).address_ready
        && inputs.memory_available)
      (λ go.
        if_keeps (Asks q inputs) (may_send q (q.cur q.head) inputs)
          (λ may _. record {
            calm = f;
            present = e;
            free_port = ground arith;
            head_request = refl;
            fresh = ground arith;
            addressed = ground arith;
            authorised = λ h. ground (arith, may);
            buffered = λ h. ground (arith, may);
            marked = refl;
          })
          λ _ h. absurd cc)
      λ _ h. absurd cc

-- The queue asks the memory only for its oldest access, when the port is free, the address is known
-- and the access is not marked as sent, and then has it marked; for a store only once the reorder buffer has named its tag and its
-- data are there, for a load only if the result register is free or being freed.
pub plan-IsOrdered :
    (q : LoadStoreQueue) (inputs : LsqObserveInputs)
    → (plan q inputs).memory_request.valid ≡ true
    → IsOrdered q inputs (plan q inputs)
unfolding plan
plan-IsOrdered q inputs =
    if_keeps (Asks q inputs) inputs.flush (λ _ h. absurd cc)
      λ f.
        if_keeps (Asks q inputs) (not (empty q))
          (λ e. send-Asks q inputs _ f (ground arith) (respond-silent (q.cur q.head) inputs _ refl))
          λ _ h. absurd cc

-- A cycle: the queue's own decision on what it observes, then `apply` and the clock edge.
unfoldable pub cycle : LoadStoreQueue → LsqObserveInputs → LsqInputs → LoadStoreQueue
cycle q seen inputs = latch (apply q inputs (plan q seen)).0

update_address-sent : (e : LsqEntry) → (update_address e).request_sent ≡ e.request_sent
unfolding update_address
update_address-sent e = ground arith

pub served-sent :
    (q : LoadStoreQueue) (inputs : LsqInputs) (d : LsqDecision)
    → d.mark_request_sent ≡ true
    → (served q inputs d q.head).request_sent ≡ true
unfolding served
served-sent q inputs d m = rw m ground arith

-- A marked head that stays is still there, and marked, after `apply`.
pub apply-sent :
    (q : LoadStoreQueue) (inputs : LsqInputs) (d : LsqDecision)
    → inputs.flush ≡ false
    → (served q inputs d q.head).request_sent ≡ true
    → d.remove_head ≡ false
    → q.head < capacity
    → q.tail ≡ (q.head + q.count) % capacity
    → empty q ≡ false
    → q.count ≤ capacity
    → let o = (apply q inputs d).0 in (o.next_head ≡ q.head) × ((o.next q.head).request_sent ≡ true)
unfolding apply empty full
apply-sent q inputs d f m r h t e small =
    let old : (update_address (served q inputs d q.head)).request_sent ≡ true =
      update_address-sent (served q inputs d q.head) ∙ m in
    if_keeps P inputs.flush (λ g. absurd cc)
      λ _.
        if_keeps P (inputs.issue_valid && not (q.count == capacity) && inputs.issue_entry.valid)
          (λ g. (stays, rw (apart (ground arith)) old)) λ _. (stays, old)
  where
    P : LoadStoreQueue × Bool → Type 0
    P o = (o.0.next_head ≡ q.head) × ((o.0.next q.head).request_sent ≡ true)

    stays : (if d.remove_head then (q.head + 1) % capacity else q.head) ≡ q.head
    stays = ground arith

    apart : (q.count ≢ capacity) → (q.tail == q.head) ≡ false
    apart room = ground arith
