-- ===== src/LoadStoreQueue/Once.antt =====
-- src/tomasulo/load_store_queue.cpp: the requests for one access, over any number of cycles.
use risc_v_cpu_simulator.Base.{
  ℕ, zero, suc, ◌≤◌, ◌≡◌, ◌∙◌, ap, arith, true, false, Bool-cases, inl, inr,
}
use risc_v_cpu_simulator.LoadStoreQueue.{
  LsqInputs, LsqObserveInputs, LsqDecision, LoadStoreQueue, capacity, empty, plan, apply, latch,
  served, wake_entry,
}
use risc_v_cpu_simulator.LoadStoreQueue.Order.{cycle, plan-IsOrdered, apply-sent, served-sent}
use risc_v_cpu_simulator.LoadStoreQueue.Invariant.{IsLsq, IsAccess, cycle-IsLsq}

-- The oldest access has been sent to the memory.
record IsSent (q : LoadStoreQueue) : Type 0 where
  queue : IsLsq q
  present : empty q ≡ false
  sent : (q.cur q.head).request_sent ≡ true

-- A sent head that stays keeps its mark.
served-kept :
    (q : LoadStoreQueue) (inputs : LsqInputs) (d : LsqDecision)
    → d.remove_head ≡ false
    → (q.cur q.head).request_sent ≡ true
    → (served q inputs d q.head).request_sent ≡ true
unfolding served wake_entry
served-kept q inputs d r s = ground arith

apply-present :
    (q : LoadStoreQueue) (inputs : LsqInputs) (d : LsqDecision)
    → inputs.flush ≡ false
    → d.remove_head ≡ false
    → empty q ≡ false
    → q.count ≤ capacity
    → empty (latch (apply q inputs d).0) ≡ false
unfolding apply latch empty
apply-present q inputs d f r e small = ground arith

cycle-IsSent :
    (q : LoadStoreQueue) (seen : LsqObserveInputs) (inputs : LsqInputs)
    → IsLsq q
    → empty q ≡ false
    → (inputs.issue_valid ≡ true → IsAccess (record (inputs.issue_entry) { valid = true }))
    → inputs.flush ≡ false
    → (plan q seen).remove_head ≡ false
    → (served q inputs (plan q seen) q.head).request_sent ≡ true
    → IsSent (cycle q seen inputs)
unfolding cycle
cycle-IsSent q seen inputs v e issue f kept s =
    let d = plan q seen in
    let a = apply-sent q inputs d f s kept v.ring.head_in v.ring.tail_at e v.ring.count_in in
    record {
      queue = cycle-IsLsq q seen inputs v issue;
      present = apply-present q inputs d f kept e v.ring.count_in;
      sent = unfold latch in ap (λ k. ((apply q inputs d).0.next k).request_sent) a.0 ∙ a.1;
    }

-- A sent head is not asked for.
quiet :
    (q : LoadStoreQueue) (seen : LsqObserveInputs)
    → IsSent q
    → (plan q seen).memory_request.valid ≡ false
quiet q seen s = elim (Bool-cases (plan q seen).memory_request.valid) [
  | inr e ↦ e
  | inl e ↦ absurd (cc ((plan-IsOrdered q seen e).fresh, s.sent))
]

-- The queue after some cycles.
abbrev pub runs : ℕ → LoadStoreQueue → (ℕ → LsqObserveInputs) → (ℕ → LsqInputs) → LoadStoreQueue
runs zero q seen inputs = q
runs (suc n) q seen inputs = cycle (runs n q seen inputs) (seen n) (inputs n)

module _ (q : LoadStoreQueue) (seen : ℕ → LsqObserveInputs) (inputs : ℕ → LsqInputs) (v : IsLsq q)
    (issue : (k : ℕ)
      → (inputs k).issue_valid ≡ true
      → IsAccess (record ((inputs k).issue_entry) { valid = true }))
    (asked : (plan q (seen 0)).memory_request.valid ≡ true) where
  runs-IsSent :
      (n : ℕ)
      → ((k : ℕ) → k ≤ n → (inputs k).flush ≡ false)
      → ((k : ℕ) → k ≤ n → (plan (runs k q seen inputs) (seen k)).remove_head ≡ false)
      → IsSent (runs (suc n) q seen inputs)
  runs-IsSent zero f kept =
      let o = plan-IsOrdered q (seen 0) asked in
      cycle-IsSent q (seen 0) (inputs 0) v o.present (issue 0) (f 0 (omega arith))
        (kept 0 (omega arith)) (served-sent q (inputs 0) (plan q (seen 0)) o.marked)
  runs-IsSent (suc n) f kept =
      let before = runs-IsSent n (λ k l. f k (omega arith)) (λ k l. kept k (omega arith)) in
      let r = runs (suc n) q seen inputs in
      let stays = kept (suc n) (omega arith) in
      cycle-IsSent r (seen (suc n)) (inputs (suc n)) before.queue before.present (issue (suc n))
        (f (suc n) (omega arith)) stays
        (served-kept r (inputs (suc n)) (plan r (seen (suc n))) stays before.sent)

-- In a well-formed queue, to which only accesses are issued, an access that is sent to the memory is
-- not sent again, nor is any other, in any later cycle as long as it stays in the queue and nothing is
-- flushed, whatever else the queue sees.
pub asks_once :
    (q : LoadStoreQueue) (seen : ℕ → LsqObserveInputs) (inputs : ℕ → LsqInputs) (n : ℕ)
    → IsLsq q
    → ((k : ℕ)
        → (inputs k).issue_valid ≡ true
        → IsAccess (record ((inputs k).issue_entry) { valid = true }))
    → (plan q (seen 0)).memory_request.valid ≡ true
    → ((k : ℕ) → k ≤ n → (inputs k).flush ≡ false)
    → ((k : ℕ) → k ≤ n → (plan (runs k q seen inputs) (seen k)).remove_head ≡ false)
    → (plan (runs (suc n) q seen inputs) (seen (suc n))).memory_request.valid ≡ false
asks_once q seen inputs n v issue asked f kept =
    quiet (runs (suc n) q seen inputs) (seen (suc n))
      (runs-IsSent q seen inputs v issue asked n f kept)
