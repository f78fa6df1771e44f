-- ===== src/LoadStoreQueue/Held.antt =====
-- src/tomasulo/load_store_queue.cpp: what holds of the entries that are there once they have heard the
-- bus, and of an issued entry, holds of all entries after the cycle.
use risc_v_cpu_simulator.Base.{
  ℕ, ◌≡◌, arith, Bool, true, false, not, ◌&&◌, ◌==◌, if◌then◌else◌, if_keeps, Array, update,
}
use risc_v_cpu_simulator.LoadStoreQueue.{
  LsqEntry, no_entry, LsqInputs, LsqObserveInputs, LsqDecision, LoadStoreQueue, plan, apply, latch,
  served, full, update_address, wake_entry,
}
use risc_v_cpu_simulator.LoadStoreQueue.Order.{cycle}

module _ (P : LsqEntry → Type 0)
    (sends : (e : LsqEntry) → P e → P (record e { request_sent = true }))
    (addresses : (e : LsqEntry) → P e → P (update_address e)) where
  abbrev R : LsqEntry → Type 0
  R e = e.valid ≡ true → P e

  sent-R : (e : LsqEntry) → R e → R (record e { request_sent = true })
  sent-R e r h = sends e (r h)

  address-R : (e : LsqEntry) → R e → R (update_address e)
  unfolding update_address
  address-R e r h = addresses e (r (ground arith))

  served-R :
      (q : LoadStoreQueue) (inputs : LsqInputs) (d : LsqDecision)
      → ((i : ℕ) → R (wake_entry (q.cur i) inputs.cdb))
      → (i : ℕ) → R (served q inputs d i)
  unfolding served
  served-R q inputs d heard i =
      if_keeps (λ (cells : Array LsqEntry). R (cells i)) d.mark_request_sent
        (λ _. if_keeps R (q.head == i) (λ _. sent-R _ (removed q.head)) (λ _. removed i))
        λ _. removed i
    where
      removed :
          (i : ℕ)
          → R (
              (if d.remove_head
                  then update (λ j. wake_entry (q.cur j) inputs.cdb) q.head no_entry
                  else (λ j. wake_entry (q.cur j) inputs.cdb))
                i)
      removed i =
          if_keeps (λ (cells : Array LsqEntry). R (cells i)) d.remove_head
            (λ _. if_keeps R (q.head == i) (λ _ h. absurd cc) (λ _. heard i)) λ _. heard i

  pub cycle-keeps :
      (q : LoadStoreQueue) (seen : LsqObserveInputs) (inputs : LsqInputs)
      → ((i : ℕ)
          → (q.cur i).valid ≡ true
          → inputs.flush ≡ false
          → P (wake_entry (q.cur i) inputs.cdb))
      → (inputs.issue_valid ≡ true
          → P (record (inputs.issue_entry) { valid = true; request_sent = false }))
      → (i : ℕ) → ((cycle q seen inputs).cur i).valid ≡ true
      → P ((cycle q seen inputs).cur i)
  unfolding cycle latch apply wake_entry
  cycle-keeps q seen inputs v issue i =
      if_keeps Q inputs.flush (λ _ h. absurd cc)
        λ f.
          if_keeps Q (inputs.issue_valid && not (full q) && inputs.issue_entry.valid)
            (λ e.
              address-R (update (served q inputs d) q.tail entry i)
                (if_keeps R (q.tail == i) (λ _ _. issue (ground arith)) (λ _. before f)))
            λ _. address-R (served q inputs d i) (before f)
    where
      d : LsqDecision
      d = plan q seen

      entry : LsqEntry
      entry = record (inputs.issue_entry) { valid = true; request_sent = false }

      Q : LoadStoreQueue × Bool → Type 0
      Q o = R (o.0.next i)

      before : inputs.flush ≡ false → R (served q inputs d i)
      before f = served-R q inputs d (λ j h. v j (ground arith) f) i
