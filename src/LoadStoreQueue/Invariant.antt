-- ===== src/LoadStoreQueue/Invariant.antt =====
-- The invariant of src/tomasulo/load_store_queue.cpp, kept by every cycle.
use risc_v_cpu_simulator.Base.{
  ℕ, ◌+◌, ◌%◌, ◌≡◌, refl, arith, Bool, true, false, not, ◌&&◌, ◌||◌, ◌==◌, if◌then◌else◌, if_keeps,
  Array, update,
}
use mathlib.Core.Path.{subst}
use risc_v_cpu_simulator.Types.{inc_size, dec_size}
use risc_v_cpu_simulator.Signals.{CdbMsg}
use risc_v_cpu_simulator.Decoder.Shape.{loads, stores}
use risc_v_cpu_simulator.MemoryUnit.{is_store_access}
use risc_v_cpu_simulator.LoadStoreQueue.{
  LsqEntry, no_entry, LsqInputs, LsqObserveInputs, LsqDecision, LoadStoreQueue, capacity, reset,
}
use risc_v_cpu_simulator.LoadStoreQueue.{
  plan, send, respond, apply, latch, served, empty, full, update_address, wake_entry,
}
use risc_v_cpu_simulator.LoadStoreQueue.Order.{cycle}
use risc_v_cpu_simulator.LoadStoreQueue.Window.{
  IsRing, IsRing-same, IsRing-pop, IsRing-push, IsRing-clear,
}

-- An entry is an access with a tag, and its type is that of its operation.
pub record IsAccess (e : LsqEntry) : Type 0 where
  pub tagged : e.valid ≡ true → e.destination.valid ≡ true
  pub memory : e.valid ≡ true → (loads e.op || stores e.op) ≡ true
  pub typed : e.valid ≡ true → is_store_access e.type ≡ stores e.op

pub record IsLsq (q : LoadStoreQueue) : Type 0 where
  pub ring : IsRing q.cur q.head q.tail q.count
  pub accesses : (i : ℕ) → IsAccess (q.cur i)

-- A change of an entry that keeps what makes it an access.
record IsSame (e' e : LsqEntry) : Type 0 where
  valid : e'.valid ≡ e.valid
  tag : e'.destination ≡ e.destination
  op : e'.op ≡ e.op
  type : e'.type ≡ e.type

IsSame-IsAccess : (e' e : LsqEntry) → IsSame e' e → IsAccess e → IsAccess e'
IsSame-IsAccess e' e s a = record {
  tagged = λ h. ground (arith, s.tag, s.valid, a.tagged);
  memory = λ h. ground (arith, s.op, s.valid, a.memory);
  typed = λ h. ground (arith, s.op, s.type, s.valid, a.typed);
}

wake-IsSame : (e : LsqEntry) (cdb : CdbMsg) → IsSame (wake_entry e cdb) e
unfolding wake_entry
wake-IsSame e cdb = ground arith

update_address-IsSame : (e : LsqEntry) → IsSame (update_address e) e
unfolding update_address
update_address-IsSame e = ground arith

-- An answer removes the head only of a queue that has one.
plan-occupied :
    (q : LoadStoreQueue) (seen : LsqObserveInputs)
    → (plan q seen).remove_head ≡ true
    → (q.count == 0) ≡ false
unfolding plan send respond empty
plan-occupied q seen h = ground arith

-- The removal of the head, if it is removed.
removal-IsRing :
    (b : Bool) (cells : Array LsqEntry) (head tail count : ℕ)
    → IsRing cells head tail count
    → (b ≡ true → (count == 0) ≡ false)
    → IsRing
        (if b then update cells head no_entry else cells)
        (if b then (head + 1) % capacity else head)
        tail
        (if b then dec_size count else count)
removal-IsRing false cells head tail count r h = r
removal-IsRing true cells head tail count r h =
    subst (IsRing (update cells head no_entry) ((head + 1) % capacity) tail)
      (ground (arith, r.count_in, h refl))
      (IsRing-pop cells head tail count r (ground (arith, h refl)))

none-IsAccess : IsAccess no_entry
none-IsAccess = record { tagged = λ h. absurd cc; memory = λ h. absurd cc; typed = λ h. absurd cc }

sent-IsAccess : {e : LsqEntry} → IsAccess e → IsAccess (record e { request_sent = true })
sent-IsAccess a = record { tagged = a.tagged; memory = a.memory; typed = a.typed }

module _ (q : LoadStoreQueue) (inputs : LsqInputs) (d : LsqDecision) (v : IsLsq q) where
  abbrev awake : Array LsqEntry
  awake = λ i. wake_entry (q.cur i) inputs.cdb

  abbrev removed : Array LsqEntry
  removed = if d.remove_head then update awake q.head no_entry else awake

  abbrev new_head : ℕ
  new_head = if d.remove_head then (q.head + 1) % capacity else q.head

  abbrev new_count : ℕ
  new_count = if d.remove_head then dec_size q.count else q.count

  served-IsRing :
      (d.remove_head ≡ true → (q.count == 0) ≡ false)
      → IsRing (served q inputs d) new_head q.tail new_count
  unfolding served
  served-IsRing h =
      IsRing-same removed new_head q.tail new_count
        (removal-IsRing d.remove_head awake q.head q.tail q.count
          (IsRing-same q.cur q.head q.tail q.count v.ring awake
            λ i _. (wake-IsSame (q.cur i) inputs.cdb).valid)
          h)
        (served q inputs d) λ i _. ground arith

  removed-IsAccess : (i : ℕ) → IsAccess (removed i)
  removed-IsAccess i =
      if_keeps (λ (cells : Array LsqEntry). IsAccess (cells i)) d.remove_head
        (λ _. if_keeps IsAccess (q.head == i) (λ _. none-IsAccess) (λ _. woken)) λ _. woken
    where
      woken : IsAccess (wake_entry (q.cur i) inputs.cdb)
      woken =
          IsSame-IsAccess (wake_entry (q.cur i) inputs.cdb) (q.cur i)
            (wake-IsSame (q.cur i) inputs.cdb) (v.accesses i)

  served-IsAccess : (i : ℕ) → IsAccess (served q inputs d i)
  unfolding served
  served-IsAccess i =
      if_keeps (λ (cells : Array LsqEntry). IsAccess (cells i)) d.mark_request_sent
        (λ _.
          if_keeps IsAccess (q.head == i) (λ _. sent-IsAccess (removed-IsAccess q.head))
            (λ _. removed-IsAccess i))
        λ _. removed-IsAccess i

-- The addresses are the last change of the entries.
addressed-IsLsq :
    (cells : Array LsqEntry) (head tail count : ℕ)
    → IsRing cells head tail count
    → ((i : ℕ) → IsAccess (cells i))
    → IsRing (λ i. update_address (cells i)) head tail count
      × ((i : ℕ) → IsAccess (update_address (cells i)))
addressed-IsLsq cells head tail count r a = (
  IsRing-same cells head tail count r (λ i. update_address (cells i))
      (λ i _. (update_address-IsSame (cells i)).valid),
  λ i. IsSame-IsAccess (update_address (cells i)) (cells i) (update_address-IsSame (cells i)) (a i),
)

-- What the coming clock edge installs.
abbrev IsNext : LoadStoreQueue → Type 0
IsNext o = IsRing o.next o.next_head o.next_tail o.next_count × ((i : ℕ) → IsAccess (o.next i))

pub apply-IsNext :
    (q : LoadStoreQueue) (inputs : LsqInputs) (d : LsqDecision)
    → IsLsq q
    → (d.remove_head ≡ true → (q.count == 0) ≡ false)
    → (inputs.issue_valid ≡ true → IsAccess (record (inputs.issue_entry) { valid = true }))
    → IsNext (apply q inputs d).0
unfolding apply full
apply-IsNext q inputs d v h issue =
    if_keeps P inputs.flush (λ _. (IsRing-clear, λ i. none-IsAccess))
      λ _.
        if_keeps P (inputs.issue_valid && not (q.count == capacity) && inputs.issue_entry.valid)
          (λ e.
            addressed-IsLsq (update (served q inputs d) q.tail entry) _ _ _ (joined e)
              λ i. joined_access e i)
          λ _.
            addressed-IsLsq (served q inputs d) _ _ _ (served-IsRing q inputs d v h)
              (served-IsAccess q inputs d v)
  where
    P : LoadStoreQueue × Bool → Type 0
    P o = IsNext o.0

    head : ℕ
    head = if d.remove_head then (q.head + 1) % capacity else q.head

    count : ℕ
    count = if d.remove_head then dec_size q.count else q.count

    entry : LsqEntry
    entry = record (inputs.issue_entry) { valid = true; request_sent = false }

    joined :
        (inputs.issue_valid && not (q.count == capacity) && inputs.issue_entry.valid) ≡ true
        → IsRing
            (update (served q inputs d) q.tail entry)
            head
            ((q.tail + 1) % capacity)
            (inc_size count)
    joined e =
        subst (IsRing (update (served q inputs d) q.tail entry) head ((q.tail + 1) % capacity))
          (ground (arith, v.ring.count_in, h))
          (IsRing-push (served q inputs d) head q.tail count (served-IsRing q inputs d v h) entry
            (ground (arith, v.ring.count_in, h)) refl)

    joined_access :
        (inputs.issue_valid && not (q.count == capacity) && inputs.issue_entry.valid) ≡ true
        → (i : ℕ) → IsAccess (update (served q inputs d) q.tail entry i)
    joined_access e i =
        if_keeps IsAccess (q.tail == i)
          (λ _.
            let a = issue (ground arith) in
            record { tagged = a.tagged; memory = a.memory; typed = a.typed })
          λ _. served-IsAccess q inputs d v i

pub reset-IsLsq : IsLsq reset
reset-IsLsq = record { ring = IsRing-clear; accesses = λ i. none-IsAccess }

-- Every cycle keeps the invariant, whatever the memory answers and whatever is broadcast, as long as
-- what is issued is a memory access with a tag: at most 16 entries, in consecutive slots from the
-- head to the tail, and none elsewhere; each with a tag and with the type of its operation.
pub cycle-IsLsq :
    (q : LoadStoreQueue) (seen : LsqObserveInputs) (inputs : LsqInputs)
    → IsLsq q
    → (inputs.issue_valid ≡ true → IsAccess (record (inputs.issue_entry) { valid = true }))
    → IsLsq (cycle q seen inputs)
unfolding cycle latch
cycle-IsLsq q seen inputs v issue =
    let n = apply-IsNext q inputs (plan q seen) v (plan-occupied q seen) issue in
    record { ring = n.0; accesses = n.1 }
