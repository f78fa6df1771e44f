-- ===== src/ReorderBuffer/Pending.antt =====
-- src/tomasulo/reorder_buffer.cpp: instructions without a result.
use risc_v_cpu_simulator.Base.{ℕ, ◌<◌, ◌≡◌, ◌≢◌, ap, ◌∙◌, arith, true, false, ◌&&◌, Array}
use risc_v_cpu_simulator.Types.{RobTag, tag_eq}
use risc_v_cpu_simulator.Types.Tags.{tag_eq-eq, tag_eq_self}
use risc_v_cpu_simulator.ReorderBuffer.{
  RobEntry, capacity, ReorderBuffer, RobInputs, RobOutputs, matching_entry, latch, apply, plan,
  plan_head, front, commit_step, issue_step, full, complete_entry, apply_completion,
  apply_store_completion,
}
use risc_v_cpu_simulator.ReorderBuffer.Invariant.{IsRob, completed}
use risc_v_cpu_simulator.ReorderBuffer.Queue.{complete}
use risc_v_cpu_simulator.ReorderBuffer.Fifo.{completed-complete}

-- A tag of an instruction in flight that writes a register and has no result yet.
pub record IsPending (r : ReorderBuffer) (t : RobTag) : Type 0 where
  pub live : matching_entry t r.cur ≡ true
  pub unready : (r.cur t.index).ready ≡ false
  pub writes : (r.cur t.index).writes_rd ≡ true

-- No instruction in flight is both a store and a writer of a register.
abbrev pub AreExclusive : Array RobEntry → Type 0
AreExclusive cells =
    (i : ℕ) → (cells i).valid ≡ true → ((cells i).writes_rd && (cells i).is_store) ≡ false

-- What commits is ready.
commit-ready : (r : ReorderBuffer) → (plan r).commit.valid ≡ true → (r.cur r.head).ready ≡ true
unfolding plan plan_head front
commit-ready r h = ground arith

-- A slot that neither the commit nor the issue touches only takes the completions.
slot-kept :
    (r : ReorderBuffer) (i : RobInputs) (d : RobOutputs) (k : ℕ)
    → d.flush ≡ false
    → (d.commit.valid ≡ true → r.head ≢ k)
    → (full r ≡ false → r.tail ≢ k)
    → (latch (apply r i d).0).cur k ≡ completed r i k
unfolding latch apply commit_step issue_step full
slot-kept r i d k f h t = ground arith

free_tail : (r : ReorderBuffer) → IsRob r → full r ≡ false → (r.cur r.tail).valid ≡ false
unfolding full
free_tail r v room =
    ground (arith, v.occupied r.tail (omega (arith, v.tail_at)), v.tail_at, v.head_in, v.count_in)

-- What a completion and a store confirmation leave of an entry.
complete-unready :
    (i : RobInputs) (e : RobEntry) (t : RobTag)
    → e.tag ≡ t
    → e.ready ≡ false
    → (e.writes_rd && e.is_store) ≡ false
    → e.writes_rd ≡ true
    → (i.completion.valid && tag_eq i.completion.tag t) ≡ false
    → ((complete i e).valid ≡ e.valid)
      × ((complete i e).tag ≡ e.tag)
      × ((complete i e).writes_rd ≡ e.writes_rd)
      × ((complete i e).ready ≡ false)
unfolding complete_entry tag_eq
complete-unready i e t same u x w c = ground arith

pending-live :
    (r : ReorderBuffer) (t : RobTag)
    → IsPending r t
    → (t.valid ≡ true)
      × (t.index < capacity)
      × ((r.cur t.index).valid ≡ true)
      × ((r.cur t.index).tag ≡ t)
unfolding matching_entry
pending-live r t p =
    let h = p.live in
    (ground arith, ground arith, ground arith, tag_eq-eq (r.cur t.index).tag t (ground arith))

-- A cycle without a flush keeps it, unless its completion comes.
pub cycle-IsPending :
    (r : ReorderBuffer) (i : RobInputs) (t : RobTag)
    → IsRob r
    → AreExclusive r.cur
    → (plan r).flush ≡ false
    → IsPending r t
    → (i.completion.valid && tag_eq i.completion.tag t) ≡ false
    → IsPending (latch (apply r i (plan r)).0) t
unfolding matching_entry
cycle-IsPending r i t v x f p c =
    let k = t.index in
    let there = pending-live r t p in
    let after = complete-unready i (r.cur k) t there.3 p.unready (x k there.2) p.writes c in
    let cell =
      slot-kept r i (plan r) k f (λ e. ground (arith, commit-ready r e, p.unready))
        (λ room. ground (arith, free_tail r v room, there.2))
      ∙ completed-complete r i k v there.1 there.2 in
    let live : matching_entry t (latch (apply r i (plan r)).0).cur ≡ true = ground (
      arith,
      there,
      ap (λ (e : RobEntry). e.valid) cell,
      ap (λ (e : RobEntry). e.tag) cell,
      after,
      tag_eq_self t,
    ) in
    record {
      live = live;
      unready = ap (λ (e : RobEntry). e.ready) cell ∙ after.3;
      writes = ap (λ (e : RobEntry). e.writes_rd) cell ∙ after.2 ∙ p.writes;
    }

completed-kept :
    (r : ReorderBuffer) (i : RobInputs) (k : ℕ)
    → ((completed r i k).valid ≡ (r.cur k).valid)
      × ((completed r i k).writes_rd ≡ (r.cur k).writes_rd)
      × ((completed r i k).is_store ≡ (r.cur k).is_store)
unfolding apply_completion apply_store_completion complete_entry
completed-kept r i k = ground arith

-- The entries of a cycle are those that were there and the one that is issued.
pub cycle-AreExclusive :
    (r : ReorderBuffer) (i : RobInputs) (d : RobOutputs)
    → AreExclusive r.cur
    → (i.issue_valid ≡ true → (i.issue_entry.writes_rd && i.issue_entry.is_store) ≡ false)
    → AreExclusive (latch (apply r i d).0).cur
unfolding latch apply commit_step issue_step
cycle-AreExclusive r i d x n k h = ground (arith, x k, completed-kept r i k)
