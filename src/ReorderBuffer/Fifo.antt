-- ===== src/ReorderBuffer/Fifo.antt =====
-- src/tomasulo/reorder_buffer.cpp as a queue: entries join at the back, are completed in place, and
-- leave at the front.
use risc_v_cpu_simulator.Base.{
  ℕ, zero, suc, ◌+◌, ◌%◌, ◌≤◌, ◌<◌, ◌≡◌, refl, sym, ap, ap₂, ◌∙◌, arith, true, false, not,
}
use risc_v_cpu_simulator.Base.{
  ◌&&◌, ◌==◌, if◌then◌else◌, Array, update, none, some, [], ◌∷◌, ◌++◌, map, Bool-cases, inl, inr,
  ==→eq,
}
use risc_v_cpu_simulator.Types.{RobTag, tag_eq, inc_size, dec_size}
use risc_v_cpu_simulator.Signals.{FuResult}
use risc_v_cpu_simulator.ReorderBuffer.{
  RobEntry, no_entry, capacity, ReorderBuffer, RobInputs, RobOutputs,
}
use risc_v_cpu_simulator.ReorderBuffer.{
  StoreCommitCompletion, latch, apply, plan, plan_head, front, empty, full,
}
use risc_v_cpu_simulator.ReorderBuffer.{apply_completion, apply_store_completion, complete_entry}
use risc_v_cpu_simulator.ReorderBuffer.{commit_step, issue_step, next_tag, matching_entry}
use risc_v_cpu_simulator.ReorderBuffer.Invariant.{IsRob, IsNext, cycle, completed, commit-occupied}
use risc_v_cpu_simulator.ReorderBuffer.Invariant.{
  commit_step-IsNext, commit_step-IsCommitted, calm_plan,
}
use risc_v_cpu_simulator.ReorderBuffer.Queue.{
  Queue, window, contents, complete, head?, rest, left, accepted, joining, window-ext, window-map,
  window-append,
}

-- The head of the queue is what `front` returns, and so the decision is that of the queue.
pub front-contents : (r : ReorderBuffer) → IsRob r → front r ≡ head? (contents r)
unfolding front empty
front-contents r v = by r.count refl
  where
    by :
        (n : ℕ)
        → r.count ≡ n
        → (if r.count == 0
            then none
            else (if (r.cur r.head).valid then some (r.cur r.head) else none))
          ≡ head? (window r.cur r.head n)
    by zero e = rw e
    by (suc n) e = ground (arith, v.occupied r.head v.head_in, v.head_in)

-- In an occupied slot a completion is taken exactly if its tag is that of the entry.
hit :
    (cells : Array RobEntry) (t : RobTag) (i : ℕ)
    → i < capacity
    → (cells i).valid ≡ true
    → (cells i).tag.index ≡ i
    → (matching_entry t cells && t.index == i) ≡ (t.valid && tag_eq (cells i).tag t)
unfolding matching_entry tag_eq
hit cells t i p v e = elim (Bool-cases (t.index == i)) [
  | inl same ↦ let same : t.index ≡ i = ==→eq _ _ same in rw (same, v) (ground arith)
  | inr other ↦ rw (other, e) (ground arith)
]

completion-at :
    (c : FuResult) (cells : Array RobEntry) (i : ℕ)
    → apply_completion c cells cells i ≡ (
        if c.valid && (matching_entry c.tag cells && c.tag.index == i)
        then complete_entry c (cells i)
        else cells i)
unfolding apply_completion
completion-at c cells i = ground arith

store_completion-at :
    (c : StoreCommitCompletion) (cells next : Array RobEntry) (i : ℕ)
    → apply_store_completion c cells next i ≡ (
        if c.valid && (matching_entry c.tag cells && c.tag.index == i) && (next i).is_store
        then record (next i) { ready = true }
        else next i)
unfolding apply_store_completion
store_completion-at c cells next i = ground arith

pub completed-complete :
    (r : ReorderBuffer) (inputs : RobInputs) (i : ℕ)
    → IsRob r
    → i < capacity
    → (r.cur i).valid ≡ true
    → completed r inputs i ≡ complete inputs (r.cur i)
completed-complete r inputs i v p o =
    let c = inputs.completion in
    let sc = inputs.store_completion in
    let e : (r.cur i).tag.index ≡ i = ap (λ t. t.index) (v.tagged i p o) in
    rw
      (
        store_completion-at sc r.cur (apply_completion c r.cur r.cur) i,
        completion-at c r.cur i,
        hit r.cur sc.tag i p o e,
        hit r.cur c.tag i p o e,
      )
      (unfold complete_entry in ground arith)

module _ (r : ReorderBuffer) (inputs : RobInputs) (v : IsRob r) where
  occupied_at : (k : ℕ) → k < r.count → (r.cur ((r.head + k) % capacity)).valid ≡ true
  occupied_at k h =
      ground (arith, v.occupied ((r.head + k) % capacity) (omega arith), v.head_in, v.count_in)

  completed-contents :
      window (completed r inputs) r.head r.count ≡ map (complete inputs) (contents r)
  completed-contents =
      window-ext (completed r inputs) (λ i. complete inputs (r.cur i)) r.head r.count v.head_in
        (λ k h.
          completed-complete r inputs ((r.head + k) % capacity) v (omega arith) (occupied_at k h))
      ∙ window-map r.cur (complete inputs) r.head r.count

  popped-contents :
      (n : ℕ)
      → r.count ≡ suc n
      → window (update (completed r inputs) r.head no_entry) ((r.head + 1) % capacity) n
        ≡ rest (map (complete inputs) (contents r))
  popped-contents n e =
      window-ext (update (completed r inputs) r.head no_entry) (completed r inputs)
        ((r.head + 1) % capacity) n (omega arith) (λ k h. ground (arith, v.head_in, v.count_in))
      ∙ ap rest (ap (window (completed r inputs) r.head) (sym e) ∙ completed-contents)

  dec_count : (r.count == 0) ≡ false → r.count ≡ suc (dec_size r.count)
  dec_count h = ground (arith, v.count_in)

  -- The first part of `apply` on the queue.
  commit_step-contents :
      (d : RobOutputs)
      → (d.commit.valid ≡ true → (r.count == 0) ≡ false)
      → let s = commit_step r inputs d in
        window s.next s.next_head s.next_count ≡ left inputs d (contents r)
  unfolding commit_step
  commit_step-contents d pos = elim (Bool-cases d.commit.valid) [
    | inr e ↦ rw e completed-contents
    | inl e ↦ elim (Bool-cases d.flush) [
      | inl f ↦ rw (e, f) refl
      | inr f ↦ rw (e, f) (popped-contents (dec_size r.count) (dec_count (pos e)))
    ]
  ]

-- An entry at the tail is the last of the queue.
pushed-contents :
    (cells : Array RobEntry) (entry : RobEntry) (h t n : ℕ)
    → h < capacity
    → n < capacity
    → t ≡ (h + n) % capacity
    → window (update cells t entry) h (inc_size n) ≡ window cells h n ++ (entry ∷ [])
pushed-contents cells entry h t n p q e =
    ap (window (update cells t entry) h) (sym (suc_size q))
    ∙ window-append (update cells t entry) h n p
    ∙ ap₂ ◌++◌ (window-ext (update cells t entry) cells h n p λ k l. ground (arith, e))
        (ap (λ x. x ∷ []) (ground (arith, e)))
  where
    suc_size : n < capacity → suc n ≡ inc_size n
    suc_size l = omega arith

pub ++-nil : (xs : Queue) → xs ≡ xs ++ []
++-nil [] = refl
++-nil (x ∷ xs) = ap (λ q. x ∷ q) (++-nil xs)

-- The second part of `apply` on the queue.
issue_step-contents :
    (s : ReorderBuffer) (inputs : RobInputs) (d : RobOutputs)
    → IsNext s
    → s.count ≤ capacity
    → (d.flush ≡ false → s.next_count ≤ s.count)
    → let o = (issue_step s inputs d).0 in
      window o.next o.next_head o.next_count
      ≡ window s.next s.next_head s.next_count
        ++ (if accepted s inputs d then joining s inputs ∷ [] else [])
unfolding issue_step full
issue_step-contents s inputs d v small fewer =
    elim (Bool-cases (not d.flush && inputs.issue_valid)) [
      | inr a ↦ rw a (++-nil _)
      | inl a ↦ elim (Bool-cases (s.count == capacity)) [
        | inl b ↦ rw (a, b) (++-nil _)
        | inr b ↦
            elim (Bool-cases
              (inputs.issue_entry.valid && tag_eq inputs.issue_entry.tag (next_tag s))) [
                | inr c ↦ rw (a, b, c) (++-nil _)
                | inl c ↦
                    rw (a, b, c)
                      (pushed-contents s.next (joining s inputs) s.next_head s.next_tail
                        s.next_count v.head_in (ground (arith, fewer (ground arith))) v.tail_at)
              ]
      ]
    ]

commit_step-accepted :
    (r : ReorderBuffer) (inputs : RobInputs) (d : RobOutputs)
    → let s = commit_step r inputs d in
      (if accepted s inputs d then joining s inputs ∷ [] else [])
      ≡ (if accepted r inputs d then joining r inputs ∷ [] else [])
unfolding commit_step next_tag full
commit_step-accepted r inputs d = elim (Bool-cases d.commit.valid) [
  | inr e ↦ rw e refl
  | inl e ↦ elim (Bool-cases d.flush) [ inl f ↦ rw (e, f) refl | inr f ↦ rw (e, f) refl ]
]

-- Under the invariant a cycle of the buffer is a cycle of the queue of its entries, oldest first:
-- the decision is made on the head of the queue, all entries take the completion and the store
-- confirmation of their own tag and allocation, a head that commits leaves, and takes all the others
-- with it if it was mispredicted, and an issued entry joins at the back exactly if there is no
-- flush, the buffer was not full and the entry came with the tag offered to it.
pub cycle-contents :
    (r : ReorderBuffer) (inputs : RobInputs)
    → IsRob r
    → let d = plan_head (head? (contents r)) in
      contents (cycle r inputs)
      ≡ left inputs d (contents r) ++ (if accepted r inputs d then joining r inputs ∷ [] else [])
unfolding cycle apply latch plan
cycle-contents r inputs v =
    let d = plan r in
    let s = commit_step r inputs d in
    let c = commit_step-IsCommitted r inputs d v.count_in (commit-occupied r) (calm_plan r) in
    rw (← front-contents r v) (
      issue_step-contents s inputs d (commit_step-IsNext r inputs v d (commit-occupied r))
        (omega (arith, c.same_count, v.count_in)) (λ f. omega (arith, c.fewer f, c.same_count))
      ∙ ap₂ ◌++◌ (commit_step-contents r inputs v d (commit-occupied r))
          (commit_step-accepted r inputs d))
