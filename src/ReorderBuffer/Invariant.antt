-- ===== src/ReorderBuffer/Invariant.antt =====
-- The invariant of src/tomasulo/reorder_buffer.cpp, kept by every cycle whatever its inputs.
use risc_v_cpu_simulator.Base.{
  ℕ, ◌+◌, ◌-◌, ◌%◌, ◌≤◌, ◌<◌, ◌≡◌, refl, sym, ◌∙◌, arith, Bool, true, false, not,
}
use risc_v_cpu_simulator.Base.{
  ◌&&◌, ◌==◌, Array, update, fill, Option, none, some, Bool-cases, inl, inr, if_keeps,
}
use mathlib.Core.Path.{subst}
use risc_v_cpu_simulator.Types.{tag_eq, inc_size, dec_size}
use risc_v_cpu_simulator.Signals.{FuResult}
use risc_v_cpu_simulator.ReorderBuffer.{RobEntry, capacity, ReorderBuffer, RobInputs, RobOutputs}
use risc_v_cpu_simulator.ReorderBuffer.{
  StoreCommitCompletion, latch, apply, plan, plan_head, front, empty, full,
}
use risc_v_cpu_simulator.ReorderBuffer.{apply_completion, apply_store_completion, complete_entry}
use risc_v_cpu_simulator.ReorderBuffer.{commit_step, issue_step, next_tag}
use risc_v_cpu_simulator.ReorderBuffer.{reset, commit_of}
use risc_v_cpu_simulator.ReorderBuffer.Window.{
  IsRing, IsRing-same, IsRing-pop, IsRing-push, IsRing-clear,
}

abbrev pub IsRob : ReorderBuffer → Type 0
IsRob r = IsRing r.cur r.generations r.head r.tail r.count

-- The same of what the coming clock edge installs.
abbrev pub IsNext : ReorderBuffer → Type 0
IsNext r = IsRing r.next r.next_generations r.next_head r.next_tail r.next_count

-- A cycle: the buffer's own decision, then `apply` and the clock edge.
unfoldable pub cycle : ReorderBuffer → RobInputs → ReorderBuffer
cycle r inputs = latch (apply r inputs (plan r)).0

-- The entries once both completions are in.
abbrev pub completed : ReorderBuffer → RobInputs → Array RobEntry
completed r inputs =
    apply_store_completion inputs.store_completion r.cur
      (apply_completion inputs.completion r.cur r.cur)

completion-same :
    (c : FuResult) (cur next : Array RobEntry) (i : ℕ)
    → ((apply_completion c cur next i).valid ≡ (next i).valid)
      × ((apply_completion c cur next i).tag ≡ (next i).tag)
unfolding apply_completion complete_entry
completion-same c cur next i = ground arith

store_completion-same :
    (c : StoreCommitCompletion) (cur next : Array RobEntry) (i : ℕ)
    → ((apply_store_completion c cur next i).valid ≡ (next i).valid)
      × ((apply_store_completion c cur next i).tag ≡ (next i).tag)
unfolding apply_store_completion
store_completion-same c cur next i = ground arith

pub completed-same :
    (r : ReorderBuffer) (inputs : RobInputs) (i : ℕ)
    → ((completed r inputs i).valid ≡ (r.cur i).valid)
      × ((completed r inputs i).tag ≡ (r.cur i).tag)
completed-same r inputs i =
    let after = apply_completion inputs.completion r.cur r.cur in
    let first = completion-same inputs.completion r.cur r.cur i in
    let second = store_completion-same inputs.store_completion r.cur after i in
    (second.0 ∙ first.0, second.1 ∙ first.1)

-- A commit needs an occupied head.
pub commit-occupied : (r : ReorderBuffer) → (plan r).commit.valid ≡ true → (r.count == 0) ≡ false
unfolding plan plan_head front empty
commit-occupied r h = ground arith

module _ (r : ReorderBuffer) (inputs : RobInputs) (v : IsRob r) where
  ring : IsRing (completed r inputs) r.generations r.head r.tail r.count
  ring =
      IsRing-same r.cur r.generations r.head r.tail r.count v (completed r inputs)
        λ i _. completed-same r inputs i

  dec_count : (r.count == 0) ≡ false → r.count - 1 ≡ dec_size r.count
  dec_count h = ground (arith, v.count_in)

  pub commit_step-IsNext :
      (d : RobOutputs)
      → (d.commit.valid ≡ true → (r.count == 0) ≡ false)
      → IsNext (commit_step r inputs d)
  unfolding commit_step
  commit_step-IsNext d pos = elim (Bool-cases d.commit.valid) [
    | inr e ↦ rw e ring
    | inl e ↦ elim (Bool-cases d.flush) [
      | inl f ↦ rw (e, f) (IsRing-clear r.generations ((r.head + 1) % capacity) (omega arith))
      | inr f ↦
          rw (e, f, ← dec_count (pos e))
            (IsRing-pop (completed r inputs) r.generations r.head r.tail r.count ring
              (ground (arith, pos e)))
    ]
  ]

-- What the first part of `apply` leaves of the current state, and of the tail if there is no flush.
pub record IsCommitted (r s : ReorderBuffer) (d : RobOutputs) : Type 0 where
  pub same_tail : s.tail ≡ r.tail
  pub same_count : s.count ≡ r.count
  pub same_generations : s.generations ≡ r.generations
  pub next_tail : d.flush ≡ false → s.next_tail ≡ r.tail
  pub next_generations : s.next_generations ≡ r.generations
  pub fewer : d.flush ≡ false → s.next_count ≤ r.count

pub commit_step-IsCommitted :
    (r : ReorderBuffer) (inputs : RobInputs) (d : RobOutputs)
    → r.count ≤ capacity
    → (d.commit.valid ≡ true → (r.count == 0) ≡ false)
    → (d.commit.valid ≡ false → d.flush ≡ false)
    → IsCommitted r (commit_step r inputs d) d
unfolding commit_step
commit_step-IsCommitted r inputs d small pos calm = elim (Bool-cases d.commit.valid) [
  | inr e ↦ rw e ground arith
  | inl e ↦ elim (Bool-cases d.flush) [
    | inl f ↦ rw (e, f) ground arith
    | inr f ↦ rw (e, f) ground (arith, pos e)
  ]
]

next_tag-at :
    (s : ReorderBuffer) (tail : ℕ)
    → (s.count == capacity) ≡ false
    → s.tail < capacity
    → tail ≡ s.tail
    → next_tag s ≡ record { index = tail; generation = (next_tag s).generation; valid = true }
unfolding next_tag full
next_tag-at s tail room h e = ground arith

pub no_wrap : {n k : ℕ} → n ≤ k → k ≤ capacity → n + 1 ≡ inc_size n
no_wrap h p = omega arith

-- The second part of `apply`.
issue_step-IsNext :
    (s : ReorderBuffer) (inputs : RobInputs) (d : RobOutputs)
    → IsNext s
    → s.tail < capacity
    → s.count ≤ capacity
    → (d.flush ≡ false → s.next_tail ≡ s.tail)
    → (d.flush ≡ false → s.next_count ≤ s.count)
    → IsNext (issue_step s inputs d).0
unfolding issue_step full
issue_step-IsNext s inputs d v tail_in small same fewer =
    if_keeps P (not d.flush && inputs.issue_valid)
      (λ e.
        if_keeps P (not (s.count == capacity))
          (λ room.
            if_keeps P (inputs.issue_entry.valid && tag_eq inputs.issue_entry.tag (next_tag s))
              (λ _. pushed (ground arith) (ground arith)) (λ _. v))
          (λ _. v))
      λ _. v
  where
    P : ReorderBuffer × Bool → Type 0
    P q = IsNext q.0

    pushed :
        d.flush ≡ false
        → (s.count == capacity) ≡ false
        → IsRing
            (update s.next s.next_tail
              (record (inputs.issue_entry) { tag = next_tag s; valid = true }))
            (update s.next_generations s.next_tail (next_tag s).generation)
            s.next_head
            ((s.next_tail + 1) % capacity)
            (inc_size s.next_count)
    pushed calm room =
        subst
          (IsRing
            (update s.next s.next_tail
              (record (inputs.issue_entry) { tag = next_tag s; valid = true }))
            (update s.next_generations s.next_tail (next_tag s).generation) s.next_head
            ((s.next_tail + 1) % capacity))
          (no_wrap (fewer calm) small)
          (IsRing-push s.next s.next_generations s.next_head s.next_tail s.next_count v
            (record (inputs.issue_entry) { tag = next_tag s; valid = true }) (next_tag s).generation
            (ground (arith, fewer calm)) refl (next_tag-at s s.next_tail room tail_in (same calm)))

latch-IsRob : (s : ReorderBuffer) → IsNext s → IsRob (latch s)
unfolding latch
latch-IsRob s v = v

pub calm_plan : (r : ReorderBuffer) → (plan r).commit.valid ≡ false → (plan r).flush ≡ false
unfolding plan plan_head commit_of
calm_plan r = by (front r)
  where
    by : (o : Option RobEntry) → (plan_head o).commit.valid ≡ false → (plan_head o).flush ≡ false
    by none h = refl
    by (some e) h = ground arith

-- The empty buffer satisfies the invariant.
pub reset-IsRob : IsRob reset
reset-IsRob = IsRing-clear (fill 0) 0 (omega arith)

-- Every cycle keeps the invariant, whatever completions, store confirmations and issue requests
-- come in: at most 32 entries, in consecutive slots from the head to the tail, and none elsewhere;
-- each with the tag of its slot and of its slot's last allocation.
pub cycle-IsRob : (r : ReorderBuffer) (inputs : RobInputs) → IsRob r → IsRob (cycle r inputs)
unfolding cycle apply
cycle-IsRob r inputs v =
    let d = plan r in
    let s = commit_step r inputs d in
    let c = commit_step-IsCommitted r inputs d v.count_in (commit-occupied r) (calm_plan r) in
    latch-IsRob (issue_step s inputs d).0 (
      issue_step-IsNext s inputs d (commit_step-IsNext r inputs v d (commit-occupied r))
        (omega (arith, c.same_tail, v.tail_at)) (omega (arith, c.same_count, v.count_in))
        (λ f. c.next_tail f ∙ sym c.same_tail) (λ f. omega (arith, c.fewer f, c.same_count)))
