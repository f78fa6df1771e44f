-- ===== src/Cpu/Renamed.antt =====
-- src/tomasulo/cpu.cpp: the rename table next to the reorder buffer.
use risc_v_cpu_simulator.Base.{
  ℕ, ◌≡◌, ◌∙◌, refl, sym, ap, arith, Bool, true, false, ◌&&◌, ◌==◌, if◌then◌else◌, if_keeps,
  Bool-cases, inl, inr, Option, [], ◌∷◌, ◌++◌, map,
}
use mathlib.Core.Path.{subst}
use risc_v_cpu_simulator.Types.{RobTag, no_tag, tag_eq}
use risc_v_cpu_simulator.Types.Tags.{tag_eq_self}
use risc_v_cpu_simulator.RenameTable.{lookup, valid_register}
use risc_v_cpu_simulator.RenameTable.Priority.{lookup-latch-apply}
use risc_v_cpu_simulator.ReorderBuffer
use risc_v_cpu_simulator.ReorderBuffer.{
  ReorderBuffer, RobEntry, RobInputs, RobOutputs, plan_head, front, commit_of, empty, full,
  next_tag, capacity,
}
use risc_v_cpu_simulator.ReorderBuffer.Invariant.{
  IsRob, calm_plan, commit-occupied, cycle as rob_cycle,
}
use risc_v_cpu_simulator.ReorderBuffer.Queue.{
  contents, rest, left, accepted, joining, complete, Queue,
}
use risc_v_cpu_simulator.ReorderBuffer.Fifo.{++-nil, cycle-contents, front-contents}
use risc_v_cpu_simulator.ReorderBuffer.Youngest.{
  youngest, youngest-complete, youngest-append, youngest-rest,
}
use risc_v_cpu_simulator.Cpu.State.{Cpu, is_running, load, new_cpu, Orders}
use risc_v_cpu_simulator.Image.{Token, FromChars, Input}
use risc_v_cpu_simulator.Cpu.Plan.{observe}
use risc_v_cpu_simulator.Cpu.Inputs.{apply_inputs, issue_effective, rat_write_of, rat_commit_of}
use risc_v_cpu_simulator.Cpu.Cycle.{cycle}
use risc_v_cpu_simulator.Cpu.Lockstep.{plans, inputs, lockstep}
use risc_v_cpu_simulator.Cpu.AnyOrder.{cycle-lockstep}
use risc_v_cpu_simulator.Cpu.Preview.{observed-Foresees}
use risc_v_cpu_simulator.Cpu.Issued.{IsIssue, plans-IsIssue}
use risc_v_cpu_simulator.Cpu.Invariant.{IsCpu}

-- For each register the rename table names the youngest instruction in flight that writes it.
abbrev pub IsRenamed : Cpu → Type 0
IsRenamed c =
    (reg : ℕ)
    → valid_register reg ≡ true
    → lookup c.rename_table reg ≡ youngest reg (contents c.rob)

map-rest : (i : RobInputs) (q : Queue) → rest (map (complete i) q) ≡ map (complete i) (rest q)
map-rest i [] = refl
map-rest i (e ∷ q) = refl

-- A commit is that of the entry at the head.
commit-head :
    (r : ReorderBuffer)
    → (ReorderBuffer.plan r).commit.valid ≡ true
    → (ReorderBuffer.plan r).commit.entry ≡ r.cur r.head
unfolding ReorderBuffer.plan plan_head front commit_of empty
commit-head r h = ground arith

head_tag : (r : ReorderBuffer) → IsRob r → (r.count == 0) ≡ false → (r.cur r.head).tag.valid ≡ true
head_tag r v pos =
    ap (λ (t : RobTag). t.valid)
      (v.tagged r.head v.head_in (ground (arith, v.occupied r.head v.head_in, v.head_in)))

-- What the rename table keeps after the commit is the youngest of the queue that is left.
youngest-left :
    (r : ReorderBuffer) (i : RobInputs) (reg : ℕ)
    → IsRob r
    → let d = ReorderBuffer.plan r in
      d.flush ≡ false
      → youngest reg (left i d (contents r)) ≡ (
          let t = youngest reg (contents r) in
          let w = rat_commit_of d in
          if w.valid && w.tag.valid && w.rd == reg && tag_eq t w.tag then no_tag else t)
unfolding rat_commit_of tag_eq
youngest-left r i reg v f = elim (Bool-cases (ReorderBuffer.plan r).commit.valid) [
  | inl e ↦
      rw (e, f)
        (ap (youngest reg) (map-rest i (contents r))
          ∙ youngest-complete reg i (rest (contents r))
          ∙ youngest-rest r v reg (commit-occupied r e)
          ∙ ground (arith, commit-head r e, head_tag r v (commit-occupied r e)))
  | inr e ↦ rw e (youngest-complete reg i (contents r))
]

-- An entry joins the queue exactly when the processor issues it.
accepted-effective :
    (c : Cpu)
    → IsCpu c
    → accepted c.rob (inputs c).rob_inputs (plans c).rob_decision ≡ issue_effective (plans c)
unfolding issue_effective apply_inputs full
accepted-effective c v =
    let o = plans-IsIssue c v.bytes in
    let entry = (plans c).issue_outputs.rob_entry in
    ground (arith, o.to_rob, o.room, o.calm, o.rob_valid, tag_ok o, early)
  where
    early : (observe c).preview.flush ≡ (ReorderBuffer.plan c.rob).flush
    early = (observed-Foresees c).flush

    tag_ok :
        IsIssue c (plans c).issue_outputs
        → (plans c).issue_outputs.write_rob ≡ true
        → tag_eq (plans c).issue_outputs.rob_entry.tag (next_tag c.rob) ≡ true
    tag_ok o w = ap (λ t. tag_eq t (next_tag c.rob)) (o.rob_tag w) ∙ tag_eq_self (next_tag c.rob)

step-contents :
    (r : ReorderBuffer) (i : RobInputs)
    → IsRob r
    → let d = ReorderBuffer.plan r in
      contents (ReorderBuffer.latch (ReorderBuffer.apply r i d).0)
      ≡ left i d (contents r) ++ (if accepted r i d then joining r i ∷ [] else [])
unfolding rob_cycle ReorderBuffer.plan
step-contents r i v =
    cycle-contents r i v
    ∙ ap
        (λ (o : Option RobEntry).
          left i (plan_head o) (contents r)
          ++ (if accepted r i (plan_head o) then joining r i ∷ [] else []))
        (sym (front-contents r v))

-- A flush leaves nothing.
left-flush :
    (r : ReorderBuffer) (i : RobInputs) (q : Queue)
    → let d = ReorderBuffer.plan r in d.flush ≡ true → left i d q ≡ []
left-flush r i q f = elim (Bool-cases (ReorderBuffer.plan r).commit.valid) [
  | inl e ↦ rw (e, f) refl
  | inr e ↦ absurd (ground (arith, calm_plan r e))
]

youngest-issued :
    (reg : ℕ) (q : Queue) (e : RobEntry) (b : Bool)
    → (b ≡ true → e.tag.valid ≡ true)
    → youngest reg (q ++ (if b then e ∷ [] else []))
      ≡ (if b && e.writes_rd && e.rd == reg then e.tag else youngest reg q)
youngest-issued reg q e true v = youngest-append reg q e (v refl)
youngest-issued reg q e false v = ap (youngest reg) (sym (++-nil q))

module _ (c : Cpu) (v : IsCpu c) (h : IsRenamed c) (reg : ℕ)
    (known : valid_register reg ≡ true) where
  abbrev d : RobOutputs
  d = ReorderBuffer.plan c.rob

  abbrev eff : Bool
  eff = issue_effective (plans c)

  abbrev entry : RobEntry
  entry = joining c.rob (inputs c).rob_inputs

  contents_next :
      contents (lockstep c).rob
      ≡ left (inputs c).rob_inputs d (contents c.rob) ++ (if eff then entry ∷ [] else [])
  unfolding apply_inputs
  contents_next =
      step-contents c.rob (inputs c).rob_inputs v.rob
      ∙ ap (λ b. left (inputs c).rob_inputs d (contents c.rob) ++ (if b then entry ∷ [] else []))
          (accepted-effective c v)

  lookup_next : lookup (lockstep c).rename_table reg ≡ (
      let w = rat_write_of (plans c) in
      let t = lookup c.rename_table reg in
      let m = rat_commit_of d in
      if d.flush
      then no_tag
      else (if w.valid && w.tag.valid && w.rd == reg
          then w.tag
          else (if m.valid && m.tag.valid && m.rd == reg && tag_eq t m.tag then no_tag else t)))
  unfolding apply_inputs
  lookup_next =
      let i = inputs c in
      lookup-latch-apply c.rename_table i.rat_write i.rat_commit i.rob_flush reg
      ∙ ground (arith, known)

  o : IsIssue c (plans c).issue_outputs
  o = plans-IsIssue c v.bytes

  entry_tag : eff ≡ true → entry.tag.valid ≡ true
  unfolding issue_effective
  entry_tag e = o.allocated (ground arith)

  youngest_next : youngest reg (contents (lockstep c).rob) ≡ (
      if eff && entry.writes_rd && entry.rd == reg
      then entry.tag
      else youngest reg (left (inputs c).rob_inputs d (contents c.rob)))
  youngest_next = ap (youngest reg) contents_next ∙ youngest-issued reg _ entry eff entry_tag

  lockstep_renames : lookup (lockstep c).rename_table reg ≡ youngest reg (contents (lockstep c).rob)
  unfolding rat_write_of issue_effective apply_inputs youngest next_tag
  lockstep_renames = elim (Bool-cases d.flush) [
    | inl f ↦
        lookup_next
        ∙ ground (
          arith,
          f,
          ap (youngest reg) (left-flush c.rob (inputs c).rob_inputs (contents c.rob) f),
        )
        ∙ sym youngest_next
    | inr f ↦
        lookup_next
        ∙ ground (
          arith,
          f,
          known,
          h reg known,
          o.allocated,
          o.named,
          o.renames,
          o.rename_tag,
          youngest-left c.rob (inputs c).rob_inputs reg v.rob f,
        )
        ∙ sym youngest_next
  ]

-- Every cycle keeps it: for each register the rename table names the youngest instruction in the
-- reorder buffer that writes it, and nothing if there is none; through issue, commit and flush.
pub cycle-IsRenamed : (c : Cpu) → IsCpu c → IsRenamed c → IsRenamed (cycle c)
cycle-IsRenamed c v h =
    subst IsRenamed (sym (cycle-lockstep c v.fair))
      (if_keeps IsRenamed (is_running c.status) (λ _. lockstep_renames c v h) λ _. h)

-- A loaded program has nothing in flight.
pub load-IsRenamed :
    (from_chars : Token → FromChars) (orders : Orders) (input : Input)
    → IsRenamed (load from_chars (new_cpu orders) input).0
unfolding load lookup youngest
load-IsRenamed from_chars orders input reg known = ground arith
