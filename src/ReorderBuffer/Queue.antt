-- ===== src/ReorderBuffer/Queue.antt =====
-- The entries of src/tomasulo/reorder_buffer.cpp as a queue, oldest first: what a cycle of the queue is,
-- and windows on the ring.
use risc_v_cpu_simulator.Base.{
  ℕ, zero, suc, ◌+◌, ◌%◌, ◌<◌, ◌≡◌, refl, ap, ap₂, ◌∙◌, arith, Bool, true, not,
}
use risc_v_cpu_simulator.Base.{
  ◌&&◌, ◌==◌, if◌then◌else◌, Array, Option, none, some, List, [], ◌∷◌, ◌++◌, map,
}
use risc_v_cpu_simulator.Types.{tag_eq}
use risc_v_cpu_simulator.ReorderBuffer.{RobEntry, capacity, ReorderBuffer, RobInputs, RobOutputs}
use risc_v_cpu_simulator.ReorderBuffer.{complete_entry}
use risc_v_cpu_simulator.ReorderBuffer.{next_tag}

-- The `n` entries from slot `h` on, going round.
abbrev pub window : Array RobEntry → ℕ → ℕ → List RobEntry
window cells h zero = []
window cells h (suc n) = cells h ∷ window cells ((h + 1) % capacity) n

abbrev pub Queue : Type 0
Queue = List RobEntry

abbrev pub contents : ReorderBuffer → Queue
contents r = window r.cur r.head r.count

-- What a completion and a store confirmation do to an entry.
abbrev pub complete : RobInputs → RobEntry → RobEntry
complete inputs e =
    let c = inputs.completion in
    let sc = inputs.store_completion in
    let first = if c.valid && c.tag.valid && tag_eq e.tag c.tag then complete_entry c e else e in
    if sc.valid && sc.tag.valid && tag_eq e.tag sc.tag && e.is_store
    then record first { ready = true }
    else first

abbrev pub head? : Queue → Option RobEntry
head? [] = none
head? (e ∷ q) = some e

abbrev pub rest : Queue → Queue
rest [] = []
rest (e ∷ q) = q

-- A decision on the queue: all entries take the completions; a committed head leaves, and a flush
-- takes all others with it.
abbrev pub left : RobInputs → RobOutputs → Queue → Queue
left inputs d q =
    let done = map (complete inputs) q in
    if d.commit.valid then (if d.flush then [] else rest done) else done

-- An entry is accepted with the tag offered to it, if there is room and no flush.
abbrev pub accepted : ReorderBuffer → RobInputs → RobOutputs → Bool
accepted r inputs d =
    (not d.flush && inputs.issue_valid)
    && (not (r.count == capacity)
        && (inputs.issue_entry.valid && tag_eq inputs.issue_entry.tag (next_tag r)))

abbrev pub joining : ReorderBuffer → RobInputs → RobEntry
joining r inputs = record (inputs.issue_entry) { tag = next_tag r; valid = true }

pub window-ext :
    (c c' : Array RobEntry) (h n : ℕ)
    → h < capacity
    → ((k : ℕ) → k < n → c ((h + k) % capacity) ≡ c' ((h + k) % capacity))
    → window c h n ≡ window c' h n
window-ext c c' h zero p e = refl
window-ext c c' h (suc n) p e =
    ap₂ ◌∷◌ (ground (arith, e 0))
      (window-ext c c' ((h + 1) % capacity) n (omega arith) λ k q. ground (arith, e (k + 1)))

pub window-map :
    (c : Array RobEntry) (f : RobEntry → RobEntry) (h n : ℕ)
    → window (λ i. f (c i)) h n ≡ map f (window c h n)
window-map c f h zero = refl
window-map c f h (suc n) = ap (λ q. f (c h) ∷ q) (window-map c f ((h + 1) % capacity) n)

pub window-append :
    (c : Array RobEntry) (h n : ℕ)
    → h < capacity
    → window c h (suc n) ≡ window c h n ++ (c ((h + n) % capacity) ∷ [])
window-append c h zero p = ap (λ i. c i ∷ []) (omega arith)
window-append c h (suc n) p =
    ap (λ q. c h ∷ q)
      (window-append c ((h + 1) % capacity) n (omega arith)
        ∙ ap (λ i. window c ((h + 1) % capacity) n ++ (c i ∷ [])) (omega arith))
