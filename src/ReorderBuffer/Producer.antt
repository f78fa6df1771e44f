-- ===== src/ReorderBuffer/Producer.antt =====
-- src/tomasulo/reorder_buffer.cpp: from the tag of the youngest writer of a register to its entry.
use risc_v_cpu_simulator.Base.{
  ℕ, zero, suc, ◌+◌, ◌%◌, ◌<◌, ◌≡◌, refl, ap, arith, true, false, Array, Option, none, some,
}
use mathlib.Core.Option.{or_else}
use mathlib.Core.Path.{subst}
use risc_v_cpu_simulator.Types.{RobTag, tag_eq}
use risc_v_cpu_simulator.ReorderBuffer.{RobEntry, capacity, ReorderBuffer, lookup, matching_entry}
use risc_v_cpu_simulator.ReorderBuffer.Invariant.{IsRob}
use risc_v_cpu_simulator.ReorderBuffer.Queue.{window, contents}
use risc_v_cpu_simulator.ReorderBuffer.Youngest.{youngest, youngest_entry}

-- Where a tag leads in the buffer: to its entry.
pub record IsNamed (cells : Array RobEntry) (t : RobTag) (o : Option RobEntry) : Type 0 where
  pub found : t.valid ≡ true → o ≡ some (cells t.index)
  pub same : t.valid ≡ true → (cells t.index).tag ≡ t
  pub live : t.valid ≡ true → (cells t.index).valid ≡ true
  pub within : t.valid ≡ true → t.index < capacity
  pub absent : t.valid ≡ false → o ≡ none

abbrev AreLive : Array RobEntry → ℕ → ℕ → Type 0
AreLive cells h n =
    (k : ℕ)
    → k < n
    → let s = (h + k) % capacity in
      ((cells s).valid ≡ true) × ((cells s).tag.valid ≡ true) × ((cells s).tag.index ≡ s)

window-IsNamed :
    (reg : ℕ) (cells : Array RobEntry) (h n : ℕ)
    → h < capacity
    → AreLive cells h n
    → IsNamed cells (youngest reg (window cells h n)) (youngest_entry reg (window cells h n))
unfolding youngest youngest_entry or_else
window-IsNamed reg cells h zero p l = record {
  found = λ e. absurd cc;
  same = λ e. absurd cc;
  live = λ e. absurd cc;
  within = λ e. absurd cc;
  absent = λ e. refl;
}
window-IsNamed reg cells h (suc n) p l =
    let next = (h + 1) % capacity in
    let later = window-IsNamed reg cells next n (omega arith) (λ k q.
      subst
        (λ s. ((cells s).valid ≡ true) × ((cells s).tag.valid ≡ true) × ((cells s).tag.index ≡ s))
        (omega arith) (l (k + 1) (omega arith))) in
    let here : ((cells h).valid ≡ true) × ((cells h).tag.valid ≡ true) × ((cells h).tag.index ≡ h) =
      ground (arith, l 0) in
    record {
      found = ground (arith, later.found, later.same, later.live, later.within, later.absent, here);
      same = ground (arith, later.found, later.same, later.live, later.within, later.absent, here);
      live = ground (arith, later.found, later.same, later.live, later.within, later.absent, here);
      within =
          ground (arith, later.found, later.same, later.live, later.within, later.absent, here);
      absent =
          ground (arith, later.found, later.same, later.live, later.within, later.absent, here);
    }

module _ (r : ReorderBuffer) (v : IsRob r) (reg : ℕ) where
  -- The tag of the youngest writer is that of an entry, which `lookup` finds; with no writer in flight
  -- there is no tag.
  pub contents-IsNamed : IsNamed r.cur (youngest reg (contents r)) (youngest_entry reg (contents r))
  contents-IsNamed = window-IsNamed reg r.cur r.head r.count v.head_in λ k l.
      let s = (r.head + k) % capacity in
      let live : (r.cur s).valid ≡ true =
        ground (arith, v.occupied s (omega arith), v.head_in, v.count_in) in
      let tag = v.tagged s (omega arith) live in
      (live, ap (λ (t : RobTag). t.valid) tag, ap (λ (t : RobTag). t.index) tag)

  pub lookup-youngest : lookup r (youngest reg (contents r)) ≡ youngest_entry reg (contents r)
  unfolding lookup matching_entry tag_eq
  lookup-youngest =
      let n = contents-IsNamed in ground (arith, n.found, n.same, n.live, n.within, n.absent)
