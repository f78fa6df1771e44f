-- ===== src/ReservationStation/Wake.antt =====
-- src/tomasulo/reservation_station.cpp: a ready instruction is sent before long.
use risc_v_cpu_simulator.Base.{
  ℕ, ◌+◌, ◌-◌, ◌%◌, ◌<◌, ◌≤◌, ◌≡◌, ◌≢◌, ◌⊎◌, inl, inr, refl, ap, ◌∙◌, arith, Bool, true, false, not,
}
use risc_v_cpu_simulator.Base.{◌&&◌, ◌==◌, ◌!=◌, if◌then◌else◌, Array, update, Bool-cases, if_keeps}
use risc_v_cpu_simulator.Signals.{CdbMsg}
use risc_v_cpu_simulator.ReservationStation.{
  RsEntry, RsInputs, RsDecision, ReservationStation, capacity,
}
use risc_v_cpu_simulator.ReservationStation.{invalid_index, find_free_index, is_ready}
use risc_v_cpu_simulator.ReservationStation.{
  select_ready_index, make_execute, wake_entry, wake_operand, plan, woken,
}
use risc_v_cpu_simulator.ReservationStation.{apply, latch, next_cursor}
use risc_v_cpu_simulator.ReservationStation.Scan.{
  Finds, IsFirst, find_free_lem, select_lem, from_cursor,
}
use risc_v_cpu_simulator.ReservationStation.Slots.{cycle, leaves}

-- How many slots stand between the cursor and a slot.
abbrev pub distance : ReservationStation → ℕ → ℕ
distance r i = (i + capacity - r.dispatch_cursor) % capacity

selects_by :
    (r : ReservationStation) (i : ℕ)
    → r.dispatch_cursor < capacity
    → i < capacity
    → is_ready (r.cur_rs i) ≡ true
    → (k : ℕ) × (select_ready_index r ≡ from_cursor r k)
      × (k ≤ distance r i)
      × (is_ready (r.cur_rs (from_cursor r k)) ≡ true)
selects_by r i c h ready = elim (select_lem r) [
  | inl (k, first, at) ↦ (k, at, not_after k first, first.holds)
  | inr (unfound, at) ↦ absurd (cc (unfound (distance r i) (omega arith), there))
]
  where
    back : from_cursor r (distance r i) ≡ i
    back = omega arith

    there : is_ready (r.cur_rs (from_cursor r (distance r i))) ≡ true
    there = rw back ready

    not_after :
        (k : ℕ) → IsFirst (λ j. is_ready (r.cur_rs (from_cursor r j))) capacity k → k ≤ distance r i
    not_after k first = ground (arith, first.before (distance r i), there)

-- A ready entry is not changed by a broadcast.
wake-ready : (e : RsEntry) (cdb : CdbMsg) → is_ready e ≡ true → wake_entry e cdb ≡ e
unfolding wake_entry wake_operand is_ready
wake-ready e cdb h = ground arith

woken-ready :
    (r : ReservationStation) (inputs : RsInputs) (d : RsDecision) (i : ℕ)
    → is_ready (r.cur_rs i) ≡ true
    → (d.selected_index != invalid_index && inputs.fu_available && d.selected_index == i) ≡ false
    → woken r inputs d i ≡ r.cur_rs i
unfolding woken
woken-ready r inputs d i ready h = ground (arith, wake-ready (r.cur_rs i) inputs.cdb ready)

-- The accepted entry goes to another slot.
apply-kept :
    (r : ReservationStation) (inputs : RsInputs) (d : RsDecision) (i : ℕ)
    → inputs.flush ≡ false
    → is_ready (r.cur_rs i) ≡ true
    → woken r inputs d i ≡ r.cur_rs i
    → ((apply r inputs d).0.next_rs i ≡ r.cur_rs i)
      × ((apply r inputs d).0.next_dispatch_cursor ≡ next_cursor r inputs d)
unfolding apply
apply-kept r inputs d i f ready e =
    if_keeps P inputs.flush (λ g. absurd cc)
      λ _.
        if_keeps P (inputs.issue_valid && find_free_index cells != invalid_index)
          (λ g. (elsewhere (ground arith) (find_free_lem cells), refl)) λ _. (e, refl)
  where
    cells : Array RsEntry
    cells = woken r inputs d

    P : ReservationStation × Bool → Type 0
    P o = (o.0.next_rs i ≡ r.cur_rs i) × (o.0.next_dispatch_cursor ≡ next_cursor r inputs d)

    busy : (cells i).busy ≡ true
    busy = unfold is_ready in ground (arith, e)

    elsewhere :
        (find_free_index cells ≢ invalid_index)
        → Finds (λ j. not (cells j).busy) (λ j. j) capacity (find_free_index cells)
        → update cells (find_free_index cells) (record (inputs.issue_entry) { busy = true }) i
          ≡ r.cur_rs i
    elsewhere g (inl (k, first, at)) = ground (arith, first.holds, busy)
    elsewhere g (inr (unfound, at)) = absurd (g at)

-- The decision for a selected slot.
abbrev chosen : ReservationStation → ℕ → RsDecision
chosen r i = record {
  dispatch = make_execute (r.cur_rs i);
  dispatch_valid = true;
  selected_index = i;
}

planned :
    (r : ReservationStation) (i : ℕ)
    → select_ready_index r ≡ i
    → i < capacity
    → plan r false ≡ chosen r i
unfolding plan
planned r i e h = ground (arith, e)

nearer :
    (c i k : ℕ)
    → c < capacity
    → i < capacity
    → k ≤ (i + capacity - c) % capacity
    → ((c + k) % capacity ≢ i)
    → (i + capacity - ((c + k) % capacity + 1) % capacity) % capacity
      < (i + capacity - c) % capacity
nearer c i k p q near other = omega arith

-- A ready entry, when the slot s at k places from the cursor is selected.
chosen-cycle :
    (r : ReservationStation) (inputs : RsInputs) (i k : ℕ)
    → r.dispatch_cursor < capacity
    → i < capacity
    → inputs.flush ≡ false
    → is_ready (r.cur_rs i) ≡ true
    → k ≤ distance r i
    → let s = from_cursor r k in
      let r' = latch (apply r inputs (chosen r s)).0 in
      ((inputs.fu_available ≡ true) × (make_execute (r.cur_rs s) ≡ make_execute (r.cur_rs i)))
      ⊎ ((r'.cur_rs i ≡ r.cur_rs i)
          × (if inputs.fu_available
              then distance r' i < distance r i
              else r'.dispatch_cursor ≡ r.dispatch_cursor))
unfolding latch next_cursor
chosen-cycle r inputs i k c h f ready near =
    let s = from_cursor r k in
    elim (Bool-cases (inputs.fu_available && s == i)) [
      | inl e ↦
          inl (ground arith, ap (λ j. make_execute (r.cur_rs j)) {x = s} {y = i} (ground arith))
      | inr e ↦
          let kept =
            apply-kept r inputs (chosen r s) i f ready
              (woken-ready r inputs (chosen r s) i ready (ground arith)) in
          inr (kept.0, moved (ground arith) kept.1)
    ]
  where
    s : ℕ
    s = from_cursor r k

    in_station : (s == invalid_index) ≡ false
    in_station = ground arith

    moved :
        (inputs.fu_available ≡ true → s ≢ i)
        → (apply r inputs (chosen r s)).0.next_dispatch_cursor ≡ next_cursor r inputs (chosen r s)
        → (if inputs.fu_available
            then distance (latch (apply r inputs (chosen r s)).0) i < distance r i
            else (latch (apply r inputs (chosen r s)).0).dispatch_cursor ≡ r.dispatch_cursor)
    moved other e = elim (Bool-cases inputs.fu_available) [
      | inl a ↦ rw (e, a, in_station) (nearer r.dispatch_cursor i k c h near (other a))
      | inr a ↦ rw (e, a, in_station) refl
    ]

-- In a cycle without a flush a ready instruction leaves for the functional unit, or stays in its slot
-- as it is; and if another one leaves instead, the cursor comes nearer to it. As it starts at most 15
-- slots from the cursor, at most 15 others leave before it.
pub ready-cycle :
    (r : ReservationStation) (inputs : RsInputs) (i : ℕ)
    → r.dispatch_cursor < capacity
    → i < capacity
    → inputs.flush ≡ false
    → is_ready (r.cur_rs i) ≡ true
    → ((plan r inputs.flush).dispatch_valid ≡ true)
      × (((leaves r inputs ≡ true) × ((plan r inputs.flush).dispatch ≡ make_execute (r.cur_rs i)))
          ⊎ (((cycle r inputs).cur_rs i ≡ r.cur_rs i)
              × (if leaves r inputs
                  then distance (cycle r inputs) i < distance r i
                  else (cycle r inputs).dispatch_cursor ≡ r.dispatch_cursor)))
unfolding cycle
ready-cycle r inputs i c h f ready =
    let (k, at, near, holds) = selects_by r i c h ready in
    let p : plan r inputs.flush ≡ chosen r (from_cursor r k) =
      ap (plan r) f ∙ planned r (from_cursor r k) at (omega arith) in
    rw p (refl, chosen-cycle r inputs i k c h f ready near)
