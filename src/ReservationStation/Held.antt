-- ===== src/ReservationStation/Held.antt =====
-- src/tomasulo/reservation_station.cpp: what holds of all operations that are issued holds of all that
-- wait.
use risc_v_cpu_simulator.Base.{
  ℕ, ◌<◌, ◌≡◌, arith, Bool, true, false, ◌&&◌, ◌==◌, ◌!=◌, if_keeps, Array,
}
use risc_v_cpu_simulator.Instruction.{Op}
use risc_v_cpu_simulator.ReservationStation.{
  RsEntry, RsInputs, ReservationStation, capacity, invalid_index,
}
use risc_v_cpu_simulator.ReservationStation.{
  find_free_index, wake_entry, woken, next_cursor, apply, plan, latch,
}
use risc_v_cpu_simulator.ReservationStation.Slots.{cycle}

-- Every busy slot holds an operation that passes a test.
abbrev pub Holds : (Op → Bool) → Array RsEntry → Type 0
Holds ok cells = (i : ℕ) → (cells i).busy ≡ true → ok (cells i).op ≡ true

-- What is true of the entries that wait once they have heard the bus, and of an issued entry, is true of
-- all entries after the cycle.
pub cycle-keeps :
    (P : RsEntry → Type 0) (r : ReservationStation) (inputs : RsInputs)
    → ((i : ℕ)
        → (r.cur_rs i).busy ≡ true
        → inputs.flush ≡ false
        → P (wake_entry (r.cur_rs i) inputs.cdb))
    → (inputs.issue_valid ≡ true → P (record (inputs.issue_entry) { busy = true }))
    → (i : ℕ) → ((cycle r inputs).cur_rs i).busy ≡ true
    → P ((cycle r inputs).cur_rs i)
unfolding cycle apply latch woken wake_entry
cycle-keeps P r inputs v issue i =
    if_keeps Q inputs.flush (λ _ h. absurd cc)
      λ f.
        if_keeps Q (inputs.issue_valid && free != invalid_index)
          (λ e. if_keeps R (free == i) (λ _ _. issue (ground arith)) (λ _. waiting f))
          λ _. waiting f
  where
    R : RsEntry → Type 0
    R e = e.busy ≡ true → P e

    Q : ReservationStation × Bool → Type 0
    Q o = R (o.0.next_rs i)

    free : ℕ
    free = find_free_index (woken r inputs (plan r inputs.flush))

    waiting : inputs.flush ≡ false → R (woken r inputs (plan r inputs.flush) i)
    waiting f =
        if_keeps (λ (cells : Array RsEntry). R (cells i))
          ((plan r inputs.flush).selected_index != invalid_index && inputs.fu_available)
          (λ _.
            if_keeps R ((plan r inputs.flush).selected_index == i) (λ _ h. absurd cc) (λ _. heard))
          λ _. heard
      where
        heard : R (wake_entry (r.cur_rs i) inputs.cdb)
        heard h = v i (ground arith) f

pub cycle-Holds :
    (ok : Op → Bool) (r : ReservationStation) (inputs : RsInputs)
    → Holds ok r.cur_rs
    → (inputs.issue_valid ≡ true → ok inputs.issue_entry.op ≡ true)
    → Holds ok (cycle r inputs).cur_rs
unfolding wake_entry
cycle-Holds ok r inputs v issue =
    cycle-keeps (λ e. ok e.op ≡ true) r inputs (λ i busy _. ground (arith, v i busy)) issue

-- The cursor stays in the station.
pub cycle-cursor :
    (r : ReservationStation) (inputs : RsInputs)
    → r.dispatch_cursor < capacity
    → (cycle r inputs).dispatch_cursor < capacity
unfolding cycle apply latch next_cursor
cycle-cursor r inputs h = ground arith
