-- ===== src/ReservationStation/Slots.antt =====
-- src/tomasulo/reservation_station.cpp: what a cycle does to the number of waiting instructions.
use risc_v_cpu_simulator.Base.{
  ℕ, zero, suc, ◌+◌, ◌<◌, ◌≤◌, ◌≡◌, ◌≢◌, inl, inr, refl, arith, Bool, true, false, not,
}
use risc_v_cpu_simulator.Base.{
  ◌&&◌, ◌==◌, ◌!=◌, if◌then◌else◌, Array, update, fill, Bool-cases, if_keeps,
}
use risc_v_cpu_simulator.Signals.{CdbMsg}
use risc_v_cpu_simulator.ReservationStation.{
  RsEntry, no_entry, RsInputs, RsDecision, ReservationStation, capacity,
}
use risc_v_cpu_simulator.ReservationStation.{
  invalid_index, find_free_index, full, available, is_ready,
}
use risc_v_cpu_simulator.ReservationStation.{select_ready_index, wake_entry, plan, woken}
use risc_v_cpu_simulator.ReservationStation.{apply, latch, count_busy, size}
use risc_v_cpu_simulator.ReservationStation.Scan.{find_free_lem, select_lem}

abbrev weight : RsEntry → ℕ
weight e = if e.busy then 1 else 0

count-outside :
    (n : ℕ) (cells : Array RsEntry) (i : ℕ) (e : RsEntry)
    → n ≤ i
    → count_busy n (update cells i e) ≡ count_busy n cells
unfolding count_busy
count-outside zero cells i e h = refl
count-outside (suc n) cells i e h = ground (arith, count-outside n cells i e (omega arith))

count-update :
    (n : ℕ) (cells : Array RsEntry) (i : ℕ) (e : RsEntry)
    → i < n
    → count_busy n (update cells i e) + weight (cells i) ≡ count_busy n cells + weight e
unfolding count_busy
count-update zero cells i e h = absurd (omega arith)
count-update (suc n) cells i e h = elim (Bool-cases (i == n)) [
  | inl p ↦ ground (arith, count-outside n cells i e)
  | inr p ↦ ground (arith, count-update n cells i e)
]

-- Waking leaves every slot as busy as it was.
count-wake :
    (n : ℕ) (cells : Array RsEntry) (cdb : CdbMsg)
    → count_busy n (λ i. wake_entry (cells i) cdb) ≡ count_busy n cells
unfolding count_busy wake_entry
count-wake zero cells cdb = refl
count-wake (suc n) cells cdb = ground (arith, count-wake n cells cdb)

count-fill : (n : ℕ) → count_busy n (fill no_entry) ≡ 0
unfolding count_busy
count-fill zero = refl
count-fill (suc n) = omega (arith, count-fill n)

-- A cycle: the station's own decision, then `apply` and the clock edge.
unfoldable pub cycle : ReservationStation → RsInputs → ReservationStation
cycle r inputs = latch (apply r inputs (plan r inputs.flush)).0

-- Whether an instruction leaves for the functional unit.
abbrev pub leaves : ReservationStation → RsInputs → Bool
leaves r inputs = (plan r inputs.flush).dispatch_valid && inputs.fu_available

abbrev pub accepts : ReservationStation → RsInputs → Bool
accepts r inputs = (apply r inputs (plan r inputs.flush)).1

-- The selected slot, if there is one, holds a ready entry.
pub selected-IsReady :
    (r : ReservationStation)
    → (select_ready_index r ≢ invalid_index)
    → (select_ready_index r < capacity) × (is_ready (r.cur_rs (select_ready_index r)) ≡ true)
selected-IsReady r h = elim (select_lem r) [
  | inl (k, first, at) ↦ rw at (omega arith, first.holds)
  | inr (unfound, at) ↦ absurd (h at)
]

wake-weight : (e : RsEntry) (cdb : CdbMsg) → is_ready e ≡ true → weight (wake_entry e cdb) ≡ 1
unfolding wake_entry is_ready
wake-weight e cdb h = ground arith

woken-count :
    (r : ReservationStation) (inputs : RsInputs)
    → count_busy capacity (woken r inputs (plan r inputs.flush))
        + (if leaves r inputs then 1 else 0)
      ≡ size r
unfolding woken plan size
woken-count r inputs = elim (Bool-cases inputs.flush) [
  | inl f ↦ rw f (omega (arith, count-wake capacity r.cur_rs inputs.cdb))
  | inr f ↦ elim (Bool-cases (select_ready_index r == invalid_index)) [
    | inl e ↦ rw (f, e) (omega (arith, count-wake capacity r.cur_rs inputs.cdb))
    | inr e ↦ elim (Bool-cases inputs.fu_available) [
      | inl a ↦ rw (f, e, e, a) (sent (selected-IsReady r (ground arith)))
      | inr a ↦ rw (f, e, e, a) (omega (arith, count-wake capacity r.cur_rs inputs.cdb))
    ]
  ]
]
  where
    i : ℕ
    i = select_ready_index r

    awake : Array RsEntry
    awake = λ j. wake_entry (r.cur_rs j) inputs.cdb

    sent :
        (i < capacity) × (is_ready (r.cur_rs i) ≡ true)
        → count_busy capacity (update awake i no_entry) + 1 ≡ count_busy capacity r.cur_rs
    sent (h, ready) = omega (
      arith,
      count-update capacity awake i no_entry h,
      count-wake capacity r.cur_rs inputs.cdb,
      wake-weight (r.cur_rs i) inputs.cdb ready,
    )

joined-count :
    (cells : Array RsEntry) (e : RsEntry)
    → e.busy ≡ true
    → (find_free_index cells ≢ invalid_index)
    → count_busy capacity (update cells (find_free_index cells) e) ≡ count_busy capacity cells + 1
joined-count cells e busy h = elim (find_free_lem cells) [
  | inl (k, first, at) ↦
      rw at (ground (arith, count-update capacity cells k e, first.holds, first.within))
  | inr (unfound, at) ↦ absurd (h at)
]

still_free :
    (r : ReservationStation) (inputs : RsInputs) (d : RsDecision) (k : ℕ)
    → not (r.cur_rs k).busy ≡ true
    → not (woken r inputs d k).busy ≡ true
unfolding woken wake_entry
still_free r inputs d k h = ground arith

-- A station that reports itself available has a free slot when the issue is made.
free_later :
    (r : ReservationStation) (inputs : RsInputs)
    → available r ≡ true
    → find_free_index (woken r inputs (plan r inputs.flush)) ≢ invalid_index
unfolding available full
free_later r inputs h e = elim (find_free_lem r.cur_rs) [
  | inr (unfound, at) ↦ absurd (ground (arith, at))
  | inl (k, first, at) ↦ elim (find_free_lem (woken r inputs (plan r inputs.flush))) [
    | inl (l, last, at') ↦ absurd (omega (arith, last.within))
    | inr (unfound, at') ↦
        absurd
          (cc (unfound k first.within, still_free r inputs (plan r inputs.flush) k first.holds))
  ]
]

-- Without a flush `apply` adds an accepted entry to what the wake-up and the dispatch leave.
apply-count :
    (r : ReservationStation) (inputs : RsInputs) (d : RsDecision)
    → inputs.flush ≡ false
    → let o = apply r inputs d in
      count_busy capacity o.0.next_rs
      ≡ count_busy capacity (woken r inputs d) + (if o.1 then 1 else 0)
unfolding apply
apply-count r inputs d f =
    if_keeps P inputs.flush (λ e. absurd cc)
      λ _.
        if_keeps P (inputs.issue_valid && find_free_index cells != invalid_index)
          (λ e.
            joined-count cells (record (inputs.issue_entry) { busy = true }) refl (ground arith))
          λ _. omega arith
  where
    cells : Array RsEntry
    cells = woken r inputs d

    P : ReservationStation × Bool → Type 0
    P o = count_busy capacity o.0.next_rs ≡ count_busy capacity cells + (if o.1 then 1 else 0)

-- Without a flush a cycle sends at most one instruction and accepts at most one, and the number of
-- waiting instructions changes by these; an issue is accepted whenever the station had reported
-- itself available. A flush empties the station and accepts nothing.
pub size-cycle :
    (r : ReservationStation) (inputs : RsInputs)
    → (inputs.flush ≡ false
        → (size (cycle r inputs) + (if leaves r inputs then 1 else 0)
            ≡ size r + (if accepts r inputs then 1 else 0))
          × (available r ≡ true → accepts r inputs ≡ inputs.issue_valid))
      × (inputs.flush ≡ true → (size (cycle r inputs) ≡ 0) × (accepts r inputs ≡ false))
unfolding cycle latch apply size
size-cycle r inputs = (
  λ f. (
    omega (arith, apply-count r inputs (plan r inputs.flush) f, woken-count r inputs),
    λ h. ground (arith, free_later r inputs h),
  ),
  λ f. rw f (count-fill capacity, refl),
)
