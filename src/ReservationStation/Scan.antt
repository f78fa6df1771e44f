-- ===== src/ReservationStation/Scan.antt =====
-- The loops of src/tomasulo/reservation_station.cpp that look for a slot find the first that fits.
use risc_v_cpu_simulator.Base.{
  ℕ, zero, suc, ◌+◌, ◌%◌, ◌<◌, ◌≡◌, ◌⊎◌, inl, inr, refl, ap, ap₂, ◌∙◌, arith, Bool, true, false,
  not,
}
use risc_v_cpu_simulator.Base.{if◌then◌else◌, Array, Bool-cases}
use mathlib.Core.Path.{subst}
use risc_v_cpu_simulator.ReservationStation.{RsEntry, ReservationStation, capacity, invalid_index}
use risc_v_cpu_simulator.ReservationStation.{
  find_free_from, find_free_index, is_ready, select_from, select_ready_index,
}

abbrev pub NoneOf : (ℕ → Bool) → ℕ → Type 0
NoneOf test n = (j : ℕ) → j < n → test j ≡ false

-- The first of n places at which a test holds.
pub record IsFirst (test : ℕ → Bool) (n k : ℕ) : Type 0 where
  pub within : k < n
  pub holds : test k ≡ true
  pub before : NoneOf test k

-- A search gives the place of the first hit, or fails if there is none.
abbrev pub Finds : (ℕ → Bool) → (ℕ → ℕ) → ℕ → ℕ → Type 0
Finds test place n found =
    ((k : ℕ) × IsFirst test n k × (found ≡ place k)) ⊎ (NoneOf test n × (found ≡ invalid_index))

-- One place more in front of a search.
Finds-suc :
    (test : ℕ → Bool) (place : ℕ → ℕ) (n rest : ℕ)
    → Finds (λ j. test (suc j)) (λ j. place (suc j)) n rest
    → Finds test place (suc n) (if test 0 then place 0 else rest)
Finds-suc test place n rest f = elim (Bool-cases (test 0)) [
  | inl e ↦ rw e (
      inl
        (0, record { within = omega arith; holds = e; before = λ j h. absurd (omega arith) }, refl))
  | inr e ↦ rw e (later e f)
]
  where
    shifted : (m : ℕ) → test 0 ≡ false → NoneOf (λ j. test (suc j)) m → NoneOf test (suc m)
    shifted m e h zero p = e
    shifted m e h (suc j) p = h j (omega arith)

    later :
        test 0 ≡ false
        → Finds (λ j. test (suc j)) (λ j. place (suc j)) n rest
        → Finds test place (suc n) rest
    later e (inl (k, first, at)) = inl (
      suc k,
      record {
        within = omega (arith, first.within);
        holds = first.holds;
        before = shifted k e first.before;
      },
      at,
    )
    later e (inr (unfound, at)) = inr (shifted n e unfound, at)

free_from :
    (cells : Array RsEntry) (n index : ℕ) (test : ℕ → Bool) (place : ℕ → ℕ)
    → ((j : ℕ) → place j ≡ index + j)
    → ((j : ℕ) → test j ≡ not (cells (place j)).busy)
    → Finds test place n (find_free_from cells n index)
unfolding find_free_from
free_from cells zero index test place p t = inr ((λ j h. absurd (omega arith)), refl)
free_from cells (suc n) index test place p t =
    subst (Finds test place (suc n))
      (ap₂ (λ b i. if b then i else find_free_from cells n (index + 1)) first_test at_first)
      (Finds-suc test place n (find_free_from cells n (index + 1)) (
        free_from cells n (index + 1) (λ j. test (suc j)) (λ j. place (suc j))
          (λ j. omega (arith, p (suc j))) λ j. t (suc j)))
  where
    at_first : place 0 ≡ index
    at_first = omega (arith, p 0)

    first_test : test 0 ≡ not (cells index).busy
    first_test = t 0 ∙ ap (λ i. not (cells i).busy) at_first

-- The first free slot.
pub find_free_lem :
    (cells : Array RsEntry)
    → Finds (λ j. not (cells j).busy) (λ j. j) capacity (find_free_index cells)
unfolding find_free_index
find_free_lem cells =
    free_from cells capacity 0 (λ j. not (cells j).busy) (λ j. j) (λ j. omega arith) λ j. refl

-- The slot j places after the cursor.
abbrev pub from_cursor : ReservationStation → ℕ → ℕ
from_cursor r j = (r.dispatch_cursor + j) % capacity

select_at :
    (r : ReservationStation) (n offset : ℕ) (test : ℕ → Bool) (place : ℕ → ℕ)
    → ((j : ℕ) → place j ≡ from_cursor r (offset + j))
    → ((j : ℕ) → test j ≡ is_ready (r.cur_rs (place j)))
    → Finds test place n (select_from r n offset)
unfolding select_from
select_at r zero offset test place p t = inr ((λ j h. absurd (omega arith)), refl)
select_at r (suc n) offset test place p t =
    rw (← at_first, ← first_test)
      (Finds-suc test place n (select_from r n (offset + 1)) (
        select_at r n (offset + 1) (λ j. test (suc j)) (λ j. place (suc j))
          (λ j. omega (arith, p (suc j))) λ j. t (suc j)))
  where
    at_first : place 0 ≡ from_cursor r offset
    at_first = omega (arith, p 0)

    first_test : test 0 ≡ is_ready (r.cur_rs (place 0))
    first_test = t 0

-- The first ready slot from the cursor on, going round.
pub select_lem :
    (r : ReservationStation)
    → Finds
        (λ j. is_ready (r.cur_rs (from_cursor r j)))
        (from_cursor r)
        capacity
        (select_ready_index r)
unfolding select_ready_index
select_lem r =
    select_at r capacity 0 (λ j. is_ready (r.cur_rs (from_cursor r j))) (from_cursor r)
      (λ j. omega arith) λ j. refl
