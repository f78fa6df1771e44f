-- ===== src/ReservationStation/Tests.antt =====
-- The reservation station with one addition.
use risc_v_cpu_simulator.Base.{
  ◌+◌, ◌<◌, ◌≡◌, ◌⊎◌, refl, arith, true, false, if◌then◌else◌, update, fill,
}
use risc_v_cpu_simulator.Instruction.{add}
use risc_v_cpu_simulator.Signals.{no_broadcast}
use risc_v_cpu_simulator.ReservationStation.{
  RsEntry, no_entry, RsInputs, ReservationStation, reset, size, available,
}
use risc_v_cpu_simulator.ReservationStation.{plan, is_ready, make_execute}
use risc_v_cpu_simulator.ReservationStation.Slots.{cycle, leaves, accepts, size-cycle}
use risc_v_cpu_simulator.ReservationStation.Wake.{distance, ready-cycle}

abbrev addition : RsEntry
addition = record no_entry {
  op = add;
  destination = record { index = 0; generation = 1; valid = true };
  lhs = record {
    value = 2;
    tag = record { index = 0; generation = 0; valid = false };
    ready = true;
  };
  rhs = record {
    value = 3;
    tag = record { index = 0; generation = 0; valid = false };
    ready = true;
  };
}

abbrev issue_addition : RsInputs
issue_addition = record {
  issue_entry = addition;
  issue_valid = true;
  cdb = no_broadcast;
  fu_available = true;
  flush = false;
}

-- The addition waits in slot 3.
abbrev loaded : ReservationStation
loaded = record reset { cur_rs = update (fill no_entry) 3 (record addition { busy = true }) }

size-cycle_example :
    (size (cycle loaded issue_addition) + (if leaves loaded issue_addition then 1 else 0)
      ≡ size loaded + (if accepts loaded issue_addition then 1 else 0))
    × (available loaded ≡ true → accepts loaded issue_addition ≡ true)
size-cycle_example = (size-cycle loaded issue_addition).0 refl

ready-cycle_example :
    ((plan loaded false).dispatch_valid ≡ true)
    × (((leaves loaded issue_addition ≡ true)
          × ((plan loaded false).dispatch ≡ make_execute (record addition { busy = true })))
        ⊎ (((cycle loaded issue_addition).cur_rs 3 ≡ record addition { busy = true })
            × (if leaves loaded issue_addition
                then distance (cycle loaded issue_addition) 3 < 3
                else (cycle loaded issue_addition).dispatch_cursor ≡ 0)))
unfolding is_ready
ready-cycle_example = ready-cycle loaded issue_addition 3 (omega arith) (omega arith) refl refl
