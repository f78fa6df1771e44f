-- ===== src/CommonDataBus.antt =====
-- include/tomasulo/common_data_bus.hpp and src/tomasulo/common_data_bus.cpp: arbitration between
-- the integer unit and the loads, by turns when both have a result.
pub mod Arbitration
mod Tests
use risc_v_cpu_simulator.Base.{Bool, true, false, not, ◌||◌, ◌&&◌, if◌then◌else◌}
use risc_v_cpu_simulator.Signals.{CdbMsg, no_broadcast, FuResult, no_result}

pub data CdbSource : Type 0 where
  no_source integer_unit load_unit : CdbSource

pub record CdbInputs : Type 0 where
  pub integer_result : FuResult
  pub load_result : FuResult

pub record CdbOutputs : Type 0 where
  pub broadcast : CdbMsg
  pub completion : FuResult
  pub source : CdbSource
  pub integer_granted : Bool
  pub load_granted : Bool

abbrev pub no_outputs : CdbOutputs
no_outputs = record {
  broadcast = no_broadcast;
  completion = no_result;
  source = no_source;
  integer_granted = false;
  load_granted = false;
}

pub record CdbDecision : Type 0 where
  pub outputs : CdbOutputs
  pub next_prefer_load : Bool

pub record CommonDataBus : Type 0 where
  pub prefer_load : Bool
  pub next_prefer_load : Bool

abbrev pub reset : CommonDataBus
reset = record { prefer_load = false; next_prefer_load = false }

unfoldable pub latch : CommonDataBus → CommonDataBus
latch c = record c { prefer_load = c.next_prefer_load }

unfoldable pub valid_candidate : FuResult → Bool
valid_candidate r = if not r.valid || not r.tag.valid then false else true

unfoldable pub select_integer : FuResult → CdbOutputs
select_integer r = record {
  broadcast = record { tag = r.tag; value = r.result; valid = true };
  completion = r;
  source = integer_unit;
  integer_granted = true;
  load_granted = false;
}

unfoldable pub select_load : FuResult → CdbOutputs
select_load r = record {
  broadcast = record { tag = r.tag; value = r.result; valid = true };
  completion = r;
  source = load_unit;
  integer_granted = false;
  load_granted = true;
}

abbrev to_integer : CdbInputs → CdbDecision
to_integer i = record { outputs = select_integer i.integer_result; next_prefer_load = true }

abbrev to_load : CdbInputs → CdbDecision
to_load i = record { outputs = select_load i.load_result; next_prefer_load = false }

unfoldable pub plan : CommonDataBus → CdbInputs → CdbDecision
plan c i =
    let integer_valid = valid_candidate i.integer_result in
    let load_valid = valid_candidate i.load_result in
    if not integer_valid && not load_valid
    then record { outputs = no_outputs; next_prefer_load = c.prefer_load }
    else (if integer_valid && load_valid
        then (if c.prefer_load then to_load i else to_integer i)
        else (if integer_valid then to_integer i else to_load i))

unfoldable pub apply : CommonDataBus → CdbDecision → CommonDataBus
apply c d = record c { next_prefer_load = d.next_prefer_load }
