-- ===== src/FunctionalUnit/Hold.antt =====
-- src/tomasulo/functional_unit.cpp: the result register holds its result until it is granted.
use risc_v_cpu_simulator.Base.{◌≡◌, arith, Bool, not, ◌&&◌, ◌||◌, if◌then◌else◌}
use risc_v_cpu_simulator.Signals.{Execute, no_result}
use risc_v_cpu_simulator.FunctionalUnit.{
  FunctionalUnit, apply, latch, can_accept, execute_instruction,
}

-- A cycle of the unit, with its result register after the clock edge. A flush empties it. Otherwise
-- a valid instruction that the unit computes is accepted exactly when the register is free or its
-- result is granted, and its result then stands there; with no such instruction the register is
-- emptied by a grant and else keeps its result. So a result that is not granted is never lost.
pub latch-apply :
    (u : FunctionalUnit) (e : Execute) (flush granted : Bool)
    → let (u', accepted) = apply u e flush granted in
      let computes = e.valid && (execute_instruction e).valid in
      (accepted ≡ (not flush && computes && (granted || not u.current_result.valid)))
      × ((latch u').current_result ≡ (
          if flush
          then no_result
          else (if accepted
              then execute_instruction e
              else (if granted && u.current_result.valid then no_result else u.current_result))))
unfolding apply latch can_accept
latch-apply u e flush granted = (ground arith, ground arith)
