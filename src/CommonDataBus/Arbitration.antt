-- ===== src/CommonDataBus/Arbitration.antt =====
-- src/tomasulo/common_data_bus.cpp: who gets the bus, and that nobody waits for ever.
use risc_v_cpu_simulator.Base.{◌≡◌, ◌⊎◌, arith, true, false, ◌&&◌, ◌||◌}
use risc_v_cpu_simulator.Signals.{FuResult}
use risc_v_cpu_simulator.CommonDataBus.{
  CommonDataBus, CdbInputs, valid_candidate, plan, apply, latch,
}
use risc_v_cpu_simulator.CommonDataBus.{select_integer, select_load}

-- The result that a grant sends out.
abbrev Sends : CommonDataBus → CdbInputs → FuResult → Type 0
Sends c i r =
    let o = (plan c i).outputs in
    (o.completion ≡ r)
    × (o.broadcast.valid ≡ true)
    × (o.broadcast.tag ≡ r.tag)
    × (o.broadcast.value ≡ r.result)

-- The bus broadcasts exactly when a candidate is valid, grants at most one source, grants only a
-- valid candidate, and broadcasts the result of the source that it grants.
pub plan_lem :
    (c : CommonDataBus) (i : CdbInputs)
    → let o = (plan c i).outputs in
      (o.broadcast.valid ≡ (valid_candidate i.integer_result || valid_candidate i.load_result))
      × ((o.integer_granted || o.load_granted) ≡ o.broadcast.valid)
      × ((o.integer_granted && o.load_granted) ≡ false)
      × (o.integer_granted ≡ true
          → (valid_candidate i.integer_result ≡ true) × Sends c i i.integer_result)
      × (o.load_granted ≡ true → (valid_candidate i.load_result ≡ true) × Sends c i i.load_result)
unfolding plan select_integer select_load
plan_lem c i = (ground arith, ground arith, ground arith, λ h. ground arith, λ h. ground arith)

-- The bus after a cycle with these inputs.
unfoldable pub cycle : CommonDataBus → CdbInputs → CommonDataBus
cycle c i = latch (apply c (plan c i))

-- A candidate that stays valid is granted in this cycle or in the next, whatever the other does.
pub waits_one_cycle :
    (c : CommonDataBus) (i j : CdbInputs)
    → (valid_candidate i.integer_result ≡ true
        → valid_candidate j.integer_result ≡ true
        → ((plan c i).outputs.integer_granted ≡ true)
          ⊎ ((plan (cycle c i) j).outputs.integer_granted ≡ true))
      × (valid_candidate i.load_result ≡ true
          → valid_candidate j.load_result ≡ true
          → ((plan c i).outputs.load_granted ≡ true)
            ⊎ ((plan (cycle c i) j).outputs.load_granted ≡ true))
unfolding cycle latch apply plan select_integer select_load
waits_one_cycle c i j = (λ p q. ground arith, λ p q. ground arith)
