-- ===== src/Cpu/Writes.antt =====
-- src/tomasulo/cpu.cpp: where a change of the memory comes from.
use risc_v_cpu_simulator.Base.{
  ℕ, zero, suc, ◌<◌, ◌≡◌, ◌⊎◌, inl, inr, ◌∙◌, refl, sym, ap, arith, true, false, Bool-cases,
}
use mathlib.Core.Path.{subst}
use risc_v_cpu_simulator.MemoryUnit.{MemoryUnit, DataMemoryRequest, is_store_access}
use risc_v_cpu_simulator.MemoryUnit.Port.{cycle as memory_cycle}
use risc_v_cpu_simulator.MemoryUnit.Port.{effect}
use risc_v_cpu_simulator.MemoryUnit.Step.{cycle-IsStep}
use risc_v_cpu_simulator.ReorderBuffer.{front}
use risc_v_cpu_simulator.Cpu.State.{Cpu, is_running}
use risc_v_cpu_simulator.Cpu.Plan.{Plans}
use risc_v_cpu_simulator.Cpu.Inputs.{apply_inputs}
use risc_v_cpu_simulator.Cpu.Cycle.{cycle, begin, plans_of}
use risc_v_cpu_simulator.Cpu.Lockstep.{AreShuffled}
use risc_v_cpu_simulator.Cpu.AnyOrder.{running-lockstep, plans_of_lem}
use risc_v_cpu_simulator.Cpu.Seeds.{cycles, orders_kept}
use risc_v_cpu_simulator.Cpu.Commit.{IsStoreHead, stores_at_head}

-- A request that the load/store queue made in an earlier cycle, when the oldest instruction in flight
-- was the uncommitted store whose tag it has.
pub record IsAsked (c : Cpu) (n : ℕ) (r : DataMemoryRequest) : Type 0 where
  pub at : ℕ
  pub earlier : at < n
  pub request : (plans_of (begin (cycles at c))).lsq_decision.memory_request ≡ r
  pub head : IsStoreHead (front (cycles at c).rob) r.tag

-- A change of the memory from one cycle to the next is that of such a request.
pub record IsWritten (c : Cpu) (n : ℕ) : Type 0 where
  pub request : DataMemoryRequest
  pub store : is_store_access request.type ≡ true
  pub asked : IsAsked c n request
  pub written :
      (cycles (suc n) c).memory_unit.memory ≡ effect (cycles n c).memory_unit.memory request

cycles_next : (n : ℕ) (c : Cpu) → cycles (suc n) c ≡ cycle (cycles n c)
cycles_next zero c = refl
cycles_next (suc n) c = cycles_next n (cycle c)

cycles-AreShuffled : (n : ℕ) (c : Cpu) → AreShuffled c.orders → AreShuffled (cycles n c).orders
cycles-AreShuffled zero c h = h
cycles-AreShuffled (suc n) c h =
    cycles-AreShuffled n (cycle c) (subst AreShuffled (sym (orders_kept c h)) h)

-- The request of a cycle.
abbrev request : Cpu → DataMemoryRequest
request c = (plans_of (begin c)).lsq_decision.memory_request

-- The memory unit in a cycle.
unit_next :
    (c : Cpu)
    → AreShuffled c.orders
    → is_running c.status ≡ true
    → (cycle c).memory_unit ≡ memory_cycle c.memory_unit (request c)
unfolding memory_cycle apply_inputs
unit_next c h r =
    ap (λ (x : Cpu). x.memory_unit) (running-lockstep c h r)
    ∙ ap (λ (p : Plans). memory_cycle c.memory_unit p.lsq_decision.memory_request)
        (sym (plans_of_lem c h))

unit_kept : (c : Cpu) → is_running c.status ≡ false → (cycle c).memory_unit ≡ c.memory_unit
unfolding cycle
unit_kept c r = rw r refl

later : (c : Cpu) (n : ℕ) (r : DataMemoryRequest) → IsAsked c n r → IsAsked c (suc n) r
later c n r a = record {
  at = a.at;
  earlier = omega (arith, a.earlier);
  request = a.request;
  head = a.head;
}

-- A store that the memory works on was asked for.
abbrev Works : Cpu → ℕ → MemoryUnit → Type 0
Works c n u =
    u.current_transaction.valid ≡ true
    → is_store_access u.current_transaction.request.type ≡ true
    → IsAsked c n u.current_transaction.request

-- What a request of a cycle starts.
step-Works :
    (c : Cpu) (n : ℕ)
    → AreShuffled c.orders
    → Works c n (cycles n c).memory_unit
    → Works c (suc n) (memory_cycle (cycles n c).memory_unit (request (cycles n c)))
step-Works c n h w v s =
    let d = cycles n c in
    let u = d.memory_unit in
    let r = request d in
    let fair = cycles-AreShuffled n c h in
    elim ((cycle-IsStep u r).transaction v) [
      | inl (old, same) ↦ subst (IsAsked c (suc n)) (sym same) (
          later c n u.current_transaction.request
            (w old (sym (ap (λ (x : DataMemoryRequest). is_store_access x.type) same) ∙ s)))
      | inr (new, same) ↦ subst (IsAsked c (suc n)) (sym same) (record {
        at = n;
        earlier = omega arith;
        request = refl;
        head =
            stores_at_head d fair new
              (sym (ap (λ (x : DataMemoryRequest). is_store_access x.type) same) ∙ s);
      })
    ]

works :
    (c : Cpu)
    → AreShuffled c.orders
    → c.memory_unit.current_transaction.valid ≡ false
    → (n : ℕ) → Works c n (cycles n c).memory_unit
works c h idle zero = λ v s. absurd (cc (idle, v))
works c h idle (suc n) =
    let d = cycles n c in
    let before = works c h idle n in
    subst (λ (x : Cpu). Works c (suc n) x.memory_unit) (sym (cycles_next n c))
      (elim (Bool-cases (is_running d.status)) [
        | inl r ↦
            subst (Works c (suc n)) (sym (unit_next d (cycles-AreShuffled n c h) r))
              (step-Works c n h before)
        | inr r ↦ subst (Works c (suc n)) (sym (unit_kept d r)) (λ v s. later c n _ (before v s))
      ])

-- From a state in which the memory has no transaction, every cycle leaves the memory as it is or writes
-- one store to it, which the load/store queue asked for in an earlier cycle, and when it did, that store
-- was the oldest instruction in flight and had not committed.
pub writes_asked :
    (c : Cpu) (n : ℕ)
    → AreShuffled c.orders
    → c.memory_unit.current_transaction.valid ≡ false
    → ((cycles (suc n) c).memory_unit.memory ≡ (cycles n c).memory_unit.memory) ⊎ IsWritten c n
writes_asked c n h idle =
    let d = cycles n c in
    let u = d.memory_unit in
    let next = ap (λ (x : Cpu). x.memory_unit.memory) (cycles_next n c) in
    elim (Bool-cases (is_running d.status)) [
      | inr r ↦ inl (next ∙ ap (λ (x : MemoryUnit). x.memory) (unit_kept d r))
      | inl r ↦
          let unit =
            next ∙ ap (λ (x : MemoryUnit). x.memory) (unit_next d (cycles-AreShuffled n c h) r) in
          elim ((cycle-IsStep u (request d)).memory) [
            | inl same ↦ inl (unit ∙ same)
            | inr (v, s, e) ↦ inr (record {
              request = u.current_transaction.request;
              store = s;
              asked = works c h idle n v s;
              written = unit ∙ e;
            })
          ]
    ]
