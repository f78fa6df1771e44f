-- ===== src/Cpu/Seeds.antt =====
-- The constructor of src/tomasulo/cpu.cpp: the orders that it draws, and their seed.
use risc_v_cpu_simulator.Base.{
  ℕ, zero, suc, ◌+◌, ◌<◌, ◌≡◌, inl, inr, refl, sym, ap, ◌∙◌, arith, ◌==◌, if◌then◌else◌, if_keeps,
  Bool-cases, List, Array, update,
}
use mathlib.Core.List.{Perm}
use mathlib.Core.Path.{subst}
use risc_v_cpu_simulator.Image.{Token, FromChars, Input}
use risc_v_cpu_simulator.Cpu.State.{
  Cpu, is_running, Orders, no_orders, base_plan, base_apply, base_latch, order_variant_count,
}
use risc_v_cpu_simulator.Cpu.State.{
  shuffle_orders, shuffle_from, initialize_execution_orders, new_cpu, load,
}
use risc_v_cpu_simulator.Cpu.Plan.{
  observe, fetches, fetch_and_decoded, issue_inputs, preview_rob, bus_inputs, decode_fetched,
  predicted_next_pc, source_state,
}
use risc_v_cpu_simulator.Cpu.Inputs.{apply_inputs, next_pc_of, next_fetch_stopped_of}
use risc_v_cpu_simulator.Cpu.Cycle.{cycle, next_status_of}
use risc_v_cpu_simulator.Cpu.Lockstep.{AreShuffled, lockstep}
use risc_v_cpu_simulator.Cpu.AnyOrder.{cycle-lockstep}

abbrev pub cycles : ℕ → Cpu → Cpu
cycles zero c = c
cycles (suc n) c = cycles n (cycle c)

abbrev pub with_orders : Orders → Cpu → Cpu
with_orders o c = record c { orders = o }

-- The orders below an index are fair.
record AreShuffledBelow (n : ℕ) (o : Orders) : Type 0 where
  plan : (k : ℕ) → k < n → Perm (o.plan_orders k) base_plan
  apply : (k : ℕ) → k < n → Perm (o.apply_orders k) base_apply
  latch : (k : ℕ) → k < n → Perm (o.latch_orders k) base_latch

-- A new entry of a table below whose index all entries have a property.
update_below :
    {A : Type 0} (P : A → Type 0) (f : Array A) (n : ℕ) (x : A)
    → ((k : ℕ) → k < n → P (f k))
    → P x
    → (k : ℕ) → k < n + 1
    → P (update f n x k)
update_below P f n x h new k l = if_keeps P (n == k) (λ _. new) (λ e. h k (ground arith))

module _ (Engine : Type 0) (shuffle : (A : Type 0) → List A → Engine → List A × Engine)
    (permutes : (A : Type 0) (xs : List A) (e : Engine) → Perm (shuffle A xs e).0 xs) where
  shuffle_orders-AreShuffledBelow :
      (n : ℕ) (o : Orders) (e : Engine)
      → AreShuffledBelow n o
      → AreShuffledBelow (n + 1) (shuffle_orders Engine shuffle n o e).0
  unfolding shuffle_orders
  shuffle_orders-AreShuffledBelow n o e h = record {
    plan = update_below (λ l. Perm l base_plan) o.plan_orders n _ h.plan (permutes _ _ _);
    apply = update_below (λ l. Perm l base_apply) o.apply_orders n _ h.apply (permutes _ _ _);
    latch = update_below (λ l. Perm l base_latch) o.latch_orders n _ h.latch (permutes _ _ _);
  }

  shuffle_from-AreShuffledBelow :
      (left n : ℕ) (o : Orders) (e : Engine)
      → AreShuffledBelow n o
      → AreShuffledBelow (left + n) (shuffle_from Engine shuffle left n o e)
  unfolding shuffle_from
  shuffle_from-AreShuffledBelow zero n o e h = subst (λ m. AreShuffledBelow m o) (omega arith) h
  shuffle_from-AreShuffledBelow (suc left) n o e h =
      let r = shuffle_orders Engine shuffle n o e in
      subst (λ m. AreShuffledBelow m (shuffle_from Engine shuffle left (n + 1) r.0 r.1))
        (omega arith)
        (shuffle_from-AreShuffledBelow left (n + 1) r.0 r.1
          (shuffle_orders-AreShuffledBelow n o e h))

  -- If the library's shuffle permutes, every order that the constructor draws has each module once.
  pub initialize-AreShuffled :
      (e : Engine) → AreShuffled (initialize_execution_orders Engine shuffle e)
  unfolding initialize_execution_orders
  initialize-AreShuffled e =
      let h : AreShuffledBelow order_variant_count
          (shuffle_from Engine shuffle order_variant_count 0 no_orders e) =
        shuffle_from-AreShuffledBelow order_variant_count 0 no_orders e (record {
          plan = λ k l. absurd (omega arith);
          apply = λ k l. absurd (omega arith);
          latch = λ k l. absurd (omega arith);
        }) in
      record { plan = h.plan; apply = h.apply; latch = h.latch }

-- The cycle with other orders.
lockstep-orders : (o : Orders) (c : Cpu) → lockstep (with_orders o c) ≡ with_orders o (lockstep c)
unfolding observe preview_rob bus_inputs fetches fetch_and_decoded decode_fetched predicted_next_pc
    issue_inputs source_state apply_inputs next_pc_of next_fetch_stopped_of next_status_of
lockstep-orders o c = refl

cycle-orders :
    (o : Orders) (c : Cpu)
    → AreShuffled o
    → AreShuffled c.orders
    → cycle (with_orders o c) ≡ with_orders o (cycle c)
cycle-orders o c h g =
    cycle-lockstep (with_orders o c) h ∙ both ∙ ap (with_orders o) (sym (cycle-lockstep c g))
  where
    both :
        (if is_running c.status then lockstep (with_orders o c) else with_orders o c)
        ≡ with_orders o (if is_running c.status then lockstep c else c)
    both = elim (Bool-cases (is_running c.status)) [
      | inl e ↦ rw e (lockstep-orders o c)
      | inr e ↦ rw e refl
    ]

pub orders_kept : (c : Cpu) → AreShuffled c.orders → (cycle c).orders ≡ c.orders
orders_kept c h =
    ap (λ (x : Cpu). x.orders) (cycle-lockstep c h)
    ∙ if_keeps (λ (x : Cpu). x.orders ≡ c.orders) (is_running c.status) (λ _. refl) (λ _. refl)

cycles-orders :
    (n : ℕ) (o : Orders) (c : Cpu)
    → AreShuffled o
    → AreShuffled c.orders
    → cycles n (with_orders o c) ≡ with_orders o (cycles n c)
cycles-orders zero o c h g = refl
cycles-orders (suc n) o c h g =
    ap (cycles n) (cycle-orders o c h g)
    ∙ cycles-orders n o (cycle c) h (subst AreShuffled (sym (orders_kept c g)) g)

module _ (Engine : Type 0) (shuffle : (A : Type 0) → List A → Engine → List A × Engine)
    (permutes : (A : Type 0) (xs : List A) (e : Engine) → Perm (shuffle A xs e).0 xs)
    (from_chars : Token → FromChars) where
  -- The processor that a seed constructs, with a program loaded.
  abbrev started : Engine → Input → Cpu
  started e input =
      (load from_chars (new_cpu (initialize_execution_orders Engine shuffle e)) input).0

  load-orders : (o : Orders) (input : Input) → (load from_chars (new_cpu o) input).0.orders ≡ o
  unfolding load
  load-orders o input = refl

  started-orders :
      (e f : Engine) (input : Input)
      → started e input
        ≡ with_orders (initialize_execution_orders Engine shuffle e) (started f input)
  unfolding load
  started-orders e f input = refl

  -- If the library's shuffle permutes, two seeds give the same machine: after any number of cycles on
  -- any program the processors agree in everything but their tables of orders.
  pub seeds_agree :
      (e f : Engine) (input : Input) (n : ℕ)
      → with_orders no_orders (cycles n (started e input))
        ≡ with_orders no_orders (cycles n (started f input))
  seeds_agree e f input n =
      let fair = initialize-AreShuffled Engine shuffle permutes in
      let o = initialize_execution_orders Engine shuffle e in
      ap (λ (c : Cpu). with_orders no_orders (cycles n c)) (started-orders e f input)
      ∙ ap (with_orders no_orders) (
          cycles-orders n o (started f input) (fair e) (
            subst AreShuffled
              (sym (load-orders (initialize_execution_orders Engine shuffle f) input)) (fair f)))
