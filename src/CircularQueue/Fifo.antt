-- ===== src/CircularQueue/Fifo.antt =====
-- include/common/circular_queue.hpp as a bounded queue, first in, first out.
use risc_v_cpu_simulator.Base.{
  ℕ, zero, suc, ◌+◌, ◌-◌, ◌%◌, ◌<◌, ◌≤◌, ◌≡◌, ◌∙◌, refl, sym, ap, ap₂, arith, Bool, true, false,
  ◌==◌, ltb, if◌then◌else◌, if_keeps, Array, update, List, [], ◌∷◌, ◌++◌,
}
use mathlib.Core.Path.{subst}
use native.Mathlib.Nat.{mod-lt, mod-add-mod, mod-eq_of_lt}
use risc_v_cpu_simulator.Base.{◌^◌, length}
use risc_v_cpu_simulator.CircularQueue.{
  to_size, next_slot, CircularQueue, empty, full, push, pop, clear, front, back,
}
use risc_v_cpu_simulator.CircularQueue.Slots.{
  wrap, modulus_of_smaller, slot-to_size, next-slot, back_slot,
}

module _ {ℓ} {A : Type ℓ} (m : ℕ) where
  -- The `n` elements from slot `h` on, going round.
  abbrev pub window : Array A → ℕ → ℕ → List A
  window cells h zero = []
  window cells h (suc n) = cells h ∷ window cells ((h + 1) % m) n

  abbrev pub contents : CircularQueue A → List A
  contents q = window q.storage q.head q.size

  pub record IsQueue (q : CircularQueue A) : Type 0 where
    pub head_in : q.head < m
    pub size_in : q.size ≤ m
    pub tail_at : q.tail ≡ (q.head + q.size) % m

  -- A write at the slot behind the window appends to it.
  window-append :
      (cells : Array A) (h n : ℕ) (v : A)
      → h < m
      → n < m
      → window (update cells ((h + n) % m) v) h (suc n) ≡ window cells h n ++ (v ∷ [])
  window-append cells h zero v p l =
      ap (λ x. x ∷ []) (ground (arith, wrap m h (omega arith), mod-eq_of_lt p))
  window-append cells h (suc n) v p l =
      let next = (h + 1) % m in
      let slot : (next + n) % m ≡ (h + suc n) % m =
        mod-add-mod (h + 1) m n ∙ ap (λ k. k % m) (omega arith) in
      ap₂ ◌∷◌ (ground (arith, wrap m (h + suc n) (omega arith))) (
        ap (λ t. window (update cells t v) next (suc n)) (sym slot)
        ∙ window-append cells next n v (mod-lt (h + 1) (omega arith)) (omega arith))

  length-window : (cells : Array A) (h n : ℕ) → length (window cells h n) ≡ n
  length-window cells h zero = refl
  length-window cells h (suc n) = omega (arith, length-window cells ((h + 1) % m) n)

  -- What the operations do to the elements, oldest first.
  pub record IsFifo (q : CircularQueue A) (v : A) : Type ℓ where
    pub full_exactly : full m q ≡ (length (contents q) == m)
    pub empty_exactly : empty m q ≡ (length (contents q) == 0)
    pub push_contents :
        contents (push m q v).0
        ≡ (if ltb (length (contents q)) m then contents q ++ (v ∷ []) else contents q)
    pub push_back : length (contents q) < m → back m (push m q v).0 ≡ v
    pub push_told : (push m q v).1 ≡ ltb (length (contents q)) m
    pub pop_done : 0 < length (contents q) → contents q ≡ front m q ∷ contents (pop m q).0
    pub pop_refused : length (contents q) ≡ 0 → (pop m q).0 ≡ q
    pub pop_told : (pop m q).1 ≡ ltb 0 (length (contents q))
    pub cleared : contents (clear m q) ≡ []
    pub push_keeps : IsQueue (push m q v).0
    pub pop_keeps : IsQueue (pop m q).0
    pub clear_keeps : IsQueue (clear m q)

  tail_in : (q : CircularQueue A) → IsQueue q → q.tail < m
  tail_in q w =
      subst (λ t. t < m) (sym w.tail_at) (mod-lt (q.head + q.size) (omega (arith, w.head_in)))

  -- The bound on the capacity, with which every slot is an `int`.
  module _ (b : m ≤ 2 ^ 31 - 1) where
    pushed-contents :
        (q : CircularQueue A) (v : A)
        → IsQueue q
        → (q.size == m) ≡ false
        → window (update q.storage (to_size q.tail) v) q.head ((q.size + 1) % 2 ^ 64)
          ≡ contents q ++ (v ∷ [])
    pushed-contents q v w r =
        let more : (q.size + 1) % 2 ^ 64 ≡ suc q.size =
          modulus_of_smaller (q.size + 1) (2 ^ 64) (omega (arith, b, w.size_in)) ∙ omega arith in
        ap (window (update q.storage (to_size q.tail) v) q.head) more
        ∙ ap (λ t. window (update q.storage t v) q.head (suc q.size))
            (slot-to_size q.tail (omega (arith, b, tail_in q w)) ∙ w.tail_at)
        ∙ window-append q.storage q.head q.size v w.head_in (ground (arith, w.size_in))

    popped-contents :
        (q : CircularQueue A)
        → IsQueue q
        → (q.size == 0) ≡ false
        → contents q
          ≡ q.storage (to_size q.head) ∷ window q.storage (next_slot m q.head) (q.size - 1)
    popped-contents q w r =
        let some_size : q.size ≡ suc (q.size - 1) = ground arith in
        ap (window q.storage q.head) some_size
        ∙ ap₂ (λ s n. q.storage s ∷ window q.storage n (q.size - 1))
            (sym (slot-to_size q.head (omega (arith, b, w.head_in))))
            (sym (next-slot m q.head w.head_in b))

    push-IsQueue : (q : CircularQueue A) (v : A) → IsQueue q → IsQueue (push m q v).0
    unfolding push full
    push-IsQueue q v w =
        if_keeps (λ (o : CircularQueue A × Bool). IsQueue o.0) (q.size == m) (λ _. w)
          λ r.
            let more : (q.size + 1) % 2 ^ 64 ≡ q.size + 1 =
              modulus_of_smaller (q.size + 1) (2 ^ 64) (omega (arith, b, w.size_in)) in
            record {
              head_in = w.head_in;
              size_in = ground (arith, w.size_in, more);
              tail_at =
                  next-slot m q.tail (tail_in q w) b
                  ∙ ap (λ t. (t + 1) % m) w.tail_at
                  ∙ mod-add-mod (q.head + q.size) m 1
                  ∙ ap (λ n. n % m) (omega (arith, more));
            }

    pop-IsQueue : (q : CircularQueue A) → IsQueue q → IsQueue (pop m q).0
    unfolding pop empty
    pop-IsQueue q w =
        if_keeps (λ (o : CircularQueue A × Bool). IsQueue o.0) (q.size == 0) (λ _. w)
          λ r. record {
            head_in =
                subst (λ n. n < m) (sym (next-slot m q.head w.head_in b))
                  (mod-lt (q.head + 1) (omega (arith, w.head_in)));
            size_in = omega (arith, w.size_in);
            tail_at =
                w.tail_at
                ∙ ap (λ n. n % m) (ground arith)
                ∙ sym (mod-add-mod (q.head + 1) m (q.size - 1))
                ∙ ap (λ n. (n + (q.size - 1)) % m) (sym (next-slot m q.head w.head_in b));
          }

    -- For a capacity that an `int` holds, on a well-formed queue: the queue is full exactly if it holds
    -- as many elements as its capacity, and empty exactly if it holds none; a push appends an element
    -- if there are fewer than the capacity, `back` is then that element, and else it changes nothing; a
    -- pop takes the oldest element, which is `front`, if there is one, and else changes nothing; both
    -- tell which of the two they did; `clear` takes all. Every operation keeps the queue well formed.
    pub queue-IsFifo : (q : CircularQueue A) (v : A) → IsQueue q → IsFifo q v
    unfolding push pop clear full empty front back
    queue-IsFifo q v w =
        let n : length (contents q) ≡ q.size = length-window q.storage q.head q.size in
        record {
          full_exactly = ap (λ k. k == m) (sym n);
          empty_exactly = ap (λ k. k == 0) (sym n);
          push_contents =
              if_keeps
                (λ (o : CircularQueue A × Bool).
                  contents o.0
                  ≡ (if ltb (length (contents q)) m then contents q ++ (v ∷ []) else contents q))
                (q.size == m) (λ r. ground (arith, n))
                (λ r. pushed-contents q v w r ∙ ground (arith, n, w.size_in));
          push_back = λ l.
              let r : (q.size == m) ≡ false = ground (arith, n) in
              rw r (
                ap (update q.storage (to_size q.tail) v) (back_slot m q.tail (tail_in q w) b)
                ∙ ground (arith, slot-to_size q.tail (omega (arith, b, tail_in q w))));
          push_told = ground (arith, n, w.size_in);
          pop_done = λ l.
              let r : (q.size == 0) ≡ false = ground (arith, n) in rw r (popped-contents q w r);
          pop_refused = λ l. let r : (q.size == 0) ≡ true = ground (arith, n) in rw r refl;
          pop_told = ground (arith, n);
          cleared = refl;
          push_keeps = push-IsQueue q v w;
          pop_keeps = pop-IsQueue q w;
          clear_keeps = record {
            head_in = omega (arith, w.head_in);
            size_in = omega arith;
            tail_at = sym (mod-eq_of_lt (omega (arith, w.head_in)));
          };
        }
