-- ===== src/CircularQueue/Slots.antt =====
-- The arithmetic of the indices of include/common/circular_queue.hpp.
use risc_v_cpu_simulator.Base.{
  ℕ, ◌+◌, ◌-◌, ◌%◌, ◌<◌, ◌≤◌, ◌≡◌, ◌∙◌, ap, arith, ltb, if◌then◌else◌, Bool-cases, inl, inr,
}
use native.Mathlib.Nat.{mod-lt, mod-eq_of_lt, mod-eq-sub-mod}
use risc_v_cpu_simulator.Base.{◌^◌}
use risc_v_cpu_simulator.CircularQueue.{to_size, next_slot}

-- Going round once.
pub wrap : (m n : ℕ) → n < m + m → n % m ≡ (if ltb n m then n else n - m)
wrap m n h = elim (Bool-cases (ltb n m)) [
  | inl e ↦ rw e (mod-eq_of_lt (ground arith))
  | inr e ↦ rw e (mod-eq-sub-mod (ground arith) ∙ mod-eq_of_lt (ground arith))
]

-- The slot before the one after the tail.
pub last_slot : (m t : ℕ) → t < m → ((t + 1) % m + m - 1) % m ≡ t
last_slot m t l =
    let next = (t + 1) % m in
    let small : next < m = mod-lt (t + 1) (omega arith) in
    ground (arith, wrap m (t + 1) (omega arith), wrap m (next + m - 1) (omega arith), small)

pub modulus_of_smaller : (n m : ℕ) → n < m → n % m ≡ n
modulus_of_smaller n m l = mod-eq_of_lt l

pub in_range : (n m : ℕ) → 0 < m → n % m < m
in_range n m l = mod-lt n l

-- Slots and their successors below the largest `int`.
pub slot-to_size : (n : ℕ) → n < 2 ^ 31 → to_size n ≡ n
unfolding to_size
slot-to_size n l = ground arith

pub next-slot : (m t : ℕ) → t < m → m ≤ 2 ^ 31 - 1 → next_slot m t ≡ (t + 1) % m
unfolding next_slot
next-slot m t l b =
    ap (λ n. to_size n % m % 2 ^ 32) (modulus_of_smaller (t + 1) (2 ^ 32) (omega arith))
    ∙ ap (λ n. n % m % 2 ^ 32) (slot-to_size (t + 1) (omega arith))
    ∙ mod-eq_of_lt (omega (arith, in_range (t + 1) m (omega arith)))

-- Subtraction of one from a sum of type `size_t`.
pub one_less :
    (n m : ℕ)
    → n < 2 ^ 31
    → 0 < m
    → m ≤ 2 ^ 31 - 1
    → ((n + m) % 2 ^ 64 + (2 ^ 64 - 1)) % 2 ^ 64 ≡ n + m - 1
one_less n m k p b =
    ap (λ s. (s + (2 ^ 64 - 1)) % 2 ^ 64) (modulus_of_smaller (n + m) (2 ^ 64) (omega arith))
    ∙ wrap (2 ^ 64) (n + m + (2 ^ 64 - 1)) (omega arith)
    ∙ ground arith

-- The slot that `back` reads after a push at slot `t`.
pub back_slot :
    (m t : ℕ)
    → t < m
    → m ≤ 2 ^ 31 - 1
    → ((to_size (next_slot m t) + m) % 2 ^ 64 + (2 ^ 64 - 1)) % 2 ^ 64 % m ≡ t
back_slot m t l b =
    let next = (t + 1) % m in
    let small : next < m = in_range (t + 1) m (omega arith) in
    ap (λ n. ((to_size n + m) % 2 ^ 64 + (2 ^ 64 - 1)) % 2 ^ 64 % m) (next-slot m t l b)
    ∙ ap (λ n. ((n + m) % 2 ^ 64 + (2 ^ 64 - 1)) % 2 ^ 64 % m) (slot-to_size next (omega arith))
    ∙ ap (λ n. n % m) (one_less next m (omega arith) (omega arith) b)
    ∙ last_slot m t l
