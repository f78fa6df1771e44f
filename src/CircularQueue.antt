-- ===== src/CircularQueue.antt =====
-- include/common/circular_queue.hpp: a bounded queue in an array, which its unit tests use.
use risc_v_cpu_simulator.Base.{
  ℕ, ◌+◌, ◌-◌, ◌%◌, ◌^◌, Bool, true, false, ◌==◌, ltb, if◌then◌else◌, Array, update, fill,
}
pub mod Slots
pub mod Fifo
mod Tests

-- `head` and `tail` are of type `int`, as patterns of 32 bits; the model wraps round where the sum of
-- an `int` overflows, which the language leaves undefined.
pub record CircularQueue {ℓ} (A : Type ℓ) : Type ℓ where
  pub storage : Array A
  pub head : ℕ
  pub tail : ℕ
  pub size : ℕ

-- An `int` as a `size_t`.
unfoldable pub to_size : ℕ → ℕ
to_size n = if ltb n (2 ^ 31) then n else n + (2 ^ 64 - 2 ^ 32)

-- `(slot + 1) % Capacity`, stored in an `int`.
unfoldable pub next_slot : ℕ → ℕ → ℕ
next_slot Capacity slot = (to_size ((slot + 1) % 2 ^ 32) % Capacity) % 2 ^ 32

-- `Capacity` is the template's parameter, and `T{}` what fills the array.
module _ {ℓ} {A : Type ℓ} (Capacity : ℕ) where
  abbrev pub new_queue : A → CircularQueue A
  new_queue filler = record { storage = fill filler; head = 0; tail = 0; size = 0 }

  unfoldable pub empty : CircularQueue A → Bool
  empty q = q.size == 0

  unfoldable pub full : CircularQueue A → Bool
  full q = q.size == Capacity

  unfoldable pub front : CircularQueue A → A
  front q = q.storage (to_size q.head)

  unfoldable pub back : CircularQueue A → A
  back q = q.storage (((to_size q.tail + Capacity) % 2 ^ 64 + (2 ^ 64 - 1)) % 2 ^ 64 % Capacity)

  -- The queue after `push`, and its result.
  unfoldable pub push : CircularQueue A → A → CircularQueue A × Bool
  push q v = if full q then (q, false) else (
    record q {
      storage = update q.storage (to_size q.tail) v;
      tail = next_slot Capacity q.tail;
      size = (q.size + 1) % 2 ^ 64;
    },
    true,
  )

  unfoldable pub pop : CircularQueue A → CircularQueue A × Bool
  pop q =
      if empty q
      then (q, false)
      else (record q { head = next_slot Capacity q.head; size = q.size - 1 }, true)

  unfoldable pub clear : CircularQueue A → CircularQueue A
  clear q = record q { head = 0; tail = 0; size = 0 }
