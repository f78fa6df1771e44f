-- ===== src/LoadStoreQueue/Window.antt =====
-- The ring under src/tomasulo/load_store_queue.cpp: which slots are occupied.
use risc_v_cpu_simulator.Base.{
  ℕ, ◌+◌, ◌-◌, ◌%◌, ◌≤◌, ◌<◌, ◌≡◌, ◌∙◌, arith, true, ltb, Array, update, fill,
}
use risc_v_cpu_simulator.LoadStoreQueue.{LsqEntry, no_entry, capacity}

-- The slots hold `count` entries from `head` on, going round, and no others.
pub record IsRing (cells : Array LsqEntry) (head tail count : ℕ) : Type 0 where
  pub head_in : head < capacity
  pub count_in : count ≤ capacity
  pub tail_at : tail ≡ (head + count) % capacity
  pub occupied :
      (i : ℕ) → i < capacity → (cells i).valid ≡ ltb ((i + capacity - head) % capacity) count

module _ (cells : Array LsqEntry) (head tail count : ℕ) (ring : IsRing cells head tail count) where
  pub IsRing-same :
      (cells' : Array LsqEntry)
      → ((i : ℕ) → i < capacity → (cells' i).valid ≡ (cells i).valid)
      → IsRing cells' head tail count
  IsRing-same cells' h = record {
    head_in = ring.head_in;
    count_in = ring.count_in;
    tail_at = ring.tail_at;
    occupied = λ i p. h i p ∙ ring.occupied i p;
  }

  pub IsRing-pop :
      0 < count → IsRing (update cells head no_entry) ((head + 1) % capacity) tail (count - 1)
  IsRing-pop pos = record {
    head_in = omega arith;
    count_in = omega (arith, ring.count_in);
    tail_at = omega (arith, ring.tail_at);
    occupied = λ i p. ground (arith, ring.occupied i p, ring.head_in, ring.count_in);
  }

  pub IsRing-push :
      (entry : LsqEntry)
      → count < capacity
      → entry.valid ≡ true
      → IsRing (update cells tail entry) head ((tail + 1) % capacity) (count + 1)
  IsRing-push entry room v = record {
    head_in = ring.head_in;
    count_in = omega arith;
    tail_at = omega (arith, ring.tail_at);
    occupied = λ i p. ground (arith, ring.occupied i p, ring.head_in, ring.count_in, ring.tail_at);
  }

pub IsRing-clear : IsRing (fill no_entry) 0 0 0
IsRing-clear = record {
  head_in = omega arith;
  count_in = omega arith;
  tail_at = omega arith;
  occupied = λ i q. ground arith;
}
