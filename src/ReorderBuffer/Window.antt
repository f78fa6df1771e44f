-- ===== src/ReorderBuffer/Window.antt =====
-- The ring under src/tomasulo/reorder_buffer.cpp: which slots are occupied, which tags they carry,
-- and the four ways in which a cycle changes it.
use risc_v_cpu_simulator.Base.{ℕ, ◌+◌, ◌-◌, ◌%◌, ◌≤◌, ◌<◌, ◌≡◌, ◌∙◌, sym, arith, true}
use risc_v_cpu_simulator.Base.{ltb, Array, update, fill}
use risc_v_cpu_simulator.ReorderBuffer.{RobEntry, no_entry, capacity}

-- The slots hold `count` entries from `head` on, going round, and no others; an entry carries the
-- tag of its slot with the generation of its allocation.
pub record IsRing (cells : Array RobEntry) (generations : Array ℕ) (head tail count : ℕ)
    : Type 0 where
  pub head_in : head < capacity
  pub count_in : count ≤ capacity
  pub tail_at : tail ≡ (head + count) % capacity
  pub occupied :
      (i : ℕ) → i < capacity → (cells i).valid ≡ ltb ((i + capacity - head) % capacity) count
  pub tagged :
      (i : ℕ)
      → i < capacity
      → (cells i).valid ≡ true
      → (cells i).tag ≡ record { index = i; generation = generations i; valid = true }

module _ (cells : Array RobEntry) (generations : Array ℕ) (head tail count : ℕ)
    (ring : IsRing cells generations head tail count) where
  -- A change of the entries that keeps validity and tags.
  pub IsRing-same :
      (cells' : Array RobEntry)
      → ((i : ℕ)
          → i < capacity
          → ((cells' i).valid ≡ (cells i).valid) × ((cells' i).tag ≡ (cells i).tag))
      → IsRing cells' generations head tail count
  IsRing-same cells' h = record {
    head_in = ring.head_in;
    count_in = ring.count_in;
    tail_at = ring.tail_at;
    occupied = λ i p. (h i p).0 ∙ ring.occupied i p;
    tagged = λ i p v. (h i p).1 ∙ ring.tagged i p (sym (h i p).0 ∙ v);
  }

  -- The head leaves.
  pub IsRing-pop :
      0 < count
      → IsRing (update cells head no_entry) generations ((head + 1) % capacity) tail (count - 1)
  IsRing-pop pos = record {
    head_in = omega arith;
    count_in = omega (arith, ring.count_in);
    tail_at = omega (arith, ring.tail_at);
    occupied = λ i p. ground (arith, ring.occupied i p, ring.head_in, ring.count_in);
    tagged = λ i p v. ground (arith, ring.tagged i p);
  }

  -- An entry joins at the tail.
  pub IsRing-push :
      (entry : RobEntry) (generation : ℕ)
      → count < capacity
      → entry.valid ≡ true
      → entry.tag ≡ record { index = tail; generation = generation; valid = true }
      → IsRing
          (update cells tail entry)
          (update generations tail generation)
          head
          ((tail + 1) % capacity)
          (count + 1)
  IsRing-push entry generation room v t = record {
    head_in = ring.head_in;
    count_in = omega arith;
    tail_at = omega (arith, ring.tail_at);
    occupied = λ i p. ground (arith, ring.occupied i p, ring.head_in, ring.count_in, ring.tail_at);
    tagged = λ i p q. ground (arith, ring.tagged i p, t);
  }

-- Everything is dropped.
pub IsRing-clear :
    (generations : Array ℕ) (p : ℕ) → p < capacity → IsRing (fill no_entry) generations p p 0
IsRing-clear generations p h = record {
  head_in = h;
  count_in = omega arith;
  tail_at = omega arith;
  occupied = λ i q. ground arith;
  tagged = λ i q v. ground arith;
}
