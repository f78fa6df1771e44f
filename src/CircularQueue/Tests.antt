-- ===== src/CircularQueue/Tests.antt =====
-- A queue of four places with two numbers.
use risc_v_cpu_simulator.Base.{ℕ, arith, refl}
use risc_v_cpu_simulator.CircularQueue.{CircularQueue, new_queue, push}
use risc_v_cpu_simulator.CircularQueue.Fifo.{IsQueue, IsFifo, queue-IsFifo}

abbrev fresh : CircularQueue ℕ
fresh = new_queue 4 0

fresh-IsQueue : IsQueue 4 fresh
fresh-IsQueue = record { head_in = omega arith; size_in = omega arith; tail_at = refl }

abbrev one : CircularQueue ℕ
one = (push 4 fresh 7).0

queue-IsFifo_example : IsFifo 4 one 9
queue-IsFifo_example =
    queue-IsFifo 4 (omega arith) one 9
      (queue-IsFifo 4 (omega arith) fresh 7 fresh-IsQueue).push_keeps
