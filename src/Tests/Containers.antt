-- ===== src/Tests/Containers.antt =====
-- Concrete queues and stacks.
use c_data_structures.Prelude.{ℕ, ◌≡◌, refl, true, none, some, [], ◌∷◌, arith}
use c_data_structures.Prelude.Run.{ok, fault, ◌>>=◌}
use c_data_structures.Queue.{Queue, queue_create, queue_enqueue}
use c_data_structures.Queue.Refine.{IsQueue}
use c_data_structures.Queue.Grow.{queue_enqueue-overrun}
use c_data_structures.Queue.Fifo
use c_data_structures.Stack.{Stack, stack_create}
use c_data_structures.Stack.Refine.{IsStack}
use c_data_structures.Stack.Lifo

abbrev queue_of_two : Queue ℕ
queue_of_two = record {
  cells = some 7 ∷ some 8 ∷ none ∷ none ∷ [];
  data_size = 4;
  capacity = 4;
  front = 0;
  rear = 2;
  length = 2;
}

queue_of_two-IsQueue : IsQueue queue_of_two (7 ∷ 8 ∷ [])
queue_of_two-IsQueue = record {
  sized = omega arith;
  fits = omega arith;
  block = refl;
  front_in = omega arith;
  rear_at = refl;
  count = refl;
  room = omega arith;
  held = (refl, (refl, tt));
}

abbrev full_queue : Queue ℕ
full_queue = record {
  cells = some 7 ∷ some 8 ∷ [];
  data_size = 4;
  capacity = 2;
  front = 0;
  rear = 0;
  length = 2;
}

full_queue-IsQueue : IsQueue full_queue (7 ∷ 8 ∷ [])
full_queue-IsQueue = record {
  sized = omega arith;
  fits = omega arith;
  block = refl;
  front_in = omega arith;
  rear_at = refl;
  count = refl;
  room = omega arith;
  held = (refl, (refl, tt));
}

-- The oldest element stands at index 1.
abbrev turned_queue : Queue ℕ
turned_queue = record {
  cells = some 8 ∷ some 7 ∷ [];
  data_size = 4;
  capacity = 2;
  front = 1;
  rear = 1;
  length = 2;
}

turned_queue-IsQueue : IsQueue turned_queue (7 ∷ 8 ∷ [])
turned_queue-IsQueue = record {
  sized = omega arith;
  fits = omega arith;
  block = refl;
  front_in = omega arith;
  rear_at = refl;
  count = refl;
  room = omega arith;
  held = (refl, (refl, tt));
}

drain-fill_example :
    (Fifo.fill {A = ℕ} (queue_create true true 4 2) (5 ∷ 6 ∷ 7 ∷ []) >>= Fifo.drain 4)
    ≡ ok (some 5 ∷ some 6 ∷ some 7 ∷ [])
drain-fill_example =
    Fifo.drain-fill 4 2 6 (5 ∷ 6 ∷ 7 ∷ []) (omega arith) (omega arith) (omega arith) (omega arith)

queue_enqueue-overrun_example : queue_enqueue true (some turned_queue) (some 9) ≡ fault
queue_enqueue-overrun_example =
    queue_enqueue-overrun turned_queue-IsQueue 9 refl (omega arith) (omega arith)

abbrev full_stack : Stack ℕ
full_stack = record { cells = some 7 ∷ some 8 ∷ []; data_size = 4; capacity = 2; top = 2 }

full_stack-IsStack : IsStack full_stack (8 ∷ 7 ∷ [])
full_stack-IsStack = record {
  sized = omega arith;
  fits = omega arith;
  block = refl;
  positive = omega arith;
  count = refl;
  room = omega arith;
  held = (refl, (refl, tt));
}

drain-fill-reverse_example :
    (Lifo.fill {A = ℕ} (stack_create true true 4 2) (5 ∷ 6 ∷ 7 ∷ []) >>= Lifo.drain 4)
    ≡ ok (some 7 ∷ some 6 ∷ some 5 ∷ [])
drain-fill-reverse_example =
    Lifo.drain-fill-reverse 4 2 6 (5 ∷ 6 ∷ 7 ∷ []) (omega arith) (omega arith) (omega arith)
      (omega arith)
