-- ===== src/Tests/Threads.antt =====
-- Two workers and tasks that are numbers.
use just_library.Base.{
  ℕ, zero, suc, ◌≡◌, refl, false, true, none, some, List, [], ◌∷◌, length, arith, inr, get_elem?,
  ◌++◌, ◌-◌, ◌%◌, size_mod, map,
}
use just_library.Base.Sum.{total}
use just_library.Memory.{allocate}
use just_library.PowerOfTwo.{queue_round_to_power_of_two, round_up, smear}
use just_library.Queue.{
  target_capacity, grow_target, enqueue, write_slot, emplace, claim, grow, reserve, finish_reserve,
  move_into, is_empty, dequeue,
}
use just_library.Queue.Valid.{Models}
use just_library.ThreadPool.{
  added_to, enter_loop, begin_task, finish_task, ready, asleep, running, must_wait, add_task,
  pending_tasks, begin_shutdown,
}
use just_library.ThreadPool.System.{
  System, Fits, adds, enters, finishes, shuts_down, Reaches, start, step, nobody, entered, finished,
  woken,
}
use just_library.ThreadPool.Invariant.{IsValid, gone}
use just_library.ThreadPool.Safety.{SameTasks, waited-done, joined-done, begun-in_order}
use just_library.ThreadPool.Progress.{Drains, drain-Reaches}
use just_library.Tests.Heap.{heap, request, fit}

abbrev fresh : System ℕ
fresh = record {
  pool = record {
    threads = true;
    thread_count = 2;
    task_queue = record {
      block = none;
      capacity = 0;
      mask = 0;
      size = 0;
      head = 0;
      tail = 0;
      element_size = 16;
      linear = false;
    };
    active_workers = 0;
    shutdown = false;
    linear = false;
  };
  workers = ready ∷ ready ∷ [];
  waiting = 0;
  added = [];
  begun = [];
  done = [];
}

fresh-Models : Models fresh.pool.task_queue []
fresh-Models = record {
  counted = refl;
  fits = omega arith;
  stored = inr (record { absent = refl; nothing = refl });
}

fresh-IsValid : IsValid fresh
unfolding total
fresh-IsValid = record {
  queued = [];
  stored = fresh-Models;
  order = refl;
  conserved = λ f. refl;
  counted = refl;
  all_set = refl;
  manned = omega arith;
  few = omega arith;
  served = λ l. absurd (omega arith);
  woken_up = λ s. absurd (cc s);
  left = λ l. absurd (omega arith);
  clients = λ l. absurd (omega arith);
}

eight : target_capacity fresh.pool.task_queue (grow_target fresh.pool.task_queue) ≡ 8
unfolding queue_round_to_power_of_two grow_target round_up smear
eight = refl

fresh-Fits : Fits fresh.pool.task_queue
fresh-Fits = record { element = omega arith; small = omega arith; bytes = omega (arith, eight) }

-- the pool after a task, 7, was added
abbrev one_added : System ℕ
one_added = record fresh { pool = (add_task heap fresh.pool 7 5).1; added = 7 ∷ [] }

accepts : (add_task heap fresh.pool 7 5).0 ≡ true
unfolding add_task added_to enqueue write_slot emplace claim grow reserve
    queue_round_to_power_of_two grow_target round_up smear finish_reserve allocate request fit
    move_into
accepts = refl

nobody_sleeps : (i : ℕ) → get_elem? fresh.workers i ≡ some asleep → ⊥
nobody_sleeps zero e = let f : some ready ≡ some asleep = e in absurd (cc f)
nobody_sleeps (suc zero) e = let f : some ready ≡ some asleep = e in absurd (cc f)
nobody_sleeps (suc (suc i)) e = absurd (cc e)

submitted : Reaches heap fresh one_added
submitted = step start (adds 7 5 fresh-Fits accepts (nobody nobody_sleeps))

-- the pool after the first worker has begun the task, and after it is done
abbrev one_done : System ℕ
one_done = finished (entered one_added 0) 0 (some 7)

taken : get_elem? (entered one_added 0).workers 0 ≡ some (running (some 7))
unfolding enter_loop begin_task is_empty dequeue add_task added_to enqueue write_slot emplace claim
    grow reserve queue_round_to_power_of_two grow_target round_up smear finish_reserve allocate
    request fit move_into
taken = refl

served : Reaches heap fresh one_done
served = step (step submitted (enters 0 refl)) (finishes 0 (some 7) taken)

idle : must_wait one_done.pool ≡ false
unfolding must_wait finish_task enter_loop begin_task is_empty dequeue add_task added_to enqueue
    write_slot emplace claim grow reserve queue_round_to_power_of_two grow_target round_up smear
    finish_reserve allocate request fit move_into
idle = refl

waited-done_example : SameTasks one_done.added one_done.done
waited-done_example = waited-done heap fresh one_done fresh-IsValid served idle

begun-in_order_example :
    ((rest : List ℕ) × (one_added.added ≡ one_added.begun ++ rest))
    × (pending_tasks one_added.pool ≡ (length one_added.added - length one_added.done) % size_mod)
begun-in_order_example = begun-in_order heap fresh one_added fresh-IsValid submitted

-- both workers return after a shutdown
abbrev shut : System ℕ
shut = record fresh { pool = begin_shutdown fresh.pool; workers = map woken fresh.workers }

abbrev joined : System ℕ
joined = entered (entered shut 0) 1

second_ready : get_elem? (entered shut 0).workers 1 ≡ some ready
second_ready = refl

all_returned : Reaches heap fresh joined
all_returned = step (step (step start shuts_down) (enters 0 refl)) (enters 1 second_ready)

both_gone : total gone joined.workers ≡ length joined.workers
unfolding total enter_loop is_empty begin_shutdown
both_gone = refl

joined-done_example :
    (joined.pool.shutdown ≡ true)
    × (joined.added ≡ joined.begun)
    × SameTasks joined.added joined.done
joined-done_example = joined-done heap fresh joined fresh-IsValid all_returned both_gone

drain-Reaches_example : Drains heap one_added
drain-Reaches_example =
    drain-Reaches heap fresh.pool 2 one_added fresh-Models refl (omega arith) (omega arith)
      submitted
