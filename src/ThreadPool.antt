-- ===== src/ThreadPool.antt =====
-- include/justUtils/system/threadPool.h and src/system/threadPool.c.
-- Every access to the shared fields stands between a lock and an unlock of `lock`, so each such
-- section is one function of the pool; what a thread does with the result, and which thread comes
-- next, are the steps of System. A task is a value of the type `T` (`justTask`, a function pointer
-- and its argument); the call of its function is the caller's code. Logging and the tag are left out.
pub mod System
pub mod Invariant
pub mod Preserve
pub mod Wake
pub mod Safety
pub mod Progress
use just_library.Base.{
  ℕ, zero, suc, ◌+◌, ◌-◌, Bool, true, false, not, ◌&&◌, ◌||◌, Option, none, some, List, add_size,
  sub_size, mul_size, if◌then◌else◌, ◌==◌, ltb,
}
use just_library.Memory.{Memory}
use just_library.Queue.{Queue, dequeue, is_empty, enqueue, create, destroy}

-- `justThreadPool`; `threads` says whether the array of handles is there
pub record ThreadPool (T : Type 0) : Type 0 where
  pub threads : Bool
  pub thread_count : ℕ
  pub task_queue : Queue T
  pub active_workers : ℕ
  pub shutdown : Bool
  pub linear : Bool

-- Where a worker thread stands: about to lock at the head of its loop, asleep in `cnd_wait`, with the
-- lock released and a task to call, or returned. `none` would be a task that no dequeue has written.
pub data Worker (T : Type 0) : Type 0 where
  ready asleep exited : Worker T
  running : Option T → Worker T

module _ {T : Type 0} where
  -- The first section of `workerThreadLoop`, and of a return from `cnd_wait` into its loop.
  unfoldable pub begin_task : Bool × Option T × Queue T → ThreadPool T → Worker T × ThreadPool T
  begin_task (done, task, q) p =
      (running task, record p { task_queue = q; active_workers = add_size p.active_workers 1 })

  unfoldable pub enter_loop : ThreadPool T → Worker T × ThreadPool T
  enter_loop p =
      let begun = begin_task (dequeue p.task_queue true) p in
      if is_empty p.task_queue && not p.shutdown
      then (asleep, p)
      else if p.shutdown && is_empty p.task_queue
      then (exited, p)
      else begun

  -- Its second section: whether `workingDone` is broadcast.
  abbrev pub is_done : ThreadPool T → Bool
  is_done p = is_empty p.task_queue && p.active_workers == 0

  unfoldable pub finish_task : ThreadPool T → Bool × ThreadPool T
  finish_task p =
      let after = record p { active_workers = sub_size p.active_workers 1 } in
      (is_done after, after)

  -- the test of the loop in `justThreadpoolWait`
  unfoldable pub must_wait : ThreadPool T → Bool
  must_wait p = not (is_empty p.task_queue) || ltb 0 p.active_workers

  -- the locked section of `justThreadpoolDestroy`
  unfoldable pub begin_shutdown : ThreadPool T → ThreadPool T
  begin_shutdown p = record p { shutdown = true }

  -- `justThreadpoolPendingTasks`
  unfoldable pub pending_tasks : ThreadPool T → ℕ
  pending_tasks p = add_size p.task_queue.size p.active_workers

  module _ (m : Memory T) where
    open m use {Store}

    -- `justThreadpoolAddTask`: `justQueueEmplace` and the write of the slot
    unfoldable pub added_to : ThreadPool T → Bool × Queue T × Store → Bool × ThreadPool T × Store
    added_to p (done, q, s) = (done, record p { task_queue = q }, s)

    unfoldable pub add_task : ThreadPool T → T → Store → Bool × ThreadPool T × Store
    add_task p task s =
        if p.shutdown then (false, p, s) else added_to p (enqueue m p.task_queue task s)

    -- the end of `justThreadpoolDestroy`, after the joins
    unfoldable pub finish_destroy :
        (Bool → Store → Store) → ThreadPool T → Store → ThreadPool T × Store
    finish_destroy free_threads p s =
        let (q, s') = destroy m p.task_queue s in
        (
          record p { task_queue = q; threads = false; thread_count = 0 },
          free_threads (not p.linear && p.threads) s',
        )

    -- The loop of `justThreadpoolCreate` that spawns the threads: how many of `n` were created, where
    -- `spawns i` says whether `thrd_create` succeeds for the thread `i`.
    unfoldable pub spawn : (ℕ → Bool) → ℕ → ℕ → ℕ
    spawn spawns zero i = i
    spawn spawns (suc n) i = let rest = spawn spawns n (i + 1) in if spawns i then rest else i

    -- `justThreadpoolCreate`, once the array of handles is asked for. `locks` says whether the mutex
    -- and the conditions could be initialised. Where a thread is not created,
    -- `justThreadpoolDestroy` begins here, with the threads that were.
    unfoldable pub finish_create :
        Bool
        → (ℕ → Bool)
        → (Bool → Store → Store)
        → ThreadPool T
        → ℕ
        → Bool × Store
        → Bool × ThreadPool T × Store
    finish_create locks spawns free_threads p n (false, s) =
        let (q, s') = destroy m p.task_queue s in
        (false, record p { task_queue = q; threads = false }, s')
    finish_create false spawns free_threads p n (true, s) =
        let (q, s') = destroy m p.task_queue (free_threads (not p.linear) s) in
        (false, record p { task_queue = q; threads = true }, s')
    finish_create true spawns free_threads p n (true, s) =
        let count = spawn spawns n 0 in
        let started = record p { threads = true; thread_count = count } in
        if count == n then (true, started, s) else (false, begin_shutdown started, s)

    -- `justThreadpoolCreate` on the fields that `p` had. A task takes 16 bytes and a handle
    -- `handle_size`; `allocate_threads` allocates the array.
    unfoldable pub create_with :
        (Bool → ℕ → Store → Bool × Store)
        → Bool
        → (ℕ → Bool)
        → (Bool → Store → Store)
        → ThreadPool T
        → ℕ
        → ℕ
        → Bool × Queue T × Store
        → Bool × ThreadPool T × Store
    create_with allocate_threads locks spawns free_threads p n bytes (false, q, s) =
        (false, record p { task_queue = q }, s)
    create_with allocate_threads locks spawns free_threads p n bytes (true, q, s) =
        finish_create locks spawns free_threads (record p { task_queue = q }) n
          (allocate_threads p.linear bytes s)

    unfoldable pub create_pool :
        (Bool → ℕ → Store → Bool × Store)
        → Bool
        → (ℕ → Bool)
        → (Bool → Store → Store)
        → ThreadPool T
        → ℕ
        → ℕ
        → ℕ
        → Bool
        → Store
        → Bool × ThreadPool T × Store
    create_pool allocate_threads locks spawns free_threads p n wanted handle_size linear s =
        let capacity = if wanted == 0 then 1024 else wanted in
        let fields = record p {
          thread_count = 0;
          active_workers = 0;
          shutdown = false;
          linear = linear;
        } in
        if n == 0
        then (false, p, s)
        else create_with allocate_threads locks spawns free_threads fields n
            (mul_size n handle_size) (create m capacity 16 false s)
