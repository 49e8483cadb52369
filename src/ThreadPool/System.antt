-- ===== src/ThreadPool/System.antt =====
-- A thread pool with its worker threads and its clients, one locked section at a time.
-- A condition may wake a thread at any time, as C allows; a signal or a broadcast wakes those that it
-- has to.
use just_library.Base.{
  ℕ, suc, ◌*◌, ◌^◌, ◌<◌, ◌≡◌, true, false, Option, some, List, [], ◌∷◌, ◌++◌, set, get_elem?, map,
  size_mod, if◌then◌else◌,
}
use just_library.Memory.{Memory}
use just_library.Queue.{Queue, target_capacity, grow_target}
use just_library.ThreadPool.{
  ThreadPool, Worker, ready, asleep, running, enter_loop, finish_task, must_wait, begin_shutdown,
  add_task,
}

-- The pool, its workers, how many clients sleep in `justThreadpoolWait`, and the history: the tasks
-- that were added, those that a worker began, and those that are done, each in order of time.
pub record System (T : Type 0) : Type 0 where
  pub pool : ThreadPool T
  pub workers : List (Worker T)
  pub waiting : ℕ
  pub added : List T
  pub begun : List T
  pub done : List T

module _ {T : Type 0} where
  -- the task of a worker
  abbrev pub task_of : Worker T → List T
  task_of (running (some t)) = t ∷ []
  task_of _ = []

  -- `cnd_broadcast(&pool->hasWork)`
  abbrev pub woken : Worker T → Worker T
  woken asleep = ready
  woken w = w

  -- what a worker begins when it goes through its first section
  abbrev pub entered : System T → ℕ → System T
  entered x i =
      let (w, p) = enter_loop x.pool in
      record x { pool = p; workers = set x.workers i w; begun = x.begun ++ task_of w }

  -- the end of a task, with the broadcast of `workingDone`
  abbrev pub finished : System T → ℕ → Option T → System T
  finished x i task =
      let (all_done, p) = finish_task x.pool in
      record x {
        pool = p;
        workers = set x.workers i ready;
        waiting = if all_done then 0 else x.waiting;
        done = x.done ++ task_of (running task);
      }

  -- Who a signal of `hasWork` wakes: some sleeper, and nobody where none sleeps.
  pub data Signalled (ws : List (Worker T)) : List (Worker T) → Type 0 where
    one : (i : ℕ) → get_elem? ws i ≡ some asleep → Signalled ws (set ws i ready)
    nobody : ((i : ℕ) → get_elem? ws i ≡ some asleep → ⊥) → Signalled ws ws

  -- The doubled block of the queue fits `size_t`.
  pub record Fits (q : Queue T) : Type 0 where
    pub element : 0 < q.element_size
    pub small : q.capacity < 2 ^ 62
    pub bytes : target_capacity q (grow_target q) * q.element_size < size_mod

  module _ (m : Memory T) where
    pub data Step : System T → System T → Type 0 where
      -- `justThreadpoolAddTask` that returns true, and one that returns false
      adds :
          {x : System T} {ws : List (Worker T)} (task : T) (s : m.Store)
          → Fits x.pool.task_queue
          → (add_task m x.pool task s).0 ≡ true
          → Signalled x.workers ws
          → Step x (record x {
            pool = (add_task m x.pool task s).1;
            workers = ws;
            added = x.added ++ task ∷ [];
          })
      refuses :
          {x : System T} (task : T) (s : m.Store)
          → Fits x.pool.task_queue
          → (add_task m x.pool task s).0 ≡ false
          → Step x (record x { pool = (add_task m x.pool task s).1 })
      enters : {x : System T} (i : ℕ) → get_elem? x.workers i ≡ some ready → Step x (entered x i)
      wakes :
          {x : System T} (i : ℕ)
          → get_elem? x.workers i ≡ some asleep
          → Step x (record x { workers = set x.workers i ready })
      finishes :
          {x : System T} (i : ℕ) (task : Option T)
          → get_elem? x.workers i ≡ some (running task)
          → Step x (finished x i task)
      shuts_down :
          {x : System T}
          → Step x (record x { pool = begin_shutdown x.pool; workers = map woken x.workers })
      -- a client goes to sleep, in `justThreadpoolWait`; one wakes and will test again
      waits :
          {x : System T} → must_wait x.pool ≡ true → Step x (record x { waiting = suc x.waiting })
      wakes_client : {x : System T} (n : ℕ) → x.waiting ≡ suc n → Step x (record x { waiting = n })

    pub data Reaches (x : System T) : System T → Type 0 where
      start : Reaches x x
      step : {y z : System T} → Reaches x y → Step y z → Reaches x z
