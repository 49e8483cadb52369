-- ===== src/ThreadPool/Invariant.antt =====
-- What holds of a thread pool, its workers and its history at every time.
use just_library.Base.{
  ℕ, ◌+◌, ◌≤◌, ◌<◌, ◌≡◌, refl, Bool, true, false, none, List, [], ◌∷◌, ◌++◌, length, arith, inl,
  inr, Bool-cases, size_mod,
}
use just_library.Base.Sum.{total}
use just_library.Memory.{Memory}
use just_library.Queue.{Queue}
use just_library.Queue.Valid.{Models}
use just_library.Queue.Refine.{Enqueued, added, no_memory, enqueue-Enqueued}
use just_library.ThreadPool.{ThreadPool, Worker, ready, asleep, exited, running, add_task, added_to}
use just_library.ThreadPool.System.{System, task_of, Fits}

module _ {T : Type 0} where
  -- what a worker counts for: with a task, without one while it ought to have it, about to act
  -- again of itself, asleep, returned
  abbrev pub busy : Worker T → ℕ
  busy (running t) = 1
  busy _ = 0

  abbrev pub unset : Worker T → ℕ
  unset (running none) = 1
  unset _ = 0

  abbrev pub alert : Worker T → ℕ
  alert ready = 1
  alert (running t) = 1
  alert _ = 0

  abbrev pub sleeper : Worker T → ℕ
  sleeper asleep = 1
  sleeper _ = 0

  abbrev pub gone : Worker T → ℕ
  gone exited = 1
  gone _ = 0

  -- the weight of the tasks that the workers have
  abbrev pub carried : (T → ℕ) → Worker T → ℕ
  carried f w = total f (task_of w)

  pub record IsValid (x : System T) : Type 0 where
    pub queued : List T
    pub stored : Models x.pool.task_queue queued
    -- the tasks are begun in the order in which they were added
    pub order : x.added ≡ x.begun ++ queued
    -- what was begun is done or in the hands of a worker
    pub conserved : (f : T → ℕ) → total f x.begun ≡ total f x.done + total (carried f) x.workers
    pub counted : x.pool.active_workers ≡ total busy x.workers
    pub all_set : total unset x.workers ≡ 0
    pub manned : 0 < length x.workers
    pub few : length x.workers < size_mod
    -- while a task waits, some worker is about to act
    pub served : 0 < length queued → 0 < total alert x.workers
    -- after the shutdown nobody sleeps, and a worker returns only then, with nothing left to begin
    pub woken_up : x.pool.shutdown ≡ true → total sleeper x.workers ≡ 0
    pub left : 0 < total gone x.workers → (x.pool.shutdown ≡ true) × (queued ≡ [])
    -- a client sleeps only while there is work
    pub clients : 0 < x.waiting → 0 < length queued + x.pool.active_workers

  pub total-kinds :
      (ws : List (Worker T)) → total alert ws + total sleeper ws + total gone ws ≡ length ws
  unfolding total
  total-kinds [] = refl
  total-kinds (w ∷ ws) = ground (arith, total-kinds ws)

  pub busy-le : (ws : List (Worker T)) → total busy ws ≤ total alert ws
  unfolding total
  busy-le [] = omega arith
  busy-le (w ∷ ws) = ground (arith, busy-le ws)

  -- How a submission ends.
  pub data Added (p : ThreadPool T) (queued : List T) (task : T) {S : Type 0}
      : Bool × ThreadPool T × S → Type 0 where
    accepted :
        {q : Queue T} {s : S}
        → p.shutdown ≡ false
        → Models q (queued ++ task ∷ [])
        → Added p queued task (true, record p { task_queue = q }, s)
    rejected : {s : S} → Added p queued task (false, p, s)

  Enqueued-Added :
      (m : Memory T) (p : ThreadPool T) (queued : List T) (task : T) (s : m.Store)
      {r : Bool × Queue T × m.Store}
      → p.shutdown ≡ false
      → Enqueued m p.task_queue queued task s r
      → Added p queued task (added_to m p r)
  unfolding added_to
  Enqueued-Added m p queued task s e (added v) = accepted e v
  Enqueued-Added m p queued task s e (no_memory full why) = rejected

  -- `justThreadpoolAddTask`: the task is queued behind the others, unless the pool is shutting down
  -- or the queue cannot grow, and then the pool is as it was.
  pub add_task-Added :
      (m : Memory T) (p : ThreadPool T) (queued : List T) (task : T) (s : m.Store)
      → Models p.task_queue queued
      → Fits p.task_queue
      → Added p queued task (add_task m p task s)
  unfolding add_task
  add_task-Added m p queued task s v fits = elim (Bool-cases p.shutdown) [
    | inl e ↦ simp e rejected
    | inr e ↦ simp e (
        Enqueued-Added m p queued task s e
          (enqueue-Enqueued m p.task_queue queued task s v fits.element fits.small fits.bytes))
  ]
