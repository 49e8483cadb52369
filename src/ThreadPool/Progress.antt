-- ===== src/ThreadPool/Progress.antt =====
-- The workers of a thread pool can always drive what is pending to its end.
use native.Mathlib.Decide.{dec_lt}
use just_library.Base.{
  ℕ, zero, suc, ◌+◌, ◌*◌, ◌<◌, ◌≡◌, refl, ap, false, Option, some, List, [], length, get_elem?, set,
  replicate, length-replicate, size_mod, arith,
}
use just_library.Base.Sum.{total, total-set, total-some}
use just_library.Memory.{Memory}
use just_library.Queue.{is_empty}
use just_library.Queue.Valid.{Models}
use just_library.ThreadPool.{
  ThreadPool, Worker, ready, asleep, exited, running, enter_loop, finish_task, must_wait,
}
use just_library.ThreadPool.System.{System, entered, finished, Step, Reaches, start, step}
use just_library.ThreadPool.Invariant.{IsValid, busy, unset, alert, sleeper, gone, carried}
use just_library.ThreadPool.Preserve.{
  Entered, sleeps, leaves, begins, enter_loop-Entered, entered-IsValid, finished-IsValid,
}
use just_library.ThreadPool.Safety.{SameTasks, Reaches-IsValid, waited-done}

module _ {T : Type 0} (m : Memory T) where
  -- what is left to do: two sections for a task that waits, one for a task that runs
  abbrev measure : System T → ℕ
  measure x = 2 * x.pool.task_queue.size + total busy x.workers

  Entered-measure :
      (ws : List (Worker T)) (i : ℕ) (p : ThreadPool T) (queued : List T)
      (r : Worker T × ThreadPool T)
      → get_elem? ws i ≡ some ready
      → p.task_queue.size ≡ length queued
      → 0 < length queued
      → Entered p queued r
      → 2 * r.1.task_queue.size + total busy (set ws i r.0) < 2 * p.task_queue.size + total busy ws
  Entered-measure ws i p queued r at n l (sleeps e s) = absurd (omega (arith, ap length e))
  Entered-measure ws i p queued r at n l (leaves e s) = absurd (omega (arith, ap length e))
  Entered-measure ws i p queued r at n l (begins {t = t} {ts = ts} e w) =
      omega (arith, ap length e, w.counted, total-set busy ws i ready (running (some t)) at)

  finished-measure :
      (x : System T) (i : ℕ) (task : Option T)
      → get_elem? x.workers i ≡ some (running task)
      → measure (finished x i task) < measure x
  unfolding finish_task
  finished-measure x i task at = omega (arith, total-set busy x.workers i (running task) ready at)

  -- What the workers do of themselves: each step is the next section of a worker that is about to
  -- lock or whose task has ended. Nobody is woken but by the workers, and no client takes part.
  pub data Works : System T → System T → Type 0 where
    rests : {x : System T} → Works x x
    enters :
        {x y : System T} (i : ℕ)
        → get_elem? x.workers i ≡ some ready
        → Works (entered x i) y
        → Works x y
    finishes :
        {x y : System T} (i : ℕ) (task : Option T)
        → get_elem? x.workers i ≡ some (running task)
        → Works (finished x i task) y
        → Works x y

  before : {x y z : System T} → Step m x y → Reaches m y z → Reaches m x z
  before s start = step start s
  before s (step r s') = step (before s r) s'

  -- What the workers do alone is a run of the system.
  Works-Reaches : {x y : System T} → Works x y → Reaches m x y
  Works-Reaches rests = start
  Works-Reaches (enters i at w) = before (Step.enters i at) (Works-Reaches w)
  Works-Reaches (finishes i task at w) = before (Step.finishes i task at) (Works-Reaches w)

  -- A run of the workers alone after which nothing is pending and every task that was added is done.
  abbrev pub Drains : System T → Type 0
  Drains x =
      (y : System T) × Works x y
      × (must_wait y.pool ≡ false)
      × (y.added ≡ x.added)
      × SameTasks y.added y.done

  after-enters :
      {x : System T} (i : ℕ) → get_elem? x.workers i ≡ some ready → Drains (entered x i) → Drains x
  after-enters i at (y, r, idle, same, end) = (y, enters i at r, idle, same, end)

  after-finishes :
      {x : System T} (i : ℕ) (task : Option T)
      → get_elem? x.workers i ≡ some (running task)
      → Drains (finished x i task)
      → Drains x
  after-finishes i task at (y, r, idle, same, end) = (y, finishes i task at r, idle, same, end)

  -- The next section, where the states with less to do drain.
  module _ (n : ℕ) (drain : (y : System T) → IsValid y → measure y < n → Drains y) (x : System T)
      (v : IsValid x) (l : measure x < suc n) where
    finishing : (i : ℕ) (task : Option T) → get_elem? x.workers i ≡ some (running task) → Drains x
    finishing i task at = after-finishes i task at (
        drain (finished x i task) (finished-IsValid x v i task at)
          (omega (arith, finished-measure x i task at)))

    acting :
        0 < length v.queued
        → ((i : ℕ) × (w : Worker T) × (get_elem? x.workers i ≡ some w) × (0 < alert w))
        → Drains x
    acting q (i, ready, at, a) =
        let e = enter_loop-Entered x.pool v.queued v.stored in
        after-enters i at (
          drain (entered x i) (entered-IsValid x v i (enter_loop x.pool) at e) (
            omega (
              arith,
              Entered-measure x.workers i x.pool v.queued (enter_loop x.pool) at v.stored.counted q
                  e,
            )))
    acting q (i, running task, at, a) = finishing i task at
    acting q (i, asleep, at, a) = absurd (omega arith)
    acting q (i, exited, at, a) = absurd (omega arith)

    working :
        ((i : ℕ) × (w : Worker T) × (get_elem? x.workers i ≡ some w) × (0 < busy w)) → Drains x
    working (i, running task, at, a) = finishing i task at
    working (i, ready, at, a) = absurd (omega arith)
    working (i, asleep, at, a) = absurd (omega arith)
    working (i, exited, at, a) = absurd (omega arith)

  Drains-in : (n : ℕ) (x : System T) → IsValid x → measure x < n → Drains x
  unfolding must_wait is_empty
  Drains-in zero x v l = absurd (omega arith)
  Drains-in (suc n) x v l = elim (dec_lt 0 (length v.queued)) [
    | yes q ↦ acting n (Drains-in n) x v l q (total-some alert x.workers (v.served q))
    | no q ↦ elim (dec_lt 0 (total busy x.workers)) [
      | no b ↦
          let idle : must_wait x.pool ≡ false = ground (arith, v.stored.counted, v.counted) in
          (x, rests, idle, refl, waited-done m x x v start idle)
      | yes b ↦ working n (Drains-in n) x v l (total-some busy x.workers b)
    ]
  ]

  total-ready : (f : Worker T → ℕ) (n : ℕ) → f ready ≡ 0 → total f (replicate n ready) ≡ 0
  unfolding total
  total-ready f zero e = refl
  total-ready f (suc n) e = omega (arith, e, total-ready f n e)

  -- A pool as `justThreadpoolCreate` leaves it, with `n` workers that have not yet locked.
  abbrev pub created : ThreadPool T → ℕ → System T
  created p n = record {
    pool = p;
    workers = replicate n ready;
    waiting = 0;
    added = [];
    begun = [];
    done = [];
  }

  created-IsValid :
      (p : ThreadPool T) (n : ℕ)
      → Models p.task_queue []
      → p.active_workers ≡ 0
      → 0 < n
      → n < size_mod
      → IsValid (created p n)
  unfolding total
  created-IsValid p n v idle some_threads few = record {
    queued = [];
    stored = v;
    order = refl;
    conserved = λ f. omega (arith, total-ready (carried f) n refl);
    counted = omega (arith, idle, total-ready busy n refl);
    all_set = total-ready unset n refl;
    manned = omega (arith, length-replicate n ready);
    few = omega (arith, length-replicate n ready);
    served = λ l. absurd (omega arith);
    woken_up = λ e. total-ready sleeper n refl;
    left = λ l. absurd (omega (arith, total-ready gone n refl));
    clients = λ l. absurd (omega arith);
  }

  -- From a new pool with a valid empty queue and workers, fewer than 2 ^ 64, whatever the threads and
  -- the clients have done, and in whatever order: the workers alone, without a further wake-up and
  -- without a client, can go on until no task is queued or running and every task that was added is
  -- done.
  pub drain-Reaches :
      (p : ThreadPool T) (n : ℕ) (x : System T)
      → Models p.task_queue []
      → p.active_workers ≡ 0
      → 0 < n
      → n < size_mod
      → Reaches m (created p n) x
      → Drains x
  drain-Reaches p n x stored idle manned few r =
      let v = Reaches-IsValid m (created-IsValid p n stored idle manned few) r in
      Drains-in (suc (measure x)) x v (omega arith)
