-- ===== src/ThreadPool/Preserve.antt =====
-- The sections of a worker keep the invariant.
use just_library.Base.{
  ℕ, ◌+◌, ◌≡◌, refl, sym, ap, ◌∙◌, subst, Bool, true, false, Option, some, List, [], ◌∷◌, ◌++◌,
  length, set, get_elem?, arith, inl, inr, Bool-cases, ◌==◌, add_size, sub_size, length-set,
  append_assoc, append-nil,
}
use just_library.Base.Sum.{total, total-set, total-append}
use just_library.Queue.{Queue, is_empty}
use just_library.Queue.Valid.{Models}
use just_library.Queue.Refine.{Dequeued, dequeue_refines}
use just_library.ThreadPool.{
  ThreadPool, Worker, ready, asleep, exited, running, begin_task, enter_loop, finish_task,
}
use just_library.ThreadPool.System.{System, task_of, finished}
use just_library.ThreadPool.Invariant.{
  IsValid, busy, unset, alert, sleeper, gone, carried, total-kinds, busy-le,
}

module _ {T : Type 0} where
  -- How a worker leaves the first section of its loop.
  pub data Entered (p : ThreadPool T) (queued : List T) : Worker T × ThreadPool T → Type 0 where
    sleeps : queued ≡ [] → p.shutdown ≡ false → Entered p queued (asleep, p)
    leaves : queued ≡ [] → p.shutdown ≡ true → Entered p queued (exited, p)
    begins :
        {t : T} {ts : List T} {q : Queue T}
        → queued ≡ t ∷ ts
        → Models q ts
        → Entered p queued (
          running (some t),
          record p { task_queue = q; active_workers = add_size p.active_workers 1 },
        )

  begin_task-Entered :
      (p : ThreadPool T) (t : T) (ts : List T) (r : Bool × Option T × Queue T)
      → Dequeued p.task_queue true (t ∷ ts) r
      → Entered p (t ∷ ts) (begin_task r p)
  unfolding begin_task
  begin_task-Entered p t ts (done, o, q) (yes_done, got, v) =
      subst
        (λ o.
          Entered p (t ∷ ts)
            (running o, record p { task_queue = q; active_workers = add_size p.active_workers 1 }))
        (sym got) (begins refl v)

  pub enter_loop-Entered :
      (p : ThreadPool T) (queued : List T)
      → Models p.task_queue queued
      → Entered p queued (enter_loop p)
  unfolding enter_loop is_empty
  enter_loop-Entered p [] v =
      let e : (p.task_queue.size == 0) ≡ true = ground (arith, v.counted) in
      elim (Bool-cases p.shutdown) [
        | inl s ↦ simp (e, s) (leaves refl s)
        | inr s ↦ simp (e, s) (sleeps refl s)
      ]
  enter_loop-Entered p (t ∷ ts) v =
      let e : (p.task_queue.size == 0) ≡ false = ground (arith, v.counted) in
      elim (Bool-cases p.shutdown) [
        | inl s ↦
            simp (e, s) (begin_task-Entered p t ts _ (dequeue_refines p.task_queue (t ∷ ts) true v))
        | inr s ↦
            simp (e, s) (begin_task-Entered p t ts _ (dequeue_refines p.task_queue (t ∷ ts) true v))
      ]

  module _ (x : System T) (v : IsValid x) (i : ℕ) where
    -- a worker that is in the pool
    counts :
        (f : Worker T → ℕ) (w w' : Worker T)
        → get_elem? x.workers i ≡ some w
        → total f (set x.workers i w') + f w ≡ total f x.workers + f w'
    counts f w w' at = total-set f x.workers i w w' at

    pub entered-IsValid :
        (r : Worker T × ThreadPool T)
        → get_elem? x.workers i ≡ some ready
        → Entered x.pool v.queued r
        → IsValid
            (record x { pool = r.1; workers = set x.workers i r.0; begun = x.begun ++ task_of r.0 })
    unfolding total
    entered-IsValid r at (sleeps e open_pool) =
        let c = λ (f : Worker T → ℕ). counts f ready asleep at in
        record {
          queued = v.queued;
          stored = v.stored;
          order = rw (append-nil x.begun) v.order;
          conserved = λ f. rw (append-nil x.begun) (omega (arith, v.conserved f, c (carried f)));
          counted = omega (arith, v.counted, c busy);
          all_set = omega (arith, v.all_set, c unset);
          manned = omega (arith, v.manned, length-set x.workers i asleep);
          few = omega (arith, v.few, length-set x.workers i asleep);
          served = λ l. absurd (omega (arith, ap length e, l));
          woken_up = λ s. let clash : true ≡ false = sym s ∙ open_pool in absurd (cc clash);
          left = λ l. v.left (omega (arith, l, c gone));
          clients = v.clients;
        }
    entered-IsValid r at (leaves e shut) =
        let c = λ (f : Worker T → ℕ). counts f ready exited at in
        record {
          queued = v.queued;
          stored = v.stored;
          order = rw (append-nil x.begun) v.order;
          conserved = λ f. rw (append-nil x.begun) (omega (arith, v.conserved f, c (carried f)));
          counted = omega (arith, v.counted, c busy);
          all_set = omega (arith, v.all_set, c unset);
          manned = omega (arith, v.manned, length-set x.workers i exited);
          few = omega (arith, v.few, length-set x.workers i exited);
          served = λ l. absurd (omega (arith, ap length e, l));
          woken_up = λ s. omega (arith, v.woken_up s, c sleeper);
          left = λ l. (shut, e);
          clients = v.clients;
        }
    entered-IsValid r at (begins {t = t} {ts = ts} e w) =
        let c = λ (f : Worker T → ℕ). counts f ready (running (some t)) at in
        let kinds = total-kinds (set x.workers i (running (some t))) in
        let working = busy-le (set x.workers i (running (some t))) in
        let many = length-set x.workers i (running (some t)) in
        let one_more : add_size x.pool.active_workers 1 ≡ x.pool.active_workers + 1 =
          omega (arith, v.counted, c busy, v.few, kinds, working, many) in
        record {
          queued = ts;
          stored = w;
          order = v.order ∙ ap (λ q. x.begun ++ q) e ∙ sym (append_assoc x.begun (t ∷ []) ts);
          conserved =
              λ f. omega (arith, v.conserved f, c (carried f), total-append f x.begun (t ∷ []));
          counted = omega (arith, v.counted, c busy, one_more);
          all_set = omega (arith, v.all_set, c unset);
          manned = omega (arith, v.manned, many);
          few = omega (arith, v.few, many);
          served = λ l. omega (arith, c alert, v.served (omega (arith, ap length e)));
          woken_up = λ s. omega (arith, v.woken_up s, c sleeper);
          left = λ l.
              absurd (omega (arith, ap length e, ap length (v.left (omega (arith, l, c gone))).1));
          clients = λ l. omega (arith, one_more);
        }

    pub woken-IsValid :
        get_elem? x.workers i ≡ some asleep → IsValid (record x { workers = set x.workers i ready })
    unfolding total
    woken-IsValid at =
        let c = λ (f : Worker T → ℕ). counts f asleep ready at in
        record {
          queued = v.queued;
          stored = v.stored;
          order = v.order;
          conserved = λ f. omega (arith, v.conserved f, c (carried f));
          counted = omega (arith, v.counted, c busy);
          all_set = omega (arith, v.all_set, c unset);
          manned = omega (arith, v.manned, length-set x.workers i ready);
          few = omega (arith, v.few, length-set x.workers i ready);
          served = λ l. omega (arith, c alert, v.served l);
          woken_up = λ s. omega (arith, v.woken_up s, c sleeper);
          left = λ l. v.left (omega (arith, l, c gone));
          clients = v.clients;
        }

    pub finished-IsValid :
        (task : Option T)
        → get_elem? x.workers i ≡ some (running task)
        → IsValid (finished x i task)
    unfolding total finish_task is_empty
    finished-IsValid task at =
        let c = λ (f : Worker T → ℕ). counts f (running task) ready at in
        let kinds = total-kinds x.workers in
        let working = busy-le x.workers in
        let now : sub_size x.pool.active_workers 1 + 1 ≡ x.pool.active_workers =
          omega (arith, v.counted, c busy, v.few, kinds, working) in
        record {
          queued = v.queued;
          stored = v.stored;
          order = v.order;
          conserved = λ f.
              omega (
                arith,
                v.conserved f,
                c (carried f),
                total-append f x.done (task_of (running task)),
              );
          counted = omega (arith, v.counted, c busy, now);
          all_set = omega (arith, v.all_set, c unset);
          manned = omega (arith, v.manned, length-set x.workers i ready);
          few = omega (arith, v.few, length-set x.workers i ready);
          served = λ l. omega (arith, c alert, v.served l);
          woken_up = λ s. omega (arith, v.woken_up s, c sleeper);
          left = λ l. v.left (omega (arith, l, c gone));
          clients = λ l. ground (arith, l, v.stored.counted);
        }
