-- ===== src/ThreadPool/Safety.antt =====
-- What a thread pool promises at every time, whatever the order of its threads.
use just_library.Base.{
  ℕ, suc, ◌-◌, ◌%◌, ◌≡◌, refl, ap, ◌∙◌, true, false, none, some, List, [], ◌∷◌, ◌++◌, length, arith,
  inl, inr, size_mod, length-append, append-nil,
}
use just_library.Base.Sum.{total}
use just_library.Memory.{Memory}
use just_library.Queue.{is_empty}
use just_library.ThreadPool.{
  Worker, ready, asleep, exited, running, enter_loop, must_wait, add_task, pending_tasks,
}
use just_library.ThreadPool.System.{
  System, Step, adds, refuses, enters, wakes, finishes, shuts_down, waits, wakes_client, Reaches,
  start, step,
}
use just_library.ThreadPool.Invariant.{
  IsValid, busy, unset, gone, carried, total-kinds, busy-le, add_task-Added,
}
use just_library.ThreadPool.Preserve.{
  enter_loop-Entered, entered-IsValid, woken-IsValid, finished-IsValid,
}
use just_library.ThreadPool.Wake.{
  added-IsValid, refused-IsValid, shut_down-IsValid, waiting-IsValid,
}

-- The same tasks, each as often: every weight on tasks has the same sum over both lists.
pub record SameTasks {T : Type 0} (xs ys : List T) : Type 0 where
  pub weighed : (f : T → ℕ) → total f xs ≡ total f ys

module _ {T : Type 0} (m : Memory T) where
  Step-IsValid : {x y : System T} → IsValid x → Step m x y → IsValid y
  Step-IsValid v (adds {x = x} {ws = ws} task s fits done signal) =
      added-IsValid x v task (add_task m x.pool task s) ws
        (add_task-Added m x.pool v.queued task s v.stored fits) done signal
  Step-IsValid v (refuses {x = x} task s fits failed) =
      refused-IsValid x v task (add_task m x.pool task s)
        (add_task-Added m x.pool v.queued task s v.stored fits) failed
  Step-IsValid v (enters {x = x} i at) =
      entered-IsValid x v i (enter_loop x.pool) at (enter_loop-Entered x.pool v.queued v.stored)
  Step-IsValid v (wakes {x = x} i at) = woken-IsValid x v i at
  Step-IsValid v (finishes {x = x} i task at) = finished-IsValid x v i task at
  Step-IsValid v (shuts_down {x = x}) = shut_down-IsValid x v
  Step-IsValid v (waits {x = x} e) = waiting-IsValid x (suc x.waiting) v (λ l. inr e)
  Step-IsValid v (wakes_client {x = x} n e) = waiting-IsValid x n v (λ l. inl (omega arith))

  -- Whatever the threads and the clients do, and in whatever order, the invariant holds.
  pub Reaches-IsValid : {x y : System T} → IsValid x → Reaches m x y → IsValid y
  Reaches-IsValid v start = v
  Reaches-IsValid v (step r s) = Step-IsValid (Reaches-IsValid v r) s

  all_begun : (xs ys : List T) → ys ≡ [] → xs ++ ys ≡ xs
  all_begun xs ys e = ap (λ t. xs ++ t) e ∙ append-nil xs

  no_tasks : (ws : List (Worker T)) (f : T → ℕ) → total busy ws ≡ 0 → total (carried f) ws ≡ 0
  unfolding total
  no_tasks [] f e = refl
  no_tasks (asleep ∷ ws) f e = omega (arith, no_tasks ws f (omega arith))
  no_tasks (ready ∷ ws) f e = omega (arith, no_tasks ws f (omega arith))
  no_tasks (exited ∷ ws) f e = omega (arith, no_tasks ws f (omega arith))
  no_tasks (running t ∷ ws) f e = absurd (omega arith)

  -- `justThreadpoolWait` returns, at a time when its test fails, only after every task that was
  -- added is done.
  pub waited-done :
      (x y : System T)
      → IsValid x
      → Reaches m x y
      → must_wait y.pool ≡ false
      → SameTasks y.added y.done
  unfolding must_wait is_empty
  waited-done x y valid r e =
      let v = Reaches-IsValid valid r in
      let none_waits : length v.queued ≡ 0 = ground (arith, v.stored.counted, e) in
      let idle : total busy y.workers ≡ 0 = ground (arith, v.counted, e) in
      let order = v.order ∙ all_begun y.begun v.queued (empty_list v.queued none_waits) in
      record {
        weighed = λ f. ap (total f) order ∙ omega (arith, v.conserved f, no_tasks y.workers f idle);
      }
    where
      empty_list : (xs : List T) → length xs ≡ 0 → xs ≡ []
      empty_list [] l = refl
      empty_list (t ∷ ts) l = absurd (omega arith)

  exits-idle : (ws : List (Worker T)) → total gone ws ≡ length ws → total busy ws ≡ 0
  unfolding total
  exits-idle ws e = omega (arith, total-kinds ws, busy-le ws)

  -- When all the workers have returned, so that the joins of `justThreadpoolDestroy` have too, the
  -- pool was shut down and every task that was ever added is done.
  pub joined-done :
      (x y : System T)
      → IsValid x
      → Reaches m x y
      → total gone y.workers ≡ length y.workers
      → (y.pool.shutdown ≡ true) × (y.added ≡ y.begun) × SameTasks y.added y.done
  joined-done x y valid r e =
      let v = Reaches-IsValid valid r in
      let (shut, none_waits) = v.left (omega (arith, v.manned)) in
      let order = v.order ∙ all_begun y.begun v.queued none_waits in
      (
        shut,
        order,
        record {
          weighed = λ f.
              ap (total f) order
              ∙ omega (arith, v.conserved f, no_tasks y.workers f (exits-idle y.workers e));
        },
      )

  length-total : (xs : List T) → total (λ t. 1) xs ≡ length xs
  unfolding total
  length-total [] = refl
  length-total (t ∷ ts) = omega (arith, length-total ts)

  one_task_each :
      (ws : List (Worker T)) → total unset ws ≡ 0 → total (carried (λ t. 1)) ws ≡ total busy ws
  unfolding total
  one_task_each [] e = refl
  one_task_each (asleep ∷ ws) e = omega (arith, one_task_each ws (omega arith))
  one_task_each (ready ∷ ws) e = omega (arith, one_task_each ws (omega arith))
  one_task_each (exited ∷ ws) e = omega (arith, one_task_each ws (omega arith))
  one_task_each (running (some t) ∷ ws) e = omega (arith, one_task_each ws (omega arith))
  one_task_each (running none ∷ ws) e = absurd (omega arith)

  -- At every time the tasks are begun in the order in which they were added, each once, and
  -- `justThreadpoolPendingTasks` is the number, as a `size_t`, of tasks that were added and are not
  -- done.
  pub begun-in_order :
      (x y : System T)
      → IsValid x
      → Reaches m x y
      → ((rest : List T) × (y.added ≡ y.begun ++ rest))
        × (pending_tasks y.pool ≡ (length y.added - length y.done) % size_mod)
  unfolding pending_tasks
  begun-in_order x y valid r =
      let v = Reaches-IsValid valid r in
      let all = ap length v.order in
      let parts = length-append y.begun v.queued in
      let one = v.conserved (λ t. 1) in
      let each = one_task_each y.workers v.all_set in
      (
        (v.queued, v.order),
        omega (
          arith,
          all,
          parts,
          one,
          each,
          length-total y.begun,
          length-total y.done,
          v.counted,
          v.stored.counted,
        ),
      )
