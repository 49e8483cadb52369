-- ===== src/ThreadPool/Wake.antt =====
-- Submissions, the shutdown and the waiting of clients keep the invariant.
use native.Mathlib.Decide.{dec_lt}
use just_library.Base.{
  ℕ, ◌≤◌, ◌<◌, ◌≡◌, ◌⊎◌, refl, sym, ap, ◌∙◌, Bool, true, false, some, List, [], ◌∷◌, ◌++◌, length,
  get_elem?, map, arith, inl, inr, length-append, length-set, append_assoc,
}
use just_library.Base.Sum.{total, total-set, total-zero}
use just_library.Queue.{is_empty}
use just_library.ThreadPool.{
  ThreadPool, Worker, ready, asleep, exited, running, must_wait, begin_shutdown,
}
use just_library.ThreadPool.System.{System, woken, Signalled, one, nobody}
use just_library.ThreadPool.Invariant.{
  IsValid, busy, unset, alert, sleeper, gone, carried, total-kinds, Added, accepted, rejected,
}

module _ {T : Type 0} where
  woken_same : (f : Worker T → ℕ) → f ready ≡ f asleep → (w : Worker T) → f (woken w) ≡ f w
  woken_same f h asleep = h
  woken_same f h ready = refl
  woken_same f h exited = refl
  woken_same f h (running t) = refl

  total-woken :
      (f : Worker T → ℕ) (ws : List (Worker T))
      → f ready ≡ f asleep
      → total f (map woken ws) ≡ total f ws
  unfolding total
  total-woken f [] h = refl
  total-woken f (w ∷ ws) h = omega (arith, woken_same f h w, total-woken f ws h)

  woken-awake : (ws : List (Worker T)) → total sleeper (map woken ws) ≡ 0
  unfolding total
  woken-awake [] = refl
  woken-awake (asleep ∷ ws) = omega (arith, woken-awake ws)
  woken-awake (ready ∷ ws) = omega (arith, woken-awake ws)
  woken-awake (exited ∷ ws) = omega (arith, woken-awake ws)
  woken-awake (running t ∷ ws) = omega (arith, woken-awake ws)

  woken-alert : (ws : List (Worker T)) → total alert ws ≤ total alert (map woken ws)
  unfolding total
  woken-alert [] = omega arith
  woken-alert (asleep ∷ ws) = omega (arith, woken-alert ws)
  woken-alert (ready ∷ ws) = omega (arith, woken-alert ws)
  woken-alert (exited ∷ ws) = omega (arith, woken-alert ws)
  woken-alert (running t ∷ ws) = omega (arith, woken-alert ws)

  length-woken : (ws : List (Worker T)) → length (map woken ws) ≡ length ws
  length-woken [] = refl
  length-woken (w ∷ ws) = omega (arith, length-woken ws)

  pub shut_down-IsValid :
      (x : System T)
      → IsValid x
      → IsValid (record x { pool = begin_shutdown x.pool; workers = map woken x.workers })
  unfolding begin_shutdown
  shut_down-IsValid x v =
      let many = length-woken x.workers in
      record {
        queued = v.queued;
        stored = v.stored;
        order = v.order;
        conserved = λ f. omega (arith, v.conserved f, total-woken (carried f) x.workers refl);
        counted = omega (arith, v.counted, total-woken busy x.workers refl);
        all_set = omega (arith, v.all_set, total-woken unset x.workers refl);
        manned = omega (arith, v.manned, many);
        few = omega (arith, v.few, many);
        served = λ l. omega (arith, v.served l, woken-alert x.workers);
        woken_up = λ s. woken-awake x.workers;
        left = λ l. (refl, (v.left (omega (arith, l, total-woken gone x.workers refl))).1);
        clients = v.clients;
      }

  -- A signal makes some worker act, if there is one that has not returned.
  Signalled-alert :
      (ws ws' : List (Worker T))
      → 0 < length ws
      → total gone ws ≡ 0
      → Signalled ws ws'
      → 0 < total alert ws'
  Signalled-alert ws ws' l none_gone (one i at) =
      omega (arith, total-set alert ws i asleep ready at)
  Signalled-alert ws ws' l none_gone (nobody h) =
      omega (arith, total-kinds ws, total-zero sleeper ws (λ i w at. awake h i w at))
    where
      awake :
          ((i : ℕ) → get_elem? ws i ≡ some asleep → ⊥)
          → (i : ℕ) (w : Worker T) → get_elem? ws i ≡ some w
          → sleeper w ≡ 0
      awake h i asleep at = absurd (h i at)
      awake h i ready at = refl
      awake h i exited at = refl
      awake h i (running t) at = refl

  -- A signal changes nothing but that a sleeper is ready.
  Signalled-total :
      (f : Worker T → ℕ) (ws ws' : List (Worker T))
      → f ready ≡ f asleep
      → Signalled ws ws'
      → total f ws' ≡ total f ws
  Signalled-total f ws ws' h (one i at) = omega (arith, total-set f ws i asleep ready at)
  Signalled-total f ws ws' h (nobody n) = refl

  Signalled-length : (ws ws' : List (Worker T)) → Signalled ws ws' → length ws' ≡ length ws
  Signalled-length ws ws' (one i at) = length-set ws i ready
  Signalled-length ws ws' (nobody n) = refl

  pub added-IsValid :
      (x : System T) (v : IsValid x) (task : T) {S : Type 0} (r : Bool × ThreadPool T × S)
      (ws : List (Worker T))
      → Added x.pool v.queued task r
      → r.0 ≡ true
      → Signalled x.workers ws
      → IsValid (record x { pool = r.1; workers = ws; added = x.added ++ task ∷ [] })
  unfolding total
  added-IsValid x v task r ws rejected no_success s = absurd (cc no_success)
  added-IsValid x v task r ws (accepted open_pool w) done s =
      let many = Signalled-length x.workers ws s in
      let same =
        λ (f : Worker T → ℕ) (h : f ready ≡ f asleep). Signalled-total f x.workers ws h s in
      let shut : x.pool.shutdown ≡ true → ⊥ =
        λ e. let clash : true ≡ false = sym e ∙ open_pool in cc clash in
      let nobody_left : total gone x.workers ≡ 0 = elim (dec_lt 0 (total gone x.workers)) [
        | yes l ↦ absurd (shut (v.left l).0)
        | no l ↦ omega arith
      ] in
      record {
        queued = v.queued ++ task ∷ [];
        stored = w;
        order = ap (λ a. a ++ task ∷ []) v.order ∙ append_assoc x.begun v.queued (task ∷ []);
        conserved = λ f. omega (arith, v.conserved f, same (carried f) refl);
        counted = omega (arith, v.counted, same busy refl);
        all_set = omega (arith, v.all_set, same unset refl);
        manned = omega (arith, v.manned, many);
        few = omega (arith, v.few, many);
        served = λ l. Signalled-alert x.workers ws v.manned nobody_left s;
        woken_up = λ e. absurd (shut e);
        left = λ l. absurd (omega (arith, l, same gone refl, nobody_left));
        clients = λ l. omega (arith, length-append v.queued (task ∷ []));
      }

  pub refused-IsValid :
      (x : System T) (v : IsValid x) (task : T) {S : Type 0} (r : Bool × ThreadPool T × S)
      → Added x.pool v.queued task r
      → r.0 ≡ false
      → IsValid (record x { pool = r.1 })
  refused-IsValid x v task r rejected e = v
  refused-IsValid x v task r (accepted open_pool w) e = absurd (cc e)

  pub waiting-IsValid :
      (x : System T) (n : ℕ)
      → IsValid x
      → (0 < n → (0 < x.waiting) ⊎ (must_wait x.pool ≡ true))
      → IsValid (record x { waiting = n })
  unfolding must_wait is_empty
  waiting-IsValid x n v h = record {
    queued = v.queued;
    stored = v.stored;
    order = v.order;
    conserved = v.conserved;
    counted = v.counted;
    all_set = v.all_set;
    manned = v.manned;
    few = v.few;
    served = v.served;
    woken_up = v.woken_up;
    left = v.left;
    clients = λ l. elim (h l) [ inl m ↦ v.clients m | inr e ↦ ground (arith, v.stored.counted, e) ];
  }
