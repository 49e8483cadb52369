-- ===== src/TestManager/Run.antt =====
-- A run of all the tests against the tests that were registered.
use just_library.Base.{
  ℕ, zero, suc, ◌+◌, ◌-◌, ◌*◌, ◌≤◌, ◌<◌, ◌≡◌, refl, sym, ap, subst, ◌∙◌, Bool, some, List, [], ◌++◌,
  length, length-append, add_size, append-nil, append_assoc, arith,
}
use just_library.TestManager.{
  TestEntry, TestManager, Tally, Status, no_tests, group_at, empty_manager, run_group, run_groups,
  run_all, max_test_groups, max_tests_per_group,
}
use just_library.TestManager.Count.{Runs, Runs-le, run_group-append, run_group-Runs}
use just_library.TestManager.Register.{wanted, register_all, Holds, registered-Holds}

module _ {Test : Type 0} where
  -- The tests that were registered for the groups `g`, `g + 1`, ..., `g + n - 1`, group after group.
  unfoldable pub schedule : ℕ → ℕ → List (TestEntry Test × ℕ) → List (TestEntry Test)
  schedule zero g calls = []
  schedule (suc n) g calls = wanted g calls ++ schedule n (g + 1) calls

  schedule-add :
      (n k g : ℕ) (calls : List (TestEntry Test × ℕ))
      → schedule (n + k) g calls ≡ schedule n g calls ++ schedule k (g + n) calls
  unfolding schedule
  schedule-add zero k g calls =
      let e : zero + k ≡ k = omega arith in let e' : g + zero ≡ g = omega arith in rw (e, e') refl
  schedule-add (suc n) k g calls =
      let e : suc n + k ≡ suc (n + k) = omega arith in
      let e' : g + suc n ≡ g + 1 + n = omega arith in
      rw (e, e')
        (ap (λ t. wanted g calls ++ t) (schedule-add n k (g + 1) calls)
          ∙ sym (
              append_assoc (wanted g calls) (schedule n (g + 1) calls)
                (schedule k (g + 1 + n) calls)))

  schedule-beyond :
      (n g highest : ℕ) (calls : List (TestEntry Test × ℕ))
      → ((h : ℕ) → highest < h → wanted h calls ≡ [])
      → highest < g
      → schedule n g calls ≡ []
  unfolding schedule
  schedule-beyond zero g highest calls none_there l = refl
  schedule-beyond (suc n) g highest calls none_there l =
      rw (none_there g l) (schedule-beyond n (g + 1) highest calls none_there (omega arith))

  length-schedule :
      (n g : ℕ) (calls : List (TestEntry Test × ℕ))
      → ((h : ℕ) → length (wanted h calls) ≤ max_tests_per_group)
      → length (schedule n g calls) ≤ n * max_tests_per_group
  unfolding schedule
  length-schedule zero g calls few = omega arith
  length-schedule (suc n) g calls few =
      let rest = length-schedule n (g + 1) calls few in
      let this = few g in
      omega (arith, length-append (wanted g calls) (schedule n (g + 1) calls), rest, this)

module _ {Test World : Type 0} (open_pipe : World → Bool × World)
    (fork_and_wait : Test → World → Status × World) where
  run_groups-schedule :
      (n g : ℕ) (m : TestManager Test) (calls : List (TestEntry Test × ℕ)) (t : Tally) (w : World)
      → Holds m calls
      → run_groups open_pipe fork_and_wait n g m t w
        ≡ run_group open_pipe fork_and_wait (schedule n g calls) t w
  unfolding run_groups run_group schedule
  run_groups-schedule zero g m calls t w v = refl
  run_groups-schedule (suc n) g m calls t w v =
      let (t', w') = run_group open_pipe fork_and_wait (group_at m g) t w in
      run_groups-schedule n (g + 1) m calls t' w' v
      ∙ sym (run_group-append open_pipe fork_and_wait (group_at m g) (schedule n (g + 1) calls) t w)
      ∙ ap (λ s. run_group open_pipe fork_and_wait (s ++ schedule n (g + 1) calls) t w) (v.held g)

  -- After any registrations that did not abort, `justTestRunAll` runs the tests that were
  -- registered, group after group and within a group in the order of registration, each in the world
  -- that the one before it left, and returns the number of those that got no pipe, that a signal
  -- ended, or that exited with a code other than those for a pass and for a skip.
  pub run_all-Runs :
      (m : TestManager Test) (calls : List (TestEntry Test × ℕ)) (w : World)
      → register_all empty_manager calls ≡ some m
      → (let (bad, w') = run_all open_pipe fork_and_wait m w in
          Runs open_pipe fork_and_wait (schedule max_test_groups 0 calls) w bad w')
  unfolding run_all
  run_all-Runs m calls w e =
      let v = registered-Holds m calls e in
      let n = m.max_group_id + 1 in
      let tests = schedule max_test_groups 0 calls in
      let high = v.highest in
      let left : n + (max_test_groups - n) ≡ max_test_groups = omega arith in
      let all : schedule n 0 calls ≡ tests =
        sym (append-nil (schedule n 0 calls))
        ∙ ap (λ t. schedule n 0 calls ++ t)
            (sym (
              schedule-beyond (max_test_groups - n) (0 + n) m.max_group_id calls v.beyond
                (omega arith)))
        ∙ sym (schedule-add n (max_test_groups - n) 0 calls)
        ∙ ap (λ k. schedule k 0 calls) left in
      let short = length-schedule max_test_groups 0 calls v.bounded in
      let ran =
        run_groups-schedule n 0 m calls no_tests w v
        ∙ ap (λ s. run_group open_pipe fork_and_wait s no_tests w) all in
      let (bad, count, runs) =
        run_group-Runs open_pipe fork_and_wait tests no_tests w 0 refl (omega arith) in
      let most = Runs-le open_pipe fork_and_wait runs in
      let t = (run_group open_pipe fork_and_wait tests no_tests w).0 in
      let fits : bad ≡ add_size t.failed_tests t.crashed_tests =
        omega (arith, count, most, short) in
      subst
        (λ (x : Tally × World).
          Runs open_pipe fork_and_wait tests w (add_size x.0.failed_tests x.0.crashed_tests) x.1)
        (sym ran)
        (subst
          (λ k.
            Runs open_pipe fork_and_wait tests w k
              (run_group open_pipe fork_and_wait tests no_tests w).1)
          fits runs)
