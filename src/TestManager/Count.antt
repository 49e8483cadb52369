-- ===== src/TestManager/Count.antt =====
-- What `justTestRunAll` counts.
use just_library.Base.{
  ℕ, ◌+◌, ◌≤◌, ◌<◌, ◌≡◌, ◌≢◌, refl, ap, subst, ◌∙◌, Bool, true, false, inl, inr, Option, none, some,
  List, [], ◌∷◌, ◌++◌, length, size_mod, ◌==◌, ==_iff, Bool-cases, arith,
}
use just_library.TestManager.{
  TestEntry, Tally, Status, count_result, run_test_forked, run_group, test_pass, test_skip,
}

module _ {Test World : Type 0} (open_pipe : World → Bool × World)
    (fork_and_wait : Test → World → Status × World) where
  -- A run of tests one after the other, from a world to a world, by what the operating system says,
  -- with the number of those that count as bad: a test without a pipe, one that a signal ended, and
  -- one that exited with a code other than those for a pass and for a skip.
  pub data Runs : List (TestEntry Test) → World → ℕ → World → Type 0 where
    finished : {w : World} → Runs [] w 0 w
    no_pipe :
        {test : TestEntry Test} {tests : List (TestEntry Test)} {w w' v : World} {n : ℕ}
        → open_pipe w ≡ (false, w')
        → Runs tests w' n v
        → Runs (test ∷ tests) w (n + 1) v
    killed :
        {test : TestEntry Test} {tests : List (TestEntry Test)} {w w' w'' v : World} {n : ℕ}
        → open_pipe w ≡ (true, w')
        → fork_and_wait test.func w' ≡ (Status.signalled, w'')
        → Runs tests w'' n v
        → Runs (test ∷ tests) w (n + 1) v
    passed :
        {test : TestEntry Test} {tests : List (TestEntry Test)} {w w' w'' v : World} {n : ℕ}
        → open_pipe w ≡ (true, w')
        → fork_and_wait test.func w' ≡ (Status.exited test_pass, w'')
        → Runs tests w'' n v
        → Runs (test ∷ tests) w n v
    skipped :
        {test : TestEntry Test} {tests : List (TestEntry Test)} {w w' w'' v : World} {n : ℕ}
        → open_pipe w ≡ (true, w')
        → fork_and_wait test.func w' ≡ (Status.exited test_skip, w'')
        → Runs tests w'' n v
        → Runs (test ∷ tests) w n v
    failed :
        {test : TestEntry Test} {tests : List (TestEntry Test)} {w w' w'' v : World} {n code : ℕ}
        → open_pipe w ≡ (true, w')
        → fork_and_wait test.func w' ≡ (Status.exited code, w'')
        → code ≢ test_pass
        → code ≢ test_skip
        → Runs tests w'' n v
        → Runs (test ∷ tests) w (n + 1) v

  pub Runs-le :
      {tests : List (TestEntry Test)} {w v : World} {n : ℕ} → Runs tests w n v → n ≤ length tests
  Runs-le finished = omega arith
  Runs-le (no_pipe p r) = omega (arith, Runs-le r)
  Runs-le (killed p s r) = omega (arith, Runs-le r)
  Runs-le (passed p s r) = omega (arith, Runs-le r)
  Runs-le (skipped p s r) = omega (arith, Runs-le r)
  Runs-le (failed p s h h' r) = omega (arith, Runs-le r)

  pub run_group-append :
      (xs ys : List (TestEntry Test)) (t : Tally) (w : World)
      → run_group open_pipe fork_and_wait (xs ++ ys) t w ≡ (
          let (t', w') = run_group open_pipe fork_and_wait xs t w in
          run_group open_pipe fork_and_wait ys t' w')
  unfolding run_group
  run_group-append [] ys t w = refl
  run_group-append (x ∷ xs) ys t w =
      let (r, w') = run_test_forked open_pipe fork_and_wait x w in
      run_group-append xs ys (count_result r t) w'

  -- What one test adds to a run of the others, and to the counters that make the result.
  data Adds (test : TestEntry Test) (w w' : World) : Option ℕ → ℕ → Type 0 where
    adds :
        {r : Option ℕ} {k : ℕ}
        → k ≤ 1
        → ((tests : List (TestEntry Test)) (n : ℕ) (v : World)
            → Runs tests w' n v
            → Runs (test ∷ tests) w (n + k) v)
        → ((t : Tally) (n : ℕ)
            → t.failed_tests + t.crashed_tests ≡ n
            → n + 1 < size_mod
            → (count_result r t).failed_tests + (count_result r t).crashed_tests ≡ n + k)
        → Adds test w w' r k

  with_code :
      (test : TestEntry Test) (w w' w'' : World) (code : ℕ)
      → open_pipe w ≡ (true, w')
      → fork_and_wait test.func w' ≡ (Status.exited code, w'')
      → (k : ℕ) × Adds test w w'' (some code) k
  unfolding count_result
  with_code test w w' w'' code p s = elim (Bool-cases (code == test_pass)) [
    | inl e ↦
        let is : code ≡ test_pass = (==_iff code test_pass).0 e in
        let s' = s ∙ ap (λ c. (Status.exited c, w'')) is in
        (
          0,
          adds (omega arith)
              (λ tests n v r. subst (λ i. Runs (test ∷ tests) w i v) (same n) (passed p s' r))
              (λ t n h l. rw (count_result, e) (omega arith)),
        )
    | inr e ↦ elim (Bool-cases (code == test_skip)) [
      | inl e' ↦
          let is : code ≡ test_skip = (==_iff code test_skip).0 e' in
          let s' = s ∙ ap (λ c. (Status.exited c, w'')) is in
          (
            0,
            adds (omega arith)
                (λ tests n v r. subst (λ i. Runs (test ∷ tests) w i v) (same n) (skipped p s' r))
                (λ t n h l. rw (count_result, e, e') (omega arith)),
          )
      | inr e' ↦
          let other : code ≢ test_pass = ground (arith, e) in
          let other' : code ≢ test_skip = ground (arith, e') in
          (
            1,
            adds (omega arith) (λ tests n v r. failed p s other other' r)
                (λ t n h l. rw (count_result, e, e') (omega arith)),
          )
    ]
  ]
    where
      same : (n : ℕ) → n ≡ n + 0
      same n = omega arith

  with_status :
      (test : TestEntry Test) (w w' w'' : World) (status : Status)
      → open_pipe w ≡ (true, w')
      → fork_and_wait test.func w' ≡ (status, w'')
      → (let (r, v) = elim status as (λ s. Option ℕ × World) [
        | Status.signalled ↦ (none, w'')
        | Status.exited code ↦ (some code, w'')
      ] in
          (k : ℕ) × Adds test w v r k)
  unfolding count_result
  with_status test w w' w'' (Status.exited code) p s = with_code test w w' w'' code p s
  with_status test w w' w'' Status.signalled p s =
      (1, adds (omega arith) (λ tests n v r. killed p s r) (λ t n h l. omega arith))

  run_test_forked-Adds :
      (test : TestEntry Test) (w : World)
      → let (r, w') = run_test_forked open_pipe fork_and_wait test w in (k : ℕ) × Adds test w w' r k
  unfolding run_test_forked count_result
  run_test_forked-Adds test w =
      let opening = open_pipe w in
      elim (Bool-cases opening.0) [
        | inl e ↦
            let ended = fork_and_wait test.func opening.1 in
            rw (run_test_forked, e)
              (with_status test w opening.1 ended.1 ended.0 (ap (λ b. (b, opening.1)) e) refl)
        | inr e ↦
            rw (run_test_forked, e)
              (
                1,
                adds (omega arith) (λ tests n v r. no_pipe (ap (λ b. (b, opening.1)) e) r)
                    (λ t n h l. omega arith),
              )
      ]

  -- The tests of a group are run, and the counters that make the result go up by those that are bad.
  pub run_group-Runs :
      (tests : List (TestEntry Test)) (t : Tally) (w : World) (n : ℕ)
      → t.failed_tests + t.crashed_tests ≡ n
      → n + length tests < size_mod
      → (let (t', w') = run_group open_pipe fork_and_wait tests t w in
          (k : ℕ) × (t'.failed_tests + t'.crashed_tests ≡ n + k) × Runs tests w k w')
  unfolding run_group
  run_group-Runs [] t w n e l = (0, omega arith, finished)
  run_group-Runs (test ∷ tests) t w n e l =
      let run = run_test_forked open_pipe fork_and_wait test w in
      let (k, added) = run_test_forked-Adds test w in
      elim added [
        | adds few more up ↦
            let one = up t n e (omega arith) in
            let (rest, f, r) =
              run_group-Runs tests (count_result run.0 t) run.1 (n + k) one (omega arith) in
            (rest + k, omega arith, more tests rest _ r)
      ]
