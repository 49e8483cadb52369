-- ===== src/TestManager.antt =====
-- include/justUtils/testing/testManager.h and src/testing/testManager.c on a POSIX system. The child
-- process of a test and its pipe belong to the operating system: they are functions on the state of
-- the world. The lines that are logged are left out; `none` is `abort`.
pub mod Count
pub mod Register
pub mod Run
use just_library.Base.{
  ℕ, zero, suc, ◌+◌, Bool, true, false, Option, none, some, List, [], ◌∷◌, ◌++◌, length, set,
  get_elem?, replicate, add_size, ◌==◌, ltb,
}
use just_library.Base.Text.{Name}

-- `JUST_MAX_TEST_GROUPS`
abbrev pub max_test_groups : ℕ
max_test_groups = 32

-- `JUST_MAX_TESTS_PER_GROUP`
abbrev pub max_tests_per_group : ℕ
max_tests_per_group = 256

-- `JUST_TEST_PASS` and `JUST_TEST_SKIP`; every other result is a failure
abbrev pub test_pass : ℕ
test_pass = 1

abbrev pub test_skip : ℕ
test_skip = 2

-- What `waitpid` says of a child: it was ended by a signal, or it exited with a code.
pub data Status : Type 0 where
  signalled : Status
  exited : ℕ → Status

-- The counters of `justTestRunAll`.
pub record Tally : Type 0 where
  pub total_tests : ℕ
  pub passed_tests : ℕ
  pub skipped_tests : ℕ
  pub failed_tests : ℕ
  pub crashed_tests : ℕ

abbrev pub no_tests : Tally
no_tests = record {
  total_tests = 0;
  passed_tests = 0;
  skipped_tests = 0;
  failed_tests = 0;
  crashed_tests = 0;
}

-- The branches after a test; `none` is a test that was not executed safely.
unfoldable pub count_result : Option ℕ → Tally → Tally
count_result none t = record t {
  total_tests = add_size t.total_tests 1;
  crashed_tests = add_size t.crashed_tests 1;
}
count_result (some code) t = elim (code == test_pass) [
  | true ↦ record t {
    total_tests = add_size t.total_tests 1;
    passed_tests = add_size t.passed_tests 1;
  }
  | false ↦ elim (code == test_skip) [
    | true ↦ record t {
      total_tests = add_size t.total_tests 1;
      skipped_tests = add_size t.skipped_tests 1;
    }
    | false ↦ record t {
      total_tests = add_size t.total_tests 1;
      failed_tests = add_size t.failed_tests 1;
    }
  ]
]

-- `justTestEntry`
pub record TestEntry (Test : Type 0) : Type 0 where
  pub func : Test
  pub description : Name

-- `if (GROUP_ID > maxGroupID) maxGroupID = GROUP_ID;`
abbrev pub raised : ℕ → ℕ → ℕ
raised highest group_id = elim (ltb highest group_id) [ true ↦ group_id | false ↦ highest ]

-- `testGroups`, each group up to its count, and `maxGroupID`
pub record TestManager (Test : Type 0) : Type 0 where
  pub test_groups : List (List (TestEntry Test))
  pub max_group_id : ℕ

module _ {Test : Type 0} where
  abbrev pub tests_of : Option (List (TestEntry Test)) → List (TestEntry Test)
  tests_of none = []
  tests_of (some group) = group

  -- `testGroups[g]`
  abbrev pub group_at : TestManager Test → ℕ → List (TestEntry Test)
  group_at m g = tests_of (get_elem? m.test_groups g)

  abbrev pub empty_manager : TestManager Test
  empty_manager = record { test_groups = replicate max_test_groups []; max_group_id = 0 }

  -- `justTestRegister`
  unfoldable pub test_register : TestManager Test → TestEntry Test → ℕ → Option (TestManager Test)
  test_register m entry group_id = elim (ltb group_id max_test_groups) [
    | false ↦ none
    | true ↦ elim (ltb (length (group_at m group_id)) max_tests_per_group) [
      | false ↦ none
      | true ↦ some (record {
        test_groups = set m.test_groups group_id (group_at m group_id ++ entry ∷ []);
        max_group_id = raised m.max_group_id group_id;
      })
    ]
  ]

module _ {Test World : Type 0} (open_pipe : World → Bool × World)
    (fork_and_wait : Test → World → Status × World) where
  -- `runTestForked`: the result, or `none` for `false`
  unfoldable pub run_test_forked : TestEntry Test → World → Option ℕ × World
  run_test_forked test w =
      let (ok, w') = open_pipe w in
      elim ok [
        | false ↦ (none, w')
        | true ↦
            let (status, w'') = fork_and_wait test.func w' in
            elim status [ signalled ↦ (none, w'') | exited code ↦ (some code, w'') ]
      ]

  -- The inner loop of `justTestRunAll`.
  unfoldable pub run_group : List (TestEntry Test) → Tally → World → Tally × World
  run_group [] t w = (t, w)
  run_group (test ∷ tests) t w =
      let (result, w') = run_test_forked test w in run_group tests (count_result result t) w'

  -- The outer loop, for the groups `g`, `g + 1`, ..., `g + n - 1`.
  unfoldable pub run_groups : ℕ → ℕ → TestManager Test → Tally → World → Tally × World
  run_groups zero g m t w = (t, w)
  run_groups (suc n) g m t w =
      let (t', w') = run_group (group_at m g) t w in run_groups n (g + 1) m t' w'

  -- `justTestRunAll`
  unfoldable pub run_all : TestManager Test → World → ℕ × World
  run_all m w =
      let (t, w') = run_groups (m.max_group_id + 1) 0 m no_tests w in
      (add_size t.failed_tests t.crashed_tests, w')
