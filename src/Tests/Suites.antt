-- ===== src/Tests/Suites.antt =====
-- Three tests in two groups: one passes, one is ended by a signal, one fails.
use just_library.Base.{ℕ, ◌+◌, ◌≡◌, refl, Bool, true, Option, some, List, [], ◌∷◌}
use just_library.TestManager.{
  TestEntry, TestManager, Status, empty_manager, test_register, run_test_forked, count_result,
  run_group, run_groups, run_all,
}
use just_library.TestManager.Count.{Runs}
use just_library.TestManager.Register.{register_all}
use just_library.TestManager.Run.{schedule, run_all-Runs}

-- A test is the status of its child; the world counts the children.
abbrev test : Status → TestEntry Status
test status = record { func = status; description = [] }

abbrev pipe : ℕ → Bool × ℕ
pipe w = (true, w)

abbrev fork : Status → ℕ → Status × ℕ
fork status w = (status, w + 1)

abbrev calls : List (TestEntry Status × ℕ)
calls = (test (Status.exited 0), 5) ∷ (test (Status.exited 1), 0) ∷ (test Status.signalled, 5) ∷ []

abbrev from : Option (TestManager Status) → TestManager Status
from (some m) = m
from _ = empty_manager

abbrev suite : TestManager Status
suite = from (register_all empty_manager calls)

suite-registered : register_all empty_manager calls ≡ some suite
unfolding register_all test_register
suite-registered = refl

run_all-Runs_example :
    (let (bad, w) = run_all pipe fork suite 0 in Runs pipe fork (schedule 32 0 calls) 0 bad w)
run_all-Runs_example = run_all-Runs pipe fork suite calls 0 suite-registered

two_fail : run_all pipe fork suite 0 ≡ (2, 3)
unfolding run_all run_groups register_all test_register run_group count_result run_test_forked
two_fail = refl
