-- ===== src/Tests/Rollup.antt =====
-- Runs of the rollup.
use mathlib.Core.Logic.{◌≢◌}
use kernelci_dashboard.Base.{◌≡◌, refl, none, some, List, [], ◌∷◌, string_eq}
use kernelci_dashboard.Base.Dict.{lookup}
use kernelci_dashboard.Base.Int.{pos, negsuc, ◌+ℤ◌}
use kernelci_dashboard.Aggregation.Models.{ProcessedItem}
use kernelci_dashboard.Rollup.Entries.{
  rollup_key_eq, zero_rollup, rollup_key_of, aggregate_tests_rollup,
}
use kernelci_dashboard.Rollup.Batch.{conflict_key, process_tests_rollup_batch}
use kernelci_dashboard.Rollup.Balance.{AllBalanced, grand_total}
use kernelci_dashboard.Rollup.Selected.{new_counts}
use kernelci_dashboard.Rollup.Batches.{
  process_tests_rollup_batch-grand_total, process_tests_rollup_batch-AllBalanced,
}
use kernelci_dashboard.Rollup.Corrections.{correction_of_a_failure}
use kernelci_dashboard.Tests.Data.{digest, defconfig, failed_test, tests, test_builds, null_entry}

-- the second test is stored with no status
abbrev table : List ProcessedItem
table = null_entry "rollup|t2" ∷ []

process_tests_rollup_batch-grand_total_example :
    grand_total (process_tests_rollup_batch digest tests test_builds [] [] table).0
    ≡ grand_total [] +ℤ new_counts digest table test_builds tests
unfolding string_eq
process_tests_rollup_batch-grand_total_example =
    process_tests_rollup_batch-grand_total digest test_builds table tests [] []
      ((refl, tt), (tt, tt))

process_tests_rollup_batch-AllBalanced_example :
    AllBalanced (process_tests_rollup_batch digest tests test_builds [] [] table).0
process_tests_rollup_batch-AllBalanced_example =
    process_tests_rollup_batch-AllBalanced digest test_builds table tests [] [] tt

correction_of_a_failure_example :
    (conflict_key (rollup_key_of (record failed_test { full_status = none }) defconfig [])
      ≢ conflict_key (rollup_key_of failed_test defconfig []))
    × (lookup
          (rollup_key_of failed_test defconfig [])
          (aggregate_tests_rollup (failed_test ∷ []) test_builds [] ("t2" ∷ []) [])
        ≡ some (record zero_rollup { fail_tests = pos 1; null_tests = negsuc 0 }))
unfolding lookup string_eq
correction_of_a_failure_example =
    correction_of_a_failure failed_test defconfig test_builds [] refl refl refl
