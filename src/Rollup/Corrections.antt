-- ===== src/Rollup/Corrections.antt =====
-- A test whose status was null when it was first counted, and that turns out to be a failure.
use mathlib.Core.Logic.{◌≢◌}
use kernelci_dashboard.Base.{
  String, ◌≡◌, refl, ap, ◌∙◌, Bool, true, false, Option, none, some, List, [], ◌∷◌, arith, contains,
  string_eq,
}
use kernelci_dashboard.Base.Dict.{Dict, lookup, insert}
use kernelci_dashboard.Base.Int.{pos, negsuc, ◌+ℤ◌, ◌-ℤ◌}
use kernelci_dashboard.Status.{StatusChoices, fail}
use kernelci_dashboard.Aggregation.Models.{Build, PendingTest}
use kernelci_dashboard.Rollup.Entries.{
  RollupKey, rollup_key_eq, RollupCounts, zero_rollup, increment, count_status,
  accumulate_rollup_entry, rollup_key_of, aggregate_tests_rollup, IssuesMap,
}
use kernelci_dashboard.Rollup.Batch.{conflict_key}

uncategorized :
    (t : PendingTest) (b : Build) (issues : IssuesMap)
    → lookup t.test_id issues ≡ none
    → t.full_status ≡ some fail
    → (rollup_key_of t b issues).issue_uncategorized ≡ true
unfolding rollup_key_of
uncategorized t b issues none_found failed = rw (none_found, failed) refl

categorized :
    (t : PendingTest) (b : Build) (issues : IssuesMap)
    → lookup t.test_id issues ≡ none
    → t.full_status ≡ none
    → (rollup_key_of t b issues).issue_uncategorized ≡ false
unfolding rollup_key_of
categorized t b issues none_found null = rw (none_found, null) refl

lookup-insert-nil : (k : RollupKey) (r : RollupCounts) → lookup k (insert k r []) ≡ some r
unfolding lookup insert
lookup-insert-nil k r = ground arith

aggregate_one :
    (t : PendingTest) (b : Build) (builds : Dict String Build) (issues : IssuesMap)
    (reprocess : List String)
    → lookup t.build_id builds ≡ some b
    → aggregate_tests_rollup (t ∷ []) builds issues reprocess []
      ≡ accumulate_rollup_entry []
          (rollup_key_of t b issues)
          t.full_status
          (contains reprocess t.test_id)
unfolding aggregate_tests_rollup
aggregate_one t b builds issues reprocess found = rw (found, aggregate_tests_rollup) refl

correct_one :
    (key : RollupKey) (status : Option StatusChoices) (correction : Bool)
    → status ≡ some fail
    → correction ≡ true
    → accumulate_rollup_entry [] key status correction
      ≡ insert key (record zero_rollup { fail_tests = pos 1; null_tests = negsuc 0 }) []
unfolding accumulate_rollup_entry lookup count_status increment ◌+ℤ◌ ◌-ℤ◌
correct_one key status correction s c = rw (s, c) refl

-- For a failed test of a known build that has no issue, the key of the rollup, without is_boot, is
-- not the key that the test had while its status was null, and a batch that corrects the test alone
-- takes one from the null tests of a new row, where there are none: its null_tests is -1.
pub correction_of_a_failure :
    (t : PendingTest) (b : Build) (builds : Dict String Build) (issues : IssuesMap)
    → lookup t.build_id builds ≡ some b
    → lookup t.test_id issues ≡ none
    → t.full_status ≡ some fail
    → (conflict_key (rollup_key_of (record t { full_status = none }) b issues)
        ≢ conflict_key (rollup_key_of t b issues))
      × (lookup
            (rollup_key_of t b issues)
            (aggregate_tests_rollup (t ∷ []) builds issues (t.test_id ∷ []) [])
          ≡ some (record zero_rollup { fail_tests = pos 1; null_tests = negsuc 0 }))
correction_of_a_failure t b builds issues found none_found failed = (
  λ same.
      let moved = ap (λ k. k.issue_uncategorized) same in
      let before = categorized (record t { full_status = none }) b issues none_found refl in
      let now = uncategorized t b issues none_found failed in ground arith,
  let key = rollup_key_of t b issues in
      let corrected : contains (t.test_id ∷ []) t.test_id ≡ true = ground arith in
      ap (lookup key) (
        aggregate_one t b builds issues (t.test_id ∷ []) found
        ∙ correct_one key t.full_status (contains (t.test_id ∷ []) t.test_id) failed corrected)
      ∙ lookup-insert-nil key (record zero_rollup { fail_tests = pos 1; null_tests = negsuc 0 }),
)
