-- ===== src/Filters/Attribution.antt =====
-- Which of builds and tests an incident is counted for, and which rows the issue filters keep.
use kernelci_dashboard.Base.{
  String, ◌≡◌, ◌≢◌, false, ◌&&◌, ◌||◌, Option, none, some, List, [], ◌∷◌, arith, ◌==◌, contains,
  string_eq, option_eq, is_none, is_some, any,
}
use kernelci_dashboard.Base.Int.{ℤ, int_eq}
use kernelci_dashboard.Filters.Issues.{
  IssueFilter, uncategorized, issue, issue_filter_eq, uncategorized_string, build_fail_status_list,
  is_status_failure, verify_issue_in_filter, should_increment_test_issue,
  should_increment_build_issue,
}

-- An incident of a known issue is counted for tests exactly when it names a test, and for builds
-- exactly when it names none and the build failed: never for both.
pub increments_exclusive :
    (id : String) (version : ℤ) (incident_test_id : Option String) (build_status : String)
    → id ≢ uncategorized_string
    → let test = should_increment_test_issue (some id) (some version) incident_test_id in
      let build =
        should_increment_build_issue (some id) (some version) incident_test_id build_status in
      (test.2 ≡ is_some incident_test_id)
      × (build.2
          ≡ (is_none incident_test_id && is_status_failure build_status build_fail_status_list))
      × ((test.2 && build.2) ≡ false)
unfolding should_increment_test_issue should_increment_build_issue option_eq
increments_exclusive id version none build_status known = ground arith
increments_exclusive id version (some t) build_status known = ground arith

-- `any(verify_issue_in_filter(...))` is membership of the pair, or of the constant.
pub any-verify :
    (id : String) (version : Option ℤ) (fs : List IssueFilter)
    → any (λ f. verify_issue_in_filter f (some id) version) fs ≡ (
        contains fs (issue id version) || (contains fs uncategorized && id == uncategorized_string))
unfolding any verify_issue_in_filter option_eq
any-verify id version [] = ground arith
any-verify id version (uncategorized ∷ fs) = ground (arith, any-verify id version fs)
any-verify id version (issue i v ∷ fs) = ground (arith, any-verify id version fs)
