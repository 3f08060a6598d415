-- ===== src/Filters/Issues.antt =====
-- The issue predicates of filters.py. A status, a field or an issue id is a text; `None` is `none`.
-- `is not UNCATEGORIZED_STRING` is read as inequality of texts.
use kernelci_dashboard.Base.{
  String, Bool, true, false, not, ◌&&◌, ◌||◌, Option, none, some, List, [], ◌∷◌, ◌==◌, contains,
  string_eq, option_eq, Eq, if◌then◌else◌, is_none, is_some, nonempty, any,
}
use kernelci_dashboard.Base.Int.{ℤ, ℤ-discrete, int_eq}

abbrev pub unknown_string : String
unknown_string = "Unknown"

abbrev pub uncategorized_string : String
uncategorized_string = "Uncategorized"

-- an element of a set of issue filters: the constant, or an (id, version) tuple
pub data IssueFilter : Type 0 where
  uncategorized : IssueFilter
  issue : String → Option ℤ → IssueFilter

IssueFilter-discrete : Discrete IssueFilter
unfolding string_eq
IssueFilter-discrete = hlevel (string_eq.dec, ℤ-discrete)

instance unfoldable pub issue_filter_eq : Eq IssueFilter
unfolding IssueFilter-discrete
issue_filter_eq = record { dec = IssueFilter-discrete }

abbrev pub failure_status_list : List String
failure_status_list = "ERROR" ∷ "FAIL" ∷ "MISS" ∷ []

abbrev pub build_fail_status_list : List String
build_fail_status_list = "FAIL" ∷ "NULL" ∷ []

unfoldable pub is_status_failure : String → List String → Bool
is_status_failure test_status fail_list = contains fail_list test_status

unfoldable pub is_known_issue : Option String → Option ℤ → Bool
is_known_issue issue_id issue_version =
    is_some issue_id && is_some issue_version && not (issue_id == some uncategorized_string)

unfoldable pub is_unknown_build_issue : Option String → Option ℤ → Option String → Bool
unfolding is_known_issue
is_unknown_build_issue issue_id issue_version incident_test_id =
    not (is_known_issue issue_id issue_version) && is_none incident_test_id

unfoldable pub is_exclusively_build_issue : Option String → Option ℤ → Option String → Bool
unfolding is_known_issue
is_exclusively_build_issue issue_id issue_version incident_test_id =
    is_known_issue issue_id issue_version && is_none incident_test_id

unfoldable pub is_exclusively_test_issue : Option String → Option ℤ → Option String → Bool
unfolding is_known_issue
is_exclusively_test_issue issue_id issue_version incident_test_id =
    is_known_issue issue_id issue_version && is_some incident_test_id

unfoldable pub is_issue_from_test : Option String → Option ℤ → Option String → Bool
unfolding is_known_issue
is_issue_from_test issue_id issue_version incident_test_id =
    is_some incident_test_id || not (is_known_issue issue_id issue_version)

unfoldable pub is_issue_from_build : Option String → Option ℤ → Option String → Bool
unfolding is_known_issue
is_issue_from_build issue_id issue_version incident_test_id =
    is_none incident_test_id || not (is_known_issue issue_id issue_version)

unfoldable pub verify_issue_in_filter : IssueFilter → Option String → Option ℤ → Bool
verify_issue_in_filter uncategorized issue_id issue_version = some uncategorized_string == issue_id
verify_issue_in_filter (issue filter_issue_id filter_issue_version) issue_id issue_version =
    some filter_issue_id == issue_id && filter_issue_version == issue_version

unfoldable pub is_issue_filtered_out : List IssueFilter → Option String → Option ℤ → Bool
unfolding any verify_issue_in_filter
is_issue_filtered_out issue_filters issue_id issue_version =
    not (any (λ f. verify_issue_in_filter f issue_id issue_version) issue_filters)

unfoldable pub should_filter_test_issue :
    List IssueFilter → Option String → Option ℤ → Option String → Bool
unfolding is_exclusively_build_issue
should_filter_test_issue issue_filters issue_id issue_version incident_test_id =
    let has_uncategorized_filter = contains issue_filters uncategorized in
    let build_only = is_exclusively_build_issue issue_id issue_version incident_test_id in
    if not (nonempty issue_filters)
    then false
    else if build_only && has_uncategorized_filter
    then false
    else is_issue_filtered_out issue_filters
        (if build_only then some uncategorized_string else issue_id) issue_version

unfoldable pub should_filter_build_issue :
    List IssueFilter → Option String → Option ℤ → Option String → String → Bool
unfolding is_status_failure is_exclusively_test_issue is_unknown_build_issue
should_filter_build_issue issue_filters issue_id issue_version incident_test_id build_status =
    let has_uncategorized_filter = contains issue_filters uncategorized in
    let test_only = is_exclusively_test_issue issue_id issue_version incident_test_id in
    let unknown_build = is_unknown_build_issue issue_id issue_version incident_test_id in
    if not (nonempty issue_filters)
    then false
    else if not (is_status_failure build_status build_fail_status_list)
    then true
    else if test_only && has_uncategorized_filter
    then false
    else is_issue_filtered_out issue_filters
        (if test_only || unknown_build then some uncategorized_string else issue_id) issue_version

unfoldable pub should_increment_test_issue :
    Option String → Option ℤ → Option String → Option String × Option ℤ × Bool
unfolding is_exclusively_build_issue is_issue_from_test
should_increment_test_issue issue_id issue_version incident_test_id =
    if is_exclusively_build_issue issue_id issue_version incident_test_id
    then (some uncategorized_string, none, false)
    else (issue_id, issue_version, is_issue_from_test issue_id issue_version incident_test_id)

unfoldable pub should_increment_build_issue :
    Option String → Option ℤ → Option String → String → Option String × Option ℤ × Bool
unfolding is_exclusively_test_issue is_issue_from_build is_status_failure
should_increment_build_issue issue_id issue_version incident_test_id build_status =
    if is_exclusively_test_issue issue_id issue_version incident_test_id
    then (some uncategorized_string, none, false)
    else (
      issue_id,
      issue_version,
      is_issue_from_build issue_id issue_version incident_test_id
          && is_status_failure build_status build_fail_status_list,
    )
