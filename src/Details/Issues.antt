-- ===== src/Details/Issues.antt =====
-- The issues of the rows, and what they leave for the filters: process_builds_issue,
-- process_tests_issue and process_filters of backend/kernelCI_app/helpers/treeDetails.py.
use kernelci_dashboard.Base.{
  String, Bool, not, ◌&&◌, Option, none, some, ◌==◌, add, contains, string_eq, option_eq,
  if◌then◌else◌, is_some, get_or,
}
use kernelci_dashboard.Base.Dict.{lookup, insert}
use kernelci_dashboard.Base.Int.{ℤ, pos, ◌+ℤ◌}
use kernelci_dashboard.Status.{is_boot}
use kernelci_dashboard.Filters.Params.{Tab, build, boot, test}
use kernelci_dashboard.Filters.Issues.{
  unknown_string, should_increment_build_issue, should_increment_test_issue,
}
use kernelci_dashboard.Details.Tally.{Status, status_text, increment}
use kernelci_dashboard.Details.Misc.{Misc}
use kernelci_dashboard.Details.Row.{RowData, is_fail}
use kernelci_dashboard.Details.Instance.{
  IssueKey, issue_key_eq, IssueDict, create_issue_typed, Instance, add_at, known_key,
  add_unfiltered_issue,
}

-- `if issue_id and issue_version is not None and can_insert_issue`: an empty id is false
unfoldable pub insertable_key : Option String × Option ℤ × Bool → Option IssueKey
unfolding known_key
insertable_key issue = elim (known_key issue) [
  | none ↦ none
  | some (issue_id, issue_version) ↦ if issue_id == "" then none else some (issue_id, issue_version)
]

-- one more incident of an issue, which is made where it is missing
unfoldable pub count_incident :
    IssueKey → Option String → Option String → Status → IssueDict → IssueDict
unfolding lookup insert increment create_issue_typed
count_incident key comment report_url status table = elim (lookup key table) [
  | some issue ↦
      insert key (record issue { incidents_info = increment status (pos 1) issue.incidents_info })
        table
  | none ↦ insert key (create_issue_typed key.0 key.1 comment report_url (some status)) table
]

unfoldable pub process_builds_issue : RowData → Instance → Instance
unfolding should_increment_build_issue insertable_key count_incident
process_builds_issue row_data i =
    let key = insertable_key (
      should_increment_build_issue row_data.issue_id row_data.issue_version
        row_data.incident_test_id (status_text row_data.build_status)) in
    elim key [
      | some k ↦ record i {
        build_issues_dict =
            count_incident k row_data.issue_comment row_data.issue_report_url row_data.build_status
              i.build_issues_dict;
      }
      | none ↦
          if not (contains i.processed_builds row_data.build_id) && is_fail row_data.build_status
          then record i {
            failed_builds_with_unknown_issues = i.failed_builds_with_unknown_issues +ℤ pos 1;
          }
          else i
    ]

-- `issue_id`, `issue_version` and `can_insert_issue` of a test
unfoldable pub test_issue : RowData → Option String × Option ℤ × Bool
unfolding should_increment_test_issue
test_issue row_data =
    should_increment_test_issue row_data.issue_id row_data.issue_version row_data.incident_test_id

unfoldable pub test_incident : RowData → IssueKey → IssueDict → IssueDict
unfolding count_incident
test_incident row_data key table =
    count_incident key row_data.issue_comment row_data.issue_report_url row_data.test_status table

-- The first argument is `is_boot`.
unfoldable pub process_tests_issue : Bool → RowData → Instance → Instance
unfolding test_issue insertable_key test_incident
process_tests_issue is_boot_row row_data i = elim (insertable_key (test_issue row_data)) [
  | some key ↦
      if is_boot_row
      then record i { boot_issues_dict = test_incident row_data key i.boot_issues_dict }
      else record i { test_issues_dict = test_incident row_data key i.test_issues_dict }
  | none ↦
      if not (is_fail row_data.test_status)
      then i
      else if is_boot_row
      then record i {
        failed_boots_with_unknown_issues = i.failed_boots_with_unknown_issues +ℤ pos 1;
      }
      else record i {
        failed_tests_with_unknown_issues = i.failed_tests_with_unknown_issues +ℤ pos 1;
      }
]

-- `if (build_misc := row_data["build_misc"]) is not None`, with the lab under its key
unfoldable pub add_build_lab : Option Misc → Instance → Instance
unfolding lookup
add_build_lab none i = i
add_build_lab (some misc) i = record i {
  unfiltered_labs =
      add_at build (get_or (lookup "lab" misc) (some unknown_string)) i.unfiltered_labs;
}

-- what process_build_filters does too
unfoldable pub add_build_filters : RowData → Instance → Instance
unfolding add add_build_lab should_increment_build_issue add_unfiltered_issue
add_build_filters row_data i =
    let added = add_build_lab row_data.build_misc (record i {
      global_configs = add i.global_configs row_data.build_config_name;
      global_architectures = add i.global_architectures row_data.build_architecture;
      global_compilers = add i.global_compilers row_data.build_compiler;
      unfiltered_origins = add_at build row_data.build_origin i.unfiltered_origins;
    }) in
    add_unfiltered_issue build
      (should_increment_build_issue row_data.issue_id row_data.issue_version
        row_data.incident_test_id (status_text row_data.build_status))
      (is_fail row_data.build_status) added

abbrev pub tab_for : Bool → Tab
tab_for is_boot_row = if is_boot_row then boot else test

unfoldable pub add_test_filters : RowData → Instance → Instance
unfolding is_boot test_issue add_unfiltered_issue
add_test_filters row_data i =
    let tab = tab_for (is_boot (some row_data.test_path)) in
    let added = add_unfiltered_issue tab (test_issue row_data) (is_fail row_data.test_status) i in
    record added {
      unfiltered_origins = add_at tab row_data.test_origin added.unfiltered_origins;
      unfiltered_labs = add_at tab row_data.lab added.unfiltered_labs;
    }

-- The first argument is `skip_build_filters`.
unfoldable pub process_filters : Bool → RowData → Instance → Instance
unfolding add_build_filters add_test_filters
process_filters skip_build_filters row_data i =
    let built =
      if not skip_build_filters && is_some row_data.build_id
      then add_build_filters row_data i
      else i in
    if is_some row_data.test_id then add_test_filters row_data built else built
