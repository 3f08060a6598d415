-- ===== src/Details/RollupRow.antt =====
-- The rows of the rollup table: their columns, and what they give the issues and the unfiltered sets,
-- of backend/kernelCI_app/helpers/treeDetailsRollup.py.
use kernelci_dashboard.Base.{
  String, Bool, not, ◌||◌, Option, none, some, List, [], ◌∷◌, contains, string_eq, option_eq,
  if◌then◌else◌, is_some, nonempty,
}
use kernelci_dashboard.Base.Dict.{lookup, insert}
use kernelci_dashboard.Base.Int.{ℤ, ◌+ℤ◌}
use kernelci_dashboard.Status.{pass, fail, skip, error, miss, done}
use kernelci_dashboard.Filters.Params.{FilterParams}
use kernelci_dashboard.Filters.Issues.{unknown_string, should_increment_test_issue}
use kernelci_dashboard.Rollup.Entries.{RollupKey, RollupCounts, or_default}
use kernelci_dashboard.Details.Tally.{Status, status_text, count_tally, dict_tally, increment}
use kernelci_dashboard.Details.Instance.{
  IssueKey, issue_key_eq, Issue, IssueDict, create_issue_typed, arch_key_eq, Instance, add_at,
  add_unfiltered_issue,
}
use kernelci_dashboard.Details.Issues.{insertable_key, tab_for}

-- A row of the table with the comment and the url of its issue. Its columns test_platform, test_lab
-- and so on are the fields of the key.
pub record RollupRow : Type 0 where
  pub key : RollupKey
  pub counts : RollupCounts
  pub issue_comment : Option String
  pub issue_report_url : Option String

-- the keys of ROLLUP_STATUS_FIELDS, in order
abbrev pub rollup_statuses : List Status
rollup_statuses = some pass ∷ some fail ∷ some skip ∷ some error ∷ some miss ∷ some done ∷ none ∷ []

-- `row_dict.get(ROLLUP_STATUS_FIELDS[status], 0)`
abbrev pub field_of : Status → RollupCounts → ℤ
field_of (some pass) c = c.pass_tests
field_of (some fail) c = c.fail_tests
field_of (some skip) c = c.skip_tests
field_of (some error) c = c.error_tests
field_of (some miss) c = c.miss_tests
field_of (some done) c = c.done_tests
field_of none c = c.null_tests

abbrev pub rollup_test_id : String
rollup_test_id = "rollup_test"

-- `ROLLUP_TEST_ID if issue_id is not None else None`
abbrev pub rollup_incident : Option String → Option String
rollup_incident issue_id = if is_some issue_id then some rollup_test_id else none

unfoldable pub process_rollup_filters : RollupRow → Instance → Instance
unfolding should_increment_test_issue add_unfiltered_issue
process_rollup_filters row i =
    let tab = tab_for row.key.is_boot in
    let added =
      add_unfiltered_issue tab
        (should_increment_test_issue row.key.issue_id row.key.issue_version
          (rollup_incident row.key.issue_id))
        row.key.issue_uncategorized i in
    record added {
      unfiltered_origins =
          add_at tab (some (or_default (some row.key.test_origin) unknown_string))
            added.unfiltered_origins;
      unfiltered_labs =
          add_at tab (some (or_default row.key.lab unknown_string)) added.unfiltered_labs;
    }

unfoldable pub get_rollup_status_filter : FilterParams → Bool → List String
get_rollup_status_filter filters is_boot_row =
    if is_boot_row then filters.boot_status else filters.test_status

-- `status_filter and status_name not in status_filter`, negated
abbrev pub admits : List String → Status → Bool
admits status_filter status =
    not (nonempty status_filter) || contains status_filter (status_text status)

unfoldable pub ensure_issue_in_table :
    IssueKey → Option String → Option String → IssueDict → Issue × IssueDict
unfolding lookup insert create_issue_typed
ensure_issue_in_table key comment report_url table = elim (lookup key table) [
  | some issue ↦ (issue, table)
  | none ↦
      let issue = create_issue_typed key.0 key.1 comment report_url none in
      (issue, insert key issue table)
]

-- the counts of ERROR, FAIL and MISS, added to the issue's
unfoldable pub count_rollup_incidents : IssueKey → RollupRow → IssueDict → IssueDict
unfolding ensure_issue_in_table insert increment
count_rollup_incidents key row table =
    let found = ensure_issue_in_table key row.issue_comment row.issue_report_url table in
    insert key
      (record found.0 {
        incidents_info = increment (some miss) row.counts.miss_tests (
            increment (some fail) row.counts.fail_tests
              (increment (some error) row.counts.error_tests found.0.incidents_info));
      })
      found.1

unfoldable pub process_rollup_issues : RollupRow → Instance → Instance
unfolding should_increment_test_issue insertable_key count_rollup_incidents get_rollup_status_filter
process_rollup_issues row i =
    let key = insertable_key (
      should_increment_test_issue row.key.issue_id row.key.issue_version
        (rollup_incident row.key.issue_id)) in
    elim key [
      | some k ↦
          if row.key.is_boot
          then record i { boot_issues_dict = count_rollup_incidents k row i.boot_issues_dict }
          else record i { test_issues_dict = count_rollup_incidents k row i.test_issues_dict }
      | none ↦
          if not row.key.issue_uncategorized
          then i
          else if not (admits (get_rollup_status_filter i.filters row.key.is_boot) (some fail))
          then i
          else if row.key.is_boot
          then record i {
            failed_boots_with_unknown_issues =
                i.failed_boots_with_unknown_issues +ℤ row.counts.fail_tests;
          }
          else record i {
            failed_tests_with_unknown_issues =
                i.failed_tests_with_unknown_issues +ℤ row.counts.fail_tests;
          }
    ]
