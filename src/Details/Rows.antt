-- ===== src/Details/Rows.antt =====
-- The rows of tests of a tree: the tests on a row of backend/kernelCI_app/helpers/treeDetails.py,
-- _sanitize_test_rows_legacy of views/treeDetailsSummaryView.py and _sanitize_rows of
-- views/treeDetailsView.py with its helpers.
use kernelci_dashboard.Base.{
  String, Bool, true, false, not, Option, none, some, List, [], ◌∷◌, ◌++◌, ◌==◌, add, contains,
  string_eq, option_eq, if◌then◌else◌, is_some,
}
use kernelci_dashboard.Base.Text.{is_prefix}
use kernelci_dashboard.Status.{is_boot}
use kernelci_dashboard.Filters.Request.{Result, ok, ◌>>=◌}
use kernelci_dashboard.Filters.Params.{FilterParams}
use kernelci_dashboard.Filters.Rows.{
  TestRow, is_boot_filtered_out, is_test_filtered_out, is_build_filtered_out,
  is_record_filtered_out,
}
use kernelci_dashboard.Details.Tally.{status_text}
use kernelci_dashboard.Details.Misc.{Misc}
use kernelci_dashboard.Details.Row.{
  CurrentRow, RowData, get_current_row_data, call_based_on_compatible_and_misc_platform,
  get_hardware_filter,
}
use kernelci_dashboard.Details.Instance.{BuildHistoryItem, Instance}
use kernelci_dashboard.Details.Summary.{process_test_summary, process_boots_summary}
use kernelci_dashboard.Details.Issues.{process_builds_issue, process_tests_issue, process_filters}

abbrev pub maestro_dummy_build_prefix : String
maestro_dummy_build_prefix = "maestro:dummy_"

-- `build_id is not None and not build_id.startswith(MAESTRO_DUMMY_BUILD_PREFIX)`
unfoldable pub is_real_build : Option String → Bool
unfolding is_prefix
is_real_build none = false
is_real_build (some build_id) = not (is_prefix maestro_dummy_build_prefix build_id)

unfoldable pub process_tree_url : RowData → Instance → Instance
process_tree_url row_data i = elim row_data.checkout_git_repository_url [
  | none ↦ i
  | some url ↦ if i.tree_url == "" then record i { tree_url = url } else i
]

unfoldable pub get_build : RowData → BuildHistoryItem
get_build row_data = record {
  id = row_data.build_id;
  origin = row_data.build_origin;
  architecture = row_data.build_architecture;
  compiler = row_data.build_compiler;
  config_name = row_data.build_config_name;
  misc = row_data.build_misc;
  status = row_data.build_status;
  duration = row_data.build_duration;
}

-- Each of these reads only the filters of the instance.
unfoldable pub decide_if_is_build_filtered_out : FilterParams → RowData → Bool
unfolding is_build_filtered_out
decide_if_is_build_filtered_out filters row_data = is_build_filtered_out filters record {
  duration = row_data.build_duration;
  build_status = status_text row_data.build_status;
  issue_id = row_data.issue_id;
  issue_version = row_data.issue_version;
  incident_test_id = row_data.incident_test_id;
  build_origin = row_data.build_origin;
}

-- What the two predicates are called with: no platform, whose default is None.
unfoldable pub test_row : RowData → TestRow
test_row row_data = record {
  path = some row_data.test_path;
  status = some (status_text row_data.test_status);
  duration = row_data.test_duration;
  issue_id = row_data.issue_id;
  issue_version = row_data.issue_version;
  incident_test_id = row_data.incident_test_id;
  platform = none;
  origin = row_data.test_origin;
}

unfoldable pub decide_if_is_boot_filtered_out : FilterParams → RowData → Result Bool
unfolding is_boot_filtered_out test_row
decide_if_is_boot_filtered_out filters row_data = is_boot_filtered_out filters (test_row row_data)

unfoldable pub decide_if_is_test_filtered_out : FilterParams → RowData → Result Bool
unfolding is_test_filtered_out test_row
decide_if_is_test_filtered_out filters row_data = is_test_filtered_out filters (test_row row_data)

-- A hardware that is None is in no filter, as an empty list of hardwares.
unfoldable pub decide_if_is_full_row_filtered_out : FilterParams → RowData → Bool
unfolding is_record_filtered_out get_hardware_filter
decide_if_is_full_row_filtered_out filters row_data = is_record_filtered_out filters record {
  hardwares = some (elim (get_hardware_filter row_data) [ none ↦ [] | some h ↦ h ∷ [] ]);
  architecture = some row_data.build_architecture;
  compiler = some row_data.build_compiler;
  config_name = some row_data.build_config_name;
  lab = row_data.lab;
}

-- `call_based_on_compatible_and_misc_platform(row_data, self.hardwareUsed.add)`
unfoldable pub use_hardware : RowData → Instance → Instance
unfolding call_based_on_compatible_and_misc_platform add
use_hardware row_data i =
    call_based_on_compatible_and_misc_platform row_data
      (λ h. record i { hardware_used = add i.hardware_used h })

-- A row that is kept counts for its issue; a test counts once in the summary.
unfoldable pub process_kept : Bool → RowData → Instance → Instance
unfolding process_tests_issue add process_boots_summary process_test_summary
process_kept is_boot_row row_data i =
    let counted = process_tests_issue is_boot_row row_data i in
    if contains counted.processed_tests row_data.test_id
    then counted
    else let seen = record counted {
      processed_tests = add counted.processed_tests row_data.test_id;
    } in
      if is_boot_row
      then process_boots_summary row_data seen
      else process_test_summary row_data seen

-- The histories of BaseTreeDetails are left out: they hold the items of the tests that are counted.
unfoldable pub process_boots_test : RowData → Instance → Result Instance
unfolding decide_if_is_boot_filtered_out process_kept
process_boots_test row_data i = do
  filtered_out ← decide_if_is_boot_filtered_out i.filters row_data
  ok (if filtered_out then i else process_kept true row_data i)

unfoldable pub process_non_boots_test : RowData → Instance → Result Instance
unfolding decide_if_is_test_filtered_out process_kept
process_non_boots_test row_data i = do
  filtered_out ← decide_if_is_test_filtered_out i.filters row_data
  ok (if filtered_out then i else process_kept false row_data i)

unfoldable pub process_test : RowData → Instance → Result Instance
unfolding is_boot process_boots_test process_non_boots_test
process_test row_data i =
    if is_boot (some row_data.test_path)
    then process_boots_test row_data i
    else process_non_boots_test row_data i

unfoldable pub process_builds : RowData → Instance → Instance
unfolding decide_if_is_build_filtered_out process_builds_issue add get_build
process_builds row_data i =
    let counted = process_builds_issue row_data i in
    if decide_if_is_build_filtered_out i.filters row_data
    then i
    else if contains counted.processed_builds row_data.build_id
    then counted
    else record counted {
      processed_builds = add counted.processed_builds row_data.build_id;
      builds = counted.builds ++ (get_build row_data ∷ []);
    }

-- the body of the loop of `_sanitize_test_rows_legacy`, on a row that was read
unfoldable pub sanitize_legacy_row : RowData → Instance → Result Instance
unfolding use_hardware process_filters decide_if_is_full_row_filtered_out process_test
sanitize_legacy_row row_data i =
    let filtered = process_filters true row_data (use_hardware row_data i) in
    if decide_if_is_full_row_filtered_out filtered.filters row_data
    then ok filtered
    else if is_some row_data.test_id
    then process_test row_data filtered
    else ok filtered

-- the body of the loop of `_sanitize_rows`, after the tags of the first row are taken
unfoldable pub sanitize_row : RowData → Instance → Result Instance
unfolding use_hardware process_tree_url process_filters decide_if_is_full_row_filtered_out
    is_real_build process_builds process_test
sanitize_row row_data i =
    let filtered =
      process_filters false row_data (process_tree_url row_data (use_hardware row_data i)) in
    let built =
      if is_real_build row_data.build_id then process_builds row_data filtered else filtered in
    if decide_if_is_full_row_filtered_out filtered.filters row_data
    then ok filtered
    else if is_some row_data.test_id
    then process_test row_data built
    else ok built

module _ (loads : String → Option Misc) where
  unfoldable pub legacy_rows : List CurrentRow → Instance → Result Instance
  unfolding get_current_row_data sanitize_legacy_row
  legacy_rows [] i = ok i
  legacy_rows (row ∷ rows) i = do
    row_data ← get_current_row_data loads row
    after ← sanitize_legacy_row row_data i
    legacy_rows rows after

  -- The set of processed tests is local to the call.
  unfoldable pub sanitize_test_rows_legacy : List CurrentRow → Instance → Result Instance
  unfolding legacy_rows
  sanitize_test_rows_legacy rows i = legacy_rows rows (record i { processed_tests = [] })

  -- The first argument is `first_iteration`.
  unfoldable pub sanitize_rows : Bool → List CurrentRow → Instance → Result Instance
  unfolding get_current_row_data sanitize_row
  sanitize_rows first_iteration [] i = ok i
  sanitize_rows first_iteration (row ∷ rows) i = do
    row_data ← get_current_row_data loads row
    after ← sanitize_row row_data (
        if first_iteration
        then record i { git_commit_tags = row_data.checkout_git_commit_tags }
        else i)
    sanitize_rows false rows after
