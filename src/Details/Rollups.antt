-- ===== src/Details/Rollups.antt =====
-- The rows of the rollup table in the summary of a tree:
-- backend/kernelCI_app/helpers/treeDetailsRollup.py and _sanitize_rollup_rows of
-- views/treeDetailsSummaryView.py.
use kernelci_dashboard.Base.{
  String, Bool, not, ◌&&◌, ◌||◌, Option, some, List, [], ◌∷◌, ◌==◌, add, contains, string_eq,
  option_eq, if◌then◌else◌, is_none, nonempty, any,
}
use kernelci_dashboard.Base.Int.{pos, ltb_ℤ}
use kernelci_dashboard.Base.Text.{is_infix}
use kernelci_dashboard.Filters.Params.{FilterParams, at}
use kernelci_dashboard.Filters.Issues.{
  unknown_string, uncategorized_string, should_filter_test_issue, is_status_failure,
  failure_status_list,
}
use kernelci_dashboard.Filters.Rows.{not_selected, is_record_filtered_out}
use kernelci_dashboard.Rollup.Entries.{RollupCounts, or_default}
use kernelci_dashboard.Details.Tally.{Status, status_text, count_tally, dict_tally, setdefault}
use kernelci_dashboard.Details.Instance.{issue_key_eq, arch_key_eq, Summary, Instance}
use kernelci_dashboard.Details.Summary.{compatible, misc, Place, count_everywhere}
use kernelci_dashboard.Details.Issues.{tab_for}
use kernelci_dashboard.Details.RollupRow.{
  RollupRow, rollup_statuses, field_of, rollup_incident, process_rollup_filters,
  get_rollup_status_filter, admits, process_rollup_issues,
}

unfoldable pub rollup_issue_id : RollupRow → Option String
rollup_issue_id row =
    if is_none row.key.issue_id && row.key.issue_uncategorized
    then some uncategorized_string
    else row.key.issue_id

unfoldable pub rollup_test_or_boot_filtered_out : FilterParams → RollupRow → Bool
unfolding rollup_issue_id is_infix should_filter_test_issue
rollup_test_or_boot_filtered_out filters row =
    let tab = tab_for row.key.is_boot in
    let path_filter = if row.key.is_boot then filters.boot_path else filters.test_path in
    let origin_filters = if row.key.is_boot then filters.boot_origin else filters.test_origin in
    let issue_id = rollup_issue_id row in
    not (path_filter == "") && not (is_infix path_filter row.key.path_group)
    || should_filter_test_issue (at filters.issues tab) issue_id row.key.issue_version
        (rollup_incident issue_id)
    || not_selected (at filters.platforms tab) row.key.platform
    || not_selected origin_filters (some row.key.test_origin)

-- `row_dict.get(field_name, 0) > 0 and status_name in status_filter`
abbrev pub is_matching : List String → RollupCounts → Status → Bool
is_matching status_filter counts status =
    ltb_ℤ (pos 0) (field_of status counts) && contains status_filter (status_text status)

-- `hardware_key not in (UNKNOWN_STRING, test_platform)`
unfoldable pub rollup_place : RollupRow → Place
rollup_place row = record {
  arch = (row.key.arch, row.key.compiler);
  config = row.key.config;
  environment =
      if not
        (row.key.hardware_key == unknown_string || some row.key.hardware_key == row.key.platform)
      then compatible row.key.hardware_key
      else misc row.key.platform;
  origin = some row.key.test_origin;
  lab = some (or_default row.key.lab unknown_string);
}

unfoldable pub process_rollup_failure : RollupRow → Status → Summary → Summary
unfolding is_status_failure add
process_rollup_failure row status s =
    if is_status_failure (status_text status) failure_status_list
    then record s { platforms_failing = add s.platforms_failing row.key.platform }
    else s

-- the body of the loop over the statuses
unfoldable pub process_rollup_status : List String → RollupRow → Status → Summary → Summary
unfolding count_everywhere rollup_place process_rollup_failure
process_rollup_status status_filter row status s =
    let count = field_of status row.counts in
    if not (ltb_ℤ (pos 0) count)
    then s
    else if not (admits status_filter status)
    then s
    else process_rollup_failure row status (count_everywhere (rollup_place row) status count s)

unfoldable pub process_rollup_statuses : List String → RollupRow → List Status → Summary → Summary
unfolding process_rollup_status
process_rollup_statuses status_filter row [] s = s
process_rollup_statuses status_filter row (status ∷ more) s =
    process_rollup_statuses status_filter row more
      (process_rollup_status status_filter row status s)

unfoldable pub rollup_summary : List String → RollupRow → Summary → Summary
unfolding any setdefault process_rollup_statuses
rollup_summary status_filter row s =
    if nonempty status_filter && not (any (is_matching status_filter row.counts) rollup_statuses)
    then s
    else process_rollup_statuses status_filter row rollup_statuses (record s {
      arch_summary = setdefault (row.key.arch, row.key.compiler) s.arch_summary;
      configs = setdefault row.key.config s.configs;
    })

unfoldable pub process_rollup_summary : RollupRow → Instance → Instance
unfolding get_rollup_status_filter rollup_summary
process_rollup_summary row i =
    let status_filter = get_rollup_status_filter i.filters row.key.is_boot in
    if row.key.is_boot
    then record i { boots = rollup_summary status_filter row i.boots }
    else record i { tests = rollup_summary status_filter row i.tests }

unfoldable pub is_rollup_record_filtered_out : FilterParams → RollupRow → Bool
unfolding is_record_filtered_out
is_rollup_record_filtered_out filters row = is_record_filtered_out filters record {
  hardwares = some (row.key.hardware_key ∷ []);
  architecture = some row.key.arch;
  compiler = some row.key.compiler;
  config_name = some row.key.config;
  lab = row.key.lab;
}

-- the body of the loop of `_sanitize_rollup_rows`
unfoldable pub sanitize_rollup_row : RollupRow → Instance → Instance
unfolding add process_rollup_filters is_rollup_record_filtered_out rollup_test_or_boot_filtered_out
    process_rollup_issues process_rollup_summary
sanitize_rollup_row row i =
    let filtered =
      process_rollup_filters row
        (record i { hardware_used = add i.hardware_used (some row.key.hardware_key) }) in
    if is_rollup_record_filtered_out filtered.filters row
    then filtered
    else if rollup_test_or_boot_filtered_out filtered.filters row
    then filtered
    else process_rollup_summary row (process_rollup_issues row filtered)

unfoldable pub sanitize_rollup_rows : List RollupRow → Instance → Instance
unfolding sanitize_rollup_row
sanitize_rollup_rows [] i = i
sanitize_rollup_rows (row ∷ rows) i = sanitize_rollup_rows rows (sanitize_rollup_row row i)
