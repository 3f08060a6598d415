-- ===== src/Tests/Details.antt =====
-- Runs of the details of a tree.
use kernelci_dashboard.Base.{
  ◌≡◌, ◌↔◌, refl, true, false, some, List, [], ◌∷◌, keep, string_eq, option_eq, nat_eq,
}
use kernelci_dashboard.Base.Dict.{lookup}
use kernelci_dashboard.Filters.Issues.{should_filter_test_issue, should_filter_build_issue}
use kernelci_dashboard.Base.Int.{pos, ◌+ℤ◌}
use kernelci_dashboard.Status.{pass, fail}
use kernelci_dashboard.Filters.Params.{no_filters}
use kernelci_dashboard.Filters.Request.{ok, err, value_error, validation_error}
use kernelci_dashboard.Rollup.Entries.{aggregate_tests_rollup}
use kernelci_dashboard.Details.Tally.{Status, status_eq, get_count}
use kernelci_dashboard.Details.Instance.{IssueKey, issue_key_eq, Instance, new_instance}
use kernelci_dashboard.Details.Rows.{sanitize_test_rows_legacy}
use kernelci_dashboard.Details.Rollups.{sanitize_rollup_rows}
use kernelci_dashboard.Details.RollupRow.{RollupRow}
use kernelci_dashboard.Details.Agreement.{IsAgreed}
use kernelci_dashboard.Details.Selected.{is_selected}
use kernelci_dashboard.Details.Counted.{firsts, number, is_counted}
use kernelci_dashboard.Details.Legacy.{read_rows}
use kernelci_dashboard.Details.Outcome.{legacy_counts, legacy_raises}
use kernelci_dashboard.Details.RollupCounts.{rollup_total, sanitize_rollup_rows-count}
use kernelci_dashboard.Details.RollupView.{rows_of, rollup_view_counts}
use kernelci_dashboard.Details.Columns.{tests_with}
use kernelci_dashboard.Details.Failures.{legacy_failures}
use kernelci_dashboard.Details.Incidents.{incidents, of_issue, is_failure}
use kernelci_dashboard.Details.IssueRows.{
  IssueRow, collect_issues, sanitize_details_issues_rows, rows_with, rows_of_issue, issue_total,
  details_issues_incidents,
}
use kernelci_dashboard.Details.Platforms.{platform_filter_counts_none}
use kernelci_dashboard.Base.{any, none}
use kernelci_dashboard.Details.Tally.{count_tally}
use kernelci_dashboard.Details.RollupRow.{RollupRow}
use kernelci_dashboard.Details.Builds.{sanitize_builds_rows}
use kernelci_dashboard.Details.BuildSummary.{
  arch_tally, BaseBuildSummary, no_builds, count_builds, create_details_build_summary,
}
use kernelci_dashboard.Details.BuildCounts.{has_null_lab, IsCountOf, build_summary_counts}
use kernelci_dashboard.Details.View.{summary, get_summary, get_summary-IsAgreed}
use kernelci_dashboard.Tests.Data.{tests, test_builds}
use kernelci_dashboard.Tests.Rows.{
  no_json, boot_row, rows, broken_row, rows_data, no_text, board_filter, build_dict, rollup_row,
  build_item,
}

read_rows-rows : read_rows no_json rows ≡ ok rows_data
unfolding read_rows string_eq
read_rows-rows = refl

abbrev view : Instance
view = new_instance no_filters

legacy_counts_example :
    (final : Instance) × (sanitize_test_rows_legacy no_json rows view ≡ ok final)
    × ((u : Status)
        → (get_count u final.tests.status_summary
            ≡ pos
                (number (is_counted false u) (firsts [] (keep (is_selected no_filters) rows_data))))
          × (get_count u final.boots.status_summary
              ≡ pos (
                  number
                    (is_counted true u)
                    (firsts [] (keep (is_selected no_filters) rows_data)))))
legacy_counts_example = legacy_counts no_json rows no_filters rows_data read_rows-rows

-- the failed test is counted once, though it has two rows
one_failure :
    number (is_counted false (some fail)) (firsts [] (keep (is_selected no_filters) rows_data)) ≡ 1
unfolding number firsts keep is_selected string_eq option_eq status_eq should_filter_test_issue
    nat_eq
one_failure = refl

final_view : (final : Instance) × (sanitize_test_rows_legacy no_json rows view ≡ ok final)
final_view = (legacy_counts_example.0, legacy_counts_example.1)

legacy_raises_example :
    (sanitize_test_rows_legacy no_json (boot_row ∷ broken_row ∷ []) view ≡ err value_error)
    ↔ (read_rows no_json (boot_row ∷ broken_row ∷ []) ≡ err value_error)
legacy_raises_example = legacy_raises no_json (boot_row ∷ broken_row ∷ []) view value_error

broken_row_raises : read_rows no_json (boot_row ∷ broken_row ∷ []) ≡ err value_error
unfolding read_rows string_eq
broken_row_raises = refl

rollup_view_counts_example :
    (get_count
        (some fail)
        (sanitize_rollup_rows
          (rows_of no_text (aggregate_tests_rollup tests test_builds [] [] []))
          (new_instance no_filters)).tests.status_summary
      ≡ pos (tests_with false (some fail) test_builds tests))
    × (get_count
          (some fail)
          (sanitize_rollup_rows
            (rows_of no_text (aggregate_tests_rollup tests test_builds [] [] []))
            (new_instance no_filters)).boots.status_summary
        ≡ pos (tests_with true (some fail) test_builds tests))
rollup_view_counts_example = rollup_view_counts tests test_builds [] no_text (some fail)

one_failed_test : tests_with false (some fail) test_builds tests ≡ 1
unfolding tests_with string_eq option_eq status_eq lookup
one_failed_test = refl

abbrev rollup_rows : List RollupRow
rollup_rows = rows_of no_text (aggregate_tests_rollup tests test_builds [] [] [])

sanitize_rollup_rows-count_example :
    (get_count (some pass) (sanitize_rollup_rows rollup_rows view).tests.status_summary
      ≡ get_count (some pass) view.tests.status_summary
        +ℤ rollup_total false view.filters (some pass) rollup_rows)
    × (get_count (some pass) (sanitize_rollup_rows rollup_rows view).boots.status_summary
        ≡ get_count (some pass) view.boots.status_summary
          +ℤ rollup_total true view.filters (some pass) rollup_rows)
sanitize_rollup_rows-count_example = sanitize_rollup_rows-count rollup_rows view (some pass)

legacy_failures_example :
    (incidents (some fail) final_view.0.test_issues_dict
        +ℤ final_view.0.failed_tests_with_unknown_issues
      ≡ incidents (some fail) view.test_issues_dict
        +ℤ view.failed_tests_with_unknown_issues
        +ℤ pos (number (is_failure false) (keep (is_selected view.filters) rows_data)))
    × (incidents (some fail) final_view.0.boot_issues_dict
          +ℤ final_view.0.failed_boots_with_unknown_issues
        ≡ incidents (some fail) view.boot_issues_dict
          +ℤ view.failed_boots_with_unknown_issues
          +ℤ pos (number (is_failure true) (keep (is_selected view.filters) rows_data)))
legacy_failures_example =
    legacy_failures no_json rows view final_view.0 rows_data final_view.1 read_rows-rows

-- though the test ran on that platform
platform_filter_counts_none_example :
    (final : Instance) × (sanitize_test_rows_legacy no_json rows (new_instance board_filter)
      ≡ ok final)
    × ((u : Status) → get_count u final.tests.status_summary ≡ pos 0)
platform_filter_counts_none_example =
    platform_filter_counts_none no_json rows false board_filter rows_data refl read_rows-rows

abbrev built : Instance
built = sanitize_builds_rows no_json (build_dict ∷ []) view

get_summary-rollup :
    get_summary no_json (ok no_filters) (build_dict ∷ []) (rollup_row ∷ []) []
    ≡ ok (
        summary
          (sanitize_rollup_rows (rollup_row ∷ []) built)
          (count_builds built.builds no_builds))
unfolding get_summary create_details_build_summary lookup string_eq nat_eq should_filter_build_issue
get_summary-rollup = refl

get_summary-IsAgreed_example :
    IsAgreed (sanitize_rollup_rows (rollup_row ∷ []) built).tests
    × IsAgreed (sanitize_rollup_rows (rollup_row ∷ []) built).boots
get_summary-IsAgreed_example =
    get_summary-IsAgreed no_json (ok no_filters) (build_dict ∷ []) (rollup_row ∷ []) []
      (sanitize_rollup_rows (rollup_row ∷ []) built) (count_builds built.builds no_builds)
      get_summary-rollup

build_summary_counts_example :
    ((create_details_build_summary (build_item ∷ []) ≡ err validation_error)
      ↔ (any has_null_lab (build_item ∷ []) ≡ true))
    × (any has_null_lab (build_item ∷ []) ≡ false
        → (s : BaseBuildSummary) × (create_details_build_summary (build_item ∷ []) ≡ ok s)
          × ((u : Status) → IsCountOf (build_item ∷ []) s u))
build_summary_counts_example = build_summary_counts (build_item ∷ [])

-- a build whose lab is null
null_lab :
    create_details_build_summary (record build_item { misc = some (("lab", none) ∷ []) } ∷ [])
    ≡ err validation_error
unfolding create_details_build_summary lookup string_eq nat_eq option_eq
null_lab = refl

-- an issue with a failure and a success
abbrev issue_rows : List IssueRow
issue_rows =
    record { id = "i"; version = pos 1; comment = none; report_url = none; status = some fail }
    ∷ record { id = "i"; version = pos 1; comment = none; report_url = none; status = some pass }
    ∷ []

details_issues_incidents_example :
    ((k : IssueKey)
      → of_issue (some fail) (lookup k (collect_issues issue_rows []))
        ≡ pos (rows_of_issue k (some fail) issue_rows))
    × (issue_total (some fail) (sanitize_details_issues_rows issue_rows)
        ≡ pos (rows_with (some fail) issue_rows))
details_issues_incidents_example = details_issues_incidents issue_rows (some fail)
