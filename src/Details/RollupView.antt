-- ===== src/Details/RollupView.antt =====
-- From the aggregation to the view: aggregate_tests_rollup of
-- backend/kernelCI_app/management/commands/helpers/process_pending_helpers.py, then
-- _sanitize_rollup_rows of backend/kernelCI_app/views/treeDetailsSummaryView.py.
use kernelci_dashboard.Base.{
  ◌≡◌, refl, ◌∙◌, String, Bool, true, false, Bool-cases, inl, inr, Option, List, [], ◌∷◌, arith,
  ◌&&◌, if◌then◌else◌, string_eq, option_eq,
}
use kernelci_dashboard.Base.Dict.{Dict}
use kernelci_dashboard.Base.Int.{ℤ, pos, ◌+ℤ◌, ◌≤ℤ◌, ltb_ℤ, int_laws}
use kernelci_dashboard.Aggregation.Models.{Build, PendingTest}
use kernelci_dashboard.Filters.Params.{no_filters}
use kernelci_dashboard.Filters.Issues.{should_filter_test_issue}
use kernelci_dashboard.Filters.Rows.{is_record_filtered_out}
use kernelci_dashboard.Rollup.Entries.{
  RollupKey, rollup_key_eq, RollupCounts, RollupData, aggregate_tests_rollup, IssuesMap,
}
use kernelci_dashboard.Details.Tally.{Status, status_eq, get_count}
use kernelci_dashboard.Details.Instance.{new_instance}
use kernelci_dashboard.Details.Rollups.{
  is_rollup_record_filtered_out, rollup_test_or_boot_filtered_out, sanitize_rollup_rows,
}
use kernelci_dashboard.Details.RollupRow.{RollupRow, field_of, get_rollup_status_filter}
use kernelci_dashboard.Details.RollupRows.{is_rollup_selected}
use kernelci_dashboard.Details.RollupCounts.{shown, rollup_total, sanitize_rollup_rows-count}
use kernelci_dashboard.Details.Columns.{
  column, aggregate-column, tests_with, AllNonnegative, aggregate-AllNonnegative, empty_table,
}

-- a row of the table, with whatever the join on the issues gives
abbrev pub row_of :
    (RollupKey → Option String × Option String) → RollupKey → RollupCounts → RollupRow
row_of issue_text k c = record {
  key = k;
  counts = c;
  issue_comment = (issue_text k).0;
  issue_report_url = (issue_text k).1;
}

unfoldable pub rows_of : (RollupKey → Option String × Option String) → RollupData → List RollupRow
rows_of issue_text [] = []
rows_of issue_text ((k, c) ∷ d) = row_of issue_text k c ∷ rows_of issue_text d

unfiltered : (row : RollupRow) → is_rollup_selected no_filters row ≡ true
unfolding is_rollup_selected is_rollup_record_filtered_out rollup_test_or_boot_filtered_out
    is_record_filtered_out should_filter_test_issue string_eq
unfiltered row = elim (Bool-cases row.key.is_boot) [
  | inl p ↦ rw (rollup_test_or_boot_filtered_out, p) refl
  | inr p ↦ rw (rollup_test_or_boot_filtered_out, p) refl
]

unfiltered_status : (boots : Bool) → get_rollup_status_filter no_filters boots ≡ []
unfolding get_rollup_status_filter
unfiltered_status true = refl
unfiltered_status false = refl

positive_or_zero : (x : ℤ) → pos 0 ≤ℤ x → (if ltb_ℤ (pos 0) x && true then x else pos 0) ≡ x
positive_or_zero x h = ground arith

shown-all :
    (row : RollupRow) (u : Status)
    → pos 0 ≤ℤ field_of u row.counts
    → shown [] row u ≡ field_of u row.counts
unfolding shown
shown-all row u h = positive_or_zero (field_of u row.counts) h

total-column :
    (issue_text : RollupKey → Option String × Option String) (boots : Bool) (u : Status)
    (d : RollupData)
    → AllNonnegative d
    → rollup_total boots no_filters u (rows_of issue_text d) ≡ column boots u d
unfolding rollup_total rows_of column
total-column issue_text boots u [] h = refl
total-column issue_text boots u ((k, c) ∷ d) (h, hs) =
    let row = row_of issue_text k c in
    rw
      (
        unfiltered row,
        unfiltered_status boots,
        shown-all row u (h u),
        total-column issue_text boots u d hs,
      )
      refl

-- The rows that aggregate_tests_rollup makes of tests that were not aggregated before, shown by the
-- summary view without filters: the count of each status, among the tests and among the boots, is the
-- number of the tests of that kind with that status whose build is known. So every such test is shown
-- once.
pub rollup_view_counts :
    (ts : List PendingTest) (builds : Dict String Build) (issues : IssuesMap)
    (issue_text : RollupKey → Option String × Option String) (u : Status)
    → (get_count u
          (sanitize_rollup_rows
            (rows_of issue_text (aggregate_tests_rollup ts builds issues [] []))
            (new_instance no_filters)).tests.status_summary
        ≡ pos (tests_with false u builds ts))
      × (get_count u
            (sanitize_rollup_rows
              (rows_of issue_text (aggregate_tests_rollup ts builds issues [] []))
              (new_instance no_filters)).boots.status_summary
          ≡ pos (tests_with true u builds ts))
unfolding new_instance get_count column
rollup_view_counts ts builds issues issue_text u =
    let d = aggregate_tests_rollup ts builds issues [] [] in
    let whole = sanitize_rollup_rows-count (rows_of issue_text d) (new_instance no_filters) u in
    let shown_side : (boots : Bool)
        → pos 0 +ℤ rollup_total boots no_filters u (rows_of issue_text d)
          ≡ pos (tests_with boots u builds ts) =
      λ boots.
        rw
          (
            total-column issue_text boots u d
                (aggregate-AllNonnegative ts builds issues [] empty_table),
            aggregate-column boots u ts builds issues [],
          )
          (omega int_laws) in
    (whole.0 ∙ shown_side false, whole.1 ∙ shown_side true)
