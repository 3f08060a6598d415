-- ===== src/Details/RollupRows.antt =====
-- What the rows of the rollup do to the summaries: _sanitize_rollup_rows of
-- backend/kernelCI_app/views/treeDetailsSummaryView.py.
use kernelci_dashboard.Base.{
  ◌≡◌, refl, sym, ap, ◌∙◌, Bool, true, false, Bool-cases, Option-cases, inl, inr, some, List, [],
  ◌∷◌, not, ◌&&◌, if◌then◌else◌, option_eq, string_eq, add,
}
use mathlib.Core.Path.{subst}
use kernelci_dashboard.Status.{fail}
use kernelci_dashboard.Filters.Params.{FilterParams}
use kernelci_dashboard.Filters.Issues.{should_increment_test_issue}
use kernelci_dashboard.Details.Instance.{Instance}
use kernelci_dashboard.Details.Issues.{tab_for, insertable_key}
use kernelci_dashboard.Details.Rollups.{
  rollup_summary, process_rollup_summary, is_rollup_record_filtered_out,
  rollup_test_or_boot_filtered_out, sanitize_rollup_row, sanitize_rollup_rows,
}
use kernelci_dashboard.Details.RollupRow.{
  RollupRow, admits, get_rollup_status_filter, process_rollup_issues, process_rollup_filters,
  rollup_incident,
}
use kernelci_dashboard.Details.Agreement.{IsAgreed}
use kernelci_dashboard.Details.RollupAgreement.{rollup_summary-IsAgreed}
use kernelci_dashboard.Details.Frame.{
  counted, Summaries, summaries, summaries-if, add_unfiltered_issue-counted,
}

process_rollup_filters-counted :
    (row : RollupRow) (i : Instance) → counted (process_rollup_filters row i) ≡ counted i
unfolding process_rollup_filters
process_rollup_filters-counted row i =
    add_unfiltered_issue-counted (tab_for row.key.is_boot)
      (should_increment_test_issue row.key.issue_id row.key.issue_version
        (rollup_incident row.key.issue_id))
      row.key.issue_uncategorized i

process_rollup_issues-summaries :
    (row : RollupRow) (i : Instance)
    → summaries (counted (process_rollup_issues row i)) ≡ summaries (counted i)
unfolding process_rollup_issues
process_rollup_issues-summaries row i =
    elim (Option-cases (
      insertable_key (
        should_increment_test_issue row.key.issue_id row.key.issue_version
          (rollup_incident row.key.issue_id)))) [
            | inl p ↦
                rw (p, process_rollup_issues)
                  (summaries-if _ _ (not row.key.issue_uncategorized) refl (
                    summaries-if _ _
                      (not
                        (admits (get_rollup_status_filter i.filters row.key.is_boot) (some fail)))
                      refl (summaries-if _ _ row.key.is_boot refl refl)))
            | inr (_, p) ↦
                rw (p, process_rollup_issues) (summaries-if _ _ row.key.is_boot refl refl)
          ]

-- neither of the two tests drops the row
unfoldable pub is_rollup_selected : FilterParams → RollupRow → Bool
unfolding is_rollup_record_filtered_out rollup_test_or_boot_filtered_out
is_rollup_selected f row =
    not (is_rollup_record_filtered_out f row) && not (rollup_test_or_boot_filtered_out f row)

unfoldable pub summarize_row : RollupRow → Summaries → Summaries
unfolding get_rollup_status_filter rollup_summary
summarize_row row s =
    if row.key.is_boot
    then record s { boots = rollup_summary (get_rollup_status_filter s.filters true) row s.boots }
    else record s { tests = rollup_summary (get_rollup_status_filter s.filters false) row s.tests }

unfoldable pub summarize_rows : List RollupRow → Summaries → Summaries
unfolding is_rollup_selected summarize_row
summarize_rows [] s = s
summarize_rows (row ∷ rows) s =
    summarize_rows rows (if is_rollup_selected s.filters row then summarize_row row s else s)

process_rollup_summary-summaries :
    (row : RollupRow) (i : Instance)
    → summaries (counted (process_rollup_summary row i)) ≡ summarize_row row (summaries (counted i))
unfolding process_rollup_summary summarize_row
process_rollup_summary-summaries row i = elim (Bool-cases row.key.is_boot) [
  | inl p ↦ rw p refl
  | inr p ↦ rw p refl
]

sanitize_rollup_row-summaries :
    (row : RollupRow) (i : Instance)
    → summaries (counted (sanitize_rollup_row row i)) ≡ (
        if is_rollup_selected i.filters row
        then summarize_row row (summaries (counted i))
        else summaries (counted i))
unfolding sanitize_rollup_row is_rollup_selected
sanitize_rollup_row-summaries row i =
    let used : Instance = record i {
      hardware_used = add i.hardware_used (some row.key.hardware_key);
    } in
    let filtered = process_rollup_filters row used in
    let same = process_rollup_filters-counted row used in
    let record_same = sym (ap (λ c. is_rollup_record_filtered_out c.filters row) same) in
    let row_same = sym (ap (λ c. rollup_test_or_boot_filtered_out c.filters row) same) in
    elim (Bool-cases (is_rollup_record_filtered_out filtered.filters row)) [
      | inl p ↦ rw (p, record_same ∙ p) (ap summaries same)
      | inr p ↦ elim (Bool-cases (rollup_test_or_boot_filtered_out filtered.filters row)) [
        | inl q ↦ rw (p, record_same ∙ p, q, row_same ∙ q) (ap summaries same)
        | inr q ↦
            rw (p, record_same ∙ p, q, row_same ∙ q)
              (process_rollup_summary-summaries row (process_rollup_issues row filtered)
                ∙ ap (summarize_row row) (process_rollup_issues-summaries row filtered)
                ∙ ap (λ c. summarize_row row (summaries c)) same)
      ]
    ]

pub sanitize_rollup_rows-summaries :
    (rows : List RollupRow) (i : Instance)
    → summaries (counted (sanitize_rollup_rows rows i))
      ≡ summarize_rows rows (summaries (counted i))
unfolding sanitize_rollup_rows summarize_rows
sanitize_rollup_rows-summaries [] i = refl
sanitize_rollup_rows-summaries (row ∷ rows) i =
    sanitize_rollup_rows-summaries rows (sanitize_rollup_row row i)
    ∙ ap (summarize_rows rows) (sanitize_rollup_row-summaries row i)

abbrev pub BothAgree : Summaries → Type 0
BothAgree s = IsAgreed s.tests × IsAgreed s.boots

summarize_row-BothAgree :
    (row : RollupRow) (s : Summaries) → BothAgree s → BothAgree (summarize_row row s)
unfolding summarize_row
summarize_row-BothAgree row s (t, b) = elim (Bool-cases row.key.is_boot) [
  | inl p ↦ rw (p, summarize_row) (t, rollup_summary-IsAgreed _ row s.boots b)
  | inr p ↦ rw (p, summarize_row) (rollup_summary-IsAgreed _ row s.tests t, b)
]

summarize_rows-BothAgree :
    (rows : List RollupRow) (s : Summaries) → BothAgree s → BothAgree (summarize_rows rows s)
unfolding summarize_rows
summarize_rows-BothAgree [] s h = h
summarize_rows-BothAgree (row ∷ rows) s h = elim (Bool-cases (is_rollup_selected s.filters row)) [
  | inl p ↦
      rw (p, summarize_rows)
        (summarize_rows-BothAgree rows (summarize_row row s) (summarize_row-BothAgree row s h))
  | inr p ↦ rw (p, summarize_rows) (summarize_rows-BothAgree rows s h)
]

-- In the summary of the tests and in that of the boots, every breakdown (by architecture, by config,
-- by compatible or platform, by origin and by lab) adds up to the count of the status, for each
-- status; _sanitize_rollup_rows preserves this on any rows, under any filters.
pub sanitize_rollup_rows-BothAgree :
    (rows : List RollupRow) (i : Instance)
    → IsAgreed i.tests
    → IsAgreed i.boots
    → IsAgreed (sanitize_rollup_rows rows i).tests × IsAgreed (sanitize_rollup_rows rows i).boots
sanitize_rollup_rows-BothAgree rows i t b =
    subst BothAgree (sym (sanitize_rollup_rows-summaries rows i))
      (summarize_rows-BothAgree rows (summaries (counted i)) (t, b))
