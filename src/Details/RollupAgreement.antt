-- ===== src/Details/RollupAgreement.antt =====
-- The breakdowns of a summary made from rows of the rollup agree: _sanitize_rollup_rows of
-- backend/kernelCI_app/views/treeDetailsSummaryView.py.
use kernelci_dashboard.Base.{
  ◌∙◌, String, Bool-cases, inl, inr, List, [], ◌∷◌, nonempty, any, not, ◌&&◌, string_eq, option_eq,
}
use kernelci_dashboard.Base.Int.{pos, ltb_ℤ}
use kernelci_dashboard.Filters.Issues.{is_status_failure, failure_status_list}
use kernelci_dashboard.Details.Tally.{
  Status, status_eq, status_text, count_tally, dict_tally, sum_at-setdefault, setdefault,
}
use kernelci_dashboard.Details.Instance.{Summary, arch_key_eq}
use kernelci_dashboard.Details.Summary.{count_everywhere}
use kernelci_dashboard.Details.Rollups.{
  is_matching, rollup_place, process_rollup_failure, process_rollup_status, process_rollup_statuses,
  rollup_summary,
}
use kernelci_dashboard.Details.RollupRow.{RollupRow, rollup_statuses, field_of, admits}
use kernelci_dashboard.Details.Agreement.{IsAgreed, count_everywhere-IsAgreed}

process_rollup_failure-IsAgreed :
    (row : RollupRow) (v : Status) (s : Summary)
    → IsAgreed s
    → IsAgreed (process_rollup_failure row v s)
unfolding process_rollup_failure
process_rollup_failure-IsAgreed row v s h =
    elim (Bool-cases (is_status_failure (status_text v) failure_status_list)) [
      | inl p ↦ rw p h
      | inr p ↦ rw p h
    ]

process_rollup_status-IsAgreed :
    (sf : List String) (row : RollupRow) (v : Status) (s : Summary)
    → IsAgreed s
    → IsAgreed (process_rollup_status sf row v s)
unfolding process_rollup_status
process_rollup_status-IsAgreed sf row v s h =
    elim (Bool-cases (ltb_ℤ (pos 0) (field_of v row.counts))) [
      | inr p ↦ rw (p, process_rollup_status) h
      | inl p ↦ elim (Bool-cases (admits sf v)) [
        | inr q ↦ rw (p, q, process_rollup_status) h
        | inl q ↦
            rw (p, q, process_rollup_status)
              (process_rollup_failure-IsAgreed row v
                (count_everywhere (rollup_place row) v (field_of v row.counts) s)
                (count_everywhere-IsAgreed (rollup_place row) v (field_of v row.counts) s h))
      ]
    ]

process_rollup_statuses-IsAgreed :
    (sf : List String) (row : RollupRow) (vs : List Status) (s : Summary)
    → IsAgreed s
    → IsAgreed (process_rollup_statuses sf row vs s)
unfolding process_rollup_statuses
process_rollup_statuses-IsAgreed sf row [] s h = h
process_rollup_statuses-IsAgreed sf row (v ∷ vs) s h =
    process_rollup_statuses-IsAgreed sf row vs (process_rollup_status sf row v s)
      (process_rollup_status-IsAgreed sf row v s h)

-- the entries that the loop writes to are there, with nothing in them yet
abbrev pub with_entries : RollupRow → Summary → Summary
with_entries row s = record s {
  arch_summary = setdefault (row.key.arch, row.key.compiler) s.arch_summary;
  configs = setdefault row.key.config s.configs;
}

with_entries-IsAgreed : (row : RollupRow) (s : Summary) → IsAgreed s → IsAgreed (with_entries row s)
with_entries-IsAgreed row s h u = (
  sum_at-setdefault u (row.key.arch, row.key.compiler) s.arch_summary ∙ (h u).0,
  sum_at-setdefault u row.key.config s.configs ∙ (h u).1,
  (h u).2,
  (h u).3,
  (h u).4,
)

pub rollup_summary-IsAgreed :
    (sf : List String) (row : RollupRow) (s : Summary)
    → IsAgreed s
    → IsAgreed (rollup_summary sf row s)
unfolding rollup_summary
rollup_summary-IsAgreed sf row s h =
    let full =
      process_rollup_statuses-IsAgreed sf row rollup_statuses (with_entries row s)
        (with_entries-IsAgreed row s h) in
    elim (Bool-cases (nonempty sf && not (any (is_matching sf row.counts) rollup_statuses))) [
      | inl p ↦ rw (p, rollup_summary) h
      | inr p ↦ rw (p, rollup_summary) full
    ]
