-- ===== src/Details/RollupCounts.antt =====
-- The counts of a summary made from rows of the rollup: process_rollup_summary of
-- backend/kernelCI_app/helpers/treeDetailsRollup.py.
use kernelci_dashboard.Base.{
  ◌≡◌, refl, sym, ap, ◌∙◌, String, Bool, true, false, Bool-cases, inl, inr, none, some, List, [],
  ◌∷◌, arith, nonempty, any, not, ◌&&◌, if◌then◌else◌, string_eq, option_eq, ◌==◌,
}
use kernelci_dashboard.Base.Int.{ℤ, pos, ◌+ℤ◌, ltb_ℤ, int_laws, +ℤ-zero}
use kernelci_dashboard.Status.{pass, fail, skip, error, miss, done}
use kernelci_dashboard.Filters.Params.{FilterParams}
use kernelci_dashboard.Filters.Issues.{is_status_failure, failure_status_list}
use kernelci_dashboard.Details.Tally.{
  Status, status_eq, status_text, get_count, get_count-add_count,
}
use kernelci_dashboard.Details.Instance.{Summary, Instance}
use kernelci_dashboard.Details.Summary.{count_everywhere}
use kernelci_dashboard.Details.Rollups.{
  is_matching, rollup_place, process_rollup_failure, process_rollup_status, process_rollup_statuses,
  rollup_summary, sanitize_rollup_rows,
}
use kernelci_dashboard.Details.RollupRow.{
  RollupRow, rollup_statuses, field_of, admits, get_rollup_status_filter,
}
use kernelci_dashboard.Details.RollupAgreement.{with_entries}
use kernelci_dashboard.Details.RollupRows.{
  is_rollup_selected, summarize_row, summarize_rows, sanitize_rollup_rows-summaries,
}
use kernelci_dashboard.Details.Frame.{counted, Summaries, summaries}
use kernelci_dashboard.Details.Counted.{side}

-- what a row adds to the count of a status, under a status filter
unfoldable pub shown : List String → RollupRow → Status → ℤ
shown sf row v =
    if ltb_ℤ (pos 0) (field_of v row.counts) && admits sf v then field_of v row.counts else pos 0

process_rollup_failure-count :
    (row : RollupRow) (u v : Status) (s : Summary)
    → get_count u (process_rollup_failure row v s).status_summary ≡ get_count u s.status_summary
unfolding process_rollup_failure
process_rollup_failure-count row u v s =
    elim (Bool-cases (is_status_failure (status_text v) failure_status_list)) [
      | inl p ↦ rw p refl
      | inr p ↦ rw p refl
    ]

count_everywhere-count :
    (row : RollupRow) (u v : Status) (n : ℤ) (s : Summary)
    → get_count u (count_everywhere (rollup_place row) v n s).status_summary
      ≡ get_count u s.status_summary +ℤ (if u == v then n else pos 0)
unfolding count_everywhere
count_everywhere-count row u v n s = get_count-add_count u v n s.status_summary

if_same : (b : Bool) (a : ℤ) → a ≡ a +ℤ (if b then pos 0 else pos 0)
if_same true a = sym (+ℤ-zero a)
if_same false a = sym (+ℤ-zero a)

process_rollup_status-count :
    (sf : List String) (row : RollupRow) (u v : Status) (s : Summary)
    → get_count u (process_rollup_status sf row v s).status_summary
      ≡ get_count u s.status_summary +ℤ (if u == v then shown sf row v else pos 0)
unfolding process_rollup_status shown
process_rollup_status-count sf row u v s =
    elim (Bool-cases (ltb_ℤ (pos 0) (field_of v row.counts))) [
      | inr p ↦ rw (p, process_rollup_status, shown) (if_same (u == v) _)
      | inl p ↦ elim (Bool-cases (admits sf v)) [
        | inr q ↦ rw (p, q, process_rollup_status, shown) (if_same (u == v) _)
        | inl q ↦
            rw (p, q, process_rollup_status, shown)
              (process_rollup_failure-count row u v
                  (count_everywhere (rollup_place row) v (field_of v row.counts) s)
                ∙ count_everywhere-count row u v (field_of v row.counts) s)
      ]
    ]

-- what the loop over a list of statuses adds to the count of one
unfoldable shown_of : List String → RollupRow → Status → List Status → ℤ
unfolding shown
shown_of sf row u [] = pos 0
shown_of sf row u (v ∷ vs) = (if u == v then shown sf row v else pos 0) +ℤ shown_of sf row u vs

process_rollup_statuses-count :
    (sf : List String) (row : RollupRow) (u : Status) (vs : List Status) (s : Summary)
    → get_count u (process_rollup_statuses sf row vs s).status_summary
      ≡ get_count u s.status_summary +ℤ shown_of sf row u vs
unfolding process_rollup_statuses shown_of
process_rollup_statuses-count sf row u [] s = sym (+ℤ-zero _)
process_rollup_statuses-count sf row u (v ∷ vs) s =
    rw
      (
        process_rollup_statuses-count sf row u vs (process_rollup_status sf row v s),
        process_rollup_status-count sf row u v s,
      )
      (omega int_laws)

-- each status is met once
shown_of_all :
    (sf : List String) (row : RollupRow) (u : Status)
    → shown_of sf row u rollup_statuses ≡ shown sf row u
unfolding shown_of option_eq status_eq
shown_of_all sf row (some pass) = omega int_laws
shown_of_all sf row (some fail) = omega int_laws
shown_of_all sf row (some skip) = omega int_laws
shown_of_all sf row (some error) = omega int_laws
shown_of_all sf row (some miss) = omega int_laws
shown_of_all sf row (some done) = omega int_laws
shown_of_all sf row none = omega int_laws

none_of_all : (p : Status → Bool) (u : Status) → any p rollup_statuses ≡ false → p u ≡ false
unfolding any
none_of_all p (some pass) h = ground (arith)
none_of_all p (some fail) h = ground (arith)
none_of_all p (some skip) h = ground (arith)
none_of_all p (some error) h = ground (arith)
none_of_all p (some miss) h = ground (arith)
none_of_all p (some done) h = ground (arith)
none_of_all p none h = ground (arith)

skipped_bits : (n m : Bool) → n && not m ≡ true → (n ≡ true) × (m ≡ false)
skipped_bits n m h = ground arith

-- A row that is left early would add nothing.
skipped_row :
    (sf : List String) (row : RollupRow) (u : Status)
    → nonempty sf && not (any (is_matching sf row.counts) rollup_statuses) ≡ true
    → shown sf row u ≡ pos 0
unfolding shown
skipped_row sf row u h =
    let (full, unmatched) =
      skipped_bits (nonempty sf) (any (is_matching sf row.counts) rollup_statuses) h in
    let m : is_matching sf row.counts u ≡ false =
      none_of_all (is_matching sf row.counts) u unmatched in
    rw full (rw m refl)

rollup_summary-count :
    (sf : List String) (row : RollupRow) (u : Status) (s : Summary)
    → get_count u (rollup_summary sf row s).status_summary
      ≡ get_count u s.status_summary +ℤ shown sf row u
unfolding rollup_summary
rollup_summary-count sf row u s =
    elim (Bool-cases (nonempty sf && not (any (is_matching sf row.counts) rollup_statuses))) [
      | inl p ↦ rw (p, rollup_summary) (rw (skipped_row sf row u p) (sym (+ℤ-zero _)))
      | inr p ↦
          rw (p, rollup_summary)
            (process_rollup_statuses-count sf row u rollup_statuses (with_entries row s)
              ∙ ap (λ n. get_count u s.status_summary +ℤ n) (shown_of_all sf row u))
    ]

-- What the selected rows of boots, or of tests, add to the count of a status.
unfoldable pub rollup_total : Bool → FilterParams → Status → List RollupRow → ℤ
unfolding is_rollup_selected shown get_rollup_status_filter
rollup_total boots f u [] = pos 0
rollup_total boots f u (row ∷ rows) =
    (if is_rollup_selected f row && (if boots then row.key.is_boot else not row.key.is_boot)
      then shown (get_rollup_status_filter f boots) row u
      else pos 0)
    +ℤ rollup_total boots f u rows

filters_if :
    (b : Bool) (x y : Summary) (s : Summaries)
    → (if b then record s { boots = x } else record s { tests = y }).filters ≡ s.filters
filters_if true x y s = refl
filters_if false x y s = refl

-- one of the two summaries changes, and the count of the other stays
side_if :
    (boots b : Bool) (u : Status) (s : Summaries) (x y : Summary) (n : Bool → ℤ)
    → get_count u x.status_summary ≡ get_count u s.boots.status_summary +ℤ n true
    → get_count u y.status_summary ≡ get_count u s.tests.status_summary +ℤ n false
    → get_count u
        (side boots (if b then record s { boots = x } else record s { tests = y })).status_summary
      ≡ get_count u (side boots s).status_summary
        +ℤ (if (if boots then b else not b) then n boots else pos 0)
side_if true true u s x y n h g = h
side_if true false u s x y n h g = sym (+ℤ-zero _)
side_if false true u s x y n h g = sym (+ℤ-zero _)
side_if false false u s x y n h g = g

summarize_row-count :
    (boots : Bool) (u : Status) (row : RollupRow) (s : Summaries)
    → ((summarize_row row s).filters ≡ s.filters)
      × (get_count u (side boots (summarize_row row s)).status_summary
          ≡ get_count u (side boots s).status_summary
            +ℤ (if (if boots then row.key.is_boot else not row.key.is_boot)
                then shown (get_rollup_status_filter s.filters boots) row u
                else pos 0))
unfolding summarize_row
summarize_row-count boots u row s = (
  filters_if row.key.is_boot _ _ s,
  side_if boots row.key.is_boot u s _ _ (λ b. shown (get_rollup_status_filter s.filters b) row u)
      (rollup_summary-count (get_rollup_status_filter s.filters true) row u s.boots)
      (rollup_summary-count (get_rollup_status_filter s.filters false) row u s.tests),
)

summarize_rows-count :
    (boots : Bool) (u : Status) (rows : List RollupRow) (s : Summaries)
    → get_count u (side boots (summarize_rows rows s)).status_summary
      ≡ get_count u (side boots s).status_summary +ℤ rollup_total boots s.filters u rows
unfolding summarize_rows rollup_total
summarize_rows-count boots u [] s = sym (+ℤ-zero _)
summarize_rows-count boots u (row ∷ rows) s = elim (Bool-cases (is_rollup_selected s.filters row)) [
  | inl p ↦
      rw (p, summarize_rows, rollup_total)
        (rw
          (
            summarize_rows-count boots u rows (summarize_row row s),
            (summarize_row-count boots u row s).0,
            (summarize_row-count boots u row s).1,
          )
          (omega int_laws))
  | inr p ↦
      rw (p, summarize_rows, rollup_total)
        (rw (summarize_rows-count boots u rows s) (omega int_laws))
]

-- _sanitize_rollup_rows adds to the count of each status, among the tests and among the boots, the
-- sum of that status's column over the rows that the filters select, where the column is positive
-- and the filter on the status, if there is one, has the status; leaving a row early changes nothing.
pub sanitize_rollup_rows-count :
    (rows : List RollupRow) (i : Instance) (u : Status)
    → (get_count u (sanitize_rollup_rows rows i).tests.status_summary
        ≡ get_count u i.tests.status_summary +ℤ rollup_total false i.filters u rows)
      × (get_count u (sanitize_rollup_rows rows i).boots.status_summary
          ≡ get_count u i.boots.status_summary +ℤ rollup_total true i.filters u rows)
sanitize_rollup_rows-count rows i u = (
  ap (λ s. get_count u s.tests.status_summary) (sanitize_rollup_rows-summaries rows i)
      ∙ summarize_rows-count false u rows (summaries (counted i)),
  ap (λ s. get_count u s.boots.status_summary) (sanitize_rollup_rows-summaries rows i)
      ∙ summarize_rows-count true u rows (summaries (counted i)),
)
