-- ===== src/Details/Legacy.antt =====
-- What _sanitize_test_rows_legacy of backend/kernelCI_app/views/treeDetailsSummaryView.py comes to on
-- all its rows.
use kernelci_dashboard.Base.{
  ◌≡◌, refl, sym, ap, ◌∙◌, String, true, Bool-cases, inl, inr, Option, List, [], ◌∷◌, add, contains,
  option_eq, string_eq, if◌then◌else◌,
}
use kernelci_dashboard.Filters.Request.{Result, ok, err, ◌>>=◌, result_cases}
use kernelci_dashboard.Details.Tally.{status_eq}
use kernelci_dashboard.Details.Misc.{Misc}
use kernelci_dashboard.Details.Row.{CurrentRow, RowData, get_current_row_data}
use kernelci_dashboard.Details.Instance.{Instance}
use kernelci_dashboard.Details.Summary.{
  process_summary, process_test_summary, process_boots_summary,
}
use kernelci_dashboard.Details.Issues.{process_filters, process_tests_issue}
use kernelci_dashboard.Details.Rows.{
  use_hardware, process_kept, legacy_rows, sanitize_test_rows_legacy,
}
use kernelci_dashboard.Details.Frame.{
  counted, Summaries, summaries, process_filters-counted, use_hardware-counted,
  process_tests_issue-summaries,
}
use kernelci_dashboard.Details.Selected.{
  is_boot_row, is_selected, select_row, take_row, sanitize_legacy_row_lem,
}

-- `none` of the rows raises, or the first that does ends the loop
unfoldable pub read_rows : (String → Option Misc) → List CurrentRow → Result (List RowData)
unfolding get_current_row_data
read_rows loads [] = ok []
read_rows loads (row ∷ rows) = do
  row_data ← get_current_row_data loads row
  more ← read_rows loads rows
  ok (row_data ∷ more)

unfoldable pub take_rows : List RowData → Instance → Instance
unfolding take_row
take_rows [] i = i
take_rows (r ∷ rs) i = take_rows rs (take_row r i)

and_then :
    (m : Result (List RowData)) (r : RowData) (i : Instance)
    → (m >>= λ rs. ok (take_rows rs (take_row r i)))
      ≡ ((do rs ← m; ok (r ∷ rs)) >>= λ rs. ok (take_rows rs i))
unfolding take_rows
and_then (err e) r i = refl
and_then (ok rs) r i = refl

legacy_rows_lem :
    (loads : String → Option Misc) (rows : List CurrentRow) (i : Instance)
    → legacy_rows loads rows i ≡ (read_rows loads rows >>= λ rs. ok (take_rows rs i))
unfolding legacy_rows read_rows take_rows
legacy_rows_lem loads [] i = refl
legacy_rows_lem loads (row ∷ rows) i = elim (result_cases (get_current_row_data loads row)) [
  | inr (e, p) ↦ rw p refl
  | inl (r, p) ↦ rw p (
      rw (sanitize_legacy_row_lem r i)
        (legacy_rows_lem loads rows (take_row r i) ∙ and_then (read_rows loads rows) r i))
]

-- what a selected row does to the summaries
unfoldable pub count_row : RowData → Summaries → Summaries
unfolding process_summary
count_row r s =
    if contains s.processed r.test_id
    then s
    else if is_boot_row r
    then record s { boots = process_summary r s.boots; processed = add s.processed r.test_id }
    else record s { tests = process_summary r s.tests; processed = add s.processed r.test_id }

select_row-summaries :
    (r : RowData) (i : Instance)
    → summaries (counted (select_row r i)) ≡ count_row r (summaries (counted i))
unfolding select_row process_kept count_row process_test_summary process_boots_summary
select_row-summaries r i =
    let after = process_tests_issue (is_boot_row r) r i in
    (elim (Bool-cases (contains after.processed_tests r.test_id)) [
      | inl p ↦ rw p refl
      | inr p ↦ rw p (elim (Bool-cases (is_boot_row r)) [ inl q ↦ rw q refl | inr q ↦ rw q refl ])
    ])
    ∙ ap (count_row r) (process_tests_issue-summaries (is_boot_row r) r i)

pub take_row-summaries :
    (r : RowData) (i : Instance)
    → summaries (counted (take_row r i)) ≡ (
        if is_selected i.filters r
        then count_row r (summaries (counted i))
        else summaries (counted i))
unfolding take_row
take_row-summaries r i =
    let filtered = process_filters true r (use_hardware r i) in
    let same = process_filters-counted true r (use_hardware r i) ∙ use_hardware-counted r i in
    (elim (Bool-cases (is_selected filtered.filters r)) [
      | inl p ↦
          rw (p, sym (ap (λ c. is_selected c.filters r) same) ∙ p)
            (select_row-summaries r filtered ∙ ap (λ c. count_row r (summaries c)) same)
      | inr p ↦ rw (p, sym (ap (λ c. is_selected c.filters r) same) ∙ p) (ap summaries same)
    ])

count_row-filters : (r : RowData) (s : Summaries) → (count_row r s).filters ≡ s.filters
unfolding count_row
count_row-filters r s = elim (Bool-cases (contains s.processed r.test_id)) [
  | inl p ↦ rw p refl
  | inr p ↦ rw p (elim (Bool-cases (is_boot_row r)) [ inl q ↦ rw q refl | inr q ↦ rw q refl ])
]

pub take_row-filters : (r : RowData) (i : Instance) → (take_row r i).filters ≡ i.filters
take_row-filters r i =
    ap (λ s. s.filters) (take_row-summaries r i) ∙ elim (Bool-cases (is_selected i.filters r)) [
      | inl p ↦ rw p (count_row-filters r (summaries (counted i)))
      | inr p ↦ rw p refl
    ]

unfoldable pub count_rows : List RowData → Summaries → Summaries
unfolding is_selected count_row
count_rows [] s = s
count_rows (r ∷ rs) s = count_rows rs (if is_selected s.filters r then count_row r s else s)

pub take_rows-summaries :
    (rs : List RowData) (i : Instance)
    → summaries (counted (take_rows rs i)) ≡ count_rows rs (summaries (counted i))
unfolding take_rows count_rows
take_rows-summaries [] i = refl
take_rows-summaries (r ∷ rs) i =
    take_rows-summaries rs (take_row r i) ∙ ap (count_rows rs) (take_row-summaries r i)

pub sanitize_test_rows_legacy_lem :
    (loads : String → Option Misc) (rows : List CurrentRow) (i : Instance)
    → sanitize_test_rows_legacy loads rows i
      ≡ (read_rows loads rows >>= λ rs. ok (take_rows rs (record i { processed_tests = [] })))
unfolding sanitize_test_rows_legacy
sanitize_test_rows_legacy_lem loads rows i =
    legacy_rows_lem loads rows (record i { processed_tests = [] })
