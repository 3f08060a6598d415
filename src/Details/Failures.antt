-- ===== src/Details/Failures.antt =====
-- Where the failed tests of a tree go: the issue tables and the counters of failures without a known
-- issue that backend/kernelCI_app/views/treeDetailsSummaryView.py fills through process_tests_issue.
use kernelci_dashboard.Base.{
  ◌≡◌, refl, sym, ap, ◌∙◌, String, Bool, true, false, ◌&&◌, Bool-cases, inl, inr, Option, some,
  List, [], ◌∷◌, keep, keep-true, keep-false, contains, option_eq, string_eq, if◌then◌else◌,
}
use kernelci_dashboard.Base.Int.{ℤ, pos, ◌+ℤ◌, int_laws, +ℤ-zero}
use kernelci_dashboard.Status.{fail}
use kernelci_dashboard.Filters.Params.{FilterParams}
use kernelci_dashboard.Filters.Request.{ok, ◌>>=◌}
use kernelci_dashboard.Details.Tally.{status_eq}
use kernelci_dashboard.Details.Misc.{Misc}
use kernelci_dashboard.Details.Row.{CurrentRow, RowData}
use kernelci_dashboard.Details.Instance.{issue_key_eq, Instance, Summary}
use kernelci_dashboard.Details.Issues.{process_tests_issue, process_filters}
use kernelci_dashboard.Details.Rows.{use_hardware, process_kept, sanitize_test_rows_legacy}
use kernelci_dashboard.Details.Summary.{process_test_summary, process_boots_summary}
use kernelci_dashboard.Details.Frame.{counted, process_filters-counted, use_hardware-counted}
use kernelci_dashboard.Details.Selected.{is_boot_row, is_selected, select_row, take_row}
use kernelci_dashboard.Details.Legacy.{
  read_rows, take_rows, take_row-filters, sanitize_test_rows_legacy_lem,
}
use kernelci_dashboard.Details.Counted.{number, add_number}
use kernelci_dashboard.Details.Incidents.{
  incidents, failures, is_failure, process_tests_issue-failures,
}

failures_if :
    (boots b : Bool) (x y : Instance) {n : ℤ}
    → failures boots (counted x) ≡ n
    → failures boots (counted y) ≡ n
    → failures boots (counted (if b then x else y)) ≡ n
failures_if boots true x y p q = p
failures_if boots false x y p q = q

unchanged :
    (boots : Bool) (i : Instance) (x y : Summary) (seen : List (Option String))
    → failures boots (counted (record i { tests = x; boots = y; processed_tests = seen }))
      ≡ failures boots (counted i)
unchanged true i x y seen = refl
unchanged false i x y seen = refl

-- Counting in a summary does not change the failures.
select_row-failures :
    (boots : Bool) (r : RowData) (i : Instance)
    → failures boots (counted (select_row r i))
      ≡ failures boots (counted i) +ℤ (if is_failure boots r then pos 1 else pos 0)
unfolding select_row process_kept process_test_summary process_boots_summary
select_row-failures boots r i =
    let issued = process_tests_issue (is_boot_row r) r i in
    let after = process_tests_issue-failures boots (is_boot_row r) r i in
    failures_if boots (contains (process_tests_issue (is_boot_row r) r i).processed_tests r.test_id)
      _ _ after
      (failures_if boots (is_boot_row r) _ _ (unchanged boots issued _ _ _ ∙ after)
        (unchanged boots issued _ _ _ ∙ after))

take_row-failures :
    (boots : Bool) (r : RowData) (i : Instance)
    → failures boots (counted (take_row r i))
      ≡ failures boots (counted i)
        +ℤ (if is_selected i.filters r && is_failure boots r then pos 1 else pos 0)
unfolding take_row
take_row-failures boots r i =
    let filtered = process_filters true r (use_hardware r i) in
    let same = process_filters-counted true r (use_hardware r i) ∙ use_hardware-counted r i in
    let same_test = sym (ap (λ c. is_selected c.filters r) same) in
    elim (Bool-cases (is_selected filtered.filters r)) [
      | inl p ↦
          rw (p, same_test ∙ p)
            (select_row-failures boots r filtered
              ∙ ap (λ c. failures boots c +ℤ (if is_failure boots r then pos 1 else pos 0)) same)
      | inr p ↦ rw (p, same_test ∙ p) (ap (failures boots) same ∙ sym (+ℤ-zero _))
    ]

-- the number after a row that is selected, or is not
one_row :
    (f : FilterParams) (p : RowData → Bool) (r : RowData) (rs : List RowData) (a : ℤ)
    → a
        +ℤ (if is_selected f r && p r then pos 1 else pos 0)
        +ℤ pos (number p (keep (is_selected f) rs))
      ≡ a +ℤ pos (number p (keep (is_selected f) (r ∷ rs)))
unfolding number
one_row f p r rs a = elim (Bool-cases (is_selected f r)) [
  | inl h ↦
      rw (h, keep-true (is_selected f) r rs h)
        (add_number (p r) a (number p (keep (is_selected f) rs)))
  | inr h ↦ rw (h, keep-false (is_selected f) r rs h) (omega int_laws)
]

take_rows-failures :
    (boots : Bool) (rs : List RowData) (i : Instance)
    → failures boots (counted (take_rows rs i))
      ≡ failures boots (counted i)
        +ℤ pos (number (is_failure boots) (keep (is_selected i.filters) rs))
unfolding take_rows number keep
take_rows-failures boots [] i = sym (+ℤ-zero (failures boots (counted i)))
take_rows-failures boots (r ∷ rs) i =
    take_rows-failures boots rs (take_row r i)
    ∙ ap
        (λ f.
          failures boots (counted (take_row r i))
          +ℤ pos (number (is_failure boots) (keep (is_selected f) rs)))
        (take_row-filters r i)
    ∙ ap (λ n. n +ℤ pos (number (is_failure boots) (keep (is_selected i.filters) rs)))
        (take_row-failures boots r i)
    ∙ one_row i.filters (is_failure boots) r rs (failures boots (counted i))

ok-injective : {a b : Instance} → ok a ≡ ok b → a ≡ b
ok-injective p = cc

-- Where _sanitize_test_rows_legacy does not raise, the failures that it adds to the issues of the
-- tests and to failed_tests_with_unknown_issues are together the rows of failed tests that the
-- filters select, and likewise for the boots: no failure is lost or counted for two issues at once.
pub legacy_failures :
    (loads : String → Option Misc) (rows : List CurrentRow) (i final : Instance) (rs : List RowData)
    → sanitize_test_rows_legacy loads rows i ≡ ok final
    → read_rows loads rows ≡ ok rs
    → (incidents (some fail) final.test_issues_dict +ℤ final.failed_tests_with_unknown_issues
        ≡ incidents (some fail) i.test_issues_dict
          +ℤ i.failed_tests_with_unknown_issues
          +ℤ pos (number (is_failure false) (keep (is_selected i.filters) rs)))
      × (incidents (some fail) final.boot_issues_dict +ℤ final.failed_boots_with_unknown_issues
          ≡ incidents (some fail) i.boot_issues_dict
            +ℤ i.failed_boots_with_unknown_issues
            +ℤ pos (number (is_failure true) (keep (is_selected i.filters) rs)))
legacy_failures loads rows i final rs h g =
    let fresh : Instance = record i { processed_tests = [] } in
    let is_final : take_rows rs fresh ≡ final = ok-injective (
      sym (
        sanitize_test_rows_legacy_lem loads rows i
        ∙ ap (λ m. m >>= λ rs. ok (take_rows rs fresh)) g)
      ∙ h) in
    (
      ap (λ x. failures false (counted x)) (sym is_final) ∙ take_rows-failures false rs fresh,
      ap (λ x. failures true (counted x)) (sym is_final) ∙ take_rows-failures true rs fresh,
    )
