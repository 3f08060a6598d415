-- ===== src/Details/Selected.antt =====
-- The rows of tests that a view counts, described on their own, and what the loops make of them.
use kernelci_dashboard.Base.{
  ◌≡◌, refl, Bool, true, false, not, ◌&&◌, Bool-cases, inl, inr, some, option_eq, string_eq,
  if◌then◌else◌, is_some,
}
use kernelci_dashboard.Status.{is_boot}
use kernelci_dashboard.Filters.Params.{FilterParams}
use kernelci_dashboard.Filters.Request.{Result, ok, err}
use kernelci_dashboard.Filters.Rows.{
  or_else, is_path_filtered_out, is_boot_filtered_out, is_test_filtered_out,
}
use kernelci_dashboard.Details.Row.{RowData}
use kernelci_dashboard.Details.Instance.{Instance}
use kernelci_dashboard.Details.Issues.{process_filters}
use kernelci_dashboard.Details.Rows.{
  decide_if_is_boot_filtered_out, decide_if_is_test_filtered_out,
  decide_if_is_full_row_filtered_out, test_row, use_hardware, process_kept, process_boots_test,
  process_non_boots_test, process_test, sanitize_legacy_row,
}

abbrev pub is_boot_row : RowData → Bool
is_boot_row r = is_boot (some r.test_path)

-- The value of a test that cannot raise.
abbrev pub result_or_true : Result Bool → Bool
result_or_true (ok b) = b
result_or_true (err e) = true

-- A row is selected when it has a test and neither the record's filters nor its tab's drop it.
unfoldable pub is_selected : FilterParams → RowData → Bool
unfolding is_boot decide_if_is_full_row_filtered_out decide_if_is_boot_filtered_out
    decide_if_is_test_filtered_out
is_selected f r =
    is_some r.test_id
    && not (decide_if_is_full_row_filtered_out f r)
    && not (
        result_or_true (
          if is_boot_row r
          then decide_if_is_boot_filtered_out f r
          else decide_if_is_test_filtered_out f r))

or_else-ok : (b rest : Bool) → or_else (ok b) rest ≡ ok (result_or_true (or_else (ok b) rest))
or_else-ok true rest = refl
or_else-ok false rest = refl

boot_decided :
    (f : FilterParams) (r : RowData)
    → decide_if_is_boot_filtered_out f r ≡ ok (result_or_true (decide_if_is_boot_filtered_out f r))
unfolding decide_if_is_boot_filtered_out is_boot_filtered_out is_path_filtered_out test_row
boot_decided f r = or_else-ok _ _

test_decided :
    (f : FilterParams) (r : RowData)
    → decide_if_is_test_filtered_out f r ≡ ok (result_or_true (decide_if_is_test_filtered_out f r))
unfolding decide_if_is_test_filtered_out is_test_filtered_out is_path_filtered_out test_row
test_decided f r = or_else-ok _ _

-- what a selected row does to the state
unfoldable pub select_row : RowData → Instance → Instance
unfolding is_boot process_kept
select_row r i = process_kept (is_boot_row r) r i

-- whether the filters of the row's tab drop it
abbrev is_dropped : FilterParams → RowData → Bool
is_dropped f r = result_or_true (
    if is_boot_row r
    then decide_if_is_boot_filtered_out f r
    else decide_if_is_test_filtered_out f r)

process_test_lem :
    (r : RowData) (i : Instance)
    → process_test r i ≡ ok (if is_dropped i.filters r then i else select_row r i)
unfolding process_test process_boots_test process_non_boots_test select_row
process_test_lem r i = elim (Bool-cases (is_boot_row r)) [
  | inl p ↦ rw p (rw (boot_decided i.filters r) refl)
  | inr p ↦ rw p (rw (test_decided i.filters r) refl)
]

branches_lem :
    (full has_test dropped : Bool) (x y : Instance)
    → (if full then ok x else if has_test then ok (if dropped then x else y) else ok x)
      ≡ ok (if has_test && not full && not dropped then y else x)
branches_lem true true dropped x y = refl
branches_lem true false dropped x y = refl
branches_lem false false dropped x y = refl
branches_lem false true true x y = refl
branches_lem false true false x y = refl

-- the rest of the loop's body
selected_lem :
    (r : RowData) (i : Instance)
    → (if decide_if_is_full_row_filtered_out i.filters r
        then ok i
        else if is_some r.test_id
        then process_test r i
        else ok i)
      ≡ ok (if is_selected i.filters r then select_row r i else i)
unfolding is_selected
selected_lem r i = rw (process_test_lem r i) (
    branches_lem (decide_if_is_full_row_filtered_out i.filters r) (is_some r.test_id)
      (is_dropped i.filters r) i (select_row r i))

-- what a row that was read does
unfoldable pub take_row : RowData → Instance → Instance
unfolding process_filters use_hardware is_selected select_row
take_row r i =
    let filtered = process_filters true r (use_hardware r i) in
    if is_selected filtered.filters r then select_row r filtered else filtered

pub sanitize_legacy_row_lem :
    (r : RowData) (i : Instance) → sanitize_legacy_row r i ≡ ok (take_row r i)
unfolding sanitize_legacy_row take_row
sanitize_legacy_row_lem r i = selected_lem r (process_filters true r (use_hardware r i))
