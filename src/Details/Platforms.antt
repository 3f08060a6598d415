-- ===== src/Details/Platforms.antt =====
-- The filters on the platform in decide_if_is_test_filtered_out and decide_if_is_boot_filtered_out of
-- backend/kernelCI_app/helpers/treeDetails.py.
use kernelci_dashboard.Base.{
  ◌≡◌, refl, ap, ◌∙◌, String, Bool, true, false, not, ◌&&◌, ◌||◌, Bool-cases, inl, inr, Option,
  List, [], ◌∷◌, arith, keep, keep-true, keep-false, contains, nonempty, option_eq, string_eq, ◌==◌,
  if◌then◌else◌, is_some,
}
use kernelci_dashboard.Base.Int.{pos}
use kernelci_dashboard.Filters.Params.{FilterParams}
use kernelci_dashboard.Filters.Request.{ok}
use kernelci_dashboard.Base.Text.{is_infix}
use kernelci_dashboard.Filters.Issues.{should_filter_test_issue}
use kernelci_dashboard.Filters.Rows.{
  or_else, not_selected, is_duration_filtered_out, is_test_filtered_out, is_boot_filtered_out,
  is_path_filtered_out,
}
use kernelci_dashboard.Details.Tally.{Status, get_count}
use kernelci_dashboard.Details.Misc.{Misc}
use kernelci_dashboard.Details.Row.{CurrentRow, RowData}
use kernelci_dashboard.Details.Instance.{Instance, new_instance}
use kernelci_dashboard.Details.Rows.{
  test_row, decide_if_is_full_row_filtered_out, decide_if_is_test_filtered_out,
  decide_if_is_boot_filtered_out, sanitize_test_rows_legacy,
}
use kernelci_dashboard.Details.Selected.{is_boot_row, is_selected, result_or_true}
use kernelci_dashboard.Details.Counted.{firsts, number, is_counted}
use kernelci_dashboard.Details.Legacy.{read_rows}
use kernelci_dashboard.Details.Outcome.{legacy_counts}

-- the fifth of the six tests drops the row
any_of_six :
    (a b c d e f : Bool) → e ≡ true → result_or_true (or_else (ok a) (b || c || d || e || f)) ≡ true
any_of_six a b c d e f h = ground arith

no_platform_selected : (ps : List String) → nonempty ps ≡ true → nonempty ps && not false ≡ true
no_platform_selected ps h = ground arith

test_is_dropped :
    (f : FilterParams) (r : RowData)
    → nonempty f.platforms.on_test ≡ true
    → result_or_true (decide_if_is_test_filtered_out f r) ≡ true
unfolding decide_if_is_test_filtered_out is_test_filtered_out is_path_filtered_out test_row
test_is_dropped f r h =
    any_of_six (not (f.test_path == "") && not (is_infix f.test_path r.test_path))
      (not_selected f.test_status (test_row r).status)
      (is_duration_filtered_out f.test_duration_max f.test_duration_min r.test_duration)
      (should_filter_test_issue f.issues.on_test r.issue_id r.issue_version r.incident_test_id)
      (nonempty f.platforms.on_test && not false) (not_selected f.test_origin r.test_origin)
      (no_platform_selected f.platforms.on_test h)

boot_is_dropped :
    (f : FilterParams) (r : RowData)
    → nonempty f.platforms.on_boot ≡ true
    → result_or_true (decide_if_is_boot_filtered_out f r) ≡ true
unfolding decide_if_is_boot_filtered_out is_boot_filtered_out is_path_filtered_out test_row
boot_is_dropped f r h =
    any_of_six (not (f.boot_path == "") && not (is_infix f.boot_path r.test_path))
      (not_selected f.boot_status (test_row r).status)
      (is_duration_filtered_out f.boot_duration_max f.boot_duration_min r.test_duration)
      (should_filter_test_issue f.issues.on_boot r.issue_id r.issue_version r.incident_test_id)
      (nonempty f.platforms.on_boot && not false) (not_selected f.boot_origin r.test_origin)
      (no_platform_selected f.platforms.on_boot h)

abbrev pub platforms_of : Bool → FilterParams → List String
platforms_of boots f = if boots then f.platforms.on_boot else f.platforms.on_test

selected_bits : (a b c : Bool) → a && b && not c ≡ true → c ≡ false
selected_bits a b c h = ground arith

-- what the filters of the row's tab say
abbrev tab_drops : FilterParams → RowData → Bool
tab_drops f r = result_or_true (
    if is_boot_row r
    then decide_if_is_boot_filtered_out f r
    else decide_if_is_test_filtered_out f r)

-- a selected row is not counted on the side that has the filter
selected-uncounted :
    (boots : Bool) (u : Status) (f : FilterParams) (r : RowData)
    → nonempty (platforms_of boots f) ≡ true
    → is_selected f r ≡ true
    → is_counted boots u r ≡ false
unfolding is_selected
selected-uncounted true u f r h s = elim (Bool-cases (is_boot_row r)) [
  | inr q ↦ rw q refl
  | inl q ↦
      let kept =
        selected_bits (is_some r.test_id) (not (decide_if_is_full_row_filtered_out f r))
          (tab_drops f r) s in
      let dropped : tab_drops f r ≡ true = rw q (boot_is_dropped f r h) in cc
]
selected-uncounted false u f r h s = elim (Bool-cases (is_boot_row r)) [
  | inl q ↦ rw q refl
  | inr q ↦
      let kept =
        selected_bits (is_some r.test_id) (not (decide_if_is_full_row_filtered_out f r))
          (tab_drops f r) s in
      let dropped : tab_drops f r ≡ true = rw q (test_is_dropped f r h) in cc
]

number-none :
    (p q : RowData → Bool) (seen : List (Option String)) (rs : List RowData)
    → ((r : RowData) → q r ≡ true → p r ≡ false)
    → number p (firsts seen (keep q rs)) ≡ 0
unfolding number firsts keep
number-none p q seen [] h = refl
number-none p q seen (r ∷ rs) h = elim (Bool-cases (q r)) [
  | inr e ↦ rw (keep-false q r rs e) (number-none p q seen rs h)
  | inl e ↦ elim (Bool-cases (contains seen r.test_id)) [
    | inl g ↦ rw (keep-true q r rs e, g, firsts) (number-none p q seen rs h)
    | inr g ↦
        rw (keep-true q r rs e, g, firsts)
          (rw (h r e) (omega (arith, number-none p q (r.test_id ∷ seen) rs h)))
  ]
]

-- While a filter on the platforms of the tests is set, whatever platforms it names, a view that
-- _sanitize_test_rows_legacy fills from its rows counts no test; and likewise for the boots.
pub platform_filter_counts_none :
    (loads : String → Option Misc) (rows : List CurrentRow) (boots : Bool) (f : FilterParams)
    (rs : List RowData)
    → nonempty (platforms_of boots f) ≡ true
    → read_rows loads rows ≡ ok rs
    → (final : Instance) × (sanitize_test_rows_legacy loads rows (new_instance f) ≡ ok final)
      × ((u : Status)
          → get_count u (if boots then final.boots else final.tests).status_summary ≡ pos 0)
platform_filter_counts_none loads rows true f rs h g =
    let (final, done, counts) = legacy_counts loads rows f rs g in
    (
      final,
      done,
      λ u.
          (counts u).1
          ∙ ap pos (
              number-none (is_counted true u) (is_selected f) [] rs
                (λ r s. selected-uncounted true u f r h s)),
    )
platform_filter_counts_none loads rows false f rs h g =
    let (final, done, counts) = legacy_counts loads rows f rs g in
    (
      final,
      done,
      λ u.
          (counts u).0
          ∙ ap pos (
              number-none (is_counted false u) (is_selected f) [] rs
                (λ r s. selected-uncounted false u f r h s)),
    )
