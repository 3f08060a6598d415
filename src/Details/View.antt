-- ===== src/Details/View.antt =====
-- The summary endpoint of a tree: `get` of BaseTreeDetailsSummary in
-- backend/kernelCI_app/views/treeDetailsSummaryView.py, from the rows of its queries on.
use kernelci_dashboard.Base.{
  ◌≡◌, refl, sym, ◌∙◌, String, Bool, not, ◌&&◌, ◌||◌, Bool-cases, inl, inr, Option, List, [], ◌∷◌,
  nonempty, string_eq, ◌==◌, if◌then◌else◌,
}
use mathlib.Core.Path.{subst}
use kernelci_dashboard.Base.Int.{◌+ℤ◌}
use kernelci_dashboard.Filters.Params.{FilterParams}
use kernelci_dashboard.Filters.Request.{Result, ok, ◌>>=◌, ok_of_bind}
use kernelci_dashboard.Details.Tally.{get_count, sum_at}
use kernelci_dashboard.Details.Misc.{Misc}
use kernelci_dashboard.Details.Row.{CurrentRow, RowData}
use kernelci_dashboard.Details.Instance.{Instance, new_instance, empty_summary}
use kernelci_dashboard.Details.Issues.{add_build_filters}
use kernelci_dashboard.Details.Rows.{process_tree_url, is_real_build, sanitize_test_rows_legacy}
use kernelci_dashboard.Details.RollupRow.{RollupRow}
use kernelci_dashboard.Details.Rollups.{sanitize_rollup_rows}
use kernelci_dashboard.Details.Builds.{
  BuildDict, has_tags, take_tags, is_build_record_filtered_out, sanitize_builds_row,
  normalize_build_dict, sanitize_builds_rows,
}
use kernelci_dashboard.Details.BuildSummary.{BaseBuildSummary, create_details_build_summary}
use kernelci_dashboard.Details.Frame.{
  Counted, counted, counted-if, add_build_filters-counted, process_tree_url-counted,
  process_builds-counted,
}
use kernelci_dashboard.Details.Agreement.{IsAgreed}
use kernelci_dashboard.Details.Outcome.{sanitize_test_rows_legacy-BothAgreed}
use kernelci_dashboard.Details.RollupRows.{sanitize_rollup_rows-BothAgree}

-- what is sent back: one of two messages, or the fields of the view with the summary of its builds
pub data Response : Type 0 where
  tree_no_results tree_builds_no_results : Response
  summary : Instance → BaseBuildSummary → Response

unfoldable pub should_fallback_to_legacy_tests : Instance → Bool
should_fallback_to_legacy_tests i =
    not (i.filters.test_path == "") || not (i.filters.boot_path == "")

module _ (loads : String → Option Misc) where
  -- the rows of the tests: `rollup_rows` where they will do, else the rows of the query
  unfoldable pub sanitize_tests : List RollupRow → List CurrentRow → Instance → Result Instance
  unfolding should_fallback_to_legacy_tests sanitize_rollup_rows sanitize_test_rows_legacy
  sanitize_tests rollup_rows rows i =
      if nonempty rollup_rows && not (should_fallback_to_legacy_tests i)
      then ok (sanitize_rollup_rows rollup_rows i)
      else if nonempty rows
      then sanitize_test_rows_legacy loads rows i
      else ok i

  -- the rest of `get`, under the filters of the request
  unfoldable pub summarize :
      List BuildDict → List RollupRow → List CurrentRow → FilterParams → Result Response
  unfolding new_instance sanitize_builds_rows create_details_build_summary sanitize_tests
  summarize builds_rows rollup_rows rows f =
      let built = sanitize_builds_rows loads builds_rows (new_instance f) in
      create_details_build_summary built.builds >>= λ builds.
      sanitize_tests rollup_rows rows built >>= λ final. ok (summary final builds)

  -- The filters are what the request's come to, which may be an exception.
  unfoldable pub get_summary :
      Result FilterParams → List BuildDict → List RollupRow → List CurrentRow → Result Response
  unfolding summarize
  get_summary filters builds_rows rollup_rows rows =
      if not (nonempty builds_rows) && not (nonempty rollup_rows)
      then ok tree_no_results
      else if not (nonempty builds_rows)
      then ok tree_builds_no_results
      else filters >>= summarize builds_rows rollup_rows rows

take_tags-counted : (r : RowData) (i : Instance) → counted (take_tags r i) ≡ counted i
unfolding take_tags
take_tags-counted r i = counted-if _ _ (has_tags i.git_commit_tags) refl refl

sanitize_builds_row-counted :
    (r : RowData) (i : Instance) → counted (sanitize_builds_row r i) ≡ counted i
unfolding sanitize_builds_row
sanitize_builds_row-counted r i =
    let filtered = add_build_filters r (process_tree_url r (take_tags r i)) in
    let same =
      add_build_filters-counted r (process_tree_url r (take_tags r i))
      ∙ process_tree_url-counted r (take_tags r i)
      ∙ take_tags-counted r i in
    counted-if _ _ (is_build_record_filtered_out filtered r) same
      (counted-if _ _ (is_real_build r.build_id) (process_builds-counted r filtered ∙ same) same)

sanitize_builds_rows-counted :
    (loads : String → Option Misc) (rows : List BuildDict) (i : Instance)
    → counted (sanitize_builds_rows loads rows i) ≡ counted i
unfolding sanitize_builds_rows
sanitize_builds_rows-counted loads [] i = refl
sanitize_builds_rows-counted loads (row ∷ rows) i =
    sanitize_builds_rows-counted loads rows (sanitize_builds_row (normalize_build_dict loads row) i)
    ∙ sanitize_builds_row-counted (normalize_build_dict loads row) i

empty-IsAgreed : IsAgreed empty_summary
unfolding get_count sum_at ◌+ℤ◌
empty-IsAgreed u = (refl, refl, refl, refl, refl)

abbrev BothSides : Counted → Type 0
BothSides c = IsAgreed c.tests × IsAgreed c.boots

built-BothSides :
    (loads : String → Option Misc) (rows : List BuildDict) (f : FilterParams)
    → BothSides (counted (sanitize_builds_rows loads rows (new_instance f)))
unfolding new_instance
built-BothSides loads rows f =
    subst BothSides (sym (sanitize_builds_rows-counted loads rows (new_instance f)))
      (empty-IsAgreed, empty-IsAgreed)

ok-same : {A : Type 0} {a b : A} → ok a ≡ ok b → a ≡ b
ok-same p = cc

sanitize_tests-BothSides :
    (loads : String → Option Misc) (rollup_rows : List RollupRow) (rows : List CurrentRow)
    (i final : Instance)
    → BothSides (counted i)
    → sanitize_tests loads rollup_rows rows i ≡ ok final
    → BothSides (counted final)
unfolding sanitize_tests
sanitize_tests-BothSides loads rollup_rows rows i final (t, b) =
    elim (Bool-cases (nonempty rollup_rows && not (should_fallback_to_legacy_tests i))) [
      | inl p ↦
          rw (p, sanitize_tests)
            (λ h.
              subst (λ x. BothSides (counted x)) (ok-same h)
                (sanitize_rollup_rows-BothAgree rollup_rows i t b))
      | inr p ↦ elim (Bool-cases (nonempty rows)) [
        | inl q ↦
            rw (p, q, sanitize_tests) (sanitize_test_rows_legacy-BothAgreed loads rows i final t b)
        | inr q ↦
            rw (p, q, sanitize_tests) (λ h. subst (λ x. BothSides (counted x)) (ok-same h) (t, b))
      ]
    ]

same_summary :
    {i j : Instance} {b c : BaseBuildSummary} → ok (summary i b) ≡ ok (summary j c) → i ≡ j
same_summary p = cc

summarize-BothSides :
    (loads : String → Option Misc) (builds_rows : List BuildDict) (rollup_rows : List RollupRow)
    (rows : List CurrentRow) (f : FilterParams) (final : Instance) (builds : BaseBuildSummary)
    → summarize loads builds_rows rollup_rows rows f ≡ ok (summary final builds)
    → BothSides (counted final)
unfolding summarize
summarize-BothSides loads builds_rows rollup_rows rows f final builds h =
    let built = sanitize_builds_rows loads builds_rows (new_instance f) in
    let (counts, _, rest) =
      ok_of_bind (create_details_build_summary built.builds)
        (λ s. sanitize_tests loads rollup_rows rows built >>= λ i. ok (summary i s)) h in
    let (shown, done, sent) =
      ok_of_bind (sanitize_tests loads rollup_rows rows built) (λ i. ok (summary i counts)) rest in
    subst (λ x. BothSides (counted x)) (same_summary sent)
      (sanitize_tests-BothSides loads rollup_rows rows built shown
        (built-BothSides loads builds_rows f) done)

-- Whatever the rows and the filters are, and whether the tests come from the rollup or from the rows
-- of the fallback: in a summary that the endpoint sends, every breakdown of the tests and of the boots
-- (by architecture, by config, by compatible or platform, by origin and by lab) adds up to the count
-- of the status, for each status.
pub get_summary-IsAgreed :
    (loads : String → Option Misc) (filters : Result FilterParams) (builds_rows : List BuildDict)
    (rollup_rows : List RollupRow) (rows : List CurrentRow) (final : Instance)
    (builds : BaseBuildSummary)
    → get_summary loads filters builds_rows rollup_rows rows ≡ ok (summary final builds)
    → IsAgreed final.tests × IsAgreed final.boots
unfolding get_summary
get_summary-IsAgreed loads filters builds_rows rollup_rows rows final builds =
    elim (Bool-cases (nonempty builds_rows)) [
      | inl p ↦
          rw (p, get_summary)
            (λ h.
              let (f, _, sent) =
                ok_of_bind filters (summarize loads builds_rows rollup_rows rows) h in
              summarize-BothSides loads builds_rows rollup_rows rows f final builds sent)
      | inr p ↦ elim (Bool-cases (nonempty rollup_rows)) [
        | inl q ↦ rw (p, q, get_summary) (λ h. cc)
        | inr q ↦ rw (p, q, get_summary) (λ h. cc)
      ]
    ]
