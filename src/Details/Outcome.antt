-- ===== src/Details/Outcome.antt =====
-- What the summary of a tree made from rows of tests tells: _sanitize_test_rows_legacy of
-- backend/kernelCI_app/views/treeDetailsSummaryView.py.
use kernelci_dashboard.Base.{
  ◌≡◌, ◌↔◌, refl, sym, ap, ◌∙◌, ℕ, String, Bool, true, false, Bool-cases, inl, inr, Option, List,
  [], ◌∷◌, contains, keep, option_eq, string_eq,
}
use mathlib.Core.Path.{subst}
use kernelci_dashboard.Base.Int.{ℤ, pos, ◌+ℤ◌, int_laws}
use kernelci_dashboard.Filters.Params.{FilterParams}
use kernelci_dashboard.Filters.Request.{Error, ok, err, ◌>>=◌, ok_of_bind, result_cases}
use kernelci_dashboard.Details.Tally.{Status, get_count}
use kernelci_dashboard.Details.Misc.{Misc}
use kernelci_dashboard.Details.Row.{CurrentRow, RowData}
use kernelci_dashboard.Details.Instance.{Instance, new_instance}
use kernelci_dashboard.Details.Rows.{sanitize_test_rows_legacy}
use kernelci_dashboard.Details.Frame.{counted, Summaries, summaries}
use kernelci_dashboard.Details.Selected.{is_boot_row, is_selected}
use kernelci_dashboard.Details.Legacy.{
  read_rows, take_rows, count_row, count_rows, take_rows-summaries, sanitize_test_rows_legacy_lem,
}
use kernelci_dashboard.Details.Counted.{firsts, number, is_counted, count_rows-counts, side}
use kernelci_dashboard.Details.Agreement.{IsAgreed, process_summary-IsAgreed}

abbrev pub BothAgreed : Summaries → Type 0
BothAgreed s = IsAgreed s.tests × IsAgreed s.boots

count_row-BothAgreed : (r : RowData) (s : Summaries) → BothAgreed s → BothAgreed (count_row r s)
unfolding count_row
count_row-BothAgreed r s (t, b) = elim (Bool-cases (contains s.processed r.test_id)) [
  | inl p ↦ rw p (t, b)
  | inr p ↦ rw p (elim (Bool-cases (is_boot_row r)) [
    | inl q ↦ rw q (t, process_summary-IsAgreed r s.boots b)
    | inr q ↦ rw q (process_summary-IsAgreed r s.tests t, b)
  ])
]

count_rows-BothAgreed :
    (rs : List RowData) (s : Summaries) → BothAgreed s → BothAgreed (count_rows rs s)
unfolding count_rows
count_rows-BothAgreed [] s h = h
count_rows-BothAgreed (r ∷ rs) s h = elim (Bool-cases (is_selected s.filters r)) [
  | inl p ↦
      rw (p, count_rows) (count_rows-BothAgreed rs (count_row r s) (count_row-BothAgreed r s h))
  | inr p ↦ rw (p, count_rows) (count_rows-BothAgreed rs s h)
]

from_zero : (a : ℤ) (n : ℕ) → a ≡ pos 0 → a +ℤ pos n ≡ pos n
from_zero a n h = rw h (omega int_laws)

-- the instance that the rows are taken from
abbrev fresh : Instance → Instance
fresh i = record i { processed_tests = [] }

ok-injective : {a b : Instance} → ok a ≡ ok b → a ≡ b
ok-injective p = cc

zero_counts :
    (boots : Bool) (u : Status) (f : FilterParams)
    → get_count u (side boots (summaries (counted (fresh (new_instance f))))).status_summary ≡ pos 0
unfolding new_instance get_count
zero_counts true u f = refl
zero_counts false u f = refl

new_counts :
    (boots : Bool) (u : Status) (rs : List RowData) (f : FilterParams)
    → get_count u
        (side boots (summaries (counted (take_rows rs (fresh (new_instance f)))))).status_summary
      ≡ pos (number (is_counted boots u) (firsts [] (keep (is_selected f) rs)))
unfolding new_instance
new_counts boots u rs f =
    ap (λ s. get_count u (side boots s).status_summary)
      (take_rows-summaries rs (fresh (new_instance f)))
    ∙ count_rows-counts boots u rs (summaries (counted (fresh (new_instance f))))
    ∙ from_zero _ _ (zero_counts boots u f)

-- In the summary of the tests and in that of the boots, every breakdown (by architecture, by config,
-- by compatible or platform, by origin and by lab) adds up to the count of the status, for each
-- status; _sanitize_test_rows_legacy preserves this on any rows, where it does not raise.
pub sanitize_test_rows_legacy-BothAgreed :
    (loads : String → Option Misc) (rows : List CurrentRow) (i final : Instance)
    → IsAgreed i.tests
    → IsAgreed i.boots
    → sanitize_test_rows_legacy loads rows i ≡ ok final
    → IsAgreed final.tests × IsAgreed final.boots
sanitize_test_rows_legacy-BothAgreed loads rows i final t b h =
    let (rs, _, q) =
      ok_of_bind (read_rows loads rows) (λ rs. ok (take_rows rs (fresh i)))
        (sym (sanitize_test_rows_legacy_lem loads rows i) ∙ h) in
    let agreed : BothAgreed (summaries (counted (take_rows rs (fresh i)))) =
      subst BothAgreed (sym (take_rows-summaries rs (fresh i)))
        (count_rows-BothAgreed rs (summaries (counted (fresh i))) (t, b)) in
    subst (λ x. IsAgreed x.tests × IsAgreed x.boots) (ok-injective q) agreed

-- When no row raises as it is read, _sanitize_test_rows_legacy from a new view has a result, in which
-- the count of each status, among the tests and among the boots, is the number of tests with that
-- status among the rows that the filters select, each test taken at its first selected row.
pub legacy_counts :
    (loads : String → Option Misc) (rows : List CurrentRow) (f : FilterParams) (rs : List RowData)
    → read_rows loads rows ≡ ok rs
    → (final : Instance) × (sanitize_test_rows_legacy loads rows (new_instance f) ≡ ok final)
      × ((u : Status)
          → (get_count u final.tests.status_summary
              ≡ pos (number (is_counted false u) (firsts [] (keep (is_selected f) rs))))
            × (get_count u final.boots.status_summary
                ≡ pos (number (is_counted true u) (firsts [] (keep (is_selected f) rs)))))
unfolding new_instance
legacy_counts loads rows f rs h = (
  take_rows rs (fresh (new_instance f)),
  sanitize_test_rows_legacy_lem loads rows (new_instance f)
      ∙ ap (λ m. m >>= λ rs. ok (take_rows rs (fresh (new_instance f)))) h,
  λ u. (new_counts false u rs f, new_counts true u rs f),
)

-- _sanitize_test_rows_legacy raises exactly what the first row that cannot be read raises.
pub legacy_raises :
    (loads : String → Option Misc) (rows : List CurrentRow) (i : Instance) (e : Error)
    → (sanitize_test_rows_legacy loads rows i ≡ err e) ↔ (read_rows loads rows ≡ err e)
legacy_raises loads rows i e = elim (result_cases (read_rows loads rows)) [
  | inl (rs, p) ↦ rw (sanitize_test_rows_legacy_lem loads rows i, p) (λ h. cc, λ h. cc)
  | inr (x, p) ↦ rw (sanitize_test_rows_legacy_lem loads rows i, p) (λ h. cc, λ h. cc)
]
