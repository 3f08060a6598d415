-- ===== src/Details/Counted.antt =====
-- The counts of a summary are the numbers of selected tests: the specification of
-- _sanitize_test_rows_legacy of backend/kernelCI_app/views/treeDetailsSummaryView.py.
use kernelci_dashboard.Base.{
  ◌≡◌, refl, sym, ap, ℕ, ◌+◌, String, Bool, true, false, not, ◌&&◌, Bool-cases, inl, inr, Option,
  List, [], ◌∷◌, add, contains, keep, keep-true, keep-false, option_eq, string_eq, ◌==◌,
  if◌then◌else◌,
}
use kernelci_dashboard.Base.Int.{ℤ, pos, ◌+ℤ◌, int_laws, +ℤ-zero}
use kernelci_dashboard.Filters.Issues.{is_status_failure, failure_status_list}
use kernelci_dashboard.Details.Tally.{
  Status, status_eq, status_text, get_count, get_count-add_count,
}
use kernelci_dashboard.Details.Row.{RowData}
use kernelci_dashboard.Details.Instance.{Summary}
use kernelci_dashboard.Details.Summary.{process_summary, process_failure, count_everywhere}
use kernelci_dashboard.Details.Frame.{Summaries}
use kernelci_dashboard.Details.Selected.{is_boot_row, is_selected}
use kernelci_dashboard.Details.Legacy.{count_row, count_rows}

-- the rows of the tests that are not in `seen`, each test at its first row
unfoldable pub firsts : List (Option String) → List RowData → List RowData
unfolding add
firsts seen [] = []
firsts seen (r ∷ rs) =
    let rest = firsts (add seen r.test_id) rs in
    let skipped = firsts seen rs in if contains seen r.test_id then skipped else r ∷ rest

-- how many rows satisfy a test
unfoldable pub number : (RowData → Bool) → List RowData → ℕ
number p [] = 0
number p (r ∷ rs) = (if p r then 1 else 0) + number p rs

-- the summary of the boots, or of the tests
abbrev pub side : Bool → Summaries → Summary
side true s = s.boots
side false s = s.tests

abbrev pub is_counted : Bool → Status → RowData → Bool
is_counted boots u r = (if boots then is_boot_row r else not (is_boot_row r)) && u == r.test_status

process_summary-count :
    (u : Status) (r : RowData) (s : Summary)
    → get_count u (process_summary r s).status_summary
      ≡ get_count u s.status_summary +ℤ (if u == r.test_status then pos 1 else pos 0)
unfolding process_summary process_failure count_everywhere
process_summary-count u r s =
    elim (Bool-cases (is_status_failure (status_text r.test_status) failure_status_list)) [
      | inl p ↦ rw p (get_count-add_count u r.test_status (pos 1) s.status_summary)
      | inr p ↦ rw p (get_count-add_count u r.test_status (pos 1) s.status_summary)
    ]

count_row-counts :
    (boots : Bool) (u : Status) (r : RowData) (s : Summaries)
    → contains s.processed r.test_id ≡ false
    → get_count u (side boots (count_row r s)).status_summary
      ≡ get_count u (side boots s).status_summary +ℤ (if is_counted boots u r then pos 1 else pos 0)
unfolding count_row
count_row-counts true u r s h = rw h (elim (Bool-cases (is_boot_row r)) [
  | inl q ↦ rw q (process_summary-count u r s.boots)
  | inr q ↦ rw q (sym (+ℤ-zero _))
])
count_row-counts false u r s h = rw h (elim (Bool-cases (is_boot_row r)) [
  | inl q ↦ rw q (sym (+ℤ-zero _))
  | inr q ↦ rw q (process_summary-count u r s.tests)
])

count_row-seen :
    (r : RowData) (s : Summaries) → contains s.processed r.test_id ≡ true → count_row r s ≡ s
unfolding count_row
count_row-seen r s h = rw h refl

count_row-new :
    (r : RowData) (s : Summaries)
    → contains s.processed r.test_id ≡ false
    → ((count_row r s).filters ≡ s.filters)
      × ((count_row r s).processed ≡ add s.processed r.test_id)
unfolding count_row
count_row-new r s h =
    rw h
      (elim (Bool-cases (is_boot_row r)) [ inl q ↦ rw q (refl, refl) | inr q ↦ rw q (refl, refl) ])

pub add_number :
    (b : Bool) (a : ℤ) (n : ℕ)
    → a +ℤ (if b then pos 1 else pos 0) +ℤ pos n ≡ a +ℤ pos ((if b then 1 else 0) + n)
add_number true a n = omega int_laws
add_number false a n = omega int_laws

number-cons :
    (p : RowData → Bool) (r : RowData) (rs : List RowData)
    → number p (r ∷ rs) ≡ (if p r then 1 else 0) + number p rs
unfolding number
number-cons p r rs = refl

-- the rows that are still to be counted from a state on
abbrev pub remaining : Summaries → List RowData → List RowData
remaining s rs = firsts s.processed (keep (is_selected s.filters) rs)

start :
    (p : RowData → Bool) (s : Summaries) → (number p (remaining s []) ≡ 0) × (count_rows [] s ≡ s)
unfolding number firsts keep count_rows
start p s = (refl, refl)

dropped_step :
    (r : RowData) (rs : List RowData) (s : Summaries)
    → is_selected s.filters r ≡ false
    → (remaining s (r ∷ rs) ≡ remaining s rs) × (count_rows (r ∷ rs) s ≡ count_rows rs s)
unfolding count_rows
dropped_step r rs s p = (rw (keep-false (is_selected s.filters) r rs p) refl, rw p refl)

seen_step :
    (r : RowData) (rs : List RowData) (s : Summaries)
    → is_selected s.filters r ≡ true
    → contains s.processed r.test_id ≡ true
    → (remaining s (r ∷ rs) ≡ remaining s rs) × (count_rows (r ∷ rs) s ≡ count_rows rs s)
unfolding count_rows firsts
seen_step r rs s p q = (
  rw (keep-true (is_selected s.filters) r rs p, q) refl,
  rw p (ap (count_rows rs) (count_row-seen r s q)),
)

new_step :
    (r : RowData) (rs : List RowData) (s : Summaries)
    → is_selected s.filters r ≡ true
    → contains s.processed r.test_id ≡ false
    → (remaining s (r ∷ rs) ≡ r ∷ remaining (count_row r s) rs)
      × (count_rows (r ∷ rs) s ≡ count_rows rs (count_row r s))
unfolding count_rows firsts
new_step r rs s p q = (
  rw ((count_row-new r s q).0, (count_row-new r s q).1)
      (rw (keep-true (is_selected s.filters) r rs p, q) refl),
  rw p refl,
)

pub count_rows-counts :
    (boots : Bool) (u : Status) (rs : List RowData) (s : Summaries)
    → get_count u (side boots (count_rows rs s)).status_summary
      ≡ get_count u (side boots s).status_summary
        +ℤ pos (number (is_counted boots u) (remaining s rs))
count_rows-counts boots u [] s =
    rw ((start (is_counted boots u) s).0, (start (is_counted boots u) s).1) (sym (+ℤ-zero _))
count_rows-counts boots u (r ∷ rs) s =
    let found = Bool-cases (contains s.processed r.test_id) in
    elim (Bool-cases (is_selected s.filters r)) [
      | inr p ↦
          rw ((dropped_step r rs s p).0, (dropped_step r rs s p).1) (count_rows-counts boots u rs s)
      | inl p ↦ elim found [
        | inl q ↦
            rw ((seen_step r rs s p q).0, (seen_step r rs s p q).1) (count_rows-counts boots u rs s)
        | inr q ↦
            rw ((new_step r rs s p q).0, (new_step r rs s p q).1)
              (rw
                (
                  number-cons (is_counted boots u) r (remaining (count_row r s) rs),
                  count_rows-counts boots u rs (count_row r s),
                  count_row-counts boots u r s q,
                )
                (add_number (is_counted boots u r) _ _))
      ]
    ]
