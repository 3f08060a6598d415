-- ===== src/Details/Incidents.antt =====
-- The failures that process_tests_issue of backend/kernelCI_app/helpers/treeDetails.py counts, for a
-- known issue or without one.
use kernelci_dashboard.Base.{
  ◌≡◌, refl, sym, String, Bool, true, false, not, ◌&&◌, Bool-cases, Option-cases, inl, inr, Option,
  none, some, [], ◌∷◌, arith, option_eq, string_eq, ◌==◌, if◌then◌else◌,
}
use kernelci_dashboard.Base.Dict.{lookup, insert, lookup-insert}
use kernelci_dashboard.Base.Int.{ℤ, pos, ◌+ℤ◌, ◌-ℤ◌, int_laws, +ℤ-zero}
use kernelci_dashboard.Status.{fail}
use kernelci_dashboard.Details.Tally.{
  Status, status_eq, count_of, no_counts, increment, count_of-no_counts, count_of-increment,
}
use kernelci_dashboard.Details.Row.{RowData, is_fail}
use kernelci_dashboard.Details.Instance.{
  IssueKey, issue_key_eq, Issue, IssueDict, create_issue_typed, Instance,
}
use kernelci_dashboard.Details.Issues.{
  insertable_key, count_incident, test_issue, test_incident, process_tests_issue,
}
use kernelci_dashboard.Details.Frame.{Counted, counted}
use kernelci_dashboard.Details.Selected.{is_boot_row}

-- the incidents of a status over all issues of a table
unfoldable pub incidents : Status → IssueDict → ℤ
unfolding count_of
incidents u [] = pos 0
incidents u ((_, issue) ∷ d) = count_of u issue.incidents_info +ℤ incidents u d

-- those of one issue, none where the table does not have it
abbrev pub of_issue : Status → Option Issue → ℤ
of_issue u none = pos 0
of_issue u (some issue) = count_of u issue.incidents_info

incidents-insert :
    (u : Status) (k : IssueKey) (x : Issue) (d : IssueDict)
    → incidents u (insert k x d)
      ≡ incidents u d +ℤ (count_of u x.incidents_info -ℤ of_issue u (lookup k d))
unfolding incidents insert lookup
incidents-insert u k x [] = omega int_laws
incidents-insert u k x ((j, y) ∷ d) = elim (Bool-cases (k == j)) [
  | inl p ↦ rw p (omega int_laws)
  | inr p ↦ rw p (rw (incidents-insert u k x d) (omega int_laws))
]

of_issue-insert :
    (u v : Status) (j k : IssueKey) (x : Issue) (d : IssueDict)
    → count_of u x.incidents_info ≡ of_issue u (lookup k d) +ℤ (if u == v then pos 1 else pos 0)
    → of_issue u (lookup j (insert k x d))
      ≡ of_issue u (lookup j d) +ℤ (if j == k && u == v then pos 1 else pos 0)
of_issue-insert u v j k x d h = elim (Bool-cases (j == k)) [
  | inl q ↦ let same : j ≡ k = ground (arith, q) in rw (lookup-insert j k x d, q) (rw same h)
  | inr q ↦ rw (lookup-insert j k x d, q) (sym (+ℤ-zero _))
]

-- An incident counts for its issue alone.
pub of_issue-count_incident :
    (u v : Status) (j k : IssueKey) (comment url : Option String) (d : IssueDict)
    → of_issue u (lookup j (count_incident k comment url v d))
      ≡ of_issue u (lookup j d) +ℤ (if j == k && u == v then pos 1 else pos 0)
unfolding count_incident create_issue_typed
of_issue-count_incident u v j k comment url d = elim (Option-cases (lookup k d)) [
  | inl p ↦
      rw (p, count_incident)
        (of_issue-insert u v j k _ d
          (rw (p, count_of-increment u v (pos 1) no_counts, count_of-no_counts u) refl))
  | inr (issue, p) ↦
      rw (p, count_incident)
        (of_issue-insert u v j k _ d
          (rw (p, count_of-increment u v (pos 1) issue.incidents_info) refl))
]

pub incidents-count_incident :
    (u v : Status) (k : IssueKey) (comment url : Option String) (d : IssueDict)
    → incidents u (count_incident k comment url v d)
      ≡ incidents u d +ℤ (if u == v then pos 1 else pos 0)
unfolding count_incident create_issue_typed
incidents-count_incident u v k comment url d = elim (Option-cases (lookup k d)) [
  | inl p ↦
      rw (p, count_incident)
        (rw
          (
            incidents-insert u k (create_issue_typed k.0 k.1 comment url (some v)) d,
            p,
            count_of-increment u v (pos 1) no_counts,
            count_of-no_counts u,
          )
          (omega int_laws))
  | inr (issue, p) ↦
      rw (p, count_incident)
        (rw
          (
            incidents-insert u k
                (record issue { incidents_info = increment v (pos 1) issue.incidents_info }) d,
            p,
            count_of-increment u v (pos 1) issue.incidents_info,
          )
          (omega int_laws))
]

-- The failures of the boots, or of the tests: those of the issues, and those without a known issue.
abbrev pub failures : Bool → Counted → ℤ
failures true c = incidents (some fail) c.boot_issues +ℤ c.unknown_boots
failures false c = incidents (some fail) c.test_issues +ℤ c.unknown_tests

-- a failed row of boots, or of tests
abbrev pub is_failure : Bool → RowData → Bool
is_failure boots r = (if boots then is_boot_row r else not (is_boot_row r)) && is_fail r.test_status

is_fail_lem : (v : Status) → (some fail == v) ≡ is_fail v
unfolding option_eq status_eq
is_fail_lem v = ground arith

test_incident-failures :
    (r : RowData) (k : IssueKey) (d : IssueDict)
    → incidents (some fail) (test_incident r k d)
      ≡ incidents (some fail) d +ℤ (if is_fail r.test_status then pos 1 else pos 0)
unfolding test_incident
test_incident-failures r k d =
    rw (← is_fail_lem r.test_status)
      (incidents-count_incident (some fail) r.test_status k r.issue_comment r.issue_report_url d)

-- a new incident, or one more without a known issue, adds one to the sum
added_first : (a b n : ℤ) → a +ℤ n +ℤ b ≡ a +ℤ b +ℤ n
added_first a b n = omega int_laws

added_last : (a b n : ℤ) → a +ℤ (b +ℤ n) ≡ a +ℤ b +ℤ n
added_last a b n = omega int_laws

known_failure :
    (boots b : Bool) (r : RowData) (k : IssueKey) (i : Instance)
    → failures boots (
        counted (
          if b
          then record i { boot_issues_dict = test_incident r k i.boot_issues_dict }
          else record i { test_issues_dict = test_incident r k i.test_issues_dict }))
      ≡ failures boots (counted i)
        +ℤ (if (if boots then b else not b) && is_fail r.test_status then pos 1 else pos 0)
known_failure true true r k i =
    rw (test_incident-failures r k i.boot_issues_dict) (added_first _ _ _)
known_failure true false r k i = sym (+ℤ-zero _)
known_failure false true r k i = sym (+ℤ-zero _)
known_failure false false r k i =
    rw (test_incident-failures r k i.test_issues_dict) (added_first _ _ _)

unknown_failure :
    (boots b failed : Bool) (i : Instance)
    → failures boots (
        counted (
          if not failed
          then i
          else if b
          then record i {
            failed_boots_with_unknown_issues = i.failed_boots_with_unknown_issues +ℤ pos 1;
          }
          else record i {
            failed_tests_with_unknown_issues = i.failed_tests_with_unknown_issues +ℤ pos 1;
          }))
      ≡ failures boots (counted i)
        +ℤ (if (if boots then b else not b) && failed then pos 1 else pos 0)
unknown_failure true true true i = added_last _ _ _
unknown_failure false false true i = added_last _ _ _
unknown_failure true false true i = sym (+ℤ-zero _)
unknown_failure false true true i = sym (+ℤ-zero _)
unknown_failure true true false i = sym (+ℤ-zero _)
unknown_failure true false false i = sym (+ℤ-zero _)
unknown_failure false true false i = sym (+ℤ-zero _)
unknown_failure false false false i = sym (+ℤ-zero _)

pub process_tests_issue-failures :
    (boots b : Bool) (r : RowData) (i : Instance)
    → failures boots (counted (process_tests_issue b r i))
      ≡ failures boots (counted i)
        +ℤ (if (if boots then b else not b) && is_fail r.test_status then pos 1 else pos 0)
unfolding process_tests_issue
process_tests_issue-failures boots b r i = elim (Option-cases (insertable_key (test_issue r))) [
  | inr (k, p) ↦ rw (p, process_tests_issue) (known_failure boots b r k i)
  | inl p ↦ rw (p, process_tests_issue) (unknown_failure boots b (is_fail r.test_status) i)
]
