-- ===== src/Details/IssueRows.antt =====
-- The issues of a page of details: sanitize_details_issues_rows of
-- backend/kernelCI_app/helpers/detailsIssues.py.
use kernelci_dashboard.Base.{
  ◌≡◌, refl, ◌&&◌, string_eq, sym, ◌∙◌, ap, ℕ, ◌+◌, String, Option, List, [], ◌∷◌, ◌==◌, option_eq,
  if◌then◌else◌,
}
use kernelci_dashboard.Base.Int.{ℤ, pos, int_eq, int_laws, ◌+ℤ◌, +ℤ-zero}
use kernelci_dashboard.Base.Dict.{lookup, values}
use kernelci_dashboard.Details.Tally.{Status, status_eq, count_of}
use kernelci_dashboard.Details.Instance.{IssueKey, issue_key_eq, Issue, IssueDict}
use kernelci_dashboard.Details.Issues.{count_incident}
use kernelci_dashboard.Details.Incidents.{
  incidents, incidents-count_incident, of_issue, of_issue-count_incident,
}
use kernelci_dashboard.Details.Counted.{add_number}

-- a row of the query
pub record IssueRow : Type 0 where
  pub id : String
  pub version : ℤ
  pub comment : Option String
  pub report_url : Option String
  pub status : Status

-- the loop over the rows
unfoldable pub collect_issues : List IssueRow → IssueDict → IssueDict
unfolding count_incident
collect_issues [] result = result
collect_issues (row ∷ rows) result =
    collect_issues rows
      (count_incident (row.id, row.version) row.comment row.report_url row.status result)

unfoldable pub sanitize_details_issues_rows : List IssueRow → List Issue
unfolding collect_issues values
sanitize_details_issues_rows rows = values (collect_issues rows [])

-- how many rows have a status
unfoldable pub rows_with : Status → List IssueRow → ℕ
rows_with u [] = 0
rows_with u (row ∷ rows) = (if u == row.status then 1 else 0) + rows_with u rows

-- how many of them are of an issue
unfoldable pub rows_of_issue : IssueKey → Status → List IssueRow → ℕ
rows_of_issue k u [] = 0
rows_of_issue k u (row ∷ rows) =
    (if k == (row.id, row.version) && u == row.status then 1 else 0) + rows_of_issue k u rows

-- The issues that are collected have as many incidents of a status as there are rows with it, besides
-- those that the table had.
pub collect_issues-incidents :
    (u : Status) (rows : List IssueRow) (result : IssueDict)
    → incidents u (collect_issues rows result) ≡ incidents u result +ℤ pos (rows_with u rows)
unfolding collect_issues rows_with
collect_issues-incidents u [] result = sym (+ℤ-zero _)
collect_issues-incidents u (row ∷ rows) result =
    let key : IssueKey = (row.id, row.version) in
    collect_issues-incidents u rows
      (count_incident key row.comment row.report_url row.status result)
    ∙ ap (λ n. n +ℤ pos (rows_with u rows))
        (incidents-count_incident u row.status key row.comment row.report_url result)
    ∙ add_number (u == row.status) (incidents u result) (rows_with u rows)

collect_issues-of_issue :
    (k : IssueKey) (u : Status) (rows : List IssueRow) (result : IssueDict)
    → of_issue u (lookup k (collect_issues rows result))
      ≡ of_issue u (lookup k result) +ℤ pos (rows_of_issue k u rows)
unfolding collect_issues rows_of_issue
collect_issues-of_issue k u [] result = sym (+ℤ-zero _)
collect_issues-of_issue k u (row ∷ rows) result =
    let key : IssueKey = (row.id, row.version) in
    collect_issues-of_issue k u rows
      (count_incident key row.comment row.report_url row.status result)
    ∙ ap (λ n. n +ℤ pos (rows_of_issue k u rows))
        (of_issue-count_incident u row.status k key row.comment row.report_url result)
    ∙ add_number (k == key && u == row.status) (of_issue u (lookup k result))
        (rows_of_issue k u rows)

-- the incidents of a status over the issues of a page
unfoldable pub issue_total : Status → List Issue → ℤ
unfolding count_of
issue_total u [] = pos 0
issue_total u (issue ∷ issues) = count_of u issue.incidents_info +ℤ issue_total u issues

issue_total-values : (u : Status) (d : IssueDict) → issue_total u (values d) ≡ incidents u d
unfolding issue_total incidents values
issue_total-values u [] = refl
issue_total-values u ((_, issue) ∷ d) =
    ap (λ n. count_of u issue.incidents_info +ℤ n) (issue_total-values u d)

zero_plus : (n : ℕ) → pos 0 +ℤ pos n ≡ pos n
zero_plus n = omega int_laws

-- Of the rows of a page, for each status, every issue's id and version come to as many incidents as
-- there are rows with that id, version and status, and the issues that are sent come to as many
-- incidents as there are rows with that status.
pub details_issues_incidents :
    (rows : List IssueRow) (u : Status)
    → ((k : IssueKey)
        → of_issue u (lookup k (collect_issues rows [])) ≡ pos (rows_of_issue k u rows))
      × (issue_total u (sanitize_details_issues_rows rows) ≡ pos (rows_with u rows))
unfolding sanitize_details_issues_rows incidents lookup
details_issues_incidents rows u = (
  λ k. collect_issues-of_issue k u rows [] ∙ zero_plus _,
  issue_total-values u (collect_issues rows []) ∙ collect_issues-incidents u rows [] ∙ zero_plus _,
)
