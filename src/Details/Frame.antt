-- ===== src/Details/Frame.antt =====
-- What the steps on a row leave alone: the filters, the summaries, the processed tests and the issues.
use kernelci_dashboard.Base.{
  ◌≡◌, refl, ◌∙◌, String, Bool, true, false, Option-cases, inl, inr, Option, none, some, List,
  is_some, not, ◌&&◌, option_eq, string_eq, ◌==◌, contains, if◌then◌else◌,
}
use kernelci_dashboard.Base.Int.{ℤ}
use kernelci_dashboard.Status.{is_boot}
use kernelci_dashboard.Filters.Params.{FilterParams, Tab, build}
use kernelci_dashboard.Filters.Issues.{unknown_string, should_increment_build_issue}
use kernelci_dashboard.Details.Tally.{status_text}
use kernelci_dashboard.Details.Misc.{Misc}
use kernelci_dashboard.Details.Row.{RowData, is_fail, call_based_on_compatible_and_misc_platform}
use kernelci_dashboard.Details.Instance.{
  Summary, Instance, IssueDict, issue_key_eq, known_key, add_unfiltered_issue,
}
use kernelci_dashboard.Details.Issues.{
  process_filters, add_build_filters, add_test_filters, add_build_lab, tab_for, test_issue,
  process_builds_issue, process_tests_issue, insertable_key,
}
use kernelci_dashboard.Details.Rows.{
  use_hardware, process_tree_url, process_builds, decide_if_is_build_filtered_out,
}

-- the part of the state that a row's test, if it is kept, counts in
pub record Counted : Type 0 where
  pub filters : FilterParams
  pub tests : Summary
  pub boots : Summary
  pub processed : List (Option String)
  pub unknown_tests : ℤ
  pub unknown_boots : ℤ
  pub test_issues : IssueDict
  pub boot_issues : IssueDict

abbrev pub counted : Instance → Counted
counted i = record {
  filters = i.filters;
  tests = i.tests;
  boots = i.boots;
  processed = i.processed_tests;
  unknown_tests = i.failed_tests_with_unknown_issues;
  unknown_boots = i.failed_boots_with_unknown_issues;
  test_issues = i.test_issues_dict;
  boot_issues = i.boot_issues_dict;
}

pub counted-if :
    (x y : Instance) (b : Bool) {c : Counted}
    → counted x ≡ c
    → counted y ≡ c
    → counted (if b then x else y) ≡ c
counted-if x y true p q = p
counted-if x y false p q = q

pub add_unfiltered_issue-counted :
    (tab : Tab) (k : Option String × Option ℤ × Bool) (failed : Bool) (i : Instance)
    → counted (add_unfiltered_issue tab k failed i) ≡ counted i
unfolding add_unfiltered_issue
add_unfiltered_issue-counted tab k failed i = elim (Option-cases (known_key k)) [
  | inl p ↦ rw (p, add_unfiltered_issue) (counted-if _ _ failed refl refl)
  | inr (_, p) ↦ rw (p, add_unfiltered_issue) refl
]

add_build_lab-counted : (m : Option Misc) (i : Instance) → counted (add_build_lab m i) ≡ counted i
unfolding add_build_lab
add_build_lab-counted none i = refl
add_build_lab-counted (some m) i = refl

pub add_build_filters-counted :
    (r : RowData) (i : Instance) → counted (add_build_filters r i) ≡ counted i
unfolding add_build_filters
add_build_filters-counted r i =
    add_unfiltered_issue-counted build _ (is_fail r.build_status) _
    ∙ add_build_lab-counted r.build_misc _

add_test_filters-counted : (r : RowData) (i : Instance) → counted (add_test_filters r i) ≡ counted i
unfolding add_test_filters
add_test_filters-counted r i =
    add_unfiltered_issue-counted (tab_for (is_boot (some r.test_path))) (test_issue r)
      (is_fail r.test_status) i

pub process_filters-counted :
    (skip : Bool) (r : RowData) (i : Instance) → counted (process_filters skip r i) ≡ counted i
unfolding process_filters
process_filters-counted skip r i =
    let built =
      counted-if _ _ (not skip && is_some r.build_id) (add_build_filters-counted r i) refl in
    counted-if _ _ (is_some r.test_id) (add_test_filters-counted r _ ∙ built) built

pub use_hardware-counted : (r : RowData) (i : Instance) → counted (use_hardware r i) ≡ counted i
unfolding use_hardware call_based_on_compatible_and_misc_platform
use_hardware-counted r i =
    counted-if _ _ (not (r.test_environment_compatible == unknown_string)) refl
      (counted-if _ _ (not (r.test_platform == some unknown_string)) refl refl)

pub process_tree_url-counted :
    (r : RowData) (i : Instance) → counted (process_tree_url r i) ≡ counted i
unfolding process_tree_url
process_tree_url-counted r i = elim (Option-cases r.checkout_git_repository_url) [
  | inl p ↦ rw p refl
  | inr (_, p) ↦ rw p (counted-if _ _ (i.tree_url == "") refl refl)
]

process_builds_issue-counted :
    (r : RowData) (i : Instance) → counted (process_builds_issue r i) ≡ counted i
unfolding process_builds_issue
process_builds_issue-counted r i =
    elim (Option-cases (
      insertable_key (
        should_increment_build_issue r.issue_id r.issue_version r.incident_test_id
          (status_text r.build_status)))) [
            | inl p ↦
                rw (p, process_builds_issue)
                  (counted-if _ _
                    (not (contains i.processed_builds r.build_id) && is_fail r.build_status) refl
                    refl)
            | inr (_, p) ↦ rw (p, process_builds_issue) refl
          ]

pub process_builds-counted : (r : RowData) (i : Instance) → counted (process_builds r i) ≡ counted i
unfolding process_builds
process_builds-counted r i = counted-if _ _ (decide_if_is_build_filtered_out i.filters r) refl (
    counted-if _ _ (contains (process_builds_issue r i).processed_builds r.build_id)
      (process_builds_issue-counted r i) (process_builds_issue-counted r i))

-- the part that an issue does not change
pub record Summaries : Type 0 where
  pub filters : FilterParams
  pub tests : Summary
  pub boots : Summary
  pub processed : List (Option String)

abbrev pub summaries : Counted → Summaries
summaries c = record {
  filters = c.filters;
  tests = c.tests;
  boots = c.boots;
  processed = c.processed;
}

pub summaries-if :
    (x y : Instance) (b : Bool) {s : Summaries}
    → summaries (counted x) ≡ s
    → summaries (counted y) ≡ s
    → summaries (counted (if b then x else y)) ≡ s
summaries-if x y true p q = p
summaries-if x y false p q = q

pub process_tests_issue-summaries :
    (b : Bool) (r : RowData) (i : Instance)
    → summaries (counted (process_tests_issue b r i)) ≡ summaries (counted i)
unfolding process_tests_issue
process_tests_issue-summaries b r i = elim (Option-cases (insertable_key (test_issue r))) [
  | inl p ↦
      rw (p, process_tests_issue)
        (summaries-if _ _ (not (is_fail r.test_status)) refl (summaries-if _ _ b refl refl))
  | inr (_, p) ↦ rw (p, process_tests_issue) (summaries-if _ _ b refl refl)
]
