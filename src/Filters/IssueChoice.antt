-- ===== src/Filters/IssueChoice.antt =====
-- Which issues the filters on issues of filters.py select, for a test and for a build.
use kernelci_dashboard.Base.{
  ◌≡◌, ◌≢◌, ◌↔◌, ◌⊎◌, refl, inl, inr, String, true, false, Bool-cases, Option, none, some, List, [],
  ◌∷◌, arith, contains, string_eq, option_eq, any,
}
use kernelci_dashboard.Base.Int.{ℤ, int_eq}
use kernelci_dashboard.Filters.Issues.{
  IssueFilter, uncategorized, issue, issue_filter_eq, uncategorized_string, build_fail_status_list,
  is_status_failure, is_known_issue, is_exclusively_build_issue, is_exclusively_test_issue,
  is_unknown_build_issue, is_issue_filtered_out, verify_issue_in_filter, should_filter_test_issue,
  should_filter_build_issue,
}
use kernelci_dashboard.Filters.Attribution.{any-verify}

-- An issue that the row names, with its version, and that is not the constant for none.
abbrev pub IsKnown : Option String → Option ℤ → Type 0
IsKnown none version = ⊥
IsKnown (some id) none = ⊥
IsKnown (some id) (some version) = id ≢ uncategorized_string

-- A filter names the issue: by its id and version, or by the bare constant.
abbrev pub Names : List IssueFilter → Option String → Option ℤ → Type 0
Names filters none version = ⊥
Names filters (some id) version =
    (contains filters (issue id version) ≡ true)
    ⊎ ((id ≡ uncategorized_string) × (contains filters uncategorized ≡ true))

-- For a test, a known issue of a build passes as an uncategorized one does.
abbrev pub TestIssueSelected : List IssueFilter → Option String → Option ℤ → Option String → Type 0
TestIssueSelected [] id version incident_test_id = Unit
TestIssueSelected (f ∷ fs) id version (some t) = Names (f ∷ fs) id version
TestIssueSelected (f ∷ fs) id version none =
    (IsKnown id version → Names (f ∷ fs) (some uncategorized_string) version)
    × (¬ IsKnown id version → Names (f ∷ fs) id version)

-- For a build, which must have failed, a known issue of a test passes as an uncategorized one does,
-- and so does a build with no known issue.
abbrev pub BuildIssueSelected :
    List IssueFilter → Option String → Option ℤ → Option String → String → Type 0
BuildIssueSelected [] id version incident_test_id status = Unit
BuildIssueSelected (f ∷ fs) id version (some t) status =
    ((status ≡ "FAIL") ⊎ (status ≡ "NULL"))
    × (IsKnown id version → Names (f ∷ fs) (some uncategorized_string) version)
    × (¬ IsKnown id version → Names (f ∷ fs) id version)
BuildIssueSelected (f ∷ fs) id version none status =
    ((status ≡ "FAIL") ⊎ (status ≡ "NULL"))
    × (IsKnown id version → Names (f ∷ fs) id version)
    × (¬ IsKnown id version → Names (f ∷ fs) (some uncategorized_string) version)

IsKnown_lem :
    (id : Option String) (version : Option ℤ)
    → (is_known_issue id version ≡ true) ↔ IsKnown id version
unfolding is_known_issue option_eq
IsKnown_lem none version = ground arith
IsKnown_lem (some id) none = ground arith
IsKnown_lem (some id) (some version) = ground arith

none-any :
    (version : Option ℤ) (fs : List IssueFilter)
    → any (λ f. verify_issue_in_filter f none version) fs ≡ false
unfolding any verify_issue_in_filter option_eq
none-any version [] = refl
none-any version (uncategorized ∷ fs) = ground (arith, none-any version fs)
none-any version (issue i v ∷ fs) = ground (arith, none-any version fs)

Names_lem :
    (fs : List IssueFilter) (id : Option String) (version : Option ℤ)
    → (is_issue_filtered_out fs id version ≡ false) ↔ Names fs id version
unfolding is_issue_filtered_out
Names_lem fs none version = ground (arith, none-any version fs)
Names_lem fs (some id) version = ground (arith, any-verify id version fs)

pub TestIssueSelected_lem :
    (fs : List IssueFilter) (id : Option String) (version : Option ℤ) (t : Option String)
    → (should_filter_test_issue fs id version t ≡ false) ↔ TestIssueSelected fs id version t
unfolding should_filter_test_issue is_exclusively_build_issue
TestIssueSelected_lem [] id version t = ground arith
TestIssueSelected_lem (f ∷ fs) id version (some t) = elim (Bool-cases (is_known_issue id version)) [
  | inl p ↦ rw (p, should_filter_test_issue) (Names_lem (f ∷ fs) id version)
  | inr p ↦ rw (p, should_filter_test_issue) (Names_lem (f ∷ fs) id version)
]
TestIssueSelected_lem (f ∷ fs) id version none = elim (Bool-cases (is_known_issue id version)) [
  | inl p ↦
      ground (arith, IsKnown_lem id version, Names_lem (f ∷ fs) (some uncategorized_string) version)
  | inr p ↦ ground (arith, IsKnown_lem id version, Names_lem (f ∷ fs) id version)
]

status_lem :
    (status : String)
    → (is_status_failure status build_fail_status_list ≡ true)
      ↔ ((status ≡ "FAIL") ⊎ (status ≡ "NULL"))
unfolding is_status_failure
status_lem status = ground arith

pub BuildIssueSelected_lem :
    (fs : List IssueFilter) (id : Option String) (version : Option ℤ) (t : Option String)
    (status : String)
    → (should_filter_build_issue fs id version t status ≡ false)
      ↔ BuildIssueSelected fs id version t status
unfolding should_filter_build_issue is_exclusively_test_issue is_unknown_build_issue
BuildIssueSelected_lem [] id version t status = ground arith
BuildIssueSelected_lem (f ∷ fs) id version (some t) status =
    elim (Bool-cases (is_known_issue id version)) [
      | inl p ↦ ground (
        arith,
        status_lem status,
        IsKnown_lem id version,
        Names_lem (f ∷ fs) (some uncategorized_string) version,
      )
      | inr p ↦
          ground (arith, status_lem status, IsKnown_lem id version, Names_lem (f ∷ fs) id version)
    ]
BuildIssueSelected_lem (f ∷ fs) id version none status =
    elim (Bool-cases (is_known_issue id version)) [
      | inl p ↦
          ground (arith, status_lem status, IsKnown_lem id version, Names_lem (f ∷ fs) id version)
      | inr p ↦ ground (
        arith,
        status_lem status,
        IsKnown_lem id version,
        Names_lem (f ∷ fs) (some uncategorized_string) version,
      )
    ]
