-- ===== src/Filters/IssueListing.antt =====
-- The filters of the listing of issues: backend/kernelCI_app/helpers/issueListing.py.
use kernelci_dashboard.Base.{
  ◌≡◌, ◌↔◌, ◌⊎◌, refl, String, Bool, true, false, not, ◌&&◌, ◌||◌, Option, none, some, List, [],
  ◌∷◌, arith, contains, string_eq, option_eq, nonempty, if◌then◌else◌, get_or, Bool-cases, inl, inr,
}
use kernelci_dashboard.Filters.Params.{FilterParams}

-- the fields of an issue that the filters read
pub record IssueRecord : Type 0 where
  pub origin : String
  pub culprit_code : Option Bool
  pub culprit_harness : Option Bool
  pub culprit_tool : Option Bool
  pub has_incident : Option Bool
  pub categories : Option (List String)

-- `x is True`
abbrev pub is_true : Option Bool → Bool
is_true (some true) = true
is_true _ = false

unfoldable pub should_discard_issue_by_culprit : List String → IssueRecord → Bool
should_discard_issue_by_culprit culprit_filters issue =
    if not (nonempty culprit_filters)
    then false
    else if is_true issue.culprit_code && contains culprit_filters "code"
    then false
    else if is_true issue.culprit_harness && contains culprit_filters "harness"
    then false
    else if is_true issue.culprit_tool && contains culprit_filters "tool"
    then false
    else true

unfoldable pub should_discard_issue_by_origin : List String → String → Bool
should_discard_issue_by_origin origin_filters issue_origin =
    if not (nonempty origin_filters)
    then false
    else if not (contains origin_filters issue_origin)
    then true
    else false

unfoldable pub should_discard_issue_by_options : List String → IssueRecord → Bool
should_discard_issue_by_options option_filters issue =
    if not (nonempty option_filters)
    then false
    else if contains option_filters "hasIncident" && is_true issue.has_incident
    then false
    else true

-- the loop over the categories
unfoldable pub no_category_in : List String → List String → Bool
no_category_in categories_filters [] = true
no_category_in categories_filters (category ∷ more) =
    let rest = no_category_in categories_filters more in
    if contains categories_filters category then false else rest

unfoldable pub should_discard_issue_by_category : List String → Option (List String) → Bool
unfolding no_category_in
should_discard_issue_by_category categories_filters none = nonempty categories_filters
should_discard_issue_by_category categories_filters (some issue_categories) =
    if not (nonempty categories_filters)
    then false
    else if not (nonempty issue_categories)
    then true
    else no_category_in categories_filters issue_categories

-- `none` for no filters
unfoldable pub should_discard_issue_record : Option FilterParams → IssueRecord → Bool
unfolding should_discard_issue_by_culprit should_discard_issue_by_origin
    should_discard_issue_by_options should_discard_issue_by_category
should_discard_issue_record none issue = false
should_discard_issue_record (some f) issue =
    should_discard_issue_by_culprit f.issue_culprits issue
    || should_discard_issue_by_origin f.origins issue.origin
    || should_discard_issue_by_options f.issue_options issue
    || should_discard_issue_by_category f.issue_categories issue.categories

-- A filter that is not set admits everything, and one that is set only what it has.
abbrev pub Admits : List String → Type 0 → Type 0
Admits filters has = (nonempty filters ≡ false) ⊎ has

-- one of the texts of a list is in another
abbrev pub shares : List String → List String → Bool
shares [] ys = false
shares (x ∷ xs) ys = contains ys x || shares xs ys

culprit_bits :
    (n a b c : Bool)
    → ((if not n
          then false
          else if a
          then false
          else if b
          then false
          else if c
          then false
          else true)
        ≡ false)
      ↔ ((n ≡ false) ⊎ ((a || b || c) ≡ true))
culprit_bits n a b c = ground arith

culprit_lem :
    (fs : List String) (r : IssueRecord)
    → (should_discard_issue_by_culprit fs r ≡ false)
      ↔ Admits fs (
          ((is_true r.culprit_code && contains fs "code")
            || (is_true r.culprit_harness && contains fs "harness")
            || (is_true r.culprit_tool && contains fs "tool"))
          ≡ true)
unfolding should_discard_issue_by_culprit
culprit_lem fs r =
    culprit_bits (nonempty fs) (is_true r.culprit_code && contains fs "code")
      (is_true r.culprit_harness && contains fs "harness")
      (is_true r.culprit_tool && contains fs "tool")

origin_bits :
    (n c : Bool)
    → ((if not n then false else if not c then true else false) ≡ false)
      ↔ ((n ≡ false) ⊎ (c ≡ true))
origin_bits n c = ground arith

option_bits :
    (n c : Bool)
    → ((if not n then false else if c then false else true) ≡ false) ↔ ((n ≡ false) ⊎ (c ≡ true))
option_bits n c = ground arith

no_category_in_lem : (fs cs : List String) → no_category_in fs cs ≡ not (shares cs fs)
unfolding no_category_in
no_category_in_lem fs [] = refl
no_category_in_lem fs (c ∷ cs) = elim (Bool-cases (contains fs c)) [
  | inl p ↦ rw p refl
  | inr p ↦ rw p (no_category_in_lem fs cs)
]

category_bits :
    (n m s : Bool)
    → (m ≡ false → s ≡ false)
    → ((if not n then false else if not m then true else not s) ≡ false)
      ↔ ((n ≡ false) ⊎ (s ≡ true))
category_bits n m s h = ground arith

shares-empty : (cs fs : List String) → nonempty cs ≡ false → shares cs fs ≡ false
shares-empty [] fs h = refl
shares-empty (c ∷ cs) fs h = cc

none_bits : (n : Bool) → (n ≡ false) ↔ ((n ≡ false) ⊎ (false ≡ true))
none_bits n = ground arith

category_lem :
    (fs : List String) (cs : Option (List String))
    → (should_discard_issue_by_category fs cs ≡ false) ↔ Admits fs (shares (get_or cs []) fs ≡ true)
unfolding should_discard_issue_by_category
category_lem fs none = none_bits (nonempty fs)
category_lem fs (some cs) =
    rw (no_category_in_lem fs cs)
      (category_bits (nonempty fs) (nonempty cs) (shares cs fs) (shares-empty cs fs))

all_four :
    (a b c d : Bool)
    → ((a || b || c || d) ≡ false) ↔ ((a ≡ false) × (b ≡ false) × (c ≡ false) × (d ≡ false))
all_four a b c d = ground arith

-- An issue stays in the listing exactly when each filter that is set admits it: one of its culprits
-- is among the culprits, its origin is among the origins, it has an incident where that option is
-- among the options, and one of its categories is among the categories.
pub should_discard_issue_record_iff :
    (f : FilterParams) (issue : IssueRecord)
    → (should_discard_issue_record (some f) issue ≡ false) ↔ (
        Admits f.issue_culprits (
          ((is_true issue.culprit_code && contains f.issue_culprits "code")
            || (is_true issue.culprit_harness && contains f.issue_culprits "harness")
            || (is_true issue.culprit_tool && contains f.issue_culprits "tool"))
          ≡ true)
        × Admits f.origins (contains f.origins issue.origin ≡ true)
        × Admits f.issue_options
            ((contains f.issue_options "hasIncident" && is_true issue.has_incident) ≡ true)
        × Admits f.issue_categories (shares (get_or issue.categories []) f.issue_categories ≡ true))
unfolding should_discard_issue_record should_discard_issue_by_origin should_discard_issue_by_options
should_discard_issue_record_iff f issue =
    let (split, join) = all_four _ _ _ _ in
    let culprit = culprit_lem f.issue_culprits issue in
    let origin = origin_bits (nonempty f.origins) (contains f.origins issue.origin) in
    let options =
      option_bits (nonempty f.issue_options)
        (contains f.issue_options "hasIncident" && is_true issue.has_incident) in
    let category = category_lem f.issue_categories issue.categories in
    (
      λ h. let (a, b, c, d) = split h in (culprit.0 a, origin.0 b, options.0 c, category.0 d),
      λ (a, b, c, d). join (culprit.1 a, origin.1 b, options.1 c, category.1 d),
    )
