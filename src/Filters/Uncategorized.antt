-- ===== src/Filters/Uncategorized.antt =====
-- The handlers of filters.py put (UNCATEGORIZED_STRING, None) into a set of issue filters, where the
-- predicates look for the bare constant; and a build's duration is read from one character.
use Prim.Native.Char.{Char, code}
use kernelci_dashboard.Base.{
  ◌≡◌, ap, ◌≢◌, ◌∙◌, refl, inl, inr, Bool-cases, Option-cases, String, true, false, none, some,
  List, [], ◌∷◌, arith, ◌==◌, contains, add, string_eq, nat_eq, option_eq, nonempty, ◌≤◌, ◌-◌,
}
use kernelci_dashboard.Base.Dict.{lookup}
use kernelci_dashboard.Base.Int.{ℤ, pos, ltb_ℤ, int_eq}
use kernelci_dashboard.Base.Duration.{Duration, int_of}
use kernelci_dashboard.Base.Text.{is_full, int-digit, rsplit, before_first}
use kernelci_dashboard.Filters.Rows.{
  BuildRow, is_build_filtered_out, is_duration_filtered_out, int_or_zero,
}
use kernelci_dashboard.Filters.Issues.{
  IssueFilter, uncategorized, issue, issue_filter_eq, uncategorized_string, is_issue_filtered_out,
  is_exclusively_build_issue, should_filter_test_issue,
}
use kernelci_dashboard.Filters.Attribution.{any-verify}
use kernelci_dashboard.Filters.Request.{
  ok, ok_of_bind, result_cases, ParsedFilter, QueryItem, create_filters_from_req,
}
use kernelci_dashboard.Filters.Params.{
  Tab, build, boot, test, at, put_at, FilterParams, no_filters, Handler, handle_issues,
  filter_handlers, tab_of, parse_version, parse_issue_filter, run_handler, process_filter,
  process_filters, to_int_or_default, init,
}

-- no set of issue filters holds the bare constant
abbrev pub HoldsPairs : FilterParams → Type 0
HoldsPairs p = (t : Tab) → contains (at p.issues t) uncategorized ≡ false

contains-add :
    (xs : List IssueFilter) (x y : IssueFilter) → x ≢ y → contains (add xs x) y ≡ contains xs y
unfolding add
contains-add xs x y h = ground arith

parse_issue_filter-pair :
    (value : String) (x : IssueFilter) → parse_issue_filter value ≡ ok x → x ≢ uncategorized
unfolding parse_issue_filter
parse_issue_filter-pair value x h = elim (Bool-cases (value == uncategorized_string)) [
  | inl bare ↦ ground arith
  | inr other ↦ elim (Option-cases (rsplit b',' value)) [
    | inl alone ↦ absurd (ground arith)
    | inr ((i, v), parts) ↦ elim (result_cases (parse_version v)) [
      | inl (n, read) ↦ ground arith
      | inr (e, bad) ↦ absurd (ground arith)
    ]
  ]
]

-- every other handler leaves the sets of issue filters alone
run_handler-issues :
    (h : Handler) (f : ParsedFilter) (p q : FilterParams)
    → h ≢ handle_issues
    → run_handler h f p ≡ ok q
    → q.issues ≡ p.issues
unfolding run_handler
run_handler-issues handle_issues f p q other e = absurd (other refl)
run_handler-issues _ f p q other e = ground arith

add-HoldsPairs :
    (p : FilterParams) (tab : Tab) (x : IssueFilter)
    → HoldsPairs p
    → x ≢ uncategorized
    → HoldsPairs (record p { issues = put_at p.issues tab (add (at p.issues tab) x) })
add-HoldsPairs p build x pairs pair build =
    contains-add p.issues.on_build x uncategorized pair ∙ pairs build
add-HoldsPairs p boot x pairs pair boot =
    contains-add p.issues.on_boot x uncategorized pair ∙ pairs boot
add-HoldsPairs p test x pairs pair test =
    contains-add p.issues.on_test x uncategorized pair ∙ pairs test
add-HoldsPairs p _ x pairs pair t = pairs t

handle_issues-HoldsPairs :
    (f : ParsedFilter) (p q : FilterParams)
    → HoldsPairs p
    → run_handler handle_issues f p ≡ ok q
    → HoldsPairs q
unfolding run_handler
handle_issues-HoldsPairs f p q pairs e =
    let (tab, named, e') = ok_of_bind (tab_of (before_first b'.' f.field)) _ e in
    let (x, read, e'') = ok_of_bind (parse_issue_filter f.value) _ e' in
    let done : record p { issues = put_at p.issues tab (add (at p.issues tab) x) } ≡ q = cc in
    rw (← done) (add-HoldsPairs p tab x pairs (parse_issue_filter-pair f.value x read))

run_handler-HoldsPairs :
    (h : Handler) (f : ParsedFilter) (p q : FilterParams)
    → HoldsPairs p
    → run_handler h f p ≡ ok q
    → HoldsPairs q
run_handler-HoldsPairs handle_issues f p q pairs e = handle_issues-HoldsPairs f p q pairs e
run_handler-HoldsPairs h f p q pairs e =
    λ t. rw (run_handler-issues h f p q (λ same. cc) e) (pairs t)

process_filter-HoldsPairs :
    (f : ParsedFilter) (p q : FilterParams)
    → HoldsPairs p
    → process_filter f p ≡ ok q
    → HoldsPairs q
unfolding process_filter
process_filter-HoldsPairs f p q pairs e = elim (Option-cases (lookup f.field filter_handlers)) [
  | inl ignored ↦ let same : p ≡ q = ground arith in rw (← same) pairs
  | inr (h, found) ↦ run_handler-HoldsPairs h f p q pairs (rw (found, process_filter) at e)
]

process_filters-HoldsPairs :
    (fs : List ParsedFilter) (p q : FilterParams)
    → HoldsPairs p
    → process_filters fs p ≡ ok q
    → HoldsPairs q
unfolding process_filters
process_filters-HoldsPairs [] p q pairs e = let same : p ≡ q = cc in rw (← same) pairs
process_filters-HoldsPairs (f ∷ fs) p q pairs e =
    let (p', first, rest) = ok_of_bind (process_filter f p) _ e in
    process_filters-HoldsPairs fs p' q (process_filter-HoldsPairs f p p' pairs first) rest

start-HoldsPairs : (fs : List ParsedFilter) → HoldsPairs (record no_filters { filters = fs })
start-HoldsPairs fs build = refl
start-HoldsPairs fs boot = refl
start-HoldsPairs fs test = refl

-- No request makes a set of issue filters hold the bare constant.
init-HoldsPairs : (request : List QueryItem) (q : FilterParams) → init request ≡ ok q → HoldsPairs q
unfolding init
init-HoldsPairs request q e =
    let (fs, made, rest) = ok_of_bind (create_filters_from_req [] request) _ e in
    process_filters-HoldsPairs fs (record no_filters { filters = fs }) q (start-HoldsPairs fs) rest

-- Whatever the request, a test row whose incident is a build's known issue is dropped as soon as
-- there is an issue filter on tests, the filter for uncategorized issues included: the one way to
-- keep it is a filter for `Uncategorized` with the version of the build's issue.
pub build_issue_is_dropped :
    (request : List QueryItem) (p : FilterParams) (id : String) (version : ℤ)
    → init request ≡ ok p
    → nonempty p.issues.on_test ≡ true
    → id ≢ uncategorized_string
    → contains p.issues.on_test (issue uncategorized_string (some version)) ≡ false
    → should_filter_test_issue p.issues.on_test (some id) (some version) none ≡ true
unfolding should_filter_test_issue is_issue_filtered_out is_exclusively_build_issue option_eq
build_issue_is_dropped request p id version e some_filter known other = ground (
  arith,
  init-HoldsPairs request p e test,
  any-verify uncategorized_string (some version) p.issues.on_test,
)

abbrev build_at_most : String → List QueryItem
build_at_most value = record { key = "filter_build.duration_[lte]"; first = value; more = [] } ∷ []

-- the number that a digit stands for
abbrev pub digit_value : Char → ℤ
digit_value c = pos (code c - 48)

not_empty : (c : Char) (s : String) → (String.◌∷◌ c s == "") ≡ false
unfolding is_full
not_empty c s = elim (Bool-cases (String.◌∷◌ c s == "")) [
  | inr p ↦ p
  | inl p ↦
      let same : String.◌∷◌ c s ≡ "" = ground (arith, p) in
      let other : true ≡ false = ap is_full same in absurd cc
]

-- A request for builds of at most so many seconds, whose number begins with a digit, is accepted,
-- keeps the whole number among its parsed filters, and sets that digit alone as the bound: with it,
-- every build is dropped whose duration has an integral part above that digit.
pub build_duration_first_character :
    (c : Char) (s : String) (r : BuildRow) (d : Duration)
    → 48 ≤ code c
    → code c ≤ 57
    → r.duration ≡ some d
    → ltb_ℤ (digit_value c) (int_of d) ≡ true
    → (p : FilterParams) × (init (build_at_most (String.◌∷◌ c s)) ≡ ok p)
      × (p.filters
          ≡ record { field = "build.duration"; value = String.◌∷◌ c s; comparison_op = "lte" } ∷ [])
      × (is_build_filtered_out p r ≡ true)
unfolding init string_eq nat_eq is_build_filtered_out is_duration_filtered_out int_or_zero
build_duration_first_character c s r d lo hi e above =
    let p : FilterParams = record no_filters {
      filters =
          record { field = "build.duration"; value = String.◌∷◌ c s; comparison_op = "lte" } ∷ [];
      build_duration_max = some (digit_value c);
    } in
    (
      p,
      rw (int-digit c lo hi, not_empty c String.[], to_int_or_default) refl,
      refl,
      rw e (ground arith),
    )
