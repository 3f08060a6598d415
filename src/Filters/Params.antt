-- ===== src/Filters/Params.antt =====
-- The state of `FilterParams` of filters.py, its handlers, and the dispatch by field.
use kernelci_dashboard.Base.{
  String, Option, none, some, List, [], ◌∷◌, ◌==◌, contains, add, string_eq, if◌then◌else◌,
}
use kernelci_dashboard.Base.Dict.{Dict, lookup}
use kernelci_dashboard.Base.Int.{ℤ}
use kernelci_dashboard.Base.Text.{int, rsplit, before_first}
use kernelci_dashboard.Filters.Issues.{IssueFilter, issue, issue_filter_eq, uncategorized_string}
use kernelci_dashboard.Filters.Request.{
  index_error, value_error, key_error, Result, ok, err, ◌>>=◌, ParsedFilter, QueryItem,
  create_filters_from_req,
}

-- `PossibleTabs`
pub data Tab : Type 0 where
  build boot test : Tab

-- a dict whose keys are the tabs
pub record Tabs (A : Type 0) : Type 0 where
  pub on_build : A
  pub on_boot : A
  pub on_test : A

abbrev pub at : {A : Type 0} → Tabs A → Tab → A
at t build = t.on_build
at t boot = t.on_boot
at t test = t.on_test

abbrev pub put_at : {A : Type 0} → Tabs A → Tab → A → Tabs A
put_at t build a = record t { on_build = a }
put_at t boot a = record t { on_boot = a }
put_at t test a = record t { on_test = a }

pub record FilterParams : Type 0 where
  pub filters : List ParsedFilter
  pub test_duration_min : Option ℤ
  pub test_duration_max : Option ℤ
  pub boot_duration_min : Option ℤ
  pub boot_duration_max : Option ℤ
  pub build_duration_min : Option ℤ
  pub build_duration_max : Option ℤ
  pub boot_status : List String
  pub test_status : List String
  pub configs : List String
  pub compiler : List String
  pub architecture : List String
  pub hardware : List String
  pub test_path : String
  pub boot_path : String
  pub build_status : List String
  pub issues : Tabs (List IssueFilter)
  pub platforms : Tabs (List String)
  pub labs : List String
  pub issue_culprits : List String
  pub origins : List String
  pub issue_categories : List String
  pub issue_options : List String
  pub build_origin : List String
  pub boot_origin : List String
  pub test_origin : List String

-- the fields before the request is read
abbrev pub no_filters : FilterParams
no_filters = record {
  filters = [];
  test_duration_min = none;
  test_duration_max = none;
  boot_duration_min = none;
  boot_duration_max = none;
  build_duration_min = none;
  build_duration_max = none;
  boot_status = [];
  test_status = [];
  configs = [];
  compiler = [];
  architecture = [];
  hardware = [];
  test_path = "";
  boot_path = "";
  build_status = [];
  issues = record { on_build = []; on_boot = []; on_test = [] };
  platforms = record { on_build = []; on_boot = []; on_test = [] };
  labs = [];
  issue_culprits = [];
  origins = [];
  issue_categories = [];
  issue_options = [];
  build_origin = [];
  boot_origin = [];
  test_origin = [];
}

-- the methods that `filter_handlers` names
pub data Handler : Type 0 where
  handle_boot_status handle_boot_duration handle_test_status handle_test_duration : Handler
  handle_build_status handle_build_duration handle_origins handle_config_name : Handler
  handle_compiler handle_architecture handle_hardware handle_labs handle_path : Handler
  handle_issues handle_platforms handle_issue_culprits handle_issue_categories : Handler
  handle_issue_options handle_build_origin handle_boot_origin handle_test_origin : Handler

abbrev pub filter_handlers : Dict String Handler
filter_handlers =
    ("boot.status", handle_boot_status)
    ∷ ("boot.duration", handle_boot_duration)
    ∷ ("test.status", handle_test_status)
    ∷ ("test.duration", handle_test_duration)
    ∷ ("build.status", handle_build_status)
    ∷ ("duration", handle_build_duration)
    ∷ ("build.duration", handle_build_duration)
    ∷ ("origin", handle_origins)
    ∷ ("config_name", handle_config_name)
    ∷ ("compiler", handle_compiler)
    ∷ ("architecture", handle_architecture)
    ∷ ("test.hardware", handle_hardware)
    ∷ ("test.lab", handle_labs)
    ∷ ("test.path", handle_path)
    ∷ ("boot.path", handle_path)
    ∷ ("build.issue", handle_issues)
    ∷ ("boot.issue", handle_issues)
    ∷ ("test.issue", handle_issues)
    ∷ ("boot.platform", handle_platforms)
    ∷ ("test.platform", handle_platforms)
    ∷ ("issue.culprit", handle_issue_culprits)
    ∷ ("issue.categories", handle_issue_categories)
    ∷ ("issue.options", handle_issue_options)
    ∷ ("build.origin", handle_build_origin)
    ∷ ("boot.origin", handle_boot_origin)
    ∷ ("test.origin", handle_test_origin)
    ∷ []

abbrev pub possible_culprits : List String
possible_culprits = "code" ∷ "harness" ∷ "tool" ∷ []

abbrev pub issue_filter_options : List String
issue_filter_options = "hasIncident" ∷ []

unfoldable pub to_int_or_default : String → Option ℤ → Option ℤ
to_int_or_default value default =
    if value == "" then default else elim (int value) [ some n ↦ some n | none ↦ default ]

-- `self.filterIssues[tab]` and `self.filterPlatforms[tab]` have no other keys
unfoldable pub tab_of : String → Result Tab
tab_of t =
    if t == "build"
    then ok build
    else if t == "boot"
    then ok boot
    else if t == "test"
    then ok test
    else err key_error

-- `int(issue_version) if issue_version != "null" else None`
unfoldable pub parse_version : String → Result (Option ℤ)
parse_version v =
    if v == "null" then ok none else elim (int v) [ some n ↦ ok (some n) | none ↦ err value_error ]

-- the element that `_handle_issues` adds
unfoldable pub parse_issue_filter : String → Result IssueFilter
unfolding parse_version
parse_issue_filter value =
    if value == uncategorized_string
    then ok (issue uncategorized_string none)
    else elim (rsplit b',' value) [
      | none ↦ err value_error
      | some (issue_id, v) ↦ do issue_version ← parse_version v; ok (issue issue_id issue_version)
    ]

-- `value[0]`
unfoldable pub first_character : String → Result String
first_character String.[] = err index_error
first_character (String.◌∷◌ c s) = ok (String.◌∷◌ c String.[])

unfoldable pub run_handler : Handler → ParsedFilter → FilterParams → Result FilterParams
unfolding add tab_of before_first parse_issue_filter first_character to_int_or_default
run_handler handle_boot_status f p = ok (record p { boot_status = add p.boot_status f.value })
run_handler handle_boot_duration f p =
    let n = to_int_or_default f.value none in
    ok (
      if f.comparison_op == "lte"
      then record p { boot_duration_max = n }
      else record p { boot_duration_min = n })
run_handler handle_test_status f p = ok (record p { test_status = add p.test_status f.value })
run_handler handle_test_duration f p =
    let n = to_int_or_default f.value none in
    ok (
      if f.comparison_op == "lte"
      then record p { test_duration_max = n }
      else record p { test_duration_min = n })
run_handler handle_build_status f p = ok (record p { build_status = add p.build_status f.value })
run_handler handle_build_duration f p = do
  value ← first_character f.value
  let n = to_int_or_default value none
  ok (
      if f.comparison_op == "lte"
      then record p { build_duration_max = n }
      else record p { build_duration_min = n })
run_handler handle_origins f p = ok (record p { origins = add p.origins f.value })
run_handler handle_config_name f p = ok (record p { configs = add p.configs f.value })
run_handler handle_compiler f p = ok (record p { compiler = add p.compiler f.value })
run_handler handle_architecture f p = ok (record p { architecture = add p.architecture f.value })
run_handler handle_hardware f p = ok (record p { hardware = add p.hardware f.value })
run_handler handle_labs f p = ok (record p { labs = add p.labs f.value })
run_handler handle_path f p = ok (
    if f.field == "boot.path"
    then record p { boot_path = f.value }
    else record p { test_path = f.value })
run_handler handle_issues f p = do
  tab ← tab_of (before_first b'.' f.field)
  x ← parse_issue_filter f.value
  ok (record p { issues = put_at p.issues tab (add (at p.issues tab) x) })
run_handler handle_platforms f p = do
  tab ← tab_of (before_first b'.' f.field)
  ok (record p { platforms = put_at p.platforms tab (add (at p.platforms tab) f.value) })
run_handler handle_issue_culprits f p = ok (
    if contains possible_culprits f.value
    then record p { issue_culprits = add p.issue_culprits f.value }
    else p)
run_handler handle_issue_categories f p =
    ok (record p { issue_categories = add p.issue_categories f.value })
run_handler handle_issue_options f p = ok (
    if contains issue_filter_options f.value
    then record p { issue_options = add p.issue_options f.value }
    else p)
run_handler handle_build_origin f p = ok (record p { build_origin = add p.build_origin f.value })
run_handler handle_boot_origin f p = ok (record p { boot_origin = add p.boot_origin f.value })
run_handler handle_test_origin f p = ok (record p { test_origin = add p.test_origin f.value })

-- one round of `_process_filters`: a field with no handler is ignored
unfoldable pub process_filter : ParsedFilter → FilterParams → Result FilterParams
unfolding run_handler lookup
process_filter f p = elim (lookup f.field filter_handlers) [
  | none ↦ ok p
  | some h ↦ run_handler h f p
]

unfoldable pub process_filters : List ParsedFilter → FilterParams → Result FilterParams
unfolding process_filter
process_filters [] p = ok p
process_filters (f ∷ fs) p = do p' ← process_filter f p; process_filters fs p'

-- `FilterParams(request)`
unfoldable pub init : List QueryItem → Result FilterParams
unfolding create_filters_from_req process_filters
init request = do
  filters ← create_filters_from_req [] request
  process_filters filters (record no_filters { filters = filters })
