-- ===== src/Rollup/Entries.antt =====
-- extract_path_group, accumulate_rollup_entry, aggregate_tests_rollup and fetch_test_issues.
use kernelci_dashboard.Base.{
  String, Bool, true, false, ◌&&◌, Option, none, some, List, [], ◌∷◌, ◌==◌, contains, string_eq, Eq,
  if◌then◌else◌, is_none, get_or,
}
use kernelci_dashboard.Base.Dict.{Dict, lookup, insert}
use kernelci_dashboard.Base.Int.{ℤ, ℤ-discrete, pos, ◌+ℤ◌, ◌-ℤ◌}
use kernelci_dashboard.Base.Text.{before_first}
use kernelci_dashboard.Status.{StatusChoices, pass, fail, skip, error, miss, done}
use kernelci_dashboard.Aggregation.Models.{Build, PendingTest}
use kernelci_dashboard.Filters.Issues.{unknown_string}

abbrev pub empty_path_group : String
empty_path_group = "-"

-- "" and None are both false
abbrev pub or_default : Option String → String → String
or_default none d = d
or_default (some s) d = if s == "" then d else s

unfoldable pub extract_path_group : String → String
unfolding before_first
extract_path_group path = if path == "" then empty_path_group else before_first b'.' path

pub record RollupKey : Type 0 where
  pub origin : String
  pub tree_name : Option String
  pub git_repository_branch : Option String
  pub git_repository_url : Option String
  pub git_commit_hash : Option String
  pub path_group : String
  pub config : String
  pub arch : String
  pub compiler : String
  pub hardware_key : String
  pub platform : Option String
  pub lab : Option String
  pub test_origin : String
  pub issue_id : Option String
  pub issue_version : Option ℤ
  pub issue_uncategorized : Bool
  pub is_boot : Bool

RollupKey-discrete : Discrete RollupKey
unfolding string_eq
RollupKey-discrete = hlevel (string_eq.dec, ℤ-discrete)

instance unfoldable pub rollup_key_eq : Eq RollupKey
unfolding RollupKey-discrete
rollup_key_eq = record { dec = RollupKey-discrete }

pub record RollupCounts : Type 0 where
  pub pass_tests : ℤ
  pub fail_tests : ℤ
  pub skip_tests : ℤ
  pub error_tests : ℤ
  pub miss_tests : ℤ
  pub done_tests : ℤ
  pub null_tests : ℤ
  pub total_tests : ℤ

abbrev pub zero_rollup : RollupCounts
zero_rollup = record {
  pass_tests = pos 0;
  fail_tests = pos 0;
  skip_tests = pos 0;
  error_tests = pos 0;
  miss_tests = pos 0;
  done_tests = pos 0;
  null_tests = pos 0;
  total_tests = pos 0;
}

-- `record[ROLLUP_STATUS_FIELDS.get(status, "null_tests")] += 1`
unfoldable pub increment : Option StatusChoices → RollupCounts → RollupCounts
increment (some pass) r = record r { pass_tests = r.pass_tests +ℤ pos 1 }
increment (some fail) r = record r { fail_tests = r.fail_tests +ℤ pos 1 }
increment (some skip) r = record r { skip_tests = r.skip_tests +ℤ pos 1 }
increment (some error) r = record r { error_tests = r.error_tests +ℤ pos 1 }
increment (some miss) r = record r { miss_tests = r.miss_tests +ℤ pos 1 }
increment (some done) r = record r { done_tests = r.done_tests +ℤ pos 1 }
increment none r = record r { null_tests = r.null_tests +ℤ pos 1 }

-- the two branches on `is_correction`
unfoldable pub count_status : Bool → Option StatusChoices → RollupCounts → RollupCounts
unfolding increment
count_status true status r = increment status (record r { null_tests = r.null_tests -ℤ pos 1 })
count_status false status r =
    let r' = increment status r in record r' { total_tests = r'.total_tests +ℤ pos 1 }

abbrev pub RollupData : Type 0
RollupData = Dict RollupKey RollupCounts

unfoldable pub accumulate_rollup_entry :
    RollupData → RollupKey → Option StatusChoices → Bool → RollupData
unfolding lookup insert count_status
accumulate_rollup_entry d key status is_correction =
    insert key (count_status is_correction status (get_or (lookup key d) zero_rollup)) d

-- the issue of a test: its id and its version
abbrev pub IssuesMap : Type 0
IssuesMap = Dict String (Option String × Option ℤ)

-- `test.compatible[0]`, `test.platform` or the constant
unfoldable pub hardware_key_of : PendingTest → String
hardware_key_of t = elim t.compatible [
  | some (c ∷ cs) ↦ c
  | _ ↦ or_default t.platform unknown_string
]

abbrev is_fail : Option StatusChoices → Bool
is_fail (some fail) = true
is_fail _ = false

abbrev issue_of : IssuesMap → String → Option String × Option ℤ
issue_of issues test_id = get_or (lookup test_id issues) (none, none)

unfoldable pub rollup_key_of : PendingTest → Build → IssuesMap → RollupKey
unfolding extract_path_group hardware_key_of lookup
rollup_key_of t b issues =
    let (issue_id, issue_version) = issue_of issues t.test_id in
    record {
      origin = b.checkout.origin;
      tree_name = b.checkout.tree_name;
      git_repository_branch = b.checkout.git_repository_branch;
      git_repository_url = b.checkout.git_repository_url;
      git_commit_hash = b.checkout.git_commit_hash;
      path_group = extract_path_group (get_or t.path "");
      config = or_default b.config_name unknown_string;
      arch = or_default b.architecture unknown_string;
      compiler = or_default b.compiler unknown_string;
      hardware_key = hardware_key_of t;
      platform = t.platform;
      lab = t.lab;
      test_origin = t.origin;
      issue_id = issue_id;
      issue_version = issue_version;
      issue_uncategorized = is_none issue_id && is_fail t.full_status;
      is_boot = t.is_boot;
    }

-- the loop over the tests: a test whose build is not known is skipped
unfoldable pub aggregate_tests_rollup :
    List PendingTest → Dict String Build → IssuesMap → List String → RollupData → RollupData
unfolding lookup rollup_key_of accumulate_rollup_entry
aggregate_tests_rollup [] builds issues reprocess d = d
aggregate_tests_rollup (t ∷ ts) builds issues reprocess d =
    aggregate_tests_rollup ts builds issues reprocess (elim (lookup t.build_id builds) [
      | none ↦ d
      | some b ↦
          accumulate_rollup_entry d (rollup_key_of t b issues) t.full_status
            (contains reprocess t.test_id)
    ])

pub record Incident : Type 0 where
  pub test_id : String
  pub issue_id : Option String
  pub issue_version : Option ℤ

-- `setdefault` over the incidents of the tests, which come in the order of the query
unfoldable pub fetch_test_issues : List Incident → List String → IssuesMap → IssuesMap
unfolding lookup insert
fetch_test_issues [] test_ids m = m
fetch_test_issues (i ∷ is) test_ids m = fetch_test_issues is test_ids (
    if contains test_ids i.test_id
    then elim (lookup i.test_id m) [
      | none ↦ insert i.test_id (i.issue_id, i.issue_version) m
      | some old ↦ m
    ]
    else m)
