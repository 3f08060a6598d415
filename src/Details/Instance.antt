-- ===== src/Details/Instance.antt =====
-- What a view accumulates: the fields of BaseTreeDetailsSummary and BaseTreeDetails of
-- backend/kernelCI_app/views/treeDetailsSummaryView.py and treeDetailsView.py, with the issues of
-- typeModels/issues.py, create_issue_typed of utils.py and add_unfiltered_issue of
-- helpers/commonDetails.py.
use kernelci_dashboard.Base.{
  String, Bool, true, false, Option, none, some, List, [], add, Eq, option_eq, string_eq,
  if◌then◌else◌,
}
use kernelci_dashboard.Base.Dict.{Dict}
use kernelci_dashboard.Base.Duration.{Duration}
use kernelci_dashboard.Base.Int.{ℤ, ℤ-discrete, pos}
use kernelci_dashboard.Details.Tally.{
  Status, StatusCount, no_counts, increment, StatusDict, count_tally,
}
use kernelci_dashboard.Details.Misc.{Misc}
use kernelci_dashboard.Filters.Params.{FilterParams, Tab, Tabs, at, put_at}

-- the key of an issue: its id and version
abbrev pub IssueKey : Type 0
IssueKey = String × ℤ

IssueKey-discrete : Discrete IssueKey
unfolding string_eq
IssueKey-discrete = hlevel (string_eq.dec, ℤ-discrete)

instance unfoldable pub issue_key_eq : Eq IssueKey
unfolding IssueKey-discrete
issue_key_eq = record { dec = IssueKey-discrete }

pub record Issue : Type 0 where
  pub id : String
  pub version : ℤ
  pub comment : Option String
  pub report_url : Option String
  pub incidents_info : StatusCount

abbrev pub IssueDict : Type 0
IssueDict = Dict IssueKey Issue

-- `none` for a count that does not start at a status, with `autoincrement=False`
unfoldable pub create_issue_typed :
    String → ℤ → Option String → Option String → Option Status → Issue
unfolding increment
create_issue_typed issue_id issue_version issue_comment issue_report_url starting_count_status =
    record {
      id = issue_id;
      version = issue_version;
      comment = issue_comment;
      report_url = issue_report_url;
      incidents_info = elim starting_count_status [
        | none ↦ no_counts
        | some status ↦ increment status (pos 1) no_counts
      ];
    }

-- The arch and compiler of an architecture's entry are its key.
abbrev pub ArchKey : Type 0
ArchKey = String × String

ArchKey-discrete : Discrete ArchKey
unfolding string_eq
ArchKey-discrete = hlevel string_eq.dec

instance unfoldable pub arch_key_eq : Eq ArchKey
unfolding ArchKey-discrete
arch_key_eq = record { dec = ArchKey-discrete }

-- The accumulators of the tests, and those of the boots.
pub record Summary : Type 0 where
  pub status_summary : StatusDict
  pub arch_summary : Dict ArchKey StatusDict
  pub configs : Dict String StatusDict
  pub platforms_failing : List (Option String)
  pub fail_reasons : Dict String ℤ
  pub environment_compatible : Dict String StatusDict
  pub environment_misc : Dict (Option String) StatusDict
  pub origins : Dict (Option String) StatusCount
  pub labs : Dict (Option String) StatusCount

abbrev pub empty_summary : Summary
empty_summary = record {
  status_summary = [];
  arch_summary = [];
  configs = [];
  platforms_failing = [];
  fail_reasons = [];
  environment_compatible = [];
  environment_misc = [];
  origins = [];
  labs = [];
}

-- `BuildHistoryItem`: what the summaries and the filters read of it
pub record BuildHistoryItem : Type 0 where
  pub id : Option String
  pub origin : Option String
  pub architecture : String
  pub compiler : String
  pub config_name : String
  pub misc : Option Misc
  pub status : Status
  pub duration : Option Duration

-- What the two views share, the filters first, which no row changes. A set is a list without
-- repetitions, whose order is never read.
pub record Instance : Type 0 where
  pub filters : FilterParams
  pub tests : Summary
  pub boots : Summary
  pub processed_tests : List (Option String)
  pub hardware_used : List (Option String)
  pub failed_tests_with_unknown_issues : ℤ
  pub failed_boots_with_unknown_issues : ℤ
  pub builds : List BuildHistoryItem
  pub processed_builds : List (Option String)
  pub failed_builds_with_unknown_issues : ℤ
  pub tree_url : String
  pub git_commit_tags : Option (List String)
  pub build_issues_dict : IssueDict
  pub boot_issues_dict : IssueDict
  pub test_issues_dict : IssueDict
  pub global_configs : List String
  pub global_architectures : List String
  pub global_compilers : List String
  pub unfiltered_issues : Tabs (List IssueKey)
  pub unfiltered_uncategorized_issue_flags : Tabs Bool
  pub unfiltered_origins : Tabs (List (Option String))
  pub unfiltered_labs : Tabs (List (Option String))

unfoldable pub new_instance : FilterParams → Instance
new_instance filters = record {
  filters = filters;
  tests = empty_summary;
  boots = empty_summary;
  processed_tests = [];
  hardware_used = [];
  failed_tests_with_unknown_issues = pos 0;
  failed_boots_with_unknown_issues = pos 0;
  builds = [];
  processed_builds = [];
  failed_builds_with_unknown_issues = pos 0;
  tree_url = "";
  git_commit_tags = some [];
  build_issues_dict = [];
  boot_issues_dict = [];
  test_issues_dict = [];
  global_configs = [];
  global_architectures = [];
  global_compilers = [];
  unfiltered_issues = record { on_build = []; on_boot = []; on_test = [] };
  unfiltered_uncategorized_issue_flags = record {
    on_build = false;
    on_boot = false;
    on_test = false;
  };
  unfiltered_origins = record { on_build = []; on_boot = []; on_test = [] };
  unfiltered_labs = record { on_build = []; on_boot = []; on_test = [] };
}

-- `xs[tab].add(x)`
module _ {A : Type 0} ⦃e : Eq A⦄ where
  abbrev pub add_at : Tab → A → Tabs (List A) → Tabs (List A)
  add_at tab x t = put_at t tab (add (at t tab) x)

-- the pair to add, if there is one
unfoldable pub known_key : Option String × Option ℤ × Bool → Option IssueKey
known_key (some issue_id, some issue_version, true) = some (issue_id, issue_version)
known_key _ = none

unfoldable pub add_unfiltered_issue :
    Tab → Option String × Option ℤ × Bool → Bool → Instance → Instance
unfolding add known_key
add_unfiltered_issue tab issue is_failed_task i = elim (known_key issue) [
  | some key ↦ record i { unfiltered_issues = add_at tab key i.unfiltered_issues }
  | none ↦
      if is_failed_task
      then record i {
        unfiltered_uncategorized_issue_flags =
            put_at i.unfiltered_uncategorized_issue_flags tab true;
      }
      else i
]
