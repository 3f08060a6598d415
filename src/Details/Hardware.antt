-- ===== src/Details/Hardware.antt =====
-- The tests of a hardware: handle_test_summary, update_issues and decide_if_is_test_in_filter of
-- backend/kernelCI_app/helpers/hardwareDetails.py.
use kernelci_dashboard.Base.{
  String, Bool, not, Option, none, some, List, add, string_eq, option_eq, if◌then◌else◌, get_or,
}
use kernelci_dashboard.Base.Dict.{Dict, lookup, insert}
use kernelci_dashboard.Base.Duration.{Duration}
use kernelci_dashboard.Base.Int.{ℤ, pos, ◌+ℤ◌}
use kernelci_dashboard.Base.Text.{append, is_full}
use kernelci_dashboard.Status.{StatusChoices}
use kernelci_dashboard.Filters.Issues.{
  unknown_string, is_status_failure, failure_status_list, build_fail_status_list,
  should_increment_build_issue, should_increment_test_issue,
}
use kernelci_dashboard.Filters.Params.{FilterParams}
use kernelci_dashboard.Filters.Request.{Result, ok, err, ◌>>=◌, attribute_error}
use kernelci_dashboard.Filters.Rows.{TestRow, is_boot_filtered_out, is_test_filtered_out}
use kernelci_dashboard.Details.Tally.{
  Status, status_eq, status_text, StatusCount, no_counts, increment, count_tally, bump_at,
}
use kernelci_dashboard.Details.Misc.{
  Misc, MiscColumn, get, sanitize_dict, handle_misc, misc_value_or_default, extract_error_message,
}
use kernelci_dashboard.Details.Row.{runtime_lab, is_fail}
use kernelci_dashboard.Details.Instance.{IssueDict}
use kernelci_dashboard.Details.Issues.{insertable_key, count_incident}

-- a record of the query, with what is read of it here
pub record HardwareRecord : Type 0 where
  pub status : Status
  pub duration : Option Duration
  pub path : Option String
  pub misc : Option MiscColumn
  pub environment_misc : Option MiscColumn
  pub test_origin : Option String
  pub build_architecture : Option String
  pub build_compiler : Option String
  pub build_config_name : Option String
  pub build_status : Option StatusChoices
  pub issue_id : Option String
  pub issue_version : Option ℤ
  pub incident_test_id : Option String
  pub issue_comment : Option String
  pub issue_report_url : Option String

-- the dict of issues of a task, with its count of the failures without one
pub record TaskIssues : Type 0 where
  pub issues : IssueDict
  pub failed_with_unknown_issues : ℤ

pub record TestArchSummaryItem : Type 0 where
  pub arch : Option String
  pub compiler : Option String
  pub status : StatusCount

-- `TestSummary`, the typed one, with the architectures that are kept beside it
pub record TestSummary : Type 0 where
  pub status : StatusCount
  pub configs : Dict (Option String) StatusCount
  pub platforms : Dict (Option String) StatusCount
  pub failed_platforms : List (Option String)
  pub fail_reasons : Dict String ℤ
  pub processed_archs : Dict String TestArchSummaryItem
  pub origins : Dict (Option String) StatusCount
  pub labs : Dict String StatusCount
  pub task_issues : TaskIssues

-- A build's status as it is stored: None is in no list of statuses, as the empty text.
abbrev pub stored_text : Option StatusChoices → String
stored_text none = ""
stored_text (some s) = status_text (some s)

-- `issue_from`
pub data IssueFrom : Type 0 where
  from_build from_test : IssueFrom

unfoldable pub update_issues : IssueFrom → HardwareRecord → Bool → TaskIssues → TaskIssues
unfolding should_increment_build_issue should_increment_test_issue insertable_key count_incident
update_issues issue_from r is_failed_task task =
    let record_status : Status = elim issue_from [
      | from_build ↦ r.build_status
      | from_test ↦ r.status
    ] in
    let issue : Option String × Option ℤ × Bool = elim issue_from [
      | from_build ↦
          should_increment_build_issue r.issue_id r.issue_version r.incident_test_id
            (stored_text r.build_status)
      | from_test ↦ should_increment_test_issue r.issue_id r.issue_version r.incident_test_id
    ] in
    elim (insertable_key issue) [
      | some key ↦ record task {
        issues = count_incident key r.issue_comment r.issue_report_url record_status task.issues;
      }
      | none ↦
          if is_failed_task
          then record task { failed_with_unknown_issues = task.failed_with_unknown_issues +ℤ pos 1 }
          else task
    ]

unfoldable pub process_issue : IssueFrom → HardwareRecord → TaskIssues → TaskIssues
unfolding is_status_failure update_issues
process_issue from_build r task =
    update_issues from_build r
      (is_status_failure (stored_text r.build_status) build_fail_status_list) task
process_issue from_test r task = update_issues from_test r (is_fail r.status) task

-- a text in an f-string
abbrev pub formatted : Option String → String
formatted none = "None"
formatted (some s) = s

-- `{build__architecture}{build__compiler}`, with nothing between the two
unfoldable pub arch_key : HardwareRecord → String
unfolding append
arch_key r = append (formatted r.build_architecture) (formatted r.build_compiler)

unfoldable pub count_arch :
    HardwareRecord → Dict String TestArchSummaryItem → Dict String TestArchSummaryItem
unfolding arch_key lookup insert increment
count_arch r processed_archs =
    let item : TestArchSummaryItem =
      get_or (lookup (arch_key r) processed_archs)
        (record { arch = r.build_architecture; compiler = r.build_compiler; status = no_counts }) in
    insert (arch_key r) (record item { status = increment r.status (pos 1) item.status })
      processed_archs

-- `if lab`: None and "" are both false
unfoldable pub count_test_lab :
    Option String → Status → Dict String StatusCount → Dict String StatusCount
unfolding is_full bump_at
count_test_lab none status labs = labs
count_test_lab (some lab) status labs =
    if is_full lab then bump_at lab status (pos 1) labs else labs

module _ (loads : String → Option Misc) where
  unfoldable pub record_platform : HardwareRecord → Option String
  unfolding misc_value_or_default handle_misc get
  record_platform r = get "platform" (misc_value_or_default (handle_misc loads r.environment_misc))

  -- The reason is read only for a failure, and may raise.
  unfoldable pub count_failure : HardwareRecord → TestSummary → Result TestSummary
  unfolding is_status_failure add lookup insert extract_error_message record_platform
  count_failure r task =
      if not (is_status_failure (status_text r.status) failure_status_list) then ok task else do
        reason ← extract_error_message loads r.misc
        ok (record task {
          failed_platforms = add task.failed_platforms (record_platform r);
          fail_reasons =
              insert reason (get_or (lookup reason task.fail_reasons) (pos 0) +ℤ pos 1)
                task.fail_reasons;
        })

  unfoldable pub handle_test_summary : HardwareRecord → TestSummary → Result TestSummary
  unfolding increment bump_at record_platform count_failure count_arch process_issue sanitize_dict
      runtime_lab count_test_lab
  handle_test_summary r task = do
    failed ← count_failure r task
    ok (record failed {
      status = increment r.status (pos 1) failed.status;
      configs = bump_at r.build_config_name r.status (pos 1) failed.configs;
      platforms = bump_at (record_platform r) r.status (pos 1) failed.platforms;
      processed_archs = count_arch r failed.processed_archs;
      task_issues = process_issue from_test r failed.task_issues;
      origins = bump_at r.test_origin r.status (pos 1) failed.origins;
      labs = count_test_lab (runtime_lab (sanitize_dict loads r.misc)) r.status failed.labs;
    })

  -- `sanitize_dict(…).get("platform", UNKNOWN_STRING)`, where None has no attribute `get`
  unfoldable pub filter_platform : HardwareRecord → Result (Option String)
  unfolding sanitize_dict lookup
  filter_platform r = elim (sanitize_dict loads r.environment_misc) [
    | none ↦ err attribute_error
    | some misc ↦ ok (get_or (lookup "platform" misc) (some unknown_string))
  ]

  -- The status is passed as it is stored, a null one as None. The first argument is whether
  -- `test_type` is "boot".
  unfoldable pub decide_if_is_test_in_filter : Bool → FilterParams → HardwareRecord → Result Bool
  unfolding filter_platform is_boot_filtered_out is_test_filtered_out
  decide_if_is_test_in_filter boot filters r = do
    platform ← filter_platform r
    let row : TestRow = record {
      path = r.path;
      status = elim r.status [ none ↦ none | some s ↦ some (status_text (some s)) ];
      duration = r.duration;
      issue_id = r.issue_id;
      issue_version = r.issue_version;
      incident_test_id = r.incident_test_id;
      platform = platform;
      origin = r.test_origin;
    }
    filtered_out ←
        if boot then is_boot_filtered_out filters row else is_test_filtered_out filters row
    ok (not filtered_out)
