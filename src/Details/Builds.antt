-- ===== src/Details/Builds.antt =====
-- The builds of a tree: normalize_build_dict and process_build_filters of
-- backend/kernelCI_app/helpers/treeDetailsRollup.py and _sanitize_builds_rows of
-- views/treeDetailsSummaryView.py.
use kernelci_dashboard.Base.{
  String, Bool, false, Option, none, some, List, [], ◌∷◌, if◌then◌else◌, get_or, nonempty,
}
use kernelci_dashboard.Base.Duration.{Duration}
use kernelci_dashboard.Base.Int.{ℤ}
use kernelci_dashboard.Status.{StatusChoices}
use kernelci_dashboard.Filters.Issues.{unknown_string, is_status_failure, build_fail_status_list}
use kernelci_dashboard.Filters.Rows.{is_record_filtered_out}
use kernelci_dashboard.Details.Tally.{status_text}
use kernelci_dashboard.Details.Misc.{Misc, MiscColumn, handle_misc}
use kernelci_dashboard.Details.Row.{RowData, categorize}
use kernelci_dashboard.Details.Instance.{Instance}
use kernelci_dashboard.Details.Issues.{add_build_filters}
use kernelci_dashboard.Details.Rows.{process_tree_url, process_builds, is_real_build}

-- a row of get_tree_details_builds
pub record BuildDict : Type 0 where
  pub build_id : Option String
  pub build_origin : Option String
  pub build_duration : Option Duration
  pub build_architecture : Option String
  pub build_compiler : Option String
  pub build_config_name : Option String
  pub build_status : Option StatusChoices
  pub build_misc : Option MiscColumn
  pub checkout_git_repository_url : Option String
  pub checkout_git_commit_tags : Option (List String)
  pub incident_test_id : Option String
  pub issue_id : Option String
  pub issue_version : Option ℤ
  pub issue_comment : Option String
  pub issue_report_url : Option String

-- `bool(self.git_commit_tags)`: None and no tags are both false
abbrev pub has_tags : Option (List String) → Bool
has_tags none = false
has_tags (some tags) = nonempty tags

unfoldable pub take_tags : RowData → Instance → Instance
take_tags row_data i =
    if has_tags i.git_commit_tags
    then i
    else record i { git_commit_tags = row_data.checkout_git_commit_tags }

-- Neither a hardware nor a lab is passed, and the lab's default is the constant.
unfoldable pub is_build_record_filtered_out : Instance → RowData → Bool
unfolding is_record_filtered_out
is_build_record_filtered_out i row_data = is_record_filtered_out i.filters record {
  hardwares = none;
  architecture = some row_data.build_architecture;
  compiler = some row_data.build_compiler;
  config_name = some row_data.build_config_name;
  lab = some unknown_string;
}

-- the body of the loop, on a row that is normalised
unfoldable pub sanitize_builds_row : RowData → Instance → Instance
unfolding take_tags process_tree_url add_build_filters is_build_record_filtered_out is_real_build
    process_builds
sanitize_builds_row row_data i =
    let filtered = add_build_filters row_data (process_tree_url row_data (take_tags row_data i)) in
    if is_build_record_filtered_out filtered row_data
    then filtered
    else if is_real_build row_data.build_id
    then process_builds row_data filtered
    else filtered

module _ (loads : String → Option Misc) where
  -- The dict has no fields of a test, and nothing below reads them.
  unfoldable pub normalize_build_dict : BuildDict → RowData
  unfolding handle_misc categorize is_status_failure
  normalize_build_dict row_dict = record {
    test_id = none;
    test_origin = none;
    test_path = "";
    test_status = none;
    test_duration = none;
    test_platform = none;
    test_error = "";
    test_environment_compatible = "";
    build_id = row_dict.build_id;
    build_origin = row_dict.build_origin;
    build_duration = row_dict.build_duration;
    build_architecture = get_or row_dict.build_architecture unknown_string;
    build_compiler = get_or row_dict.build_compiler unknown_string;
    build_config_name = get_or row_dict.build_config_name unknown_string;
    build_status = row_dict.build_status;
    build_misc = handle_misc loads row_dict.build_misc;
    checkout_git_repository_url = row_dict.checkout_git_repository_url;
    checkout_git_commit_tags = row_dict.checkout_git_commit_tags;
    incident_test_id = row_dict.incident_test_id;
    issue_id =
        categorize row_dict.issue_id
          (is_status_failure (status_text row_dict.build_status) build_fail_status_list);
    issue_version = row_dict.issue_version;
    issue_comment = row_dict.issue_comment;
    issue_report_url = row_dict.issue_report_url;
    lab = none;
  }

  unfoldable pub sanitize_builds_rows : List BuildDict → Instance → Instance
  unfolding normalize_build_dict sanitize_builds_row
  sanitize_builds_rows [] i = i
  sanitize_builds_rows (row_dict ∷ rows) i =
      sanitize_builds_rows rows (sanitize_builds_row (normalize_build_dict row_dict) i)
