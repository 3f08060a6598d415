-- ===== src/Details/Row.antt =====
-- The rows of the query and get_current_row_data of backend/kernelCI_app/helpers/treeDetails.py.
use kernelci_dashboard.Base.{
  String, Bool, true, false, not, ◌&&◌, ◌||◌, Option, none, some, List, [], ◌∷◌, ◌==◌, string_eq,
  option_eq, if◌then◌else◌, is_none, get_or,
}
use kernelci_dashboard.Base.Duration.{Duration}
use kernelci_dashboard.Base.Int.{ℤ}
use kernelci_dashboard.Status.{StatusChoices}
use kernelci_dashboard.Filters.Issues.{
  unknown_string, uncategorized_string, is_status_failure, build_fail_status_list,
}
use kernelci_dashboard.Filters.Request.{Result, ok, err, ◌>>=◌, index_error}
use kernelci_dashboard.Details.Tally.{Status, status_text}
use kernelci_dashboard.Details.Misc.{
  Misc, MiscColumn, get, misc_value_or_default, column_or_default, platform_of, sanitize_dict,
  handle_misc, extract_error_message,
}
use kernelci_dashboard.Base.Dict

-- The columns of a build in a row of the query, and those of its checkout and of an incident. Those
-- that are only passed on are left out: comments of tests, commands, links, start times.
pub record CurrentRow : Type 0 where
  pub test_id : Option String
  pub test_origin : Option String
  pub test_environment_misc : Option MiscColumn
  pub test_path : Option String
  pub test_status : Option StatusChoices
  pub test_duration : Option Duration
  pub test_misc : Option MiscColumn
  pub test_environment_compatible : Option (List String)
  pub build_id : Option String
  pub build_origin : Option String
  pub build_duration : Option Duration
  pub build_architecture : Option String
  pub build_compiler : Option String
  pub build_config_name : Option String
  pub build_status : Option StatusChoices
  pub build_misc : Option MiscColumn
  pub checkout_git_repository_url : Option String
  pub checkout_git_commit_tags : Option (List String)
  pub incident_test_id : Option String
  pub issue_id : Option String
  pub issue_version : Option ℤ
  pub issue_comment : Option String
  pub issue_report_url : Option String

-- `row_data`, and of its `history_item` the lab and the platform of `environment_misc`
pub record RowData : Type 0 where
  pub test_id : Option String
  pub test_origin : Option String
  pub test_path : String
  pub test_status : Status
  pub test_duration : Option Duration
  pub test_platform : Option String
  pub test_error : String
  pub test_environment_compatible : String
  pub build_id : Option String
  pub build_origin : Option String
  pub build_duration : Option Duration
  pub build_architecture : String
  pub build_compiler : String
  pub build_config_name : String
  pub build_status : Status
  pub build_misc : Option Misc
  pub checkout_git_repository_url : Option String
  pub checkout_git_commit_tags : Option (List String)
  pub incident_test_id : Option String
  pub issue_id : Option String
  pub issue_version : Option ℤ
  pub issue_comment : Option String
  pub issue_report_url : Option String
  pub lab : Option String

-- `xs[0]`, or the text for a null
unfoldable pub first_compatible : Option (List String) → Result String
first_compatible none = ok unknown_string
first_compatible (some []) = err index_error
first_compatible (some (x ∷ xs)) = ok x

-- `test_misc.get("runtime", UNKNOWN_STRING)`: a null that is there stays null
unfoldable pub runtime_lab : Option Misc → Option String
unfolding Dict.lookup
runtime_lab none = some unknown_string
runtime_lab (some misc) = get_or (Dict.lookup "runtime" misc) (some unknown_string)

-- A row without an issue whose build or test failed is uncategorized.
unfoldable pub categorize : Option String → Bool → Option String
categorize issue_id failed =
    if is_none issue_id && failed then some uncategorized_string else issue_id

abbrev pub is_fail : Status → Bool
is_fail (some StatusChoices.fail) = true
is_fail _ = false

-- `json.loads`, as for the miscellaneous data
module _ (loads : String → Option Misc) where
  -- The environment's value is kept by its platform, as `full_environment_misc` is False.
  unfoldable pub get_current_row_data : CurrentRow → Result RowData
  unfolding column_or_default handle_misc platform_of sanitize_dict extract_error_message
      runtime_lab first_compatible categorize is_status_failure
  get_current_row_data row = do
    let parsed_environment_misc =
        handle_misc loads (some (column_or_default row.test_environment_misc))
    test_platform ← platform_of parsed_environment_misc
    test_error ← extract_error_message loads row.test_misc
    compatible ← first_compatible row.test_environment_compatible
    ok record {
      test_id = row.test_id;
      test_origin = row.test_origin;
      test_path = get_or row.test_path unknown_string;
      test_status = row.test_status;
      test_duration = row.test_duration;
      test_platform = test_platform;
      test_error = test_error;
      test_environment_compatible = compatible;
      build_id = row.build_id;
      build_origin = row.build_origin;
      build_duration = row.build_duration;
      build_architecture = get_or row.build_architecture unknown_string;
      build_compiler = get_or row.build_compiler unknown_string;
      build_config_name = get_or row.build_config_name unknown_string;
      build_status = row.build_status;
      build_misc = handle_misc loads row.build_misc;
      checkout_git_repository_url = row.checkout_git_repository_url;
      checkout_git_commit_tags = row.checkout_git_commit_tags;
      incident_test_id = row.incident_test_id;
      issue_id = categorize row.issue_id (
          is_status_failure (status_text row.build_status) build_fail_status_list
          || is_fail row.test_status);
      issue_version = row.issue_version;
      issue_comment = row.issue_comment;
      issue_report_url = row.issue_report_url;
      lab = runtime_lab (sanitize_dict loads row.test_misc);
    }

-- The hardware that a row counts for: the first compatible, or a platform that is known.
unfoldable pub call_based_on_compatible_and_misc_platform {ℓ} :
    {A : Type ℓ} → RowData → (Option String → A) → A
unfolding misc_value_or_default get
call_based_on_compatible_and_misc_platform row_data callback =
    if not (row_data.test_environment_compatible == unknown_string)
    then callback (some row_data.test_environment_compatible)
    else if not (row_data.test_platform == some unknown_string)
    then callback row_data.test_platform
    else callback (get "platform" (misc_value_or_default row_data.build_misc))

unfoldable pub get_hardware_filter : RowData → Option String
unfolding call_based_on_compatible_and_misc_platform
get_hardware_filter row_data = call_based_on_compatible_and_misc_platform row_data (λ x. x)
