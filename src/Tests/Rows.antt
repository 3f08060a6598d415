-- ===== src/Tests/Rows.antt =====
-- Rows of a tree's tests, builds and rollup.
use kernelci_dashboard.Base.{
  String, Option, none, some, List, [], ◌∷◌, string_eq, option_eq, nat_eq,
}
use kernelci_dashboard.Base.Int.{pos}
use kernelci_dashboard.Status.{pass, fail}
use kernelci_dashboard.Filters.Params.{FilterParams, no_filters}
use kernelci_dashboard.Rollup.Entries.{RollupKey}
use kernelci_dashboard.Details.Tally.{status_eq}
use kernelci_dashboard.Details.Misc.{Misc, MiscColumn, text, dict}
use kernelci_dashboard.Details.Row.{CurrentRow, RowData}
use kernelci_dashboard.Details.RollupRow.{RollupRow}
use kernelci_dashboard.Rollup.Entries.{rollup_key_of, zero_rollup}
use kernelci_dashboard.Details.Tally.{count_tally}
use kernelci_dashboard.Details.Instance.{BuildHistoryItem}
use kernelci_dashboard.Details.RollupRow.{RollupRow}
use kernelci_dashboard.Details.Builds.{BuildDict}
use kernelci_dashboard.Details.BuildSummary.{arch_tally}
use kernelci_dashboard.Tests.Data.{defconfig, failed_test}

-- no text is an object of JSON
abbrev pub no_json : String → Option Misc
no_json s = none

abbrev pub board : MiscColumn
board = dict (("platform", some "board") ∷ [])

abbrev pub boot_row : CurrentRow
boot_row = record {
  test_id = some "t1";
  test_origin = some "maestro";
  test_environment_misc = some board;
  test_path = some "boot";
  test_status = some pass;
  test_duration = some (record { numerator = pos 3; exponent = 0 });
  test_misc = some (dict (("runtime", some "lab-a") ∷ []));
  test_environment_compatible = some ("soc" ∷ []);
  build_id = some "b1";
  build_origin = some "maestro";
  build_duration = none;
  build_architecture = some "arm64";
  build_compiler = none;
  build_config_name = some "defconfig";
  build_status = some pass;
  build_misc = none;
  checkout_git_repository_url = some "u";
  checkout_git_commit_tags = none;
  incident_test_id = none;
  issue_id = none;
  issue_version = none;
  issue_comment = none;
  issue_report_url = none;
}

abbrev pub failed_row : CurrentRow
failed_row = record boot_row {
  test_id = some "t2";
  test_path = some "kunit.time";
  test_status = some fail;
  test_environment_compatible = none;
}

-- a row of the same test for an issue
abbrev pub issue_row : CurrentRow
issue_row = record failed_row {
  incident_test_id = some "t2";
  issue_id = some "i1";
  issue_version = some (pos 1);
}

abbrev pub rows : List CurrentRow
rows = boot_row ∷ failed_row ∷ issue_row ∷ []

-- a row whose text is not JSON
abbrev pub broken_row : CurrentRow
broken_row = record failed_row { test_misc = some (text "{") }

-- the rows as they are read
abbrev pub boot_data : RowData
boot_data = record {
  test_id = some "t1";
  test_origin = some "maestro";
  test_path = "boot";
  test_status = some pass;
  test_duration = some (record { numerator = pos 3; exponent = 0 });
  test_platform = some "board";
  test_error = "unknown error";
  test_environment_compatible = "soc";
  build_id = some "b1";
  build_origin = some "maestro";
  build_duration = none;
  build_architecture = "arm64";
  build_compiler = "Unknown";
  build_config_name = "defconfig";
  build_status = some pass;
  build_misc = none;
  checkout_git_repository_url = some "u";
  checkout_git_commit_tags = none;
  incident_test_id = none;
  issue_id = none;
  issue_version = none;
  issue_comment = none;
  issue_report_url = none;
  lab = some "lab-a";
}

abbrev pub test_data : RowData
test_data = record boot_data {
  test_id = some "t2";
  test_path = "kunit.time";
  test_status = some fail;
  test_environment_compatible = "Unknown";
  issue_id = some "Uncategorized";
}

abbrev pub issue_data : RowData
issue_data = record test_data {
  incident_test_id = some "t2";
  issue_id = some "i1";
  issue_version = some (pos 1);
}

abbrev pub rows_data : List RowData
rows_data = boot_data ∷ test_data ∷ issue_data ∷ []

abbrev pub no_text : RollupKey → Option String × Option String
no_text k = (none, none)

abbrev pub board_filter : FilterParams
board_filter = record no_filters {
  platforms = record { on_build = []; on_boot = []; on_test = "board" ∷ [] };
}

abbrev pub build_dict : BuildDict
build_dict = record {
  build_id = some "b1";
  build_origin = some "maestro";
  build_duration = none;
  build_architecture = some "arm64";
  build_compiler = none;
  build_config_name = some "defconfig";
  build_status = some fail;
  build_misc = none;
  checkout_git_repository_url = some "u";
  checkout_git_commit_tags = none;
  incident_test_id = none;
  issue_id = none;
  issue_version = none;
  issue_comment = none;
  issue_report_url = none;
}

-- one failure of a test
abbrev pub rollup_row : RollupRow
rollup_row = record {
  key = rollup_key_of failed_test defconfig [];
  counts = record zero_rollup { fail_tests = pos 1; total_tests = pos 1 };
  issue_comment = none;
  issue_report_url = none;
}

abbrev pub build_item : BuildHistoryItem
build_item = record {
  id = some "b1";
  origin = some "maestro";
  architecture = "arm64";
  compiler = "gcc-12";
  config_name = "";
  misc = none;
  status = some fail;
  duration = none;
}
