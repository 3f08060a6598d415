-- ===== src/Details/Summary.antt =====
-- The summaries of tests and boots: process_test_summary, process_boots_summary and
-- increment_test_origin_summary of backend/kernelCI_app/helpers/treeDetails.py.
use kernelci_dashboard.Base.{
  String, not, Option, ◌==◌, add, string_eq, option_eq, if◌then◌else◌, get_or,
}
use kernelci_dashboard.Base.Dict.{Dict, lookup, insert}
use kernelci_dashboard.Base.Int.{ℤ, pos, ◌+ℤ◌}
use kernelci_dashboard.Filters.Issues.{unknown_string, is_status_failure, failure_status_list}
use kernelci_dashboard.Details.Tally.{
  Status, status_eq, status_text, StatusCount, count_tally, dict_tally, add_count, bump_at,
}
use kernelci_dashboard.Details.Row.{RowData}
use kernelci_dashboard.Details.Instance.{ArchKey, arch_key_eq, Summary, Instance}

-- the hardware that a count goes to: a compatible, or else a platform
pub data Environment : Type 0 where
  compatible : String → Environment
  misc : Option String → Environment

-- where in each breakdown a count goes
pub record Place : Type 0 where
  pub arch : ArchKey
  pub config : String
  pub environment : Environment
  pub origin : Option String
  pub lab : Option String

-- the counters are made where they are missing
unfoldable pub increment_test_origin_summary :
    Option String → Status → ℤ → Dict (Option String) StatusCount → Dict (Option String) StatusCount
unfolding bump_at
increment_test_origin_summary test_origin test_status n origin_summary =
    bump_at test_origin test_status n origin_summary

unfoldable pub count_environment : Environment → Status → ℤ → Summary → Summary
unfolding bump_at
count_environment (compatible c) status n s = record s {
  environment_compatible = bump_at c status n s.environment_compatible;
}
count_environment (misc p) status n s = record s {
  environment_misc = bump_at p status n s.environment_misc;
}

-- `n` more of a status, in every breakdown
unfoldable pub count_everywhere : Place → Status → ℤ → Summary → Summary
unfolding count_environment bump_at add_count increment_test_origin_summary
count_everywhere place status n s =
    let counted = count_environment place.environment status n s in
    record counted {
      status_summary = add_count status n s.status_summary;
      arch_summary = bump_at place.arch status n s.arch_summary;
      configs = bump_at place.config status n s.configs;
      origins = increment_test_origin_summary place.origin status n s.origins;
      labs = bump_at place.lab status n s.labs;
    }

unfoldable pub place_of : RowData → Place
place_of row_data = record {
  arch = (row_data.build_architecture, row_data.build_compiler);
  config = row_data.build_config_name;
  environment =
      if not (row_data.test_environment_compatible == unknown_string)
      then compatible row_data.test_environment_compatible
      else misc row_data.test_platform;
  origin = row_data.test_origin;
  lab = row_data.lab;
}

unfoldable pub process_failure : RowData → Summary → Summary
unfolding is_status_failure add lookup insert
process_failure row_data s =
    if is_status_failure (status_text row_data.test_status) failure_status_list
    then record s {
      platforms_failing = add s.platforms_failing row_data.test_platform;
      fail_reasons =
          insert row_data.test_error
            (get_or (lookup row_data.test_error s.fail_reasons) (pos 0) +ℤ pos 1) s.fail_reasons;
    }
    else s

unfoldable pub process_summary : RowData → Summary → Summary
unfolding count_everywhere place_of process_failure
process_summary row_data s =
    process_failure row_data (count_everywhere (place_of row_data) row_data.test_status (pos 1) s)

unfoldable pub process_test_summary : RowData → Instance → Instance
unfolding process_summary
process_test_summary row_data i = record i { tests = process_summary row_data i.tests }

unfoldable pub process_boots_summary : RowData → Instance → Instance
unfolding process_summary
process_boots_summary row_data i = record i { boots = process_summary row_data i.boots }
