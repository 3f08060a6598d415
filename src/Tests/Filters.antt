-- ===== src/Tests/Filters.antt =====
-- Runs of the filters.
use Prim.Native.Char.{char}
use Prim.Native.String.{◌++◌ as ◌<>◌}
use kernelci_dashboard.Base.{
  ◌≡◌, ◌↔◌, ◌≢◌, refl, none, some, true, false, ◌&&◌, List, [], ◌∷◌, string_eq, nat_eq, option_eq,
  arith, if◌then◌else◌,
}
use kernelci_dashboard.Base.Int.{pos}
use kernelci_dashboard.Base.Text.{rsplit, int, is_infix, is_prefix, upper, is_one_line}
use kernelci_dashboard.Filters.Issues.{
  issue, issue_filter_eq, uncategorized_string, is_status_failure, build_fail_status_list,
  should_filter_test_issue, should_increment_test_issue, should_increment_build_issue,
}
use kernelci_dashboard.Filters.Request.{
  ok, QueryItem, split_operator, match_filter, create_filters_from_req,
}
use kernelci_dashboard.Filters.Params.{FilterParams, no_filters, init}
use kernelci_dashboard.Filters.Bounds.{AtMost, AtLeast}
use kernelci_dashboard.Filters.IssueChoice.{BuildIssueSelected}
use kernelci_dashboard.Base.Duration.{int_of}
use kernelci_dashboard.Filters.Records.{MeetsFilter, is_record_filtered_out_iff}
use kernelci_dashboard.Filters.Rows.{
  RecordRow, is_record_filtered_out, is_path_filtered_out, is_duration_filtered_out, int_or_zero,
  TestRow, BuildRow, is_test_filtered_out, is_build_filtered_out,
}
use kernelci_dashboard.Filters.Attribution.{increments_exclusive}
use kernelci_dashboard.Filters.Kept.{
  IsKept, test_filters, Selects, is_test_filtered_out_iff, is_build_filtered_out_iff,
}
use kernelci_dashboard.Filters.IssueListing.{
  IssueRecord, is_true, should_discard_issue_record, Admits, shares,
  should_discard_issue_record_iff,
}
use kernelci_dashboard.Base.{get_or, contains, ◌||◌}
use kernelci_dashboard.Filters.Params.{FilterParams, no_filters}
use kernelci_dashboard.Filters.Parsing.{IsValid, create_filters-IsValid, match_filter_roundtrip}
use kernelci_dashboard.Filters.Uncategorized.{
  build_issue_is_dropped, build_duration_first_character,
}

abbrev failed_row : TestRow
failed_row = record {
  path = some "kunit.time";
  status = some "FAIL";
  duration = some (record { numerator = pos 247; exponent = 3 });
  issue_id = none;
  issue_version = none;
  incident_test_id = none;
  platform = some "board";
  origin = some "maestro";
}

abbrev build_row : BuildRow
build_row = record {
  duration = none;
  build_status = "FAIL";
  issue_id = some "i";
  issue_version = some (pos 1);
  incident_test_id = none;
  build_origin = some "maestro";
}

abbrev failures : FilterParams
failures = record no_filters {
  test_path = "kunit";
  boot_path = "kunit";
  test_status = "FAIL" ∷ [];
  test_duration_max = some (pos 30);
  boot_status = "PASS" ∷ [];
  build_status = "FAIL" ∷ [];
}

is_test_filtered_out_iff_example :
    (is_test_filtered_out failures failed_row ≡ ok false)
    ↔ IsKept (test_filters failures) failed_row "kunit.time"
is_test_filtered_out_iff_example = is_test_filtered_out_iff failures failed_row "kunit.time" refl

is_build_filtered_out_iff_example : (is_build_filtered_out failures build_row ≡ false) ↔ (
    Selects failures.build_status (some (upper "FAIL"))
    × AtMost failures.build_duration_max none
    × AtLeast failures.build_duration_min none
    × Selects failures.build_origin (some "maestro")
    × BuildIssueSelected failures.issues.on_build (some "i") (some (pos 1)) none "FAIL")
is_build_filtered_out_iff_example = is_build_filtered_out_iff failures build_row

-- 30.875 seconds are at most 30 for the code.
truncated : is_test_filtered_out failures failed_row ≡ ok false
unfolding is_test_filtered_out is_path_filtered_out is_duration_filtered_out int_or_zero int_of
    is_infix is_prefix nat_eq string_eq should_filter_test_issue option_eq
truncated = refl

capitals : upper "pass_1" ≡ "PASS_1"
unfolding upper nat_eq
capitals = refl

i_known : "i" ≢ uncategorized_string
i_known = cc

increments_exclusive_example :
    (should_increment_test_issue (some "i") (some (pos 1)) (some "t")).2 ≡ true
    × ((should_increment_build_issue (some "i") (some (pos 1)) (some "t") "FAIL").2
        ≡ (false && is_status_failure "FAIL" build_fail_status_list))
    × (((should_increment_test_issue (some "i") (some (pos 1)) (some "t")).2
          && (should_increment_build_issue (some "i") (some (pos 1)) (some "t") "FAIL").2)
        ≡ false)
increments_exclusive_example = increments_exclusive "i" (pos 1) (some "t") "FAIL" i_known

abbrev request : List QueryItem
request =
    record { key = "filter_test.status"; first = "FAIL"; more = "MISS" ∷ [] }
    ∷ record { key = "filter_test.duration_[gte]"; first = "3"; more = [] }
    ∷ []

create_filters-IsValid_example : IsValid (
    record { field = "test.status"; value = "FAIL"; comparison_op = "in" }
    ∷ record { field = "test.status"; value = "MISS"; comparison_op = "in" }
    ∷ record { field = "test.duration"; value = "3"; comparison_op = "gte" }
    ∷ [])
unfolding string_eq nat_eq create_filters_from_req
create_filters-IsValid_example =
    create_filters-IsValid request []
      (record { field = "test.status"; value = "FAIL"; comparison_op = "in" }
        ∷ record { field = "test.status"; value = "MISS"; comparison_op = "in" }
        ∷ record { field = "test.duration"; value = "3"; comparison_op = "gte" }
        ∷ [])
      tt refl

match_filter_roundtrip_example : match_filter (("test.duration" <> ("_[" <> "gte")) <> "]") ≡ (
    if is_one_line "test.duration" && is_one_line "gte"
    then some ("test.duration", "gte")
    else none)
unfolding split_operator nat_eq
match_filter_roundtrip_example = match_filter_roundtrip "test.duration" "gte" refl

abbrev issue_request : List QueryItem
issue_request = record { key = "filter_test.issue"; first = "j,2"; more = [] } ∷ []

abbrev with_issue : FilterParams
with_issue = record no_filters {
  filters = record { field = "test.issue"; value = "j,2"; comparison_op = "exact" } ∷ [];
  issues = record no_filters.issues { on_test = issue "j" (some (pos 2)) ∷ [] };
}

build_issue_is_dropped_example :
    should_filter_test_issue with_issue.issues.on_test (some "i") (some (pos 1)) none ≡ true
unfolding init string_eq nat_eq rsplit int issue_filter_eq
build_issue_is_dropped_example =
    build_issue_is_dropped issue_request with_issue "i" (pos 1) refl refl i_known refl

-- a build of seven seconds and a half
abbrev short_build : BuildRow
short_build = record build_row { duration = some (record { numerator = pos 15; exponent = 1 }) }

build_duration_first_character_example :
    (p : FilterParams) × (init
        (record { key = "filter_build.duration_[lte]"; first = "30"; more = [] } ∷ [])
      ≡ ok p)
    × (p.filters ≡ record { field = "build.duration"; value = "30"; comparison_op = "lte" } ∷ [])
    × (is_build_filtered_out p short_build ≡ true)
unfolding int_of
build_duration_first_character_example =
    build_duration_first_character (char 51 tt) "0" short_build
      (record { numerator = pos 15; exponent = 1 }) (omega arith) (omega arith) refl refl

abbrev code_issue : IssueRecord
code_issue = record {
  origin = "maestro";
  culprit_code = some true;
  culprit_harness = none;
  culprit_tool = none;
  has_incident = some true;
  categories = none;
}

abbrev code_only : FilterParams
code_only = record no_filters { issue_culprits = "code" ∷ [] }

should_discard_issue_record_iff_example :
    (should_discard_issue_record (some code_only) code_issue ≡ false) ↔ (
      Admits code_only.issue_culprits (
        ((is_true code_issue.culprit_code && contains code_only.issue_culprits "code")
          || (is_true code_issue.culprit_harness && contains code_only.issue_culprits "harness")
          || (is_true code_issue.culprit_tool && contains code_only.issue_culprits "tool"))
        ≡ true)
      × Admits code_only.origins (contains code_only.origins code_issue.origin ≡ true)
      × Admits code_only.issue_options (
          (contains code_only.issue_options "hasIncident" && is_true code_issue.has_incident)
          ≡ true)
      × Admits code_only.issue_categories
          (shares (get_or code_issue.categories []) code_only.issue_categories ≡ true))
should_discard_issue_record_iff_example = should_discard_issue_record_iff code_only code_issue

abbrev board_record : RecordRow
board_record = record {
  hardwares = some ("board" ∷ []);
  architecture = some "arm64";
  compiler = none;
  config_name = some "defconfig";
  lab = none;
}

abbrev on_boards : FilterParams
on_boards = record no_filters { hardware = "board" ∷ []; compiler = "Unknown" ∷ [] }

is_record_filtered_out_iff_example : (is_record_filtered_out on_boards board_record ≡ false) ↔ (
    MeetsFilter on_boards.hardware ("board" ∷ [])
    × Selects on_boards.architecture (some "arm64")
    × Selects on_boards.compiler (some "Unknown")
    × Selects on_boards.configs (some "defconfig")
    × Selects on_boards.labs (some "Unknown"))
is_record_filtered_out_iff_example = is_record_filtered_out_iff on_boards board_record
