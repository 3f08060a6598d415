-- ===== src/Filters/Rows.antt =====
-- The tests of `FilterParams` of filters.py on builds, boots, tests and records.
use kernelci_dashboard.Base.{
  String, Bool, true, false, not, ◌&&◌, ◌||◌, Option, none, some, List, [], ◌∷◌, ◌==◌, contains,
  string_eq, if◌then◌else◌, is_none, is_some, get_or, nonempty, any,
}
use kernelci_dashboard.Base.Int.{ℤ, pos, ltb_ℤ}
use kernelci_dashboard.Base.Duration.{Duration, int_of}
use kernelci_dashboard.Base.Text.{is_infix, upper}
use kernelci_dashboard.Filters.Issues.{
  unknown_string, should_filter_test_issue, should_filter_build_issue,
}
use kernelci_dashboard.Filters.Request.{Result, ok, err, type_error}
use kernelci_dashboard.Filters.Params.{FilterParams}

-- `v in values`, where `v` may be `None` and `values` holds texts
abbrev pub in_set : List String → Option String → Bool
in_set values none = false
in_set values (some v) = contains values v

-- `len(values) > 0 and v not in values`
abbrev pub not_selected : List String → Option String → Bool
not_selected values v = nonempty values && not (in_set values v)

-- `to_int_or_default(duration, 0)`: the float loses its fraction
unfoldable pub int_or_zero : Option Duration → ℤ
unfolding int_of
int_or_zero none = pos 0
int_or_zero (some d) = int_of d

-- The three disjuncts on the duration.
unfoldable pub is_duration_filtered_out : Option ℤ → Option ℤ → Option Duration → Bool
unfolding int_or_zero
is_duration_filtered_out maximum minimum duration =
    let n = int_or_zero duration in
    (is_some maximum || is_some minimum) && is_none duration
    || elim maximum [ none ↦ false | some m ↦ ltb_ℤ m n ]
    || elim minimum [ none ↦ false | some m ↦ ltb_ℤ n m ]

-- What is_boot_filtered_out and is_test_filtered_out are given.
pub record TestRow : Type 0 where
  pub path : Option String
  pub status : Option String
  pub duration : Option Duration
  pub issue_id : Option String
  pub issue_version : Option ℤ
  pub incident_test_id : Option String
  pub platform : Option String
  pub origin : Option String

-- `filter_path != "" and filter_path not in path`: `in` on `None` is a TypeError
unfoldable pub is_path_filtered_out : String → Option String → Result Bool
is_path_filtered_out filter_path none = if filter_path == "" then ok false else err type_error
is_path_filtered_out filter_path (some path) =
    ok (not (filter_path == "") && not (is_infix filter_path path))

-- `or`: the rest is read only where the first disjunct is false
abbrev pub or_else : Result Bool → Bool → Result Bool
or_else (ok true) rest = ok true
or_else (ok false) rest = ok rest
or_else (err e) rest = err e

unfoldable pub is_boot_filtered_out : FilterParams → TestRow → Result Bool
unfolding is_path_filtered_out is_duration_filtered_out
is_boot_filtered_out f r = or_else (is_path_filtered_out f.boot_path r.path) (
    not_selected f.boot_status r.status
    || is_duration_filtered_out f.boot_duration_max f.boot_duration_min r.duration
    || should_filter_test_issue f.issues.on_boot r.issue_id r.issue_version r.incident_test_id
    || not_selected f.platforms.on_boot r.platform
    || not_selected f.boot_origin r.origin)

unfoldable pub is_test_filtered_out : FilterParams → TestRow → Result Bool
unfolding is_path_filtered_out is_duration_filtered_out
is_test_filtered_out f r = or_else (is_path_filtered_out f.test_path r.path) (
    not_selected f.test_status r.status
    || is_duration_filtered_out f.test_duration_max f.test_duration_min r.duration
    || should_filter_test_issue f.issues.on_test r.issue_id r.issue_version r.incident_test_id
    || not_selected f.platforms.on_test r.platform
    || not_selected f.test_origin r.origin)

pub record BuildRow : Type 0 where
  pub duration : Option Duration
  pub build_status : String
  pub issue_id : Option String
  pub issue_version : Option ℤ
  pub incident_test_id : Option String
  pub build_origin : Option String

unfoldable pub is_build_filtered_out : FilterParams → BuildRow → Bool
unfolding upper is_duration_filtered_out
is_build_filtered_out f r =
    not_selected f.build_status (some (upper r.build_status))
    || is_duration_filtered_out f.build_duration_max f.build_duration_min r.duration
    || not_selected f.build_origin r.build_origin
    || should_filter_build_issue f.issues.on_build r.issue_id r.issue_version r.incident_test_id
        r.build_status

pub record RecordRow : Type 0 where
  pub hardwares : Option (List String)
  pub architecture : Option String
  pub compiler : Option String
  pub config_name : Option String
  pub lab : Option String

unfoldable pub is_record_filtered_out : FilterParams → RecordRow → Bool
unfolding any
is_record_filtered_out f r =
    nonempty f.hardware
      && not (any (contains f.hardware) (get_or r.hardwares (unknown_string ∷ [])))
    || not_selected f.architecture (some (get_or r.architecture unknown_string))
    || not_selected f.compiler (some (get_or r.compiler unknown_string))
    || not_selected f.configs (some (get_or r.config_name unknown_string))
    || not_selected f.labs (some (get_or r.lab unknown_string))
