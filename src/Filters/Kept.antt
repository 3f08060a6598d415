-- ===== src/Filters/Kept.antt =====
-- What a row must satisfy to be kept, stated filter by filter, and that the code keeps just those.
use kernelci_dashboard.Base.{
  ap, ◌∙◌, ◌≡◌, ◌↔◌, refl, String, Bool, true, false, not, ◌||◌, Option, some, List, [], ◌∷◌, arith,
  string_eq,
}
use kernelci_dashboard.Base.Int.{ℤ}
use kernelci_dashboard.Base.Text.{is_infix, upper}
use kernelci_dashboard.Filters.Bounds.{AtMost, AtLeast, duration_lem}
use kernelci_dashboard.Filters.IssueChoice.{
  TestIssueSelected, TestIssueSelected_lem, BuildIssueSelected, BuildIssueSelected_lem,
}
use kernelci_dashboard.Filters.Issues.{IssueFilter, should_filter_test_issue}
use kernelci_dashboard.Filters.Request.{ok}
use kernelci_dashboard.Filters.Params.{FilterParams}
use kernelci_dashboard.Filters.Rows.{
  in_set, not_selected, or_else, is_duration_filtered_out, TestRow, is_path_filtered_out,
  is_boot_filtered_out, is_test_filtered_out, BuildRow, is_build_filtered_out,
}

-- An empty set of values selects everything.
abbrev pub Selects : List String → Option String → Type 0
Selects [] v = Unit
Selects (x ∷ xs) v = in_set (x ∷ xs) v ≡ true

pub Selects_lem :
    (xs : List String) (v : Option String) → (not_selected xs v ≡ false) ↔ Selects xs v
Selects_lem [] v = ground arith
Selects_lem (x ∷ xs) v = ground arith

infix-empty : (s : String) → is_infix "" s ≡ true
unfolding is_infix
infix-empty String.[] = refl
infix-empty (String.◌∷◌ c s) = refl

path_lem :
    (filter_path path : String)
    → is_path_filtered_out filter_path (some path) ≡ ok (not (is_infix filter_path path))
unfolding is_path_filtered_out
path_lem filter_path path = ground (arith, infix-empty path)

-- The filters of a tab, and what each asks of a test or boot.
pub record TabFilters : Type 0 where
  pub path : String
  pub status : List String
  pub duration_max : Option ℤ
  pub duration_min : Option ℤ
  pub issues : List IssueFilter
  pub platforms : List String
  pub origins : List String

pub record IsKept (f : TabFilters) (r : TestRow) (path : String) : Type 0 where
  pub path_found : is_infix f.path path ≡ true
  pub status_selected : Selects f.status r.status
  pub short_enough : AtMost f.duration_max r.duration
  pub long_enough : AtLeast f.duration_min r.duration
  pub issue_selected : TestIssueSelected f.issues r.issue_id r.issue_version r.incident_test_id
  pub platform_selected : Selects f.platforms r.platform
  pub origin_selected : Selects f.origins r.origin

disjuncts :
    (a b c d e g : Bool)
    → (or_else (ok (not a)) (b || c || d || e || g) ≡ ok false)
      ↔ ((a ≡ true) × (b ≡ false) × (c ≡ false) × (d ≡ false) × (e ≡ false) × (g ≡ false))
disjuncts a b c d e g = ground arith

IsKept-iff :
    (f : TabFilters) (r : TestRow) (path : String)
    → r.path ≡ some path
    → (or_else (is_path_filtered_out f.path r.path) (
          not_selected f.status r.status
          || is_duration_filtered_out f.duration_max f.duration_min r.duration
          || should_filter_test_issue f.issues r.issue_id r.issue_version r.incident_test_id
          || not_selected f.platforms r.platform
          || not_selected f.origins r.origin)
        ≡ ok false)
      ↔ IsKept f r path
IsKept-iff f r path e =
    let found = ap (is_path_filtered_out f.path) e ∙ path_lem f.path path in
    let (there, back) = disjuncts (is_infix f.path path) _ _ _ _ _ in
    rw found (
      λ h.
          let (a, b, c, d, g, i) = there h in
          record {
            path_found = a;
            status_selected = (Selects_lem f.status r.status).0 b;
            short_enough = ((duration_lem f.duration_max f.duration_min r.duration).0 c).0;
            long_enough = ((duration_lem f.duration_max f.duration_min r.duration).0 c).1;
            issue_selected =
                (TestIssueSelected_lem f.issues r.issue_id r.issue_version r.incident_test_id).0 d;
            platform_selected = (Selects_lem f.platforms r.platform).0 g;
            origin_selected = (Selects_lem f.origins r.origin).0 i;
          },
      λ k. back (
        k.path_found,
        (Selects_lem f.status r.status).1 k.status_selected,
        (duration_lem f.duration_max f.duration_min r.duration).1 (k.short_enough, k.long_enough),
        (TestIssueSelected_lem f.issues r.issue_id r.issue_version r.incident_test_id).1
            k.issue_selected,
        (Selects_lem f.platforms r.platform).1 k.platform_selected,
        (Selects_lem f.origins r.origin).1 k.origin_selected,
      ),
    )

abbrev pub test_filters : FilterParams → TabFilters
test_filters f = record {
  path = f.test_path;
  status = f.test_status;
  duration_max = f.test_duration_max;
  duration_min = f.test_duration_min;
  issues = f.issues.on_test;
  platforms = f.platforms.on_test;
  origins = f.test_origin;
}

abbrev pub boot_filters : FilterParams → TabFilters
boot_filters f = record {
  path = f.boot_path;
  status = f.boot_status;
  duration_max = f.boot_duration_max;
  duration_min = f.boot_duration_min;
  issues = f.issues.on_boot;
  platforms = f.platforms.on_boot;
  origins = f.boot_origin;
}

-- A test with a path is kept exactly when it satisfies every filter of the tests' tab: its path
-- contains the filter's, its status, platform and origin are selected, the integral part of its
-- duration is within the bounds, and, if there is a filter on issues, one names its issue, where the
-- known issue of a build counts as uncategorized.
pub is_test_filtered_out_iff :
    (f : FilterParams) (r : TestRow) (path : String)
    → r.path ≡ some path
    → (is_test_filtered_out f r ≡ ok false) ↔ IsKept (test_filters f) r path
unfolding is_test_filtered_out
is_test_filtered_out_iff f r path e = IsKept-iff (test_filters f) r path e

-- A boot with a path is kept exactly when it satisfies every filter of the boots' tab: its path
-- contains the filter's, its status, platform and origin are selected, the integral part of its
-- duration is within the bounds, and, if there is a filter on issues, one names its issue, where the
-- known issue of a build counts as uncategorized.
pub is_boot_filtered_out_iff :
    (f : FilterParams) (r : TestRow) (path : String)
    → r.path ≡ some path
    → (is_boot_filtered_out f r ≡ ok false) ↔ IsKept (boot_filters f) r path
unfolding is_boot_filtered_out
is_boot_filtered_out_iff f r path e = IsKept-iff (boot_filters f) r path e

-- A build is kept exactly when its status, in capitals, its duration and its origin are selected, and
-- its issue is: with no filter on issues any is; with one, the build must have failed or have no
-- status, and a filter must name its issue, where the known issue of a test counts as uncategorized,
-- and so does a row with neither a known issue nor a test. A duration meets a bound by its integral
-- part.
pub is_build_filtered_out_iff :
    (f : FilterParams) (r : BuildRow)
    → (is_build_filtered_out f r ≡ false) ↔ (
        Selects f.build_status (some (upper r.build_status))
        × AtMost f.build_duration_max r.duration
        × AtLeast f.build_duration_min r.duration
        × Selects f.build_origin r.build_origin
        × BuildIssueSelected f.issues.on_build r.issue_id r.issue_version r.incident_test_id
            r.build_status)
unfolding is_build_filtered_out
is_build_filtered_out_iff f r = ground (
  arith,
  Selects_lem f.build_status (some (upper r.build_status)),
  Selects_lem f.build_origin r.build_origin,
  duration_lem f.build_duration_max f.build_duration_min r.duration,
  BuildIssueSelected_lem f.issues.on_build r.issue_id r.issue_version r.incident_test_id
      r.build_status,
)
