-- ===== src/Ingest/Convert.antt =====
-- convert_test and convert_build.
use kernelci_dashboard.Base.{
  String, Bool, false, Option, none, some, List, ◌==◌, string_eq, if◌then◌else◌,
}
use kernelci_dashboard.Base.Dict.{Dict, lookup}
use kernelci_dashboard.Status.{StatusChoices, simplify_status, is_boot}
use kernelci_dashboard.Aggregation.Models.{Build, PendingTest, PendingBuild}

-- The columns of `Tests` that are read. The two JSON columns are dicts of texts.
pub record Test : Type 0 where
  pub id : String
  pub origin : String
  pub build_id : String
  pub environment_misc : Option (Dict String String)
  pub environment_compatible : Option (List String)
  pub misc : Option (Dict String String)
  pub path : Option String
  pub status : Option StatusChoices

-- `d.get(key)`, and `None` without a dict
abbrev pub get : String → Option (Dict String String) → Option String
get key none = none
get key (some d) = lookup key d

-- `is_boot(t.path) if t.path else False`
unfoldable pub boot_flag : Option String → Bool
unfolding is_boot
boot_flag none = false
boot_flag (some path) = if path == "" then false else is_boot (some path)

unfoldable pub convert_test : Test → PendingTest
unfolding lookup simplify_status boot_flag
convert_test t = record {
  test_id = t.id;
  origin = t.origin;
  platform = get "platform" t.environment_misc;
  compatible = t.environment_compatible;
  build_id = t.build_id;
  status = simplify_status t.status;
  is_boot = boot_flag t.path;
  path = t.path;
  lab = get "runtime" t.misc;
  full_status = t.status;
}

unfoldable pub convert_build : Build → PendingBuild
unfolding simplify_status
convert_build b = record {
  build_id = b.id;
  origin = b.origin;
  checkout_id = b.checkout.id;
  status = simplify_status b.status;
}
