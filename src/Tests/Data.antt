-- ===== src/Tests/Data.antt =====
-- One checkout with a build of two tests.
use kernelci_dashboard.Base.{String, true, false, none, some, List, [], ◌∷◌}
use kernelci_dashboard.Base.Dict.{Dict}
use kernelci_dashboard.Status.{passed, failed, pass, fail}
use kernelci_dashboard.Aggregation.Models.{
  Checkout, Build, PendingTest, PendingBuild, ProcessedItem,
}

-- a digest without collisions
abbrev pub digest : String → String
digest s = s

abbrev pub mainline : Checkout
mainline = record {
  id = "c1";
  origin = "maestro";
  tree_name = some "mainline";
  git_repository_url = some "u";
  git_repository_branch = some "master";
  git_commit_hash = some "h";
  git_commit_name = none;
  git_commit_tags = none;
  start_time = some 5;
}

abbrev pub defconfig : Build
defconfig = record {
  id = "b1";
  origin = "maestro";
  checkout = mainline;
  status = some pass;
  architecture = some "arm64";
  compiler = none;
  config_name = some "defconfig";
}

abbrev pub boot_test : PendingTest
boot_test = record {
  test_id = "t1";
  origin = "maestro";
  platform = some "board";
  compatible = some ("board,soc" ∷ []);
  build_id = "b1";
  status = some passed;
  is_boot = true;
  path = some "boot";
  lab = none;
  full_status = some pass;
}

abbrev pub failed_test : PendingTest
failed_test = record {
  test_id = "t2";
  origin = "maestro";
  platform = some "board";
  compatible = none;
  build_id = "b1";
  status = some failed;
  is_boot = false;
  path = some "kunit.time";
  lab = none;
  full_status = some fail;
}

abbrev pub pending_build : PendingBuild
pending_build = record {
  build_id = "b1";
  origin = "maestro";
  checkout_id = "c1";
  status = some passed;
}

abbrev pub tests : List PendingTest
tests = boot_test ∷ failed_test ∷ []

abbrev pub test_builds : Dict String Build
test_builds = ("b1", defconfig) ∷ []

abbrev pub build_checkouts : Dict String Checkout
build_checkouts = ("b1", mainline) ∷ []

-- an entry without a status
abbrev pub null_entry : String → ProcessedItem
null_entry key = record { listing_item_key = key; checkout_id = "c1"; status = none }
