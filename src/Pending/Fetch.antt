-- ===== src/Pending/Fetch.antt =====
-- _get_ready_tests and _get_ready_builds. `gt` is the order of ids in the database.
use kernelci_dashboard.Base.{
  ℕ, suc, String, Bool, true, Option, none, some, List, [], ◌∷◌, ◌==◌, string_eq, if◌then◌else◌,
  length, take, keep, any, is_some,
}
use kernelci_dashboard.Base.Dict.{Dict, lookup, insert}
use kernelci_dashboard.Aggregation.Models.{Checkout, Build, PendingTest, PendingBuild}

pub record ReadyTests : Type 0 where
  pub ready_tests : List PendingTest
  pub test_builds_by_id : Dict String Build
  pub last_processed_test_id : Option String
  pub skipped_no_build : ℕ
  pub pending_test_count : ℕ

pub record ReadyBuilds : Type 0 where
  pub ready_builds : List PendingBuild
  pub build_checkouts_by_id : Dict String Checkout
  pub last_processed_build_id : Option String
  pub skipped_no_checkout : ℕ
  pub pending_build_count : ℕ

-- the loops over a batch, once something was found
unfoldable pub sort_tests : Dict String Build → List PendingTest → ReadyTests → ReadyTests
unfolding lookup insert
sort_tests found [] r = r
sort_tests found (t ∷ ts) r =
    let rest = sort_tests found ts r in
    elim (lookup t.build_id found) [
      | none ↦ record rest { skipped_no_build = suc rest.skipped_no_build }
      | some b ↦ record rest {
        ready_tests = t ∷ rest.ready_tests;
        test_builds_by_id = insert t.build_id b rest.test_builds_by_id;
      }
    ]

unfoldable pub sort_builds : Dict String Checkout → List PendingBuild → ReadyBuilds → ReadyBuilds
unfolding lookup insert
sort_builds found [] r = r
sort_builds found (b ∷ bs) r =
    let rest = sort_builds found bs r in
    elim (lookup b.checkout_id found) [
      | none ↦ record rest { skipped_no_checkout = suc rest.skipped_no_checkout }
      | some c ↦ record rest {
        ready_builds = b ∷ rest.ready_builds;
        build_checkouts_by_id = insert b.build_id c rest.build_checkouts_by_id;
      }
    ]

-- the id of the last row of a batch
unfoldable pub last_id : {A : Type 0} → (A → String) → List A → Option String → Option String
last_id id [] last = last
last_id id (x ∷ xs) last = last_id id xs (some (id x))

module _ (gt : String → String → Bool) where
  -- `if last: qs.filter(id__gt=last)`; the empty text is false
  abbrev pub is_after : Option String → String → Bool
  is_after none id = true
  is_after (some last) id = if last == "" then true else gt id last

  -- qs[:batch_size]
  abbrev pub batch_of : {A : Type 0} → (A → String) → Option String → ℕ → List A → List A
  batch_of id last batch_size rows = take batch_size (keep (λ x. is_after last (id x)) rows)

  unfoldable pub get_ready_tests :
      List PendingTest → Dict String Build → Option String → ℕ → ReadyTests
  unfolding keep any lookup last_id sort_tests
  get_ready_tests pending builds last batch_size =
      let batch = batch_of (λ t. t.test_id) last batch_size pending in
      let nothing : ReadyTests = record {
        ready_tests = [];
        test_builds_by_id = [];
        last_processed_test_id = last_id (λ t. t.test_id) batch last;
        skipped_no_build = 0;
        pending_test_count = length batch;
      } in
      if any (λ t. is_some (lookup t.build_id builds)) batch
      then sort_tests builds batch nothing
      else nothing

  unfoldable pub get_ready_builds :
      List PendingBuild → Dict String Checkout → Option String → ℕ → ReadyBuilds
  unfolding keep any lookup last_id sort_builds
  get_ready_builds pending checkouts last batch_size =
      let batch = batch_of (λ b. b.build_id) last batch_size pending in
      let nothing : ReadyBuilds = record {
        ready_builds = [];
        build_checkouts_by_id = [];
        last_processed_build_id = last_id (λ b. b.build_id) batch last;
        skipped_no_checkout = 0;
        pending_build_count = length batch;
      } in
      if any (λ b. is_some (lookup b.checkout_id checkouts)) batch
      then sort_builds checkouts batch nothing
      else nothing
