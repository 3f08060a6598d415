-- ===== src/Tests/Pending.antt =====
-- Runs of the command.
use mathlib.Core.Logic.{◌≢◌}
use kernelci_dashboard.Base.{
  ℕ, zero, suc, ◌+◌, length, nat_eq, ◌≡◌, ◌↔◌, ◌<◌, refl, some, true, Bool, [], ◌∷◌, String,
  string_eq, arith, ltb,
}
use kernelci_dashboard.Status.{passed}
use kernelci_dashboard.Pending.Store.{Store}
use kernelci_dashboard.Pending.Write.{Attempt, committed, deadlock, attempts}
use kernelci_dashboard.Pending.Loop.{Progress, out_of_fuel, process_pending_batch}
use kernelci_dashboard.Pending.Cursor.{IsOrder}
use kernelci_dashboard.Pending.Termination.{process_pending_batch-ends}
use kernelci_dashboard.Pending.Counting.{process_pending_batch-counts}
use kernelci_dashboard.Pending.Retries.{CommitsAfter, attempts_iff}
use kernelci_dashboard.Tests.Data.{digest, mainline, defconfig, tests, pending_build}

abbrev size : String → ℕ
size String.[] = 0
size (String.◌∷◌ c s) = suc (size s)

-- an order of texts, by their sizes
abbrev longer : String → String → Bool
longer a b = ltb (size b) (size a)

longer-IsOrder : IsOrder longer
longer-IsOrder = record { irreflexive = λ a. ground arith; transitive = λ a b c h g. ground arith }

abbrev store : Store
store = record {
  pending_tests = tests;
  pending_builds = pending_build ∷ [];
  builds = ("b1", defconfig) ∷ [];
  checkouts = ("c1", mainline) ∷ [];
  incidents = [];
  processed_items = [];
  hardware_status = [];
  tree_listing = [];
  tree_tests_rollup = [];
}

-- the first attempt deadlocks
abbrev outcome : ℕ → Attempt
outcome zero = deadlock
outcome (suc n) = committed

process_pending_batch-ends_example :
    process_pending_batch longer digest 5 10 (λ n. outcome) store ≢ out_of_fuel
unfolding string_eq
process_pending_batch-ends_example =
    process_pending_batch-ends longer longer-IsOrder digest 5 10 (λ n. outcome) store
      ((refl, (refl, tt)), (refl, tt))

attempts_iff_example :
    (attempts outcome 5 0 ≡ some true) ↔ ((k : ℕ) × (k < 5) × CommitsAfter outcome 0 k)
attempts_iff_example = attempts_iff outcome 5 0

-- a test whose build is not known yet, and a build that is ready
abbrev waiting : Store
waiting = record store { builds = [] }

abbrev waited : Progress
waited = record {
  store = record waiting {
    pending_builds = [];
    processed_items =
        record {
          listing_item_key = "maestro|mainline|u|master|b1";
          checkout_id = "c1";
          status = some passed;
        }
        ∷ [];
  };
  last_processed_test_id = some "t2";
  last_processed_build_id = some "b1";
  tests_count = 0;
  builds_count = 1;
}

process_pending_batch-counts_example :
    (waited.tests_count + length waited.store.pending_tests ≡ length waiting.pending_tests)
    × (waited.builds_count + length waited.store.pending_builds ≡ length waiting.pending_builds)
unfolding process_pending_batch string_eq nat_eq
process_pending_batch-counts_example =
    process_pending_batch-counts longer digest 5 10 (λ n. outcome) waiting waited refl
