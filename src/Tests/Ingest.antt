-- ===== src/Tests/Ingest.antt =====
-- Runs of the ingestion.
use kernelci_dashboard.Base.{
  ◌≡◌, refl, ℕ, true, false, none, some, List, [], ◌∷◌, string_eq, option_eq, nat_eq, ◌==◌,
  if◌then◌else◌, Option, any, All,
}
use kernelci_dashboard.Base.Dict.{Dict, lookup}
use kernelci_dashboard.Status.{pass, fail, is_boot, simplify_status}
use kernelci_dashboard.Aggregation.Models.{Checkout, PendingTest}
use kernelci_dashboard.Ingest.Convert.{Test}
use kernelci_dashboard.Ingest.Tables.{coalesce, aggregate_tests, row_of}
use kernelci_dashboard.Ingest.Merge.{
  full_status_of, first_status, HasSimplified, aggregate_tests-first_status,
  aggregate_tests-HasSimplified, late_path_of_a_boot,
}
use kernelci_dashboard.Ingest.Latest.{
  TreeKey, tree_key_eq, tree_key, LatestCheckout, IsSince, aggregate_checkouts,
  aggregate_checkouts-latest,
}
use kernelci_dashboard.Base.Int.{pos}
use kernelci_dashboard.Aggregation.Counts.{boot, Outcome, zero_counts}
use kernelci_dashboard.Pending.Store.{TreeListingRow}
use kernelci_dashboard.Ingest.Listing.{
  is_tree_of, new_row, update_tree_listing, sum_column, update_tree_listing-sum_column,
  update_tree_listing-any,
}
use kernelci_dashboard.Ingest.LogExcerpt.{
  missing, files, excerpt_file, Item, Store, Submission, extract_log_excerpt,
}
use kernelci_dashboard.Ingest.Uploads.{IsCached, extract_log_excerpt-IsCached}
use kernelci_dashboard.Tests.Data.{digest, mainline, boot_test}

abbrev report : Test
report = record {
  id = "t3";
  origin = "maestro";
  build_id = "b1";
  environment_misc = some (("platform", "board") ∷ []);
  environment_compatible = none;
  misc = none;
  path = none;
  status = none;
}

-- the test again, with its status, and then with another
abbrev reports : List Test
reports = report ∷ record report { status = some fail } ∷ record report { status = some pass } ∷ []

aggregate_tests-first_status_example :
    full_status_of (row_of "t3" (aggregate_tests (boot_test ∷ []) reports))
    ≡ coalesce (full_status_of (row_of "t3" (boot_test ∷ []))) (first_status "t3" reports)
aggregate_tests-first_status_example = aggregate_tests-first_status "t3" (boot_test ∷ []) reports

boot_agrees : All HasSimplified (boot_test ∷ [])
unfolding simplify_status
boot_agrees = (refl, tt)

aggregate_tests-HasSimplified_example : All HasSimplified (aggregate_tests (boot_test ∷ []) reports)
aggregate_tests-HasSimplified_example =
    aggregate_tests-HasSimplified (boot_test ∷ []) reports boot_agrees

late_path_of_a_boot_example :
    (r : PendingTest) × (row_of "t3"
        (aggregate_tests [] (report ∷ record report { path = some "boot" } ∷ []))
      ≡ some r)
    × (is_boot r.path ≡ true)
    × (r.is_boot ≡ false)
unfolding is_boot string_eq
late_path_of_a_boot_example = late_path_of_a_boot report "boot" refl refl

-- a later checkout of the same tree
abbrev later : Checkout
later = record mainline { id = "c2"; start_time = some 9 }

abbrev after : Dict TreeKey LatestCheckout
after = (tree_key mainline, record { checkout_id = "c2"; start_time = 9 }) ∷ []

aggregate_checkouts-latest_example :
    All (λ c. IsSince c.start_time (lookup (tree_key c) after)) (later ∷ mainline ∷ [])
unfolding aggregate_checkouts tree_key_eq string_eq
aggregate_checkouts-latest_example =
    aggregate_checkouts-latest [] after (later ∷ mainline ∷ []) refl

abbrev listed : TreeListingRow
listed = record (new_row mainline) { counts = record zero_counts { boot_pass = pos 4 } }

update_tree_listing-sum_column_example :
    sum_column boot Outcome.pass (update_tree_listing (listed ∷ []) (later ∷ []))
    ≡ sum_column boot Outcome.pass (listed ∷ [])
update_tree_listing-sum_column_example =
    update_tree_listing-sum_column boot Outcome.pass (listed ∷ []) (later ∷ [])

update_tree_listing-any_example :
    All
      (λ c. any (is_tree_of c) (update_tree_listing (listed ∷ []) (later ∷ [])) ≡ true)
      (later ∷ [])
update_tree_listing-any_example = update_tree_listing-any (listed ∷ []) (later ∷ [])

-- a storage that refuses the first upload
abbrev refuse_first : ℕ → Option ℕ
refuse_first n = if n == 0 then some 500 else some 200

abbrev long_item : Item
long_item = record { id = some "t1"; log_excerpt = some "Oops"; output_files = missing }

abbrev submission : Submission
submission = record { builds = long_item ∷ []; tests = long_item ∷ [] }

abbrev no_uploads : Store
no_uploads = record { cache_logs = []; uploads = [] }

extract_log_excerpt-IsCached_example :
    IsCached
      (extract_log_excerpt digest refuse_first "https://files" 3 true submission no_uploads).1
extract_log_excerpt-IsCached_example =
    extract_log_excerpt-IsCached digest refuse_first "https://files" 3 true submission no_uploads
      (tt, tt)

-- After the upload that fails, the second item has the excerpt itself as the url of its file.
excerpt_as_url :
    (extract_log_excerpt digest refuse_first "https://files" 3 true submission no_uploads).0.tests
    ≡ record {
      id = some "t1";
      log_excerpt = some "";
      output_files = files (excerpt_file "Oops" ∷ []);
    }
      ∷ []
unfolding extract_log_excerpt string_eq nat_eq
excerpt_as_url = refl
