-- ===== src/Ingest/Tables.antt =====
-- The statements of aggregate_tests, aggregate_builds and aggregate_checkouts. A table is a list of
-- rows, one for a key; the queries that read it sort it.
use kernelci_dashboard.Base.{
  String, Option, none, some, List, [], ◌∷◌, ◌==◌, string_eq, option_eq, if◌then◌else◌,
}
use kernelci_dashboard.Aggregation.Models.{Build, PendingTest, PendingBuild}
use kernelci_dashboard.Ingest.Convert.{Test, convert_test, convert_build}

-- COALESCE
abbrev pub coalesce : {A : Type 0} → Option A → Option A → Option A
coalesce none b = b
coalesce (some a) b = some a

-- ON CONFLICT (test_id) DO UPDATE: the columns that are not listed keep their values
abbrev pub merge_test : PendingTest → PendingTest → PendingTest
merge_test stored excluded = record stored {
  platform = coalesce stored.platform excluded.platform;
  compatible = coalesce stored.compatible excluded.compatible;
  status = coalesce stored.status excluded.status;
  path = coalesce stored.path excluded.path;
  lab = coalesce stored.lab excluded.lab;
  full_status = coalesce stored.full_status excluded.full_status;
}

unfoldable pub upsert_test : List PendingTest → PendingTest → List PendingTest
upsert_test [] t = t ∷ []
upsert_test (s ∷ rows) t =
    let rest = upsert_test rows t in
    if s.test_id == t.test_id then merge_test s t ∷ rows else s ∷ rest

unfoldable pub aggregate_tests : List PendingTest → List Test → List PendingTest
unfolding upsert_test convert_test
aggregate_tests rows [] = rows
aggregate_tests rows (t ∷ ts) = aggregate_tests (upsert_test rows (convert_test t)) ts

abbrev pub merge_build : PendingBuild → PendingBuild → PendingBuild
merge_build stored excluded = record stored { status = coalesce stored.status excluded.status }

unfoldable pub upsert_build : List PendingBuild → PendingBuild → List PendingBuild
upsert_build [] b = b ∷ []
upsert_build (s ∷ rows) b =
    let rest = upsert_build rows b in
    if s.build_id == b.build_id then merge_build s b ∷ rows else s ∷ rest

unfoldable pub aggregate_builds : List PendingBuild → List Build → List PendingBuild
unfolding upsert_build convert_build
aggregate_builds rows [] = rows
aggregate_builds rows (b ∷ bs) = aggregate_builds (upsert_build rows (convert_build b)) bs

-- the row of a test, by its primary key
unfoldable pub row_of : String → List PendingTest → Option PendingTest
row_of id [] = none
row_of id (s ∷ rows) = if s.test_id == id then some s else row_of id rows
