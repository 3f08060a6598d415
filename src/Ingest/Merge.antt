-- ===== src/Ingest/Merge.antt =====
-- What aggregate_tests makes of several reports of a test.
use kernelci_dashboard.Base.{
  ◌≡◌, refl, sym, String, true, false, Option, none, some, List, [], ◌∷◌, arith, ◌==◌, string_eq,
  if◌then◌else◌, All, Bool-cases, inl, inr,
}
use kernelci_dashboard.Status.{StatusChoices, simplify_status, is_boot}
use kernelci_dashboard.Aggregation.Models.{PendingTest}
use kernelci_dashboard.Ingest.Convert.{Test, boot_flag, convert_test}
use kernelci_dashboard.Ingest.Tables.{coalesce, merge_test, upsert_test, aggregate_tests, row_of}

-- a column of a row, null without a row
abbrev pub full_status_of : Option PendingTest → Option StatusChoices
full_status_of none = none
full_status_of (some t) = t.full_status

-- the first status that is known among the reports of a test
abbrev pub first_status : String → List Test → Option StatusChoices
first_status id [] = none
first_status id (t ∷ ts) =
    if t.id == id then coalesce t.status (first_status id ts) else first_status id ts

upsert_test-status :
    (id : String) (rows : List PendingTest) (t : PendingTest)
    → full_status_of (row_of id (upsert_test rows t)) ≡ (
        if t.test_id == id
        then coalesce (full_status_of (row_of id rows)) t.full_status
        else full_status_of (row_of id rows))
unfolding upsert_test row_of
upsert_test-status id [] t = ground arith
upsert_test-status id (s ∷ rows) t = ground (arith, upsert_test-status id rows t)

coalesce_assoc :
    {A : Type 0} (a b c : Option A) → coalesce (coalesce a b) c ≡ coalesce a (coalesce b c)
coalesce_assoc none b c = refl
coalesce_assoc (some a) b c = refl

coalesce-none : {A : Type 0} (a : Option A) → coalesce a none ≡ a
coalesce-none none = refl
coalesce-none (some a) = refl

-- The status of a test among the pending rows is the one that is stored, or else the first that is
-- known among its reports, in the order in which they come: later reports never replace it.
pub aggregate_tests-first_status :
    (id : String) (rows : List PendingTest) (ts : List Test)
    → full_status_of (row_of id (aggregate_tests rows ts))
      ≡ coalesce (full_status_of (row_of id rows)) (first_status id ts)
unfolding aggregate_tests convert_test
aggregate_tests-first_status id rows [] = sym (coalesce-none (full_status_of (row_of id rows)))
aggregate_tests-first_status id rows (t ∷ ts) =
    rw
      (
        aggregate_tests-first_status id (upsert_test rows (convert_test t)) ts,
        upsert_test-status id rows (convert_test t),
      )
      (elim (Bool-cases (t.id == id)) [
        | inl e ↦
            rw e (coalesce_assoc (full_status_of (row_of id rows)) t.status (first_status id ts))
        | inr e ↦ rw e refl
      ])

-- The two columns of the status agree.
abbrev pub HasSimplified : PendingTest → Type 0
HasSimplified t = t.status ≡ simplify_status t.full_status

merge_test-HasSimplified :
    (s t : PendingTest) → HasSimplified s → HasSimplified t → HasSimplified (merge_test s t)
unfolding simplify_status
merge_test-HasSimplified s t h g = ground arith

upsert_test-HasSimplified :
    (rows : List PendingTest) (t : PendingTest)
    → All HasSimplified rows
    → HasSimplified t
    → All HasSimplified (upsert_test rows t)
unfolding upsert_test
upsert_test-HasSimplified [] t h g = (g, tt)
upsert_test-HasSimplified (s ∷ rows) t (h, hs) g =
    ground (arith, upsert_test-HasSimplified rows t hs g, merge_test-HasSimplified s t h g)

-- In every pending row the simplified status is that of the full status, whatever reports are merged.
pub aggregate_tests-HasSimplified :
    (rows : List PendingTest) (ts : List Test)
    → All HasSimplified rows
    → All HasSimplified (aggregate_tests rows ts)
unfolding aggregate_tests convert_test
aggregate_tests-HasSimplified rows [] h = h
aggregate_tests-HasSimplified rows (t ∷ ts) h =
    aggregate_tests-HasSimplified (upsert_test rows (convert_test t)) ts
      (upsert_test-HasSimplified rows (convert_test t) h refl)

-- A test that is first reported without a path and then as a boot is not marked as a boot, though
-- its path becomes that of the boot: is_boot is not among the columns that a later report updates.
pub late_path_of_a_boot :
    (t : Test) (path : String)
    → t.path ≡ none
    → is_boot (some path) ≡ true
    → (r : PendingTest) × (row_of t.id (aggregate_tests [] (t ∷ record t { path = some path } ∷ []))
        ≡ some r)
      × (is_boot r.path ≡ true)
      × (r.is_boot ≡ false)
unfolding aggregate_tests upsert_test row_of convert_test boot_flag
late_path_of_a_boot t path missing boots =
    let same : (t.id == t.id) ≡ true = ground arith in
    (
      merge_test (convert_test t) (convert_test (record t { path = some path })),
      rw (same, row_of, same) refl,
      rw missing boots,
      rw missing refl,
    )
