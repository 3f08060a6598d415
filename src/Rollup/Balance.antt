-- ===== src/Rollup/Balance.antt =====
-- The counters of the rollup against each other and against the tests that were selected.
use kernelci_dashboard.Base.{
  String, ◌≡◌, Bool, true, false, Option, none, some, List, [], ◌∷◌, arith, Bool-cases,
  Option-cases, inl, inr, ◌==◌, contains, string_eq, if◌then◌else◌, All, get_or, is_some,
}
use kernelci_dashboard.Base.Dict.{Dict, lookup, insert}
use kernelci_dashboard.Base.Int.{ℤ, pos, ◌+ℤ◌, ◌-ℤ◌, int_laws}
use kernelci_dashboard.Status.{StatusChoices, pass, fail, skip, error, miss, done}
use kernelci_dashboard.Aggregation.Models.{Build, PendingTest}
use kernelci_dashboard.Rollup.Entries.{
  RollupKey, rollup_key_eq, RollupCounts, RollupData, zero_rollup, increment, count_status,
  accumulate_rollup_entry, rollup_key_of, aggregate_tests_rollup, IssuesMap,
}
use kernelci_dashboard.Rollup.Batch.{add_rollup, conflict_key, upsert_rollup, process_tests_rollup}

-- the sum of the counters of a row, one for each status
abbrev pub by_status : RollupCounts → ℤ
by_status r =
    r.pass_tests +ℤ r.fail_tests +ℤ r.skip_tests +ℤ r.error_tests +ℤ r.miss_tests +ℤ r.done_tests
    +ℤ r.null_tests

abbrev pub IsBalanced : RollupCounts → Type 0
IsBalanced r = by_status r ≡ r.total_tests

-- Every row of a table is balanced.
abbrev pub AllBalanced : RollupData → Type 0
AllBalanced = All (λ (_, r). IsBalanced r)

-- the tests of all rows of a table
unfoldable pub grand_total : RollupData → ℤ
grand_total [] = pos 0
grand_total ((_, r) ∷ d) = r.total_tests +ℤ grand_total d

increment-by_status :
    (s : Option StatusChoices) (r : RollupCounts) → by_status (increment s r) ≡ by_status r +ℤ pos 1
unfolding increment
increment-by_status (some pass) r = omega int_laws
increment-by_status (some fail) r = omega int_laws
increment-by_status (some skip) r = omega int_laws
increment-by_status (some error) r = omega int_laws
increment-by_status (some miss) r = omega int_laws
increment-by_status (some done) r = omega int_laws
increment-by_status none r = omega int_laws

increment-total :
    (s : Option StatusChoices) (r : RollupCounts) → (increment s r).total_tests ≡ r.total_tests
unfolding increment
increment-total s r = ground arith

pub count_status-IsBalanced :
    (correction : Bool) (s : Option StatusChoices) (r : RollupCounts)
    → IsBalanced r
    → IsBalanced (count_status correction s r)
unfolding count_status
count_status-IsBalanced true s r h =
    let r' : RollupCounts = record r { null_tests = r.null_tests -ℤ pos 1 } in
    rw (increment-by_status s r', increment-total s r', ← h) (omega int_laws)
count_status-IsBalanced false s r h =
    rw (increment-by_status s r, increment-total s r, ← h) (omega int_laws)

-- what a test adds to the total
abbrev pub one_unless : Bool → ℤ
one_unless true = pos 0
one_unless false = pos 1

count_status-total :
    (correction : Bool) (s : Option StatusChoices) (r : RollupCounts)
    → (count_status correction s r).total_tests ≡ r.total_tests +ℤ one_unless correction
unfolding count_status
count_status-total true s r =
    let r' : RollupCounts = record r { null_tests = r.null_tests -ℤ pos 1 } in
    rw (increment-total s r') (omega int_laws)
count_status-total false s r = rw (increment-total s r) (omega int_laws)

insert-AllBalanced :
    (k : RollupKey) (r : RollupCounts) (d : RollupData)
    → IsBalanced r
    → AllBalanced d
    → AllBalanced (insert k r d)
unfolding insert
insert-AllBalanced k r [] h hs = ground arith
insert-AllBalanced k r ((j, m) ∷ d) h (g, gs) = ground (arith, insert-AllBalanced k r d h gs)

lookup-IsBalanced :
    (k : RollupKey) (d : RollupData) → AllBalanced d → IsBalanced (get_or (lookup k d) zero_rollup)
unfolding lookup
lookup-IsBalanced k [] hs = omega int_laws
lookup-IsBalanced k ((j, m) ∷ d) (g, gs) = ground (arith, lookup-IsBalanced k d gs)

insert-grand_total :
    (k : RollupKey) (r : RollupCounts) (d : RollupData)
    → grand_total (insert k r d)
      ≡ grand_total d +ℤ (r.total_tests -ℤ (get_or (lookup k d) zero_rollup).total_tests)
unfolding insert lookup grand_total
insert-grand_total k r [] = omega int_laws
insert-grand_total k r ((j, m) ∷ d) = elim (Bool-cases (k == j)) [
  | inl e ↦ rw e (omega int_laws)
  | inr e ↦ rw e (rw (insert-grand_total k r d) (omega int_laws))
]

pub accumulate-AllBalanced :
    (d : RollupData) (k : RollupKey) (s : Option StatusChoices) (correction : Bool)
    → AllBalanced d
    → AllBalanced (accumulate_rollup_entry d k s correction)
unfolding accumulate_rollup_entry
accumulate-AllBalanced d k s correction h =
    insert-AllBalanced k (count_status correction s (get_or (lookup k d) zero_rollup)) d
      (count_status-IsBalanced correction s (get_or (lookup k d) zero_rollup)
        (lookup-IsBalanced k d h))
      h

accumulate-grand_total :
    (d : RollupData) (k : RollupKey) (s : Option StatusChoices) (correction : Bool)
    → grand_total (accumulate_rollup_entry d k s correction)
      ≡ grand_total d +ℤ one_unless correction
unfolding accumulate_rollup_entry
accumulate-grand_total d k s correction =
    let r = get_or (lookup k d) zero_rollup in
    rw (insert-grand_total k (count_status correction s r) d, count_status-total correction s r)
      (omega int_laws)

-- The tests that are counted for the first time: their build is known, and they are not corrections.
unfoldable pub first_counts : List PendingTest → Dict String Build → List String → ℤ
first_counts [] builds reprocess = pos 0
first_counts (t ∷ ts) builds reprocess =
    (if is_some (lookup t.build_id builds)
      then one_unless (contains reprocess t.test_id)
      else pos 0)
    +ℤ first_counts ts builds reprocess

pub aggregate-AllBalanced :
    (ts : List PendingTest) (builds : Dict String Build) (issues : IssuesMap)
    (reprocess : List String) (d : RollupData)
    → AllBalanced d
    → AllBalanced (aggregate_tests_rollup ts builds issues reprocess d)
unfolding aggregate_tests_rollup
aggregate-AllBalanced [] builds issues reprocess d h = h
aggregate-AllBalanced (t ∷ ts) builds issues reprocess d h =
    aggregate-AllBalanced ts builds issues reprocess _
      (elim (Option-cases (lookup t.build_id builds)) [
        | inl e ↦ rw e h
        | inr (b, e) ↦ rw e (
            accumulate-AllBalanced d (rollup_key_of t b issues) t.full_status
              (contains reprocess t.test_id) h)
      ])

-- The aggregation adds to the sum of total_tests of its rows as many as there are tests in the list
-- with a known build that are not to be reprocessed.
pub aggregate_tests_rollup-grand_total :
    (ts : List PendingTest) (builds : Dict String Build) (issues : IssuesMap)
    (reprocess : List String) (d : RollupData)
    → grand_total (aggregate_tests_rollup ts builds issues reprocess d)
      ≡ grand_total d +ℤ first_counts ts builds reprocess
unfolding aggregate_tests_rollup first_counts
aggregate_tests_rollup-grand_total [] builds issues reprocess d = omega int_laws
aggregate_tests_rollup-grand_total (t ∷ ts) builds issues reprocess d =
    elim (Option-cases (lookup t.build_id builds)) [
      | inl e ↦
          rw e
            (rw (aggregate_tests_rollup-grand_total ts builds issues reprocess d) (omega int_laws))
      | inr (b, e) ↦
          let correction = contains reprocess t.test_id in
          let key = rollup_key_of t b issues in
          rw e (
            rw
              (
                aggregate_tests_rollup-grand_total ts builds issues reprocess
                    (accumulate_rollup_entry d key t.full_status correction),
                accumulate-grand_total d key t.full_status correction,
              )
              (omega int_laws))
    ]

add_rollup-IsBalanced :
    (a b : RollupCounts) → IsBalanced a → IsBalanced b → IsBalanced (add_rollup a b)
add_rollup-IsBalanced a b h g = rw (← h, ← g) (omega int_laws)

upsert-AllBalanced :
    (rows : RollupData) (k : RollupKey) (r : RollupCounts)
    → IsBalanced r
    → AllBalanced rows
    → AllBalanced (upsert_rollup rows k r)
unfolding upsert_rollup
upsert-AllBalanced [] k r h hs = ground arith
upsert-AllBalanced ((j, m) ∷ rows) k r h (g, gs) =
    ground (arith, upsert-AllBalanced rows k r h gs, add_rollup-IsBalanced m r g h)

upsert-grand_total :
    (rows : RollupData) (k : RollupKey) (r : RollupCounts)
    → grand_total (upsert_rollup rows k r) ≡ grand_total rows +ℤ r.total_tests
unfolding upsert_rollup grand_total
upsert-grand_total [] k r = omega int_laws
upsert-grand_total ((j, m) ∷ rows) k r = elim (Bool-cases (conflict_key j == conflict_key k)) [
  | inl e ↦ rw e (omega int_laws)
  | inr e ↦ rw e (rw (upsert-grand_total rows k r) (omega int_laws))
]

pub process-AllBalanced :
    (rows d : RollupData)
    → AllBalanced rows
    → AllBalanced d
    → AllBalanced (process_tests_rollup rows d)
unfolding process_tests_rollup
process-AllBalanced rows [] h g = h
process-AllBalanced rows ((k, r) ∷ d) h (g, gs) =
    process-AllBalanced (upsert_rollup rows k r) d (upsert-AllBalanced rows k r g h) gs

pub process-grand_total :
    (rows d : RollupData)
    → grand_total (process_tests_rollup rows d) ≡ grand_total rows +ℤ grand_total d
unfolding process_tests_rollup grand_total
process-grand_total rows [] = omega int_laws
process-grand_total rows ((k, r) ∷ d) =
    rw (process-grand_total (upsert_rollup rows k r) d, upsert-grand_total rows k r)
      (omega int_laws)
