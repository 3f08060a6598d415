-- ===== src/Details/Columns.antt =====
-- The columns of the rollup table that aggregate_tests_rollup of
-- backend/kernelCI_app/management/commands/helpers/process_pending_helpers.py builds.
use kernelci_dashboard.Base.{
  ◌≡◌, refl, sym, ap, String, ℕ, ◌+◌, Bool, true, false, Bool-cases, Option-cases, inl, inr, List,
  [], ◌∷◌, arith, not, ◌&&◌, if◌then◌else◌, string_eq, option_eq, ◌==◌, is_some, All, get_or,
}
use kernelci_dashboard.Base.Dict.{Dict, lookup, insert}
use kernelci_dashboard.Base.Int.{ℤ, pos, ◌+ℤ◌, ◌-ℤ◌, ◌≤ℤ◌, +ℤ_parts, int_laws, +ℤ-zero}
use kernelci_dashboard.Aggregation.Models.{Build, PendingTest}
use kernelci_dashboard.Rollup.Entries.{
  RollupKey, rollup_key_eq, RollupCounts, RollupData, zero_rollup, increment, count_status,
  accumulate_rollup_entry, rollup_key_of, aggregate_tests_rollup, IssuesMap,
}
use kernelci_dashboard.Details.Tally.{Status, status_eq}
use kernelci_dashboard.Details.Counted.{add_number}
use kernelci_dashboard.Details.RollupRow.{field_of}

-- a condition on the side of a row: boots, or tests
abbrev pub on_side : Bool → Bool → Bool
on_side boots is_boot_row = if boots then is_boot_row else not is_boot_row

field-count_status :
    (u st : Status) (c : RollupCounts)
    → field_of u (count_status false st c) ≡ field_of u c +ℤ (if u == st then pos 1 else pos 0)
unfolding count_status increment
field-count_status u st c = elim (Bool-cases (u == st)) [
  | inl p ↦ rw p (ground (arith))
  | inr p ↦ rw p (ground (arith, +ℤ-zero (field_of u c)))
]

field-zero : (u : Status) → field_of u zero_rollup ≡ pos 0
field-zero u = ground arith

-- the sum of a status's column over one side of the table
unfoldable pub column : Bool → Status → RollupData → ℤ
column boots u [] = pos 0
column boots u ((k, c) ∷ d) =
    (if on_side boots k.is_boot then field_of u c else pos 0) +ℤ column boots u d

same_key : (k j : RollupKey) → k == j ≡ true → k ≡ j
same_key k j h = ground arith

-- a sum of which one term changes, or is new
changed_term :
    (b : Bool) (x y z : ℤ)
    → (if b then x else pos 0) +ℤ z ≡ (if b then y else pos 0) +ℤ z +ℤ (if b then x -ℤ y else pos 0)
changed_term true x y z = omega int_laws
changed_term false x y z = omega int_laws

new_term :
    (b : Bool) (x : ℤ)
    → (if b then x else pos 0) +ℤ pos 0 ≡ pos 0 +ℤ (if b then x -ℤ pos 0 else pos 0)
new_term true x = omega int_laws
new_term false x = omega int_laws

pub column-insert :
    (boots : Bool) (u : Status) (k : RollupKey) (c : RollupCounts) (d : RollupData)
    → column boots u (insert k c d)
      ≡ column boots u d
        +ℤ (if on_side boots k.is_boot
            then field_of u c -ℤ field_of u (get_or (lookup k d) zero_rollup)
            else pos 0)
unfolding column insert lookup
column-insert boots u k c [] = rw (field-zero u) (new_term (on_side boots k.is_boot) (field_of u c))
column-insert boots u k c ((j, b) ∷ d) = elim (Bool-cases (k == j)) [
  | inl p ↦
      rw (p, column)
        (rw (← ap (λ key. on_side boots key.is_boot) (same_key k j p))
          (changed_term (on_side boots k.is_boot) (field_of u c) (field_of u b) (column boots u d)))
  | inr p ↦ rw (p, column) (rw (column-insert boots u k c d) (omega int_laws))
]

one_more :
    (b e : Bool) (a x : ℤ)
    → a +ℤ (if b then x +ℤ (if e then pos 1 else pos 0) -ℤ x else pos 0)
      ≡ a +ℤ (if b && e then pos 1 else pos 0)
one_more true true a x = omega int_laws
one_more true false a x = omega int_laws
one_more false e a x = refl

accumulate-column :
    (boots : Bool) (u : Status) (d : RollupData) (k : RollupKey) (st : Status)
    → column boots u (accumulate_rollup_entry d k st false)
      ≡ column boots u d +ℤ (if on_side boots k.is_boot && u == st then pos 1 else pos 0)
unfolding accumulate_rollup_entry
accumulate-column boots u d k st =
    rw
      (
        column-insert boots u k (count_status false st (get_or (lookup k d) zero_rollup)) d,
        field-count_status u st (get_or (lookup k d) zero_rollup),
      )
      (one_more (on_side boots k.is_boot) (u == st) (column boots u d) _)

-- the tests with a known build that are on a side and have a status
unfoldable pub tests_with : Bool → Status → Dict String Build → List PendingTest → ℕ
tests_with boots u builds [] = 0
tests_with boots u builds (t ∷ ts) =
    (if is_some (lookup t.build_id builds) && on_side boots t.is_boot && u == t.full_status
      then 1
      else 0)
    + tests_with boots u builds ts

pub aggregate-column :
    (boots : Bool) (u : Status) (ts : List PendingTest) (builds : Dict String Build)
    (issues : IssuesMap) (d : RollupData)
    → column boots u (aggregate_tests_rollup ts builds issues [] d)
      ≡ column boots u d +ℤ pos (tests_with boots u builds ts)
unfolding aggregate_tests_rollup tests_with rollup_key_of
aggregate-column boots u [] builds issues d = sym (+ℤ-zero _)
aggregate-column boots u (t ∷ ts) builds issues d = elim (Option-cases (lookup t.build_id builds)) [
  | inl p ↦
      rw (p, aggregate_tests_rollup, tests_with)
        (rw (aggregate-column boots u ts builds issues d) (omega int_laws))
  | inr (b, p) ↦
      rw (p, aggregate_tests_rollup, tests_with)
        (rw
          (
            aggregate-column boots u ts builds issues
                (accumulate_rollup_entry d (rollup_key_of t b issues) t.full_status false),
            accumulate-column boots u d (rollup_key_of t b issues) t.full_status,
          )
          (add_number (on_side boots t.is_boot && u == t.full_status) _ _))
]

-- No column of a table is negative.
abbrev pub AllNonnegative : RollupData → Type 0
AllNonnegative = All (λ (_, c). (u : Status) → pos 0 ≤ℤ field_of u c)

increment-Nonnegative :
    (st u : Status) (c : RollupCounts)
    → pos 0 ≤ℤ field_of u c
    → pos 0 ≤ℤ field_of u (count_status false st c)
increment-Nonnegative st u c h = rw (field-count_status u st c) (elim (Bool-cases (u == st)) [
  | inl p ↦ rw p (omega (arith, h, +ℤ_parts (field_of u c) (pos 1)))
  | inr p ↦ rw p (omega (arith, h, +ℤ_parts (field_of u c) (pos 0)))
])

lookup-Nonnegative :
    (k : RollupKey) (d : RollupData) (u : Status)
    → AllNonnegative d
    → pos 0 ≤ℤ field_of u (get_or (lookup k d) zero_rollup)
unfolding lookup
lookup-Nonnegative k [] u h = rw (field-zero u) (omega arith)
lookup-Nonnegative k ((j, c) ∷ d) u (h, hs) = elim (Bool-cases (k == j)) [
  | inl p ↦ rw p (h u)
  | inr p ↦ rw p (lookup-Nonnegative k d u hs)
]

insert-AllNonnegative :
    (k : RollupKey) (c : RollupCounts) (d : RollupData)
    → ((u : Status) → pos 0 ≤ℤ field_of u c)
    → AllNonnegative d
    → AllNonnegative (insert k c d)
unfolding insert
insert-AllNonnegative k c [] h hs = (h, hs)
insert-AllNonnegative k c ((j, b) ∷ d) h (g, gs) = elim (Bool-cases (k == j)) [
  | inl p ↦ rw p (h, gs)
  | inr p ↦ rw p (g, insert-AllNonnegative k c d h gs)
]

pub aggregate-AllNonnegative :
    (ts : List PendingTest) (builds : Dict String Build) (issues : IssuesMap) (d : RollupData)
    → AllNonnegative d
    → AllNonnegative (aggregate_tests_rollup ts builds issues [] d)
unfolding aggregate_tests_rollup accumulate_rollup_entry
aggregate-AllNonnegative [] builds issues d h = h
aggregate-AllNonnegative (t ∷ ts) builds issues d h =
    aggregate-AllNonnegative ts builds issues _ (elim (Option-cases (lookup t.build_id builds)) [
      | inl p ↦ rw p h
      | inr (b, p) ↦ rw p (
          let k = rollup_key_of t b issues in
          insert-AllNonnegative k
            (count_status false t.full_status (get_or (lookup k d) zero_rollup)) d
            (λ u.
              increment-Nonnegative t.full_status u (get_or (lookup k d) zero_rollup)
                (lookup-Nonnegative k d u h))
            h)
    ])

pub empty_table : AllNonnegative []
empty_table = ground arith
