-- ===== src/Aggregation/Effects.antt =====
-- What an item does to the nine counters, stated by the entry that is stored for it.
use kernelci_dashboard.Base.{
  ◌≡◌, sym, ap, ◌∙◌, inl, inr, Option-cases, Bool-cases, true, false, Option, none, some, List,
  arith, string_eq, if◌then◌else◌, is_some,
}
use kernelci_dashboard.Base.Int.{ℤ, pos, ◌+ℤ◌, ◌-ℤ◌, +ℤ-zero, -ℤ-zero, -ℤ-self, int_laws}
use kernelci_dashboard.Status.{
  SimplifiedStatusChoices, passed, failed, inconclusive, map_simplified_status_to_count,
}
use kernelci_dashboard.Aggregation.Models.{ProcessedItem}
use kernelci_dashboard.Aggregation.Counts.{
  Kind, build, boot, test, Outcome, pass, inc, ListingItemCount, column, decrement, add_counts,
}
use kernelci_dashboard.Aggregation.Processed.{find_entry, add_entry}
use kernelci_dashboard.Aggregation.Items.{settles, check_item_was_processed, process_item}

-- A status counts one item under one outcome; no status counts as inconclusive.
abbrev pub credit : Option SimplifiedStatusChoices → Outcome → ℤ
credit (some passed) pass = pos 1
credit (some failed) Outcome.failed = pos 1
credit (some inconclusive) inc = pos 1
credit none inc = pos 1
credit _ _ = pos 0

abbrev pub entry_credit : Option ProcessedItem → Outcome → ℤ
entry_credit none o = pos 0
entry_credit (some x) o = credit x.status o

-- The entry for an item once it was processed: an entry with a status stays.
unfoldable pub entry_after : Option ProcessedItem → ProcessedItem → ProcessedItem
entry_after none x = x
entry_after (some (y)) x = if settles (some y) x.status then y else x

-- `n` for the counters of the item's kind, and 0 for the others.
abbrev pub only : Kind → Kind → ℤ → ℤ
only build build n = n
only boot boot n = n
only test test n = n
only _ _ n = pos 0

abbrev pick : Outcome → ℤ × ℤ × ℤ → ℤ
pick pass n = n.0
pick Outcome.failed n = n.1
pick inc n = n.2

column-add_counts :
    (k l : Kind) (o : Outcome) (n : ℤ × ℤ × ℤ) (r : ListingItemCount)
    → column l o (add_counts k n r) ≡ column l o r +ℤ only k l (pick o n)
unfolding column add_counts
column-add_counts build build o n r = ground arith
column-add_counts build boot o n r = rw +ℤ-zero (ground arith)
column-add_counts build test o n r = rw +ℤ-zero (ground arith)
column-add_counts boot build o n r = rw +ℤ-zero (ground arith)
column-add_counts boot boot o n r = ground arith
column-add_counts boot test o n r = rw +ℤ-zero (ground arith)
column-add_counts test build o n r = rw +ℤ-zero (ground arith)
column-add_counts test boot o n r = rw +ℤ-zero (ground arith)
column-add_counts test test o n r = ground arith

abbrev one_inc : Outcome → ℤ
one_inc inc = pos 1
one_inc _ = pos 0

column-decrement :
    (k l : Kind) (o : Outcome) (r : ListingItemCount)
    → column l o (decrement k r) ≡ column l o r -ℤ only k l (one_inc o)
unfolding column decrement
column-decrement build build o r = ground (arith, -ℤ-zero (column build o r))
column-decrement build boot o r = rw -ℤ-zero (ground arith)
column-decrement build test o r = rw -ℤ-zero (ground arith)
column-decrement boot build o r = rw -ℤ-zero (ground arith)
column-decrement boot boot o r = ground (arith, -ℤ-zero (column boot o r))
column-decrement boot test o r = rw -ℤ-zero (ground arith)
column-decrement test build o r = rw -ℤ-zero (ground arith)
column-decrement test boot o r = rw -ℤ-zero (ground arith)
column-decrement test test o r = ground (arith, -ℤ-zero (column test o r))

pick-credit :
    (status : Option SimplifiedStatusChoices) (o : Outcome)
    → pick o (map_simplified_status_to_count status) ≡ credit status o
unfolding map_simplified_status_to_count
pick-credit none o = ground arith
pick-credit (some x) o = ground arith

credit-none : (o : Outcome) → one_inc o ≡ credit none o
credit-none o = ground arith

-- The effect of an item on a counter of its kind: the credit of its entry afterwards, less the
-- credit of the entry that was stored.
abbrev pub change : Option ProcessedItem → ProcessedItem → Outcome → ℤ
change stored x o = entry_credit (some (entry_after stored x)) o -ℤ entry_credit stored o

-- The outcome of an item that the batch has not met yet.
pub process_item-fresh :
    (k : Kind) (x : ProcessedItem) (r : ListingItemCount) (existing new : List ProcessedItem)
    → find_entry x.listing_item_key x.checkout_id new ≡ none
    → process_item k x r existing new ≡ (
        let stored = find_entry x.listing_item_key x.checkout_id existing in
        if settles stored x.status then (false, r, new) else (
          true,
          add_counts k
              (map_simplified_status_to_count x.status)
              (if is_some stored then decrement k r else r),
          add_entry new x,
        ))
unfolding process_item
process_item-fresh k x r existing new fresh =
    elim (Option-cases (find_entry x.listing_item_key x.checkout_id existing)) [
      | inl e ↦ rw (e, fresh, process_item, check_item_was_processed, settles)
      | inr (y, e) ↦ rw (e, fresh, process_item, check_item_was_processed) (ground arith)
    ]

pub only-zero : (k l : Kind) (a : ℤ) → only k l (a -ℤ a) ≡ pos 0
only-zero k l a = rw (-ℤ-self a) (ground arith)

pub only-sub : (k l : Kind) (a b : ℤ) → only k l (a -ℤ b) ≡ only k l a -ℤ only k l b
only-sub k l a b = ground (arith, -ℤ-zero (pos 0))

column-change :
    (k l : Kind) (o : Outcome) (x : ProcessedItem) (r : ListingItemCount)
    (stored : Option ProcessedItem)
    → column l o (
        if settles stored x.status
        then r
        else add_counts k
            (map_simplified_status_to_count x.status)
            (if is_some stored then decrement k r else r))
      ≡ column l o r +ℤ only k l (change stored x o)
unfolding entry_after settles
column-change k l o x r none = rw (column-add_counts, pick-credit, -ℤ-zero)
column-change k l o x r (some y) = elim (Bool-cases (settles (some y) x.status)) [
  | inl old ↦ rw old (rw (only-zero, +ℤ-zero))
  | inr correction ↦
      let unset : y.status ≡ none = ground arith in
      let same : only k l (credit y.status o) ≡ only k l (one_inc o) =
        ap (λ s. only k l (credit s o)) unset ∙ ap (only k l) (sym (credit-none o)) in
      rw correction
        (rw (column-add_counts, pick-credit, column-decrement, only-sub, same) (omega int_laws))
]

-- An item that the batch has not met yet changes the counters of its kind, and no others, by the
-- difference between its entry afterwards and the stored one.
pub process_item-change :
    (k l : Kind) (o : Outcome) (x : ProcessedItem) (r : ListingItemCount)
    (existing new : List ProcessedItem)
    → find_entry x.listing_item_key x.checkout_id new ≡ none
    → column l o (process_item k x r existing new).1
      ≡ column l o r +ℤ only k l (change (find_entry x.listing_item_key x.checkout_id existing) x o)
process_item-change k l o x r existing new fresh =
    rw (process_item-fresh k x r existing new fresh) (
      ground
        (arith, column-change k l o x r (find_entry x.listing_item_key x.checkout_id existing)))
