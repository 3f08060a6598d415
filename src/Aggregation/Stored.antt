-- ===== src/Aggregation/Stored.antt =====
-- What the table of processed items holds once a batch has been written to it.
use kernelci_dashboard.Base.{
  String, ◌≡◌, refl, ◌∙◌, inl, inr, Bool-cases, Bool, true, false, none, some, List, [], ◌∷◌, arith,
  ◌==◌, ◌&&◌, not, string_eq, if◌then◌else◌, All, contains,
}
use kernelci_dashboard.Aggregation.Models.{ProcessedItem}
use kernelci_dashboard.Aggregation.Processed.{
  find_entry, has_key, add_entry, remove_key, get_existing_processed, process_new_processed_entries,
}
use kernelci_dashboard.Aggregation.Items.{settles}
use kernelci_dashboard.Aggregation.TreeListing.{
  Context, TreeListingData, aggregate_context, aggregate_contexts,
}
use kernelci_dashboard.Aggregation.Totals.{
  status_of, is_counted, entry_of, Distinct, AllFresh, find_entry-none, process_by_class-set,
  AllFresh-step,
}

-- The primary key: an entry for a key at most.
abbrev pub Unique : List ProcessedItem → Type 0
Unique [] = Unit
Unique (x ∷ xs) = (has_key x.listing_item_key xs ≡ false) × Unique xs

find_entry-remove_key :
    (key checkout_id k : String) (xs : List ProcessedItem)
    → find_entry key checkout_id (remove_key k xs)
      ≡ (if k == key then none else find_entry key checkout_id xs)
unfolding find_entry remove_key
find_entry-remove_key key checkout_id k [] = ground arith
find_entry-remove_key key checkout_id k (x ∷ xs) =
    ground (arith, find_entry-remove_key key checkout_id k xs)

-- After a set with one entry for a key is written, what is found for a key is the set's entry if the
-- key is in the set, and what the table held otherwise.
pub find_entry-write :
    (key checkout_id : String) (table new : List ProcessedItem)
    → Unique new
    → find_entry key checkout_id (process_new_processed_entries table new) ≡ (
        if has_key key new
        then find_entry key checkout_id new
        else find_entry key checkout_id table)
unfolding process_new_processed_entries has_key find_entry
find_entry-write key checkout_id table [] u = refl
find_entry-write key checkout_id table (x ∷ xs) u = ground (
  arith,
  find_entry-write key checkout_id table xs u.1,
  find_entry-remove_key key checkout_id x.listing_item_key (process_new_processed_entries table xs),
  find_entry-none key checkout_id xs,
)

pub find_entry-existing :
    (key checkout_id : String) (keys : List String) (table : List ProcessedItem)
    → contains keys key ≡ true
    → find_entry key checkout_id (get_existing_processed table keys)
      ≡ find_entry key checkout_id table
unfolding get_existing_processed find_entry
find_entry-existing key checkout_id keys [] h = refl
find_entry-existing key checkout_id keys (x ∷ xs) h =
    ground (arith, find_entry-existing key checkout_id keys xs h)

-- whether a context writes its entry
abbrev pub is_written : List ProcessedItem → Context → Bool
is_written existing c =
    is_counted c.item
    && not (settles (find_entry c.listing_key c.checkout.id existing) (status_of c.item))

pub aggregate_context-set :
    (existing : List ProcessedItem) (c : Context) (d : TreeListingData) (new : List ProcessedItem)
    → has_key c.listing_key new ≡ false
    → (aggregate_context existing c d new).1
      ≡ (if is_written existing c then add_entry new (entry_of c) else new)
unfolding aggregate_context
aggregate_context-set existing c d new h = rw process_by_class-set

module _ (existing : List ProcessedItem) (key checkout_id : String) where
  step-other :
      (c : Context) (d : TreeListingData) (new : List ProcessedItem)
      → has_key c.listing_key new ≡ false
      → (c.listing_key == key) ≡ false
      → (find_entry key checkout_id (aggregate_context existing c d new).1
          ≡ find_entry key checkout_id new)
        × (has_key key (aggregate_context existing c d new).1 ≡ has_key key new)
  unfolding find_entry has_key add_entry
  step-other c d new h differ = rw (aggregate_context-set existing c d new h) (ground arith)

  -- A key that no context has is left alone.
  batch-other :
      (cs : List Context) (d : TreeListingData) (new : List ProcessedItem)
      → Distinct cs
      → AllFresh new cs
      → All (λ b. (b.listing_key == key) ≡ false) cs
      → (find_entry key checkout_id (aggregate_contexts existing cs d new).1
          ≡ find_entry key checkout_id new)
        × (has_key key (aggregate_contexts existing cs d new).1 ≡ has_key key new)
  unfolding aggregate_contexts
  batch-other [] d new distinct fresh differ = (refl, refl)
  batch-other (c ∷ cs) d new distinct fresh differ =
      let next = aggregate_context existing c d new in
      let one = step-other c d new fresh.0 differ.0 in
      let rest =
        batch-other cs next.0 next.1 distinct.1
          (AllFresh-step existing c d new cs fresh.0 distinct.0 fresh.1) differ.1 in
      (rest.0 ∙ one.0, rest.1 ∙ one.1)

-- What a batch holds for a context: its entry if it is written, and nothing if it is not.
abbrev pub IsRecorded : List ProcessedItem → List ProcessedItem → Context → Type 0
IsRecorded existing new b =
    (find_entry b.listing_key b.checkout.id new
      ≡ (if is_written existing b then some (entry_of b) else none))
    × (has_key b.listing_key new ≡ is_written existing b)

flip : (a b : String) → (a == b) ≡ false → (b == a) ≡ false
flip a b h = ground arith

All-flip :
    (key : String) (cs : List Context)
    → All (λ d. (key == d.listing_key) ≡ false) cs
    → All (λ d. (d.listing_key == key) ≡ false) cs
All-flip key [] h = tt
All-flip key (c ∷ cs) h = (flip key c.listing_key h.0, All-flip key cs h.1)

module _ (existing : List ProcessedItem) where
  step-own :
      (c : Context) (d : TreeListingData) (new : List ProcessedItem)
      → has_key c.listing_key new ≡ false
      → IsRecorded existing (aggregate_context existing c d new).1 c
  unfolding find_entry has_key add_entry
  step-own c d new h =
      rw (aggregate_context-set existing c d new h)
        (ground (arith, find_entry-none c.listing_key c.checkout.id new h))

  -- After a batch whose keys differ and are new to its set, each of its items has an entry in the set
  -- exactly when it is written: an item that its stored entry settles, and a dummy build, has none.
  pub batch-IsRecorded :
      (cs : List Context) (d : TreeListingData) (new : List ProcessedItem)
      → Distinct cs
      → AllFresh new cs
      → All (IsRecorded existing (aggregate_contexts existing cs d new).1) cs
  unfolding aggregate_contexts
  batch-IsRecorded [] d new distinct fresh = tt
  batch-IsRecorded (c ∷ cs) d new distinct fresh =
      let next = aggregate_context existing c d new in
      let fresh' = AllFresh-step existing c d new cs fresh.0 distinct.0 fresh.1 in
      let later =
        batch-other existing c.listing_key c.checkout.id cs next.0 next.1 distinct.1 fresh'
          (All-flip c.listing_key cs distinct.0) in
      let own = step-own c d new fresh.0 in
      ((later.0 ∙ own.0, later.1 ∙ own.1), batch-IsRecorded cs next.0 next.1 distinct.1 fresh')

  step-Unique :
      (c : Context) (d : TreeListingData) (new : List ProcessedItem)
      → has_key c.listing_key new ≡ false
      → Unique new
      → Unique (aggregate_context existing c d new).1
  unfolding add_entry
  step-Unique c d new h u =
      rw (aggregate_context-set existing c d new h) (elim (Bool-cases (is_written existing c)) [
        | inl written ↦
            let added : add_entry new (entry_of c) ≡ entry_of c ∷ new = rw (h, add_entry) in
            rw written (rw added (h, u))
        | inr settled ↦ rw settled u
      ])

  -- A batch whose keys differ and are new to its set leaves one entry at most for each key in the set,
  -- if there was one at most before.
  pub batch-Unique :
      (cs : List Context) (d : TreeListingData) (new : List ProcessedItem)
      → Distinct cs
      → AllFresh new cs
      → Unique new
      → Unique (aggregate_contexts existing cs d new).1
  unfolding aggregate_contexts
  batch-Unique [] d new distinct fresh u = u
  batch-Unique (c ∷ cs) d new distinct fresh u =
      let next = aggregate_context existing c d new in
      batch-Unique cs next.0 next.1 distinct.1
        (AllFresh-step existing c d new cs fresh.0 distinct.0 fresh.1)
        (step-Unique c d new fresh.0 u)
