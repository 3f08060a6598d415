-- ===== src/Ingest/Listing.antt =====
-- update_tree_listing. The code sorts the checkouts first, for the order of its locks; the theorems
-- hold of every order.
use kernelci_dashboard.Base.{
  ℕ, ◌≡◌, refl, Bool, true, false, ◌&&◌, Option, some, List, [], ◌∷◌, arith, ◌==◌, string_eq,
  option_eq, ltb, any, if◌then◌else◌, All, Bool-cases, inl, inr,
}
use kernelci_dashboard.Base.Int.{ℤ, pos, ◌+ℤ◌, int_laws}
use kernelci_dashboard.Aggregation.Models.{Checkout}
use kernelci_dashboard.Aggregation.Counts.{Kind, build, boot, test, Outcome, zero_counts, column}
use kernelci_dashboard.Pending.Store.{TreeListingRow}

-- the conflict target: NULLs are equal
unfoldable pub is_tree_of : Checkout → TreeListingRow → Bool
is_tree_of c row =
    row.origin == c.origin
    && row.tree_name == c.tree_name
    && row.git_repository_url == c.git_repository_url
    && row.git_repository_branch == c.git_repository_branch
    && row.git_commit_hash == c.git_commit_hash

-- `<` of SQL as a condition: a comparison with NULL does not hold
abbrev pub is_before : Option ℕ → Option ℕ → Bool
is_before (some a) (some b) = ltb a b
is_before _ _ = false

-- DO UPDATE SET … WHERE tree_listing.start_time < EXCLUDED.start_time
abbrev pub update_info : Checkout → TreeListingRow → TreeListingRow
update_info c row =
    if is_before row.start_time c.start_time
    then record row {
      checkout_id = c.id;
      git_commit_hash = c.git_commit_hash;
      git_commit_name = c.git_commit_name;
      git_commit_tags = c.git_commit_tags;
      start_time = c.start_time;
    }
    else row

abbrev pub new_row : Checkout → TreeListingRow
new_row c = record {
  origin = c.origin;
  tree_name = c.tree_name;
  git_repository_branch = c.git_repository_branch;
  git_repository_url = c.git_repository_url;
  git_commit_hash = c.git_commit_hash;
  checkout_id = c.id;
  git_commit_name = c.git_commit_name;
  git_commit_tags = c.git_commit_tags;
  start_time = c.start_time;
  counts = zero_counts;
}

unfoldable pub upsert_tree : List TreeListingRow → Checkout → List TreeListingRow
unfolding is_tree_of
upsert_tree [] c = new_row c ∷ []
upsert_tree (row ∷ rows) c =
    let rest = upsert_tree rows c in
    if is_tree_of c row then update_info c row ∷ rows else row ∷ rest

unfoldable pub update_tree_listing : List TreeListingRow → List Checkout → List TreeListingRow
unfolding upsert_tree
update_tree_listing rows [] = rows
update_tree_listing rows (c ∷ cs) = update_tree_listing (upsert_tree rows c) cs

-- a counter, over all trees
abbrev pub sum_column : Kind → Outcome → List TreeListingRow → ℤ
sum_column l o [] = pos 0
sum_column l o (row ∷ rows) = column l o row.counts +ℤ sum_column l o rows

new_column : (l : Kind) (o : Outcome) → column l o zero_counts ≡ pos 0
unfolding column
new_column build o = ground arith
new_column boot o = ground arith
new_column test o = ground arith

update_info-counts : (c : Checkout) (row : TreeListingRow) → (update_info c row).counts ≡ row.counts
update_info-counts c row = ground arith

upsert_tree-sum_column :
    (l : Kind) (o : Outcome) (rows : List TreeListingRow) (c : Checkout)
    → sum_column l o (upsert_tree rows c) ≡ sum_column l o rows
unfolding upsert_tree
upsert_tree-sum_column l o [] c = rw (new_column l o) (omega int_laws)
upsert_tree-sum_column l o (row ∷ rows) c = elim (Bool-cases (is_tree_of c row)) [
  | inl e ↦ rw e (rw (update_info-counts c row) refl)
  | inr e ↦ rw e (rw (upsert_tree-sum_column l o rows c) refl)
]

-- The checkouts of a batch change no counter: the sum of each of the nine over all trees is as
-- before, whether their trees are there or not.
pub update_tree_listing-sum_column :
    (l : Kind) (o : Outcome) (rows : List TreeListingRow) (cs : List Checkout)
    → sum_column l o (update_tree_listing rows cs) ≡ sum_column l o rows
unfolding update_tree_listing
update_tree_listing-sum_column l o rows [] = refl
update_tree_listing-sum_column l o rows (c ∷ cs) =
    rw (update_tree_listing-sum_column l o (upsert_tree rows c) cs)
      (upsert_tree-sum_column l o rows c)

update_info-is_tree_of :
    (c d : Checkout) (row : TreeListingRow)
    → is_tree_of c row ≡ true
    → is_tree_of d (update_info c row) ≡ is_tree_of d row
unfolding is_tree_of
update_info-is_tree_of c d row h = ground arith

new_row-is_tree_of : (c : Checkout) → is_tree_of c (new_row c) ≡ true
unfolding is_tree_of
new_row-is_tree_of c = ground arith

upsert_tree-own :
    (rows : List TreeListingRow) (c : Checkout) → any (is_tree_of c) (upsert_tree rows c) ≡ true
unfolding upsert_tree any
upsert_tree-own [] c = ground (arith, new_row-is_tree_of c)
upsert_tree-own (row ∷ rows) c =
    ground (arith, upsert_tree-own rows c, update_info-is_tree_of c c row)

upsert_tree-kept :
    (rows : List TreeListingRow) (c d : Checkout)
    → any (is_tree_of d) rows ≡ true
    → any (is_tree_of d) (upsert_tree rows c) ≡ true
unfolding upsert_tree any
upsert_tree-kept [] c d h = ground arith
upsert_tree-kept (row ∷ rows) c d h = elim (Bool-cases (is_tree_of c row)) [
  | inl e ↦ rw e (rw (update_info-is_tree_of c d row e) h)
  | inr e ↦ elim (Bool-cases (is_tree_of d row)) [
    | inl f ↦ rw (e, any, f) refl
    | inr f ↦ rw (e, any, f) (upsert_tree-kept rows c d (rw (any, f) at h))
  ]
]

kept_by_all :
    (rows : List TreeListingRow) (cs : List Checkout) (d : Checkout)
    → any (is_tree_of d) rows ≡ true
    → any (is_tree_of d) (update_tree_listing rows cs) ≡ true
unfolding update_tree_listing
kept_by_all rows [] d h = h
kept_by_all rows (c ∷ cs) d h = kept_by_all (upsert_tree rows c) cs d (upsert_tree-kept rows c d h)

-- Every checkout of a batch has a row of its tree and commit afterwards.
pub update_tree_listing-any :
    (rows : List TreeListingRow) (cs : List Checkout)
    → All (λ c. any (is_tree_of c) (update_tree_listing rows cs) ≡ true) cs
unfolding update_tree_listing
update_tree_listing-any rows [] = tt
update_tree_listing-any rows (c ∷ cs) = (
  kept_by_all (upsert_tree rows c) cs c (upsert_tree-own rows c),
  update_tree_listing-any (upsert_tree rows c) cs,
)
