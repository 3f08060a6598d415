-- ===== src/Details/Tally.antt =====
-- Counts by status: StatusCount of typeModels/common.py, the dicts that hold a number for each status
-- met, and dicts of such counts.
use kernelci_dashboard.Base.{
  String, ◌≡◌, refl, sym, ap, Bool-cases, inl, inr, Option, none, some, [], ◌∷◌, arith, Eq, ◌==◌,
  option_eq, if◌then◌else◌, get_or,
}
use kernelci_dashboard.Base.Dict.{Dict, lookup, insert, lookup-insert}
use kernelci_dashboard.Base.Int.{ℤ, pos, ◌+ℤ◌, ◌-ℤ◌, int_laws, +ℤ-zero}
use kernelci_dashboard.Status.{StatusChoices, pass, fail, skip, error, miss, done}

StatusChoices-discrete : Discrete StatusChoices
StatusChoices-discrete = hlevel

instance unfoldable pub status_eq : Eq StatusChoices
unfolding StatusChoices-discrete
status_eq = record { dec = StatusChoices-discrete }

-- A status in a row that was normalised: `none` is the text "NULL".
abbrev pub Status : Type 0
Status = Option StatusChoices

abbrev pub status_text : Status → String
status_text (some pass) = "PASS"
status_text (some fail) = "FAIL"
status_text (some skip) = "SKIP"
status_text (some error) = "ERROR"
status_text (some miss) = "MISS"
status_text (some done) = "DONE"
status_text none = "NULL"

-- The defaults are 0, and no code sets a field to None.
pub record StatusCount : Type 0 where
  pub pass : ℤ
  pub error : ℤ
  pub fail : ℤ
  pub skip : ℤ
  pub miss : ℤ
  pub done : ℤ
  pub null : ℤ

abbrev pub no_counts : StatusCount
no_counts = record {
  pass = pos 0;
  error = pos 0;
  fail = pos 0;
  skip = pos 0;
  miss = pos 0;
  done = pos 0;
  null = pos 0;
}

-- `getattr(count, status)`
unfoldable pub count_of : Status → StatusCount → ℤ
count_of (some pass) c = c.pass
count_of (some fail) c = c.fail
count_of (some skip) c = c.skip
count_of (some error) c = c.error
count_of (some miss) c = c.miss
count_of (some done) c = c.done
count_of none c = c.null

-- `count.increment(status, n)`, and the `setattr` that does the same
unfoldable pub increment : Status → ℤ → StatusCount → StatusCount
increment (some pass) n c = record c { pass = c.pass +ℤ n }
increment (some fail) n c = record c { fail = c.fail +ℤ n }
increment (some skip) n c = record c { skip = c.skip +ℤ n }
increment (some error) n c = record c { error = c.error +ℤ n }
increment (some miss) n c = record c { miss = c.miss +ℤ n }
increment (some done) n c = record c { done = c.done +ℤ n }
increment none n c = record c { null = c.null +ℤ n }

-- Something that counts by status.
pub record Tally (C : Type 0) : Type 0 where
  pub empty : C
  pub read : Status → C → ℤ
  pub bump : Status → ℤ → C → C
  pub read-empty : (s : Status) → read s empty ≡ pos 0
  pub read-bump :
      (s t : Status) (n : ℤ) (c : C)
      → read s (bump t n c) ≡ read s c +ℤ (if s == t then n else pos 0)

pub count_of-no_counts : (s : Status) → count_of s no_counts ≡ pos 0
unfolding count_of
count_of-no_counts s = ground arith

pub count_of-increment :
    (s t : Status) (n : ℤ) (c : StatusCount)
    → count_of s (increment t n c) ≡ count_of s c +ℤ (if s == t then n else pos 0)
unfolding count_of increment
count_of-increment s t n c = elim (Bool-cases (s == t)) [
  | inl p ↦ rw p (ground (arith))
  | inr p ↦ rw p (ground (arith, +ℤ-zero (count_of s c)))
]

instance unfoldable pub count_tally : Tally StatusCount
unfolding count_of increment
count_tally = record {
  empty = no_counts;
  read = count_of;
  bump = increment;
  read-empty = count_of-no_counts;
  read-bump = count_of-increment;
}

-- a dict from statuses to numbers, read by `get(status, 0)`
abbrev pub StatusDict : Type 0
StatusDict = Dict Status ℤ

unfoldable pub get_count : Status → StatusDict → ℤ
unfolding lookup
get_count s d = get_or (lookup s d) (pos 0)

unfoldable pub add_count : Status → ℤ → StatusDict → StatusDict
unfolding insert get_count
add_count s n d = insert s (get_count s d +ℤ n) d

pub get_count-nil : (s : Status) → get_count s [] ≡ pos 0
unfolding get_count
get_count-nil s = refl

pub get_count-add_count :
    (s t : Status) (n : ℤ) (d : StatusDict)
    → get_count s (add_count t n d) ≡ get_count s d +ℤ (if s == t then n else pos 0)
unfolding add_count get_count
get_count-add_count s t n d = elim (Bool-cases (s == t)) [
  | inl p ↦
      rw (lookup-insert s t (get_count t d +ℤ n) d, p)
        (ap (λ u. get_count u d +ℤ n) (sym (ground arith)))
  | inr p ↦ rw (lookup-insert s t (get_count t d +ℤ n) d, p) (sym (+ℤ-zero _))
]

instance unfoldable pub dict_tally : Tally StatusDict
unfolding get_count add_count
dict_tally = record {
  empty = [];
  read = get_count;
  bump = add_count;
  read-empty = get_count-nil;
  read-bump = get_count-add_count;
}

-- A dict of counts, by config, by origin and so on.
module _ {ℓ} {K : Type ℓ} {C : Type 0} ⦃e : Eq K⦄ ⦃t : Tally C⦄ where
  -- `d.setdefault(k, empty)`
  unfoldable pub entry : K → Dict K C → C
  unfolding lookup
  entry k d = get_or (lookup k d) t.empty

  unfoldable pub setdefault : K → Dict K C → Dict K C
  unfolding entry insert
  setdefault k d = insert k (entry k d) d

  -- `d[k][status] += n`
  unfoldable pub bump_at : K → Status → ℤ → Dict K C → Dict K C
  unfolding entry insert
  bump_at k s n d = insert k (t.bump s n (entry k d)) d

  -- the sum over all entries
  unfoldable pub sum_at : Status → Dict K C → ℤ
  sum_at s [] = pos 0
  sum_at s ((_, c) ∷ d) = t.read s c +ℤ sum_at s d

  pub sum_at-insert :
      (s : Status) (k : K) (c : C) (d : Dict K C)
      → sum_at s (insert k c d) ≡ sum_at s d +ℤ (t.read s c -ℤ t.read s (entry k d))
  unfolding insert sum_at entry lookup
  sum_at-insert s k c [] = rw (t.read-empty s) (omega int_laws)
  sum_at-insert s k c ((j, b) ∷ d) = elim (Bool-cases (k == j)) [
    | inl p ↦ rw p (omega int_laws)
    | inr p ↦ rw p (rw (sum_at-insert s k c d) (omega int_laws))
  ]

  pub sum_at-setdefault :
      (s : Status) (k : K) (d : Dict K C) → sum_at s (setdefault k d) ≡ sum_at s d
  unfolding setdefault
  sum_at-setdefault s k d = rw (sum_at-insert s k (entry k d) d) (omega int_laws)

  pub sum_at-bump_at :
      (s u : Status) (k : K) (n : ℤ) (d : Dict K C)
      → sum_at s (bump_at k u n d) ≡ sum_at s d +ℤ (if s == u then n else pos 0)
  unfolding bump_at
  sum_at-bump_at s u k n d =
      rw (sum_at-insert s k (t.bump u n (entry k d)) d, t.read-bump s u n (entry k d))
        (omega int_laws)
