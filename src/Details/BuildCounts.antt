-- ===== src/Details/BuildCounts.antt =====
-- The summary of builds against the builds: create_details_build_summary of
-- backend/kernelCI_app/viewCommon.py.
use kernelci_dashboard.Base.{
  ◌≡◌, refl, sym, ap, ◌∙◌, ℕ, ◌+◌, String, Bool, true, false, not, ◌&&◌, Bool-cases, inl, inr,
  Option, none, some, List, [], ◌∷◌, contains, is_some, string_eq, option_eq, ◌==◌, if◌then◌else◌,
  get_or, is_none, any, arith, ◌||◌, ◌↔◌,
}
use kernelci_dashboard.Base.Dict.{Dict, lookup, lookup-insert}
use kernelci_dashboard.Base.Int.{ℤ, pos, ◌+ℤ◌, int_laws, +ℤ-zero}
use kernelci_dashboard.Base.Text.{is_full}
use kernelci_dashboard.Details.Tally.{
  Status, status_eq, StatusCount, count_of, count_tally, entry, bump_at, sum_at, count_of-no_counts,
  count_of-increment, sum_at-insert, sum_at-bump_at,
}
use kernelci_dashboard.Filters.Request.{ok, err, validation_error}
use kernelci_dashboard.Details.Misc.{Misc}
use kernelci_dashboard.Details.Instance.{BuildHistoryItem}
use kernelci_dashboard.Details.BuildSummary.{
  BuildArchitectures, add_compiler, arch_tally, BaseBuildSummary, no_builds, count_named,
  count_architecture, count_origin, count_lab, count_build, count_builds,
  create_details_build_summary, lab_of,
}

-- one for a build that a breakdown counts, with the status
abbrev one_if : Bool → Status → Status → ℤ
one_if counted u v = if counted && u == v then pos 1 else pos 0

count_named-sum :
    (u v : Status) (name : String) (d : Dict String StatusCount)
    → sum_at u (count_named name v d) ≡ sum_at u d +ℤ one_if (is_full name) u v
unfolding count_named
count_named-sum u v name d = elim (Bool-cases (is_full name)) [
  | inl p ↦ rw p (sum_at-bump_at u v name (pos 1) d)
  | inr p ↦ rw p (sym (+ℤ-zero _))
]

add_compiler-counts : (c : String) (a : BuildArchitectures) → (add_compiler c a).counts ≡ a.counts
unfolding add_compiler
add_compiler-counts c a = elim (Bool-cases (is_full c && not (contains a.compilers c))) [
  | inl p ↦ rw p refl
  | inr p ↦ rw p refl
]

count_architecture-sum :
    (u : Status) (b : BuildHistoryItem) (d : Dict String BuildArchitectures)
    → sum_at u (count_architecture b d) ≡ sum_at u d +ℤ one_if (is_full b.architecture) u b.status
unfolding count_architecture arch_tally
count_architecture-sum u b d = elim (Bool-cases (is_full b.architecture)) [
  | inr p ↦ rw p (sym (+ℤ-zero _))
  | inl p ↦
      let counted = bump_at b.architecture b.status (pos 1) d in
      let a = entry b.architecture counted in
      rw p (
        rw
          (
            sum_at-insert u b.architecture (add_compiler b.compiler a) counted,
            add_compiler-counts b.compiler a,
            sum_at-bump_at u b.status b.architecture (pos 1) d,
          )
          (omega int_laws))
]

count_origin-sum :
    (u v : Status) (origin : Option String) (d : Dict String StatusCount)
    → sum_at u (count_origin origin v d) ≡ sum_at u d +ℤ one_if (is_full (get_or origin "")) u v
unfolding count_origin is_full
count_origin-sum u v none d = sym (+ℤ-zero _)
count_origin-sum u v (some origin) d = count_named-sum u v origin d

count_lab-sum :
    (u v : Status) (misc : Option Misc) (d : Dict (Option String) StatusCount)
    → sum_at u (count_lab misc v d) ≡ sum_at u d +ℤ one_if (is_some misc) u v
unfolding count_lab
count_lab-sum u v none d = sym (+ℤ-zero _)
count_lab-sum u v (some misc) d = sum_at-bump_at u v _ (pos 1) d

-- how many builds satisfy a test and have a status
unfoldable pub builds_with : (BuildHistoryItem → Bool) → Status → List BuildHistoryItem → ℕ
builds_with p u [] = 0
builds_with p u (b ∷ bs) = (if p b && u == b.status then 1 else 0) + builds_with p u bs

one_more_build :
    (b : Bool) (a : ℤ) (n : ℕ)
    → a +ℤ (if b then pos 1 else pos 0) +ℤ pos n ≡ a +ℤ pos ((if b then 1 else 0) + n)
one_more_build true a n = omega int_laws
one_more_build false a n = omega int_laws

-- A measure that each build raises by one, or leaves, comes to the number of builds.
measured :
    (measure : BaseBuildSummary → ℤ) (p : BuildHistoryItem → Bool) (u : Status)
    → ((b : BuildHistoryItem) (s : BaseBuildSummary)
        → measure (count_build b s) ≡ measure s +ℤ one_if (p b) u b.status)
    → (bs : List BuildHistoryItem) (s : BaseBuildSummary)
    → measure (count_builds bs s) ≡ measure s +ℤ pos (builds_with p u bs)
unfolding count_builds builds_with
measured measure p u step [] s = sym (+ℤ-zero (measure s))
measured measure p u step (b ∷ bs) s =
    measured measure p u step bs (count_build b s)
    ∙ ap (λ n. n +ℤ pos (builds_with p u bs)) (step b s)
    ∙ one_more_build (p b && u == b.status) (measure s) (builds_with p u bs)

from_none : (a : ℤ) (n : ℕ) → a ≡ pos 0 → a +ℤ pos n ≡ pos n
from_none a n h = rw h (omega int_laws)

-- whether a build's data has a lab that is null
abbrev pub has_null_lab : BuildHistoryItem → Bool
has_null_lab b = elim b.misc [ none ↦ false | some misc ↦ is_none (lab_of misc) ]

bump_at-known :
    (k x : Option String) (u : Status) (d : Dict (Option String) StatusCount)
    → is_some (lookup x (bump_at k u (pos 1) d)) ≡ (x == k || is_some (lookup x d))
unfolding bump_at
bump_at-known k x u d =
    rw (lookup-insert x k (count_tally.bump u (pos 1) (entry k d)) d) (ground arith)

count_lab-known :
    (misc : Option Misc) (u : Status) (d : Dict (Option String) StatusCount)
    → is_some (lookup none (count_lab misc u d))
      ≡ (elim misc [ none ↦ false | some m ↦ is_none (lab_of m) ] || is_some (lookup none d))
unfolding count_lab option_eq
count_lab-known none u d = refl
count_lab-known (some m) u d = bump_at-known (lab_of m) none u d ∙ ground arith

count_builds-known :
    (bs : List BuildHistoryItem) (s : BaseBuildSummary)
    → is_some (lookup none (count_builds bs s).labs)
      ≡ (any has_null_lab bs || is_some (lookup none s.labs))
unfolding count_builds count_build any
count_builds-known [] s = refl
count_builds-known (b ∷ bs) s =
    ground (arith, count_builds-known bs (count_build b s), count_lab-known b.misc b.status s.labs)

or-false : (b : Bool) → (b || false) ≡ b
or-false b = ground arith

-- for each status, the counts of a summary of builds
abbrev pub IsCountOf : List BuildHistoryItem → BaseBuildSummary → Status → Type 0
IsCountOf builds s u =
    (count_of u s.status ≡ pos (builds_with (λ b. true) u builds))
    × (sum_at u s.configs ≡ pos (builds_with (λ b. is_full b.config_name) u builds))
    × (sum_at u s.architectures ≡ pos (builds_with (λ b. is_full b.architecture) u builds))
    × (sum_at u s.origins ≡ pos (builds_with (λ b. is_full (get_or b.origin "")) u builds))
    × (sum_at u s.labs ≡ pos (builds_with (λ b. is_some b.misc) u builds))

count_builds-IsCountOf :
    (builds : List BuildHistoryItem) (u : Status)
    → IsCountOf builds (count_builds builds no_builds) u
unfolding count_build sum_at
count_builds-IsCountOf builds u = (
  measured (λ s. count_of u s.status) (λ b. true) u
        (λ b s. count_of-increment u b.status (pos 1) s.status) builds no_builds
      ∙ from_none _ _ (count_of-no_counts u),
  measured (λ s. sum_at u s.configs) (λ b. is_full b.config_name) u
        (λ b s. count_named-sum u b.status b.config_name s.configs) builds no_builds
      ∙ from_none _ _ refl,
  measured (λ s. sum_at u s.architectures) (λ b. is_full b.architecture) u
        (λ b s. count_architecture-sum u b s.architectures) builds no_builds
      ∙ from_none _ _ refl,
  measured (λ s. sum_at u s.origins) (λ b. is_full (get_or b.origin "")) u
        (λ b s. count_origin-sum u b.status b.origin s.origins) builds no_builds
      ∙ from_none _ _ refl,
  measured (λ s. sum_at u s.labs) (λ b. is_some b.misc) u
        (λ b s. count_lab-sum u b.status b.misc s.labs) builds no_builds
      ∙ from_none _ _ refl,
)

-- The summary of builds raises a ValidationError exactly when the data of some build has a lab that
-- is null. Otherwise there is one in which, for each status, the status's count is the number of
-- builds that have it, and the configs, the architectures, the origins and the labs add up to the
-- number of those of them whose config, whose architecture or whose origin is not empty, or that have
-- miscellaneous data.
pub build_summary_counts :
    (builds : List BuildHistoryItem)
    → ((create_details_build_summary builds ≡ err validation_error)
        ↔ (any has_null_lab builds ≡ true))
      × (any has_null_lab builds ≡ false
          → (s : BaseBuildSummary) × (create_details_build_summary builds ≡ ok s)
            × ((u : Status) → IsCountOf builds s u))
unfolding create_details_build_summary
build_summary_counts builds =
    let known : is_some (lookup none (count_builds builds no_builds).labs)
        ≡ any has_null_lab builds =
      count_builds-known builds no_builds ∙ or-false _ in
    rw known (
      ground arith,
      λ h. (count_builds builds no_builds, rw h refl, λ u. count_builds-IsCountOf builds u),
    )
