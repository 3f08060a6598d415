-- ===== src/Details/BuildSummary.antt =====
-- The summary of builds: create_details_build_summary of backend/kernelCI_app/viewCommon.py.
use Prim.Native.Char.{code}
use kernelci_dashboard.Base.{
  String, Bool, true, false, not, ◌&&◌, ◌||◌, Option, none, some, List, [], ◌∷◌, ◌++◌, contains,
  ltb, string_eq, option_eq, nat_eq, ◌==◌, if◌then◌else◌, get_or, is_some,
}
use kernelci_dashboard.Base.Dict.{Dict, lookup, insert}
use kernelci_dashboard.Base.Int.{pos}
use kernelci_dashboard.Base.Text.{is_full}
use kernelci_dashboard.Filters.Issues.{unknown_string}
use kernelci_dashboard.Filters.Request.{Result, ok, err, validation_error}
use kernelci_dashboard.Details.Tally.{
  Status, status_eq, StatusCount, no_counts, count_of, increment, Tally, count_tally, entry,
  bump_at, count_of-no_counts, count_of-increment,
}
use kernelci_dashboard.Details.Misc.{Misc}
use kernelci_dashboard.Details.Instance.{BuildHistoryItem}

-- the counts of an architecture, with the compilers of its builds
pub record BuildArchitectures : Type 0 where
  pub counts : StatusCount
  pub compilers : List String

-- the order of texts, by the codes of their characters
unfoldable pub text_before : String → String → Bool
text_before String.[] t = true
text_before (String.◌∷◌ c s) String.[] = false
text_before (String.◌∷◌ c s) (String.◌∷◌ d t) =
    ltb (code c) (code d) || code c == code d && text_before s t

unfoldable pub sort_in : String → List String → List String
unfolding text_before
sort_in x [] = x ∷ []
sort_in x (y ∷ ys) = if text_before x y then x ∷ y ∷ ys else y ∷ sort_in x ys

-- `compilers.sort()`
unfoldable pub sort_texts : List String → List String
unfolding sort_in
sort_texts [] = []
sort_texts (x ∷ xs) = sort_in x (sort_texts xs)

unfoldable pub add_compiler : String → BuildArchitectures → BuildArchitectures
unfolding is_full sort_texts
add_compiler compiler a =
    if is_full compiler && not (contains a.compilers compiler)
    then record a { compilers = sort_texts (a.compilers ++ (compiler ∷ [])) }
    else record a { compilers = sort_texts a.compilers }

instance unfoldable pub arch_tally : Tally BuildArchitectures
unfolding count_of increment
arch_tally = record {
  empty = record { counts = no_counts; compilers = [] };
  read = λ s a. count_of s a.counts;
  bump = λ s n a. record a { counts = increment s n a.counts };
  read-empty = count_of-no_counts;
  read-bump = λ s t n a. count_of-increment s t n a.counts;
}

pub record BaseBuildSummary : Type 0 where
  pub status : StatusCount
  pub configs : Dict String StatusCount
  pub architectures : Dict String BuildArchitectures
  pub origins : Dict String StatusCount
  pub labs : Dict (Option String) StatusCount

abbrev pub no_builds : BaseBuildSummary
no_builds = record { status = no_counts; configs = []; architectures = []; origins = []; labs = [] }

-- `_increment_status` of the entry of a key that is not empty
unfoldable pub count_named : String → Status → Dict String StatusCount → Dict String StatusCount
unfolding is_full bump_at
count_named name status d = if is_full name then bump_at name status (pos 1) d else d

-- the entry of an architecture, with the compiler among its compilers
unfoldable pub count_architecture :
    BuildHistoryItem → Dict String BuildArchitectures → Dict String BuildArchitectures
unfolding is_full bump_at add_compiler insert entry
count_architecture b d =
    let counted = bump_at b.architecture b.status (pos 1) d in
    if is_full b.architecture
    then insert b.architecture (add_compiler b.compiler (entry b.architecture counted)) counted
    else d

unfoldable pub count_origin :
    Option String → Status → Dict String StatusCount → Dict String StatusCount
unfolding count_named
count_origin none status d = d
count_origin (some origin) status d = count_named origin status d

-- `build.misc.get("lab", UNKNOWN_STRING)`: a null that is there stays null
unfoldable pub lab_of : Misc → Option String
unfolding lookup
lab_of misc = get_or (lookup "lab" misc) (some unknown_string)

unfoldable pub count_lab :
    Option Misc → Status → Dict (Option String) StatusCount → Dict (Option String) StatusCount
unfolding bump_at lab_of
count_lab none status d = d
count_lab (some misc) status d = bump_at (lab_of misc) status (pos 1) d

unfoldable pub count_build : BuildHistoryItem → BaseBuildSummary → BaseBuildSummary
unfolding increment count_named count_architecture count_origin count_lab
count_build b s = record {
  status = increment b.status (pos 1) s.status;
  configs = count_named b.config_name b.status s.configs;
  architectures = count_architecture b s.architectures;
  origins = count_origin b.origin b.status s.origins;
  labs = count_lab b.misc b.status s.labs;
}

unfoldable pub count_builds : List BuildHistoryItem → BaseBuildSummary → BaseBuildSummary
unfolding count_build
count_builds [] s = s
count_builds (b ∷ bs) s = count_builds bs (count_build b s)

-- The keys of `BaseBuildSummary.labs` are texts, so that a None among them is a ValidationError.
unfoldable pub create_details_build_summary : List BuildHistoryItem → Result BaseBuildSummary
unfolding count_builds lookup
create_details_build_summary builds =
    let s = count_builds builds no_builds in
    if is_some (lookup none s.labs) then err validation_error else ok s
