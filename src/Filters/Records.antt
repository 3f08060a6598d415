-- ===== src/Filters/Records.antt =====
-- The filters on the environment of a record: is_record_filtered_out of
-- backend/kernelCI_app/helpers/filters.py.
use kernelci_dashboard.Base.{
  ◌≡◌, ◌↔◌, refl, sym, inl, inr, Bool-cases, String, Bool, true, false, not, ◌&&◌, ◌||◌, Option,
  none, some, List, [], ◌∷◌, arith, contains, string_eq, nonempty, any, get_or,
}
use kernelci_dashboard.Filters.Params.{FilterParams}
use kernelci_dashboard.Filters.Rows.{RecordRow, is_record_filtered_out}
use kernelci_dashboard.Filters.Kept.{Selects, Selects_lem}

-- Two lists have a text in common.
abbrev pub Meet : List String → List String → Type 0
Meet xs ys = (x : String) × (contains xs x ≡ true) × (contains ys x ≡ true)

any-Meet : (xs ys : List String) → any (contains ys) xs ≡ true → Meet xs ys
unfolding any
any-Meet [] ys h = cc
any-Meet (x ∷ xs) ys h = elim (Bool-cases (contains ys x)) [
  | inl p ↦ (x, ground arith, p)
  | inr p ↦ let (z, m, n) = any-Meet xs ys (ground (arith, h, p)) in (z, ground (arith, m), n)
]

Meet-any :
    (xs ys : List String) (z : String)
    → contains xs z ≡ true
    → contains ys z ≡ true
    → any (contains ys) xs ≡ true
unfolding any
Meet-any [] ys z m n = cc
Meet-any (x ∷ xs) ys z m n = elim (Bool-cases (contains xs z)) [
  | inl p ↦ ground (arith, Meet-any xs ys z p n)
  | inr p ↦
      let same : z ≡ x = ground arith in
      let found : contains ys x ≡ true = rw (sym same) n in ground (arith, found)
]

-- What a record is taken to have where it has none: "Unknown".
abbrev pub known : Option String → String
known none = "Unknown"
known (some s) = s

abbrev pub compatibles : Option (List String) → List String
compatibles none = "Unknown" ∷ []
compatibles (some hs) = hs

known_lem : (o : Option String) → get_or o "Unknown" ≡ known o
known_lem none = refl
known_lem (some s) = refl

compatibles_lem : (o : Option (List String)) → get_or o ("Unknown" ∷ []) ≡ compatibles o
compatibles_lem none = refl
compatibles_lem (some hs) = refl

-- An empty set of hardwares selects everything.
abbrev pub MeetsFilter : List String → List String → Type 0
MeetsFilter [] hs = Unit
MeetsFilter (x ∷ xs) hs = Meet hs (x ∷ xs)

MeetsFilter_lem :
    (filter hs : List String)
    → (nonempty filter && not (any (contains filter) hs) ≡ false) ↔ MeetsFilter filter hs
MeetsFilter_lem [] hs = ground arith
MeetsFilter_lem (x ∷ xs) hs = (
  λ h. any-Meet hs (x ∷ xs) (ground (arith, h)),
  λ (z, m, n). ground (arith, Meet-any hs (x ∷ xs) z m n),
)

five :
    (a b c d e : Bool)
    → (a || b || c || d || e ≡ false)
      ↔ ((a ≡ false) × (b ≡ false) × (c ≡ false) × (d ≡ false) × (e ≡ false))
five a b c d e = ground arith

-- A record is kept exactly when each filter on its environment selects it: one of its compatibles is
-- among the hardwares, and its architecture, compiler, config and lab are each among the values of
-- their filter. A filter with no values selects every record, and what a record lacks is "Unknown".
pub is_record_filtered_out_iff :
    (f : FilterParams) (r : RecordRow)
    → (is_record_filtered_out f r ≡ false) ↔ (
        MeetsFilter f.hardware (compatibles r.hardwares)
        × Selects f.architecture (some (known r.architecture))
        × Selects f.compiler (some (known r.compiler))
        × Selects f.configs (some (known r.config_name))
        × Selects f.labs (some (known r.lab)))
unfolding is_record_filtered_out
is_record_filtered_out_iff f r =
    rw
      (
        ← compatibles_lem r.hardwares,
        ← known_lem r.architecture,
        ← known_lem r.compiler,
        ← known_lem r.config_name,
        ← known_lem r.lab,
      )
      (ground (
        arith,
        MeetsFilter_lem f.hardware (get_or r.hardwares ("Unknown" ∷ [])),
        Selects_lem f.architecture (some (get_or r.architecture "Unknown")),
        Selects_lem f.compiler (some (get_or r.compiler "Unknown")),
        Selects_lem f.configs (some (get_or r.config_name "Unknown")),
        Selects_lem f.labs (some (get_or r.lab "Unknown")),
      ))
