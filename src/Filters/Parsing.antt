-- ===== src/Filters/Parsing.antt =====
-- What a request's keys and values are read as.
use Prim.Native.String.{◌++◌ as ◌<>◌}
use text.Mathlib.TextLemmas.{cons-append, nil-append}
use kernelci_dashboard.Base.{
  ◌≡◌, refl, inl, inr, Bool-cases, Option-cases, String, true, none, some, List, [], ◌∷◌, ◌++◌,
  arith, contains, string_eq, nat_eq, nonempty, All, ◌&&◌, if◌then◌else◌,
}
use kernelci_dashboard.Base.Text.{is_prefix, drop_prefix, is_one_line, is_full}
use kernelci_dashboard.Filters.Request.{
  ok, ok_of_bind, filter_param_prefix, string_like_filters, last, ParsedFilter, QueryItem,
  comparison_ops, before_bracket, split_operator, match_filter, before_line_break, add_filter,
  add_values, add_item, create_filters_from_req,
}

abbrev pub IsValid : List ParsedFilter → Type 0
IsValid = All (λ f. contains comparison_ops f.comparison_op ≡ true)

All-append {ℓ κ} :
    {A : Type ℓ} (P : A → Type κ) (xs ys : List A) → All P xs → All P ys → All P (xs ++ ys)
All-append P [] ys hx hy = hy
All-append P (x ∷ xs) ys hx hy = (hx.0, All-append P xs ys hx.1 hy)

add_filter-IsValid :
    (fs : List ParsedFilter) (field value op : String) (gs : List ParsedFilter)
    → IsValid fs
    → add_filter fs field value op ≡ ok gs
    → IsValid gs
unfolding add_filter
add_filter-IsValid fs field value op gs valid e = elim (Bool-cases (contains comparison_ops op)) [
  | inl known ↦
      let f : ParsedFilter = record { field = field; value = value; comparison_op = op } in
      let p : fs ++ f ∷ [] ≡ gs = ground arith in
      rw (← p) (
        All-append (λ f. contains comparison_ops f.comparison_op ≡ true) fs (f ∷ []) valid
          (known, tt))
  | inr unknown ↦ absurd (ground arith)
]

add_values-IsValid :
    (field : String) (vs : List String) (fs gs : List ParsedFilter)
    → IsValid fs
    → add_values fs field vs ≡ ok gs
    → IsValid gs
unfolding add_values
add_values-IsValid field [] fs gs valid e = let p : fs ≡ gs = cc in rw (← p) valid
add_values-IsValid field (v ∷ vs) fs gs valid e =
    let (fs', first, rest) = ok_of_bind (add_filter fs field v "in") _ e in
    add_values-IsValid field vs fs' gs (add_filter-IsValid fs field v "in" fs' valid first) rest

add_item-IsValid :
    (fs : List ParsedFilter) (item : QueryItem) (gs : List ParsedFilter)
    → IsValid fs
    → add_item fs item ≡ ok gs
    → IsValid gs
unfolding add_item
add_item-IsValid fs item gs valid e = elim (Bool-cases (is_prefix filter_param_prefix item.key)) [
  | inl named ↦ elim (Bool-cases (nonempty item.more)) [
    | inl many ↦ add_values-IsValid term (item.first ∷ item.more) fs gs valid (ground arith)
    | inr one ↦ elim (Bool-cases (contains string_like_filters term)) [
      | inl like ↦ add_filter-IsValid fs term value "like" gs valid (ground arith)
      | inr other ↦ elim (Option-cases (match_filter term)) [
        | inl plain ↦ add_filter-IsValid fs term value "exact" gs valid (ground arith)
        | inr ((field, op), matched) ↦ add_filter-IsValid fs field value op gs valid (ground arith)
      ]
    ]
  ]
  | inr unnamed ↦ let p : fs ≡ gs = ground arith in rw (← p) valid
]
  where
    term : String
    term = drop_prefix filter_param_prefix item.key

    value : String
    value = last item.first item.more

-- Every filter of a request that is accepted carries one of the seven comparison operators.
pub create_filters-IsValid :
    (request : List QueryItem) (fs gs : List ParsedFilter)
    → IsValid fs
    → create_filters_from_req fs request ≡ ok gs
    → IsValid gs
unfolding create_filters_from_req
create_filters-IsValid [] fs gs valid e = let p : fs ≡ gs = cc in rw (← p) valid
create_filters-IsValid (item ∷ items) fs gs valid e =
    let (fs', first, rest) = ok_of_bind (add_item fs item) _ e in
    create_filters-IsValid items fs' gs (add_item-IsValid fs item fs' valid first) rest

before_bracket-append : (s : String) → before_bracket (s <> "]") ≡ some s
unfolding before_bracket nat_eq string_eq
before_bracket-append String.[] = refl
before_bracket-append (String.◌∷◌ c s) =
    rw cons-append (rw (before_bracket-append s, before_bracket))

split_operator-append :
    (field op : String)
    → split_operator op ≡ none
    → split_operator (field <> ("_[" <> op)) ≡ some (field, op)
unfolding split_operator is_prefix drop_prefix nat_eq
split_operator-append String.[] op h = rw (nil-append, cons-append, cons-append, nil-append) (rw h)
split_operator-append (String.◌∷◌ c s) op h =
    rw cons-append (rw (split_operator-append s op h, split_operator))

append-is_full : (s : String) → is_full (s <> "]") ≡ true
unfolding is_full
append-is_full String.[] = refl
append-is_full (String.◌∷◌ c s) = rw cons-append refl

before_line_break-append : (s : String) → before_line_break (s <> "]") ≡ s <> "]"
unfolding before_line_break nat_eq string_eq
before_line_break-append String.[] = refl
before_line_break-append (String.◌∷◌ c s) =
    rw cons-append
      (rw (before_line_break-append s, append-is_full s, before_line_break) (ground arith))

is_one_line-append : (s t : String) → is_one_line (s <> t) ≡ (is_one_line s && is_one_line t)
unfolding is_one_line
is_one_line-append String.[] t = rw nil-append refl
is_one_line-append (String.◌∷◌ c s) t = rw cons-append (ground (arith, is_one_line-append s t))

-- A key is split at its last `_[`: for an operator with no `_[` in it, the parameter `field_[op]` is
-- read back as the field and the operator where neither has a newline in it, and else does not match.
pub match_filter_roundtrip :
    (field op : String)
    → split_operator op ≡ none
    → match_filter ((field <> ("_[" <> op)) <> "]")
      ≡ (if is_one_line field && is_one_line op then some (field, op) else none)
unfolding match_filter is_one_line nat_eq
match_filter_roundtrip field op h =
    rw
      (
        before_line_break-append (field <> ("_[" <> op)),
        before_bracket-append (field <> ("_[" <> op)),
        match_filter,
        is_one_line-append field ("_[" <> op),
        split_operator-append field op h,
        is_one_line-append "_[" op,
      )
      refl
