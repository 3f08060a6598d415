-- ===== src/Filters/Request.antt =====
-- `FilterParams.create_filters_from_req`, `add_filter` and `validate_comparison_op` of filters.py.
use Prim.Native.Char.{code}
use kernelci_dashboard.Base.{
  ◌≡◌, refl, ◌⊎◌, inl, inr, String, not, ◌&&◌, Option, none, some, List, [], ◌∷◌, ◌++◌, ◌==◌,
  contains, nat_eq, string_eq, nonempty, if◌then◌else◌,
}
use kernelci_dashboard.Base.Text.{is_prefix, drop_prefix, is_one_line, is_full}

-- The exceptions that the code may raise.
pub data Error : Type 0 where
  invalid_comparison_op index_error value_error type_error key_error attribute_error : Error
  validation_error : Error

-- What code that may raise one comes to.
pub data Result {ℓ} (Value : Type ℓ) : Type ℓ where
  err : Error → Result Value
  ok : Value → Result Value

-- An exception ends a `do` block.
infixl 5 ◌>>=◌
abbrev pub ◌>>=◌ {ℓ κ} : {V : Type ℓ} {W : Type κ} → Result V → (V → Result W) → Result W
err raised >>= next = err raised
ok value >>= next = next value

module _ {ℓ κ} {V : Type ℓ} {W : Type κ} where
  -- Where a block has a value, its first step has one and the rest has that value.
  pub ok_of_bind :
      (step : Result V) (next : V → Result W) {last : W}
      → (step >>= next) ≡ ok last
      → (v : V) × (step ≡ ok v) × (next v ≡ ok last)
  ok_of_bind (err e) next h = cc
  ok_of_bind (ok v) next h = (v, refl, h)

pub result_cases {ℓ} :
    {A : Type ℓ} (m : Result A) → ((a : A) × (m ≡ ok a)) ⊎ ((e : Error) × (m ≡ err e))
result_cases (ok a) = inl (a, refl)
result_cases (err e) = inr (e, refl)

-- `ParsedFilter`; in a request every value is a text
pub record ParsedFilter : Type 0 where
  pub field : String
  pub value : String
  pub comparison_op : String

-- A key of `request.GET` with its values in order: a parsed query has at least one.
pub record QueryItem : Type 0 where
  pub key : String
  pub first : String
  pub more : List String

-- `request.GET.get(k)` is the last value
abbrev pub last : String → List String → String
last x [] = x
last x (y ∷ ys) = last y ys

-- the keys of `comparison_ops`
abbrev pub comparison_ops : List String
comparison_ops = "exact" ∷ "in" ∷ "gt" ∷ "gte" ∷ "lt" ∷ "lte" ∷ "like" ∷ []

abbrev pub string_like_filters : List String
string_like_filters = "boot.path" ∷ "test.path" ∷ []

abbrev pub filter_param_prefix : String
filter_param_prefix = "filter_"

-- The text without a `]` at its end.
unfoldable pub before_bracket : String → Option String
before_bracket String.[] = none
before_bracket (String.◌∷◌ c s) = elim (before_bracket s) [
  | some t ↦ some (String.◌∷◌ c t)
  | none ↦ if code c == b']' && s == "" then some "" else none
]

-- The two sides of the last `_[`.
unfoldable pub split_operator : String → Option (String × String)
unfolding is_prefix drop_prefix
split_operator String.[] = none
split_operator (String.◌∷◌ c s) = elim (split_operator s) [
  | some (a, b) ↦ some (String.◌∷◌ c a, b)
  | none ↦
      if is_prefix "_[" (String.◌∷◌ c s) then some ("", drop_prefix "_[" (String.◌∷◌ c s)) else none
]

-- the text without a newline at its end
unfoldable pub before_line_break : String → String
unfolding is_full
before_line_break String.[] = String.[]
before_line_break (String.◌∷◌ c s) =
    let rest = String.◌∷◌ c (before_line_break s) in
    if code c == 10 && not (is_full s) then String.[] else rest

-- `filter_reg.match`, for `^(.*)_\[(.*)\]$`: the groups, the first as long as it can be. `$` matches
-- before a newline at the end too, and `.` matches no newline.
unfoldable pub match_filter : String → Option (String × String)
unfolding is_one_line before_line_break before_bracket split_operator
match_filter term = elim (before_bracket (before_line_break term)) [
  | none ↦ none
  | some t ↦ if is_one_line t then split_operator t else none
]

unfoldable pub add_filter :
    List ParsedFilter → String → String → String → Result (List ParsedFilter)
add_filter filters field value op =
    if contains comparison_ops op
    then ok (filters ++ record { field = field; value = value; comparison_op = op } ∷ [])
    else err invalid_comparison_op

-- `for value in values: self.add_filter(field, value, "in")`
unfoldable pub add_values : List ParsedFilter → String → List String → Result (List ParsedFilter)
unfolding add_filter
add_values filters field [] = ok filters
add_values filters field (v ∷ vs) = do
  filters' ← add_filter filters field v "in"
  add_values filters' field vs

-- the body of the loop over `request.GET.keys()`
unfoldable pub add_item : List ParsedFilter → QueryItem → Result (List ParsedFilter)
unfolding add_filter add_values match_filter is_prefix drop_prefix
add_item filters item =
    let filter_term = drop_prefix filter_param_prefix item.key in
    let value = last item.first item.more in
    if is_prefix filter_param_prefix item.key
    then if nonempty item.more
      then add_values filters filter_term (item.first ∷ item.more)
      else if contains string_like_filters filter_term
      then add_filter filters filter_term value "like"
      else elim (match_filter filter_term) [
        | some (field, op) ↦ add_filter filters field value op
        | none ↦ add_filter filters filter_term value "exact"
      ]
    else ok filters

unfoldable pub create_filters_from_req :
    List ParsedFilter → List QueryItem → Result (List ParsedFilter)
unfolding add_item
create_filters_from_req filters [] = ok filters
create_filters_from_req filters (item ∷ items) = do
  filters' ← add_item filters item
  create_filters_from_req filters' items
