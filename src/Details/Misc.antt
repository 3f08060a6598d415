-- ===== src/Details/Misc.antt =====
-- The miscellaneous data of a row: handle_misc and its kin of helpers/misc.py, and string_to_json,
-- sanitize_dict and extract_error_message of utils.py, of backend/kernelCI_app.
use kernelci_dashboard.Base.{
  String, Option, none, some, [], ◌∷◌, ◌==◌, string_eq, if◌then◌else◌, is_some, get_or,
}
use kernelci_dashboard.Base.Dict.{Dict, lookup, insert}
use kernelci_dashboard.Filters.Issues.{unknown_string}
use kernelci_dashboard.Filters.Request.{Result, ok, err, value_error, attribute_error}

-- An object of JSON, of which the code reads texts and nulls.
abbrev pub Misc : Type 0
Misc = Dict String (Option String)

-- A column that is not null: a text, or a dict.
pub data MiscColumn : Type 0 where
  text : String → MiscColumn
  dict : Misc → MiscColumn

-- `misc.get(k)`: a missing key reads as a null one
unfoldable pub get : String → Misc → Option String
unfolding lookup
get k misc = get_or (lookup k misc) none

unfoldable pub setdefault_misc : String → Option String → Misc → Misc
unfolding lookup insert
setdefault_misc k v misc = if is_some (lookup k misc) then misc else insert k v misc

abbrev pub default_misc : Misc
default_misc = ("platform", some unknown_string) ∷ []

unfoldable pub misc_value_or_default : Option Misc → Misc
misc_value_or_default misc = get_or misc default_misc

-- `misc_value_or_default` of a column
unfoldable pub column_or_default : Option MiscColumn → MiscColumn
column_or_default column = get_or column (dict default_misc)

-- `parsed_environment_misc.get("platform")`, where None has no attribute `get`
unfoldable pub platform_of : Option Misc → Result (Option String)
unfolding get
platform_of none = err attribute_error
platform_of (some misc) = ok (get "platform" misc)

-- `json.loads(s)` on a text that holds an object; `none` for a JSONDecodeError
module _ (loads : String → Option Misc) where
  unfoldable pub string_to_json : String → Option Misc
  string_to_json s = if s == "" then none else loads s

  unfoldable pub sanitize_dict : Option MiscColumn → Option Misc
  unfolding string_to_json
  sanitize_dict none = none
  sanitize_dict (some (dict misc)) = some misc
  sanitize_dict (some (text s)) = string_to_json s

  unfoldable pub handle_misc : Option MiscColumn → Option Misc
  unfolding sanitize_dict setdefault_misc
  handle_misc misc = elim (sanitize_dict misc) [
    | none ↦ none
    | some parsed ↦ some (setdefault_misc "platform" (some unknown_string) parsed)
  ]

  -- `"unknown error"` unless a message is there and not empty
  unfoldable pub error_message_of : Misc → String
  unfolding get
  error_message_of misc = elim (get "error_msg" misc) [
    | none ↦ "unknown error"
    | some message ↦ if message == "" then "unknown error" else message
  ]

  -- A JSONDecodeError is a ValueError, and is not caught here.
  unfoldable pub extract_error_message : Option MiscColumn → Result String
  unfolding error_message_of
  extract_error_message none = ok "unknown error"
  extract_error_message (some (dict misc)) = ok (error_message_of misc)
  extract_error_message (some (text s)) = elim (loads s) [
    | none ↦ err value_error
    | some misc ↦ ok (error_message_of misc)
  ]
