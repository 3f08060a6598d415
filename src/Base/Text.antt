-- ===== src/Base/Text.antt =====
-- The operations on text that the code uses, on the characters of a string.
use Prim.Native.Char.{Char, code}
use Prim.Native.String.{String}
use kernelci_dashboard.Base.{
  ◌≡◌, ◌≤◌, arith, ℕ, ◌+◌, ◌-◌, ◌*◌, Bool, true, false, not, ◌&&◌, ◌||◌, Option, none, some, ◌==◌,
  nat_eq, leb, if◌then◌else◌,
}
use kernelci_dashboard.Base.Int.{ℤ, pos, ◌-ℤ◌}
use mathlib.Core.Option

-- `s.startswith(p)`
unfoldable pub is_prefix : String → String → Bool
is_prefix String.[] s = true
is_prefix (String.◌∷◌ c p) String.[] = false
is_prefix (String.◌∷◌ c p) (String.◌∷◌ d s) = code c == code d && is_prefix p s

-- `p in s`
unfoldable pub is_infix : String → String → Bool
unfolding is_prefix
is_infix p String.[] = is_prefix p String.[]
is_infix p (String.◌∷◌ c s) = is_prefix p (String.◌∷◌ c s) || is_infix p s

-- `s[len(p):]` where `s` starts with `p`
unfoldable pub drop_prefix : String → String → String
drop_prefix String.[] s = s
drop_prefix (String.◌∷◌ c p) String.[] = String.[]
drop_prefix (String.◌∷◌ c p) (String.◌∷◌ d s) = drop_prefix p s

-- `s.split(sep, 1)[0]`
unfoldable pub before_first : ℕ → String → String
before_first sep String.[] = String.[]
before_first sep (String.◌∷◌ c s) =
    let rest = before_first sep s in if code c == sep then String.[] else String.◌∷◌ c rest

-- `s.rsplit(sep, 1)` where it has two parts: the split is at the last separator
unfoldable pub rsplit : ℕ → String → Option (String × String)
rsplit sep String.[] = none
rsplit sep (String.◌∷◌ c s) = elim (rsplit sep s) [
  | some (a, b) ↦ some (String.◌∷◌ c a, b)
  | none ↦ if code c == sep then some (String.[], s) else none
]

-- The whitespace that `int` strips, among the ASCII characters.
abbrev is_space : ℕ → Bool
is_space c = c == 32 || leb 9 c && leb c 13 || leb 28 c && leb c 31

abbrev is_digit : ℕ → Bool
is_digit c = leb 48 c && leb c 57

all_spaces : String → Bool
all_spaces String.[] = true
all_spaces (String.◌∷◌ c s) = is_space (code c) && all_spaces s

left_strip : String → String
left_strip String.[] = String.[]
left_strip (String.◌∷◌ c s) =
    let rest = left_strip s in if is_space (code c) then rest else String.◌∷◌ c s

-- The digits that are left, `n` being the value read; a single `_` may stand between two digits.
digits : Bool → ℕ → String → Option ℕ
unfolding all_spaces
digits after_digit n String.[] = if after_digit then some n else none
digits after_digit n (String.◌∷◌ c s) =
    let d = code c in
    let more = digits true (n * 10 + (d - 48)) s in
    let gap = digits false n s in
    if is_digit d
    then more
    else if after_digit && d == 95
    then gap
    else if after_digit && all_spaces (String.◌∷◌ c s)
    then some n
    else none

signed : String → Option ℤ
unfolding digits
signed String.[] = none
signed (String.◌∷◌ c s) =
    if code c == 45
    then Option.map (λ n. pos 0 -ℤ pos n) (digits false 0 s)
    else if code c == 43
    then Option.map pos (digits false 0 s)
    else Option.map pos (digits false 0 (String.◌∷◌ c s))

-- `int(s)` of a text, `none` for a ValueError. Digits outside ASCII are not modelled.
unfoldable pub int : String → Option ℤ
unfolding signed left_strip ◌-ℤ◌
int s = signed (left_strip s)

-- A digit is read as its value.
pub int-digit :
    (c : Char) → 48 ≤ code c → code c ≤ 57 → int (String.◌∷◌ c String.[]) ≡ some (pos (code c - 48))
unfolding int signed digits left_strip
int-digit c lo hi = ground arith

-- `len(s)`
unfoldable pub size : String → ℕ
size String.[] = 0
size (String.◌∷◌ c s) = 1 + size s

-- `s + t`
unfoldable pub append : String → String → String
append String.[] t = t
append (String.◌∷◌ c s) t = String.◌∷◌ c (append s t)

-- `bool(s)`
unfoldable pub is_full : String → Bool
is_full String.[] = false
is_full (String.◌∷◌ c s) = true

-- the letter at a place of a text, or the one given
letter_at : ℕ → String → Char → Char
letter_at n String.[] c = c
letter_at n (String.◌∷◌ d s) c = let rest = letter_at (n - 1) s c in if n == 0 then d else rest

upper_char : Char → Char
unfolding letter_at
upper_char c =
    if leb 97 (code c) && leb (code c) 122
    then letter_at (code c - 97) "ABCDEFGHIJKLMNOPQRSTUVWXYZ" c
    else c

-- `s.upper()`. Letters outside ASCII are not modelled.
unfoldable pub upper : String → String
unfolding upper_char
upper String.[] = String.[]
upper (String.◌∷◌ c s) = String.◌∷◌ (upper_char c) (upper s)

abbrev line_break : ℕ
line_break = 10

-- whether a text has no newline
unfoldable pub is_one_line : String → Bool
is_one_line String.[] = true
is_one_line (String.◌∷◌ c s) = not (code c == line_break) && is_one_line s
