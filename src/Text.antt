-- ===== src/Text.antt =====
-- Go strings as lists of bytes, and the functions of package strings, strconv and fmt that the
-- program calls. Case folding is that of ASCII: a byte outside A-Z is its own lower case.
pub mod Decimal
pub mod Prefix
use Prim.Native.Char.{code}
use Prim.Native.String.{String}
use mathlib.Core.List.{reverse}
use gh_audit.Text.Decimal.{is_digit, atoi}
use gh_audit.Prelude.{
  ℕ, ◌+◌, ◌-◌, ◌^◌, ltb, Option, none, some, Bool, true, false, ◌&&◌, ◌||◌, List, [], ◌∷◌, ◌++◌,
  map, leb, ◌==◌, if◌then◌else◌, text_eq, nat_eq,
}

abbrev pub Text : Type 0
Text = List ℕ

-- The bytes of an ASCII literal.
abbrev pub text : String → Text
text String.[] = []
text (String.◌∷◌ c s) = code c ∷ text s

abbrev pub lower : ℕ → ℕ
lower c = if leb b'A' c && leb c b'Z' then c + 32 else c

-- strings.ToLower
unfoldable pub to_lower : Text → Text
to_lower = map lower

-- strings.EqualFold
unfoldable pub equal_fold : Text → Text → Bool
unfolding to_lower
equal_fold s t = to_lower s == to_lower t

-- strings.HasPrefix(s, prefix)
unfoldable pub has_prefix : Text → Text → Bool
has_prefix s [] = true
has_prefix [] (p ∷ ps) = false
has_prefix (c ∷ s) (p ∷ ps) = c == p && has_prefix s ps

-- strings.HasSuffix(s, suffix)
unfoldable pub has_suffix : Text → Text → Bool
has_suffix [] suffix = suffix == []
has_suffix (c ∷ s) suffix = c ∷ s == suffix || has_suffix s suffix

-- What follows a literal at the front of a text, where a regular expression begins with it.
unfoldable pub strip_prefix : Text → Text → Option Text
strip_prefix [] s = some s
strip_prefix (p ∷ ps) [] = none
strip_prefix (p ∷ ps) (c ∷ s) = let rest = strip_prefix ps s in if c == p then rest else none

-- The leftmost position at which a matcher succeeds: an expression with no `^`.
unfoldable pub leftmost {ℓ} : {A : Type ℓ} → (Text → Option A) → Text → Option A
leftmost match_at [] = match_at []
leftmost match_at (c ∷ s) = elim (match_at (c ∷ s)) [ some r ↦ some r | none ↦ leftmost match_at s ]

-- `(\d+)`: the longest run of digits at the front, and the rest.
unfoldable pub span_digits : Text → Text × Text
span_digits [] = ([], [])
span_digits (c ∷ s) =
    let (ds, rest) = span_digits s in if is_digit c then (c ∷ ds, rest) else ([], c ∷ s)

-- `\s`
abbrev pub is_space : ℕ → Bool
is_space c = c == 32 || c == 9 || c == 10 || c == 12 || c == 13

-- strings.TrimSpace
trim_front : Text → Text
trim_front [] = []
trim_front (c ∷ s) = let rest = trim_front s in if is_space c || c == 11 then rest else c ∷ s

unfoldable pub trim_space : Text → Text
unfolding trim_front
trim_space s = reverse (trim_front (reverse (trim_front s)))

-- strconv.Atoi on a run of digits, with its callers' test `err != nil || n <= 0`: a value that
-- does not fit an int is an error.
unfoldable pub positive_int : Text → Option ℕ
positive_int ds = let n = atoi ds in if n == 0 || ltb (2 ^ 63 - 1) n then none else some n

-- The text before the first newline: strings.IndexByte(s, '\n') and a slice.
unfoldable pub first_line : Text → Text
first_line [] = []
first_line (c ∷ s) = let rest = first_line s in if c == 10 then [] else c ∷ rest

-- fmt's %q, for text without control characters.
escape : Text → Text
escape [] = []
escape (c ∷ s) = if c == b'"' || c == 92 then 92 ∷ c ∷ escape s else c ∷ escape s

unfoldable pub quote : Text → Text
unfolding escape
quote s = b'"' ∷ (escape s ++ b'"' ∷ [])

-- strings.Contains(s, sub)
unfoldable pub contains : Text → Text → Bool
unfolding has_prefix
contains [] sub = sub == []
contains (c ∷ s) sub = has_prefix (c ∷ s) sub || contains s sub

-- strings.Join(parts, separator)
unfoldable pub join : Text → List Text → Text
join separator [] = []
join separator (part ∷ []) = part
join separator (part ∷ next ∷ parts) = part ++ separator ++ join separator (next ∷ parts)

-- strings.Split(s, sep), for a separator of one byte.
abbrev push_byte : ℕ → List Text → List Text
push_byte c [] = (c ∷ []) ∷ []
push_byte c (part ∷ parts) = (c ∷ part) ∷ parts

unfoldable pub split_at : ℕ → Text → List Text
split_at sep [] = [] ∷ []
split_at sep (c ∷ s) = let rest = split_at sep s in if c == sep then [] ∷ rest else push_byte c rest

-- strings.Trim(s, cutset), for a cutset of one byte.
unfoldable pub trim_left : ℕ → Text → Text
trim_left cut [] = []
trim_left cut (c ∷ s) = let rest = trim_left cut s in if c == cut then rest else c ∷ s

unfoldable pub trim : ℕ → Text → Text
unfolding trim_left
trim cut s = reverse (trim_left cut (reverse (trim_left cut s)))
