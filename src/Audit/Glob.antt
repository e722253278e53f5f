-- ===== src/Audit/Glob.antt =====
-- globMatch of audit.go: `*` for any run of bytes and `?` for one, by a scan with two indices that
-- goes back to the last `*` only. An index into a string is the rest of the string from there on:
-- `pat` is pattern[pi:], `txt` is s[si:], and `star` is pattern[star+1:] with s[mark:].
pub mod Matches
pub mod Invariant
pub mod Scanning
pub mod Correct
use gh_audit.Prelude.{
  ℕ, zero, suc, ◌+◌, ◌*◌, Bool, true, false, ◌||◌, Option, none, some, [], ◌∷◌, ◌==◌, nat_eq,
  if◌then◌else◌, length,
}
use gh_audit.Text.{Text}

pub record Scan : Type 0 where
  pub pat : Text
  pub txt : Text
  pub star : Option (Text × Text)  -- none is -1

-- The last branch but one: back to the last `*`, which takes one byte more.
unfoldable pub go_back : Option (Text × Text) → Option Scan
go_back none = none
go_back (some (after_star, [])) = none
go_back (some (after_star, c ∷ mark)) =
    some (record { pat = after_star; txt = mark; star = some (after_star, mark) })

-- The body of the first loop, where a byte is left; `none` is its `return false`.
unfoldable pub scan_step : Text → ℕ → Text → Option (Text × Text) → Option Scan
unfolding go_back
scan_step [] c txt star = go_back star
scan_step (q ∷ pat) c txt star =
    if q == b'?' || q == c
    then some (record { pat = pat; txt = txt; star = star })
    else if q == b'*'
    then some (record { pat = pat; txt = c ∷ txt; star = some (pat, c ∷ txt) })
    else go_back star

-- The second loop and the test behind it.
unfoldable pub only_stars : Text → Bool
only_stars [] = true
only_stars (q ∷ pat) = let rest = only_stars pat in if q == b'*' then rest else false

-- Both loops; `none` is that the fuel has run out.
unfoldable pub scan_loop : ℕ → Scan → Option Bool
unfolding scan_step only_stars
scan_loop zero t = none
scan_loop (suc f) t = elim t.txt [
  | [] ↦ some (only_stars t.pat)
  | c ∷ txt ↦ elim (scan_step t.pat c txt t.star) [ none ↦ some false | some u ↦ scan_loop f u ]
]

-- The steps that the scan can take, for a pattern and a text.
unfoldable pub scan_fuel : Text → Text → ℕ
scan_fuel pattern s = (length s + 2) * (length s + length pattern + 2)

abbrev pub answer : Option Bool → Bool
answer none = false
answer (some b) = b

-- globMatch
unfoldable pub glob_match : Text → Text → Bool
unfolding scan_loop scan_fuel
glob_match pattern s =
    answer (scan_loop (scan_fuel pattern s) (record { pat = pattern; txt = s; star = none }))
