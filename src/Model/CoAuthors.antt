-- ===== src/Model/CoAuthors.antt =====
-- ParseCoAuthors and LoginFromNoreplyEmail of internal/model/types.go. The two regular expressions
-- are matchers by hand, which try the alternatives in the order in which Go does.
pub mod Distinct
pub mod Noreply
pub mod RoundTrip
use gh_audit.Prelude.{
  ℕ, zero, suc, ◌-◌, Bool, true, false, ◌||◌, Option, none, some, List, [], ◌∷◌, if◌then◌else◌,
  ◌==◌, nat_eq, text_eq, length, any,
}
use gh_audit.Text.{Text, text, lower, to_lower, is_space, trim_space, contains, span_digits}
use gh_audit.Model.{CoAuthor}

abbrev pub first_of {ℓ} : {A : Type ℓ} → Option A → Option A → Option A
first_of none later = later
first_of (some a) later = some a

-- `(?i)` before a literal, which is given in lower case.
unfoldable pub strip_fold : Text → Text → Option Text
strip_fold [] s = some s
strip_fold (p ∷ ps) [] = none
strip_fold (p ∷ ps) (c ∷ s) = let rest = strip_fold ps s in if lower c == p then rest else none

-- `[^b]*`, and what follows.
unfoldable pub span_not : ℕ → Text → Text × Text
span_not b [] = ([], [])
span_not b (c ∷ s) =
    let (front, rest) = span_not b s in if c == b then ([], c ∷ s) else (c ∷ front, rest)

-- `\s*`, and what follows.
unfoldable pub skip_space : Text → Text
skip_space [] = []
skip_space (c ∷ s) = let rest = skip_space s in if is_space c then rest else c ∷ s

-- What `<([^>]+)>` takes, and what follows.
abbrev pub closed : Text × Text → Option (Text × Text)
closed ([], rest) = none
closed (c ∷ email, []) = none
closed (c ∷ email, d ∷ rest) = some (c ∷ email, rest)

unfoldable pub email_at : Text → Option (Text × Text)
unfolding span_not
email_at [] = none
email_at (c ∷ s) = if c == b'<' then closed (span_not b'>' s) else none

-- A name, an address and what follows them.
abbrev pub Trailer : Type 0
Trailer = Text × (Text × Text)

-- The name ends at a byte that an address follows, or else goes on.
abbrev pub ends_or : ℕ → Option (Text × Text) → Option Trailer → Option Trailer
ends_or c (some (email, rest)) longer = some (c ∷ [], (email, rest))
ends_or c none none = none
ends_or c none (some (name, found)) = some (c ∷ name, found)

-- `(.+?)\s*<([^>]+)>`: the shortest name that an address follows, in one line.
unfoldable pub name_at : Text → Option Trailer
unfolding skip_space email_at
name_at [] = none
name_at (c ∷ s) =
    let longer = name_at s in if c == 10 then none else ends_or c (email_at (skip_space s)) longer

-- `\s*` before it takes all white space, or less where nothing matches behind that.
unfoldable pub after_colon : Text → Option Trailer
unfolding name_at
after_colon [] = none
after_colon (c ∷ s) =
    let deeper = after_colon s in
    let here = name_at (c ∷ s) in if is_space c then first_of deeper here else here

-- coAuthorRe at the front of a text.
unfoldable pub trailer_at : Text → Option Trailer
unfolding strip_fold after_colon
trailer_at s = elim (strip_fold (text "co-authored-by:") s) [
  | none ↦ none
  | some rest ↦ after_colon rest
]

-- FindAllStringSubmatch: the matches from the left, each behind the last. `skip` bytes belong to the
-- last match.
unfoldable pub find_all : ℕ → Text → List (Text × Text)
unfolding trailer_at
find_all skip [] = []
find_all (suc skip) (c ∷ s) = find_all skip s
find_all zero (c ∷ s) = elim (trailer_at (c ∷ s)) [
  | none ↦ find_all 0 s
  | some (name, (email, rest)) ↦ (name, email) ∷ find_all (length s - length rest) s
]

abbrev pub noreply_domain : Text
noreply_domain = text "@users.noreply.github.com"

-- `([^@]+)@users\.noreply\.github\.com$`
abbrev pub user_of : Text × Text → Option Text
user_of ([], domain) = none
user_of (c ∷ user, domain) = if domain == noreply_domain then some (c ∷ user) else none

abbrev pub user_at : Text → Option Text
user_at s = user_of (span_not b'@' s)

-- The same behind `\d+\+`.
abbrev pub user_after : Text × Text → Option Text
user_after ([], rest) = none
user_after (d ∷ digits, []) = none
user_after (d ∷ digits, c ∷ rest) = if c == b'+' then user_at rest else none

abbrev pub or_blank : Option Text → Text
or_blank none = []
or_blank (some user) = user

-- LoginFromNoreplyEmail
unfoldable pub login_from_noreply_email : Text → Text
unfolding span_not
login_from_noreply_email email =
    let s = to_lower email in or_blank (first_of (user_after (span_digits s)) (user_at s))

unfoldable pub co_author : Text → Text → CoAuthor
unfolding login_from_noreply_email
co_author name email = record {
  login = login_from_noreply_email email;
  email = email;
  name = trim_space name;
}

-- The loop of ParseCoAuthors, with the addresses that it has seen.
unfoldable pub collect : List Text → List (Text × Text) → List CoAuthor
unfolding co_author
collect seen [] = []
collect seen ((name, address) ∷ ms) =
    let email = trim_space address in
    let key = to_lower email in
    elim (email == [] || any (λ k. k == key) seen) [
      | true ↦ collect seen ms
      | false ↦ co_author name email ∷ collect (key ∷ seen) ms
    ]

-- ParseCoAuthors
unfoldable pub parse_co_authors : Text → List CoAuthor
unfolding find_all collect
parse_co_authors message =
    if contains (to_lower message) (text "co-authored-by")
    then collect [] (find_all 0 message)
    else []
