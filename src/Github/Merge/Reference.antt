-- ===== src/Github/Merge/Reference.antt =====
-- ParsePRReference reads the number that a squash merge appends to a title.
use gh_audit.Prelude.{
  ℕ, ◌^◌, ◌<◌, ◌≡◌, refl, ap, ◌∙◌, ◌≢◌, inl, inr, Bool, true, false, Option, none, some, [], ◌∷◌,
  ◌++◌, arith, Option-cases, nat_eq, text_eq, ◌/=◌, all,
}
use gh_audit.Text.{
  Text, text, is_space, first_line, leftmost, span_digits, strip_prefix, positive_int,
}
use gh_audit.Text.Decimal.{atoi-itoa, itoa, digits-itoa, atoi}
use gh_audit.Text.Prefix.{span_digits-append, positive_int-itoa}
use gh_audit.Github.Merge.{closes, pr_token, parse_pr_reference}

abbrev no_open : Text → Bool
no_open = all (λ c. c /= b'(')

spaces-no_open : (s : Text) → all is_space s ≡ true → no_open s ≡ true
spaces-no_open [] h = refl
spaces-no_open (c ∷ s) h = ground (arith, spaces-no_open s)

span_digits-no_open : (s : Text) → no_open (span_digits s).1 ≡ true → no_open s ≡ true
unfolding span_digits
span_digits-no_open [] h = refl
span_digits-no_open (c ∷ s) h = ground (arith, span_digits-no_open s)

closes-no_open : (ds tail found : Text) → closes ds tail ≡ some found → no_open tail ≡ true
unfolding closes
closes-no_open ds [] found h = refl
closes-no_open [] (c ∷ s) found h = absurd (ground arith)
closes-no_open (d ∷ ds) (c ∷ s) found h = ground (arith, spaces-no_open s)

-- Where a token starts, no other bracket follows: what stands behind its own is blank.
pr_token-no_open : (c : ℕ) (s found : Text) → pr_token (c ∷ s) ≡ some found → no_open s ≡ true
unfolding pr_token strip_prefix
pr_token-no_open c [] found h = absurd (ground arith)
pr_token-no_open c (d ∷ s) found h =
    let closed : closes (span_digits s).0 (span_digits s).1 ≡ some found = ground arith in
    let rest =
      span_digits-no_open s (closes-no_open (span_digits s).0 (span_digits s).1 found closed) in
    ground (arith, rest)

opens : (p s : Text) → no_open (p ++ b'(' ∷ s) ≡ false
opens [] s = refl
opens (c ∷ p) s = ground (arith, opens p s)

-- `(#N)`
abbrev pub token : ℕ → Text
token n = text "(#" ++ itoa n ++ b')' ∷ []

itoa_some : (n : ℕ) → 0 < n → itoa n ≢ []
itoa_some n pos e =
    let none_read : atoi (itoa n) ≡ 0 = rw e (unfold atoi in refl) in
    omega (arith, atoi-itoa n, none_read)

closes-bracket : (ds : Text) → ds ≢ [] → closes ds (b')' ∷ []) ≡ some ds
unfolding closes
closes-bracket [] h = absurd (h refl)
closes-bracket (d ∷ ds) h = refl

pr_token-token : (n : ℕ) → 0 < n → pr_token (token n) ≡ some (itoa n)
unfolding pr_token strip_prefix
pr_token-token n pos =
    rw (span_digits-append (itoa n) b')' [] (digits-itoa n) refl)
      (closes-bracket (itoa n) (itoa_some n pos))

leftmost-here :
    (match_at : Text → Option Text) (c : ℕ) (s r : Text)
    → match_at (c ∷ s) ≡ some r
    → leftmost match_at (c ∷ s) ≡ some r
unfolding leftmost
leftmost-here f c s r h = ground (arith, h)

leftmost-later :
    (match_at : Text → Option Text) (c : ℕ) (s : Text)
    → match_at (c ∷ s) ≡ none
    → leftmost match_at (c ∷ s) ≡ leftmost match_at s
unfolding leftmost
leftmost-later f c s h = ground (arith, h)

leftmost-token :
    (title : Text) (n : ℕ) → 0 < n → leftmost pr_token (title ++ token n) ≡ some (itoa n)
leftmost-token [] n pos =
    leftmost-here pr_token b'(' (b'#' ∷ (itoa n ++ b')' ∷ [])) (itoa n) (pr_token-token n pos)
leftmost-token (c ∷ title) n pos = elim (Option-cases (pr_token (c ∷ (title ++ token n)))) [
  | inl none_here ↦
      leftmost-later pr_token c (title ++ token n) none_here ∙ leftmost-token title n pos
  | inr (found, h) ↦ absurd (
      ground (
        arith,
        pr_token-no_open c (title ++ token n) found h,
        opens title (b'#' ∷ (itoa n ++ b')' ∷ [])),
      ))
]

abbrev no_newline : Text → Bool
no_newline = all (λ c. c /= 10)

first_line-append :
    (line body : Text) → no_newline line ≡ true → first_line (line ++ 10 ∷ body) ≡ line
unfolding first_line
first_line-append [] body h = refl
first_line-append (c ∷ s) body h = ground (arith, first_line-append s body)

parse_found :
    (message ds : Text)
    → leftmost pr_token (first_line message) ≡ some ds
    → parse_pr_reference message ≡ positive_int ds
unfolding parse_pr_reference
parse_found message ds h = ground (arith, h)

first_line_lem : (line : Text) → no_newline line ≡ true → first_line line ≡ line
unfolding first_line
first_line_lem [] h = refl
first_line_lem (c ∷ s) h = ground (arith, first_line_lem s)

-- A message that is one line, or has a line break and any text behind its first line.
abbrev pub message_of : Text → Option Text → Text
message_of line none = line
message_of line (some body) = line ++ 10 ∷ body

first_line-message_of :
    (line : Text) (body : Option Text)
    → no_newline line ≡ true
    → first_line (message_of line body) ≡ line
first_line-message_of line none h = first_line_lem line h
first_line-message_of line (some body) h = first_line-append line body h

-- A message whose first line, with or without others behind it, ends in `(#N)` refers to the pull
-- request N, whatever other references stand in its title, where N is positive and fits an int.
pub parse_pr_reference_lem :
    (title : Text) (body : Option Text) (n : ℕ)
    → 0 < n
    → n < 2 ^ 63
    → no_newline (title ++ token n) ≡ true
    → parse_pr_reference (message_of (title ++ token n) body) ≡ some n
parse_pr_reference_lem title body n pos small plain =
    let read =
      ap (leftmost pr_token) (first_line-message_of (title ++ token n) body plain)
      ∙ leftmost-token title n pos in
    parse_found (message_of (title ++ token n) body) (itoa n) read ∙ positive_int-itoa n pos small
