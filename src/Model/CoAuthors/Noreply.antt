-- ===== src/Model/CoAuthors/Noreply.antt =====
-- A login is read from an address at GitHub's noreply domain, and from no other.
use gh_audit.Prelude.{
  ℕ, ◌≡◌, ◌⊎◌, inl, inr, refl, sym, ap, ◌∙◌, Option, none, some, [], ◌∷◌, ◌++◌, arith, ◌==◌, nat_eq,
  text_eq, Bool-cases, text_beq_iff,
}
use mathlib.Core.List.{append_assoc}
use gh_audit.Text.{Text, to_lower, span_digits}
use gh_audit.Text.Decimal.{is_digit}
use gh_audit.Model.CoAuthors.{
  span_not, noreply_domain, user_of, user_at, user_after, first_of, or_blank,
  login_from_noreply_email,
}

-- `span_not` splits a text.
span_not_split : (b : ℕ) (s : Text) → s ≡ (span_not b s).0 ++ (span_not b s).1
unfolding span_not
span_not_split b [] = refl
span_not_split b (c ∷ s) = elim (Bool-cases (c == b)) [
  | inl stop ↦ rw stop refl
  | inr on ↦ rw on (ap (λ t. c ∷ t) (span_not_split b s))
]

span_digits_split : (s : Text) → s ≡ (span_digits s).0 ++ (span_digits s).1
unfolding span_digits
span_digits_split [] = refl
span_digits_split (c ∷ s) = elim (Bool-cases (is_digit c)) [
  | inl digit ↦ rw digit (ap (λ t. c ∷ t) (span_digits_split s))
  | inr other ↦ rw other refl
]

user_of_sound :
    (x : Text × Text) (u : Text) → user_of x ≡ some u → (x.0 ≡ u) × (x.1 ≡ noreply_domain)
user_of_sound ([], d) u h = absurd cc
user_of_sound (c ∷ v, d) u h = elim (Bool-cases (d == noreply_domain)) [
  | inl same ↦ (ground (arith, h, same), (text_beq_iff d noreply_domain).0 same)
  | inr other ↦ absurd (ground (arith, h, other))
]

user_at_sound : (s u : Text) → user_at s ≡ some u → s ≡ u ++ noreply_domain
user_at_sound s u h =
    let (user, domain) = user_of_sound (span_not b'@' s) u h in
    span_not_split b'@' s ∙ ap (λ t. t ++ (span_not b'@' s).1) user ∙ ap (λ t. u ++ t) domain

-- Where a login is read, what stands before it.
user_after_sound :
    (x : Text × Text) (u : Text)
    → user_after x ≡ some u
    → (p : Text) × (x.0 ++ x.1 ≡ p ++ (u ++ noreply_domain))
user_after_sound ([], rest) u h = absurd cc
user_after_sound (d ∷ ds, []) u h = absurd cc
user_after_sound (d ∷ ds, c ∷ rest) u h = elim (Bool-cases (c == b'+')) [
  | inl plus ↦
      let at_rest : rest ≡ u ++ noreply_domain = user_at_sound rest u (ground (arith, h, plus)) in
      (
        (d ∷ ds) ++ c ∷ [],
        ap (λ t. (d ∷ ds) ++ c ∷ t) at_rest
            ∙ sym (append_assoc (d ∷ ds) (c ∷ []) (u ++ noreply_domain)),
      )
  | inr other ↦ absurd (ground (arith, h, other))
]

or_blank-some : (o : Option Text) (c : ℕ) (u : Text) → or_blank o ≡ c ∷ u → o ≡ some (c ∷ u)
or_blank-some none c u h = absurd cc
or_blank-some (some v) c u h = ap some h

first_of-some :
    {A : Type 0} (o later : Option A) (a : A)
    → first_of o later ≡ some a
    → (o ≡ some a) ⊎ (later ≡ some a)
first_of-some none later a h = inr h
first_of-some (some b) later a h = inl h

-- A login is read only from an address that, but for its case, ends in the login and GitHub's noreply
-- domain; an address at any other domain, a longer one included, gives none.
pub login_from_noreply_email-IsNoreply :
    (email : Text) (c : ℕ) (user : Text)
    → login_from_noreply_email email ≡ c ∷ user
    → (front : Text) × (to_lower email ≡ front ++ ((c ∷ user) ++ noreply_domain))
unfolding login_from_noreply_email
login_from_noreply_email-IsNoreply email c user h =
    let s = to_lower email in
    elim (first_of-some (user_after (span_digits s)) (user_at s) (c ∷ user)
      (or_blank-some _ c user h)) [
        | inl behind ↦
            let (front, e) = user_after_sound (span_digits s) (c ∷ user) behind in
            (front, span_digits_split s ∙ e)
        | inr whole ↦ ([], user_at_sound s (c ∷ user) whole)
      ]
