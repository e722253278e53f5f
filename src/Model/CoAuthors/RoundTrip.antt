-- ===== src/Model/CoAuthors/RoundTrip.antt =====
-- The two forms of a noreply address that GitHub writes are read back.
use gh_audit.Prelude.{
  ◌≡◌, ◌≢◌, refl, ap, ◌∙◌, true, Bool, ◌&&◌, none, some, [], ◌∷◌, ◌++◌, arith, all, ◌/=◌, nat_eq,
  text_eq, text_beq, ℕ,
}
use gh_audit.Text.{Text, lower, to_lower, span_digits}
use gh_audit.Text.Decimal.{is_digit}
use gh_audit.Text.Prefix.{span_digits-append}
use gh_audit.Model.CoAuthors.{
  span_not, noreply_domain, user_at, user_after, login_from_noreply_email,
}

-- A login holds neither of the two bytes that GitHub writes around it.
abbrev pub is_user_byte : ℕ → Bool
is_user_byte c = c /= b'@' && c /= b'+'

abbrev pub IsUser : Text → Type 0
IsUser user = (user ≢ []) × (all is_user_byte user ≡ true)

lower_user : (user : Text) → all is_user_byte user ≡ true → all is_user_byte (to_lower user) ≡ true
unfolding to_lower
lower_user [] h = refl
lower_user (c ∷ user) h = ground (arith, lower_user user)

lower_digits : (ds : Text) → all is_digit ds ≡ true → to_lower ds ≡ ds
unfolding to_lower
lower_digits [] h = refl
lower_digits (d ∷ ds) h = ground (arith, lower_digits ds)

to_lower-append : (s t : Text) → to_lower (s ++ t) ≡ to_lower s ++ to_lower t
unfolding to_lower
to_lower-append [] t = refl
to_lower-append (c ∷ s) t = ap (λ r. lower c ∷ r) (to_lower-append s t)

span_not-append :
    (user rest : Text)
    → all is_user_byte user ≡ true
    → span_not b'@' (user ++ b'@' ∷ rest) ≡ (user, b'@' ∷ rest)
unfolding span_not
span_not-append [] rest h = refl
span_not-append (c ∷ user) rest h = ground (arith, span_not-append user rest)

user_at-append : (user : Text) → IsUser user → user_at (user ++ noreply_domain) ≡ some user
unfolding text_beq
user_at-append [] h = absurd (h.0 refl)
user_at-append (c ∷ user) h = rw (span_not-append (c ∷ user) _ h.1) refl

no_plus : (s : Text) → all (λ c. c /= b'+') s ≡ true → all (λ c. c /= b'+') (span_digits s).1 ≡ true
unfolding span_digits
no_plus [] h = refl
no_plus (c ∷ s) h = ground (arith, no_plus s)

user_after-none : (x : Text × Text) → all (λ c. c /= b'+') x.1 ≡ true → user_after x ≡ none
user_after-none ([], rest) h = refl
user_after-none (d ∷ ds, []) h = refl
user_after-none (d ∷ ds, c ∷ rest) h = ground arith

plus_free :
    (user : Text)
    → all is_user_byte user ≡ true
    → all (λ c. c /= b'+') (user ++ noreply_domain) ≡ true
plus_free [] h = refl
plus_free (c ∷ user) h = ground (arith, plus_free user)

lower_nonempty : (user : Text) → user ≢ [] → to_lower user ≢ []
unfolding to_lower
lower_nonempty [] h e = absurd (h refl)
lower_nonempty (c ∷ user) h e = absurd cc

user_after-append : (ds rest : Text) → ds ≢ [] → user_after (ds, b'+' ∷ rest) ≡ user_at rest
user_after-append [] rest h = absurd (h refl)
user_after-append (d ∷ ds) rest h = refl

-- The login of an account, behind its number and a plus or alone, is read in lower case from its
-- noreply address.
login_from_noreply_email_lem :
    (digits user : Text)
    → digits ≢ []
    → all is_digit digits ≡ true
    → IsUser user
    → (login_from_noreply_email (digits ++ b'+' ∷ (user ++ noreply_domain)) ≡ to_lower user)
      × (login_from_noreply_email (user ++ noreply_domain) ≡ to_lower user)
unfolding login_from_noreply_email
login_from_noreply_email_lem digits user some_digit all_digits u =
    let low : IsUser (to_lower user) = (lower_nonempty user u.0, lower_user user u.1) in
    let address : to_lower (user ++ noreply_domain) ≡ to_lower user ++ noreply_domain =
      unfold to_lower in to_lower-append user noreply_domain in
    let numbered : to_lower (digits ++ b'+' ∷ (user ++ noreply_domain))
        ≡ digits ++ b'+' ∷ (to_lower user ++ noreply_domain) =
      to_lower-append digits (b'+' ∷ (user ++ noreply_domain))
      ∙ ap (λ t. t ++ to_lower (b'+' ∷ (user ++ noreply_domain))) (lower_digits digits all_digits)
      ∙ unfold to_lower in ap (λ t. digits ++ b'+' ∷ t) address in
    (
      rw
          (
            numbered,
            span_digits-append digits b'+' (to_lower user ++ noreply_domain) all_digits refl,
            user_after-append digits (to_lower user ++ noreply_domain) some_digit,
            user_at-append (to_lower user) low,
          )
          refl,
      rw
          (
            address,
            user_after-none (span_digits (to_lower user ++ noreply_domain))
                (no_plus _ (plus_free (to_lower user) low.1)),
            user_at-append (to_lower user) low,
          )
          refl,
    )
