-- ===== src/Model/CoAuthors/Distinct.antt =====
-- The co-authors of a message have addresses, and no two the same.
use gh_audit.Prelude.{
  ◌∙◌, ap, ap, ◌++◌, text_beq, all, all_intro, ◌/=◌, inl, inr, ◌≡◌, ◌≢◌, refl, sym, Bool, true,
  false, ◌||◌, List, [], ◌∷◌, Memᴰ, arith, Bool-cases, Apart, any, ◌==◌, text_eq, on_if,
  text_beq_iff,
}
use gh_audit.Model.CoAuthors.Noreply.{login_from_noreply_email-IsNoreply}
use gh_audit.Text.{has_suffix, Text, text, to_lower, trim_space, contains}
use gh_audit.Model.{CoAuthor}
use gh_audit.Model.CoAuthors.{
  login_from_noreply_email, noreply_domain, co_author, collect, find_all, parse_co_authors,
}

abbrev pub folded_email : CoAuthor → Text
folded_email a = to_lower a.email

-- What the loop collects: no address that is blank or has been seen, and none twice.
record Distinct (seen : List Text) (found : List CoAuthor) : Type 0 where
  apart : Apart folded_email found
  new : (a : CoAuthor) → Memᴰ a found → any (λ k. k == folded_email a) seen ≡ false
  filled : (a : CoAuthor) → Memᴰ a found → a.email ≢ []
  logins : (a : CoAuthor) → Memᴰ a found → a.login ≡ login_from_noreply_email a.email

neither : (a b : Bool) → (a || b) ≡ false → (a ≡ false) × (b ≡ false)
neither true b h = absurd cc
neither false b h = (refl, h)

not_text : (s t : Text) → (s == t) ≡ false → s ≢ t
not_text s t h e = absurd (ground (arith, text_beq_iff s t, h, e))

kept :
    (seen : List Text) (a : CoAuthor) (found : List CoAuthor)
    → any (λ k. k == folded_email a) seen ≡ false
    → a.email ≢ []
    → a.login ≡ login_from_noreply_email a.email
    → Distinct (folded_email a ∷ seen) found
    → Distinct seen (a ∷ found)
kept seen a found unseen full login h = record {
  apart = (
    (λ b m e. not_text (folded_email a) (folded_email b) (neither _ _ (h.new b m)).0 (sym e)),
    h.apart,
  );
  new = new_here;
  filled = filled_here;
  logins = logins_here;
}
  where
    new_here : (b : CoAuthor) → Memᴰ b (a ∷ found) → any (λ k. k == folded_email b) seen ≡ false
    new_here b (Memᴰ.head e) = rw e unseen
    new_here b (Memᴰ.tail m) = (neither _ _ (h.new b m)).1

    filled_here : (b : CoAuthor) → Memᴰ b (a ∷ found) → b.email ≢ []
    filled_here b (Memᴰ.head e) = rw e full
    filled_here b (Memᴰ.tail m) = h.filled b m

    logins_here : (b : CoAuthor) → Memᴰ b (a ∷ found) → b.login ≡ login_from_noreply_email b.email
    logins_here b (Memᴰ.head e) = rw e login
    logins_here b (Memᴰ.tail m) = h.logins b m

collect-Distinct : (seen : List Text) (ms : List (Text × Text)) → Distinct seen (collect seen ms)
unfolding collect co_author trim_space
collect-Distinct seen [] = record {
  apart = tt;
  new = λ a m. elim m [ ];
  filled = λ a m. elim m [ ];
  logins = λ a m. elim m [ ];
}
collect-Distinct seen ((name, address) ∷ ms) =
    let email = trim_space address in
    elim (Bool-cases (email == [] || any (λ k. k == to_lower email) seen)) [
      | inl again ↦ rw (again, collect) (collect-Distinct seen ms)
      | inr fresh ↦
          let (full, unseen) = neither (email == []) _ fresh in
          rw (fresh, collect)
            (kept seen (co_author name email) (collect (to_lower email ∷ seen) ms) unseen
              (not_text email [] full) refl (collect-Distinct (to_lower email ∷ seen) ms))
    ]

full_email : (s : Text) → s ≢ [] → (s /= []) ≡ true
full_email [] h = absurd (h refl)
full_email (c ∷ s) h = unfold text_beq in refl

has_suffix-append : (p s : Text) → has_suffix (p ++ s) s ≡ true
unfolding has_suffix
has_suffix-append [] [] = unfold text_beq in refl
has_suffix-append [] (c ∷ s) = rw ((text_beq_iff (c ∷ s) (c ∷ s)).1 refl) refl
has_suffix-append (c ∷ p) s = ground (arith, has_suffix-append p s)

-- A login that its address vouches for.
abbrev pub is_vouched : CoAuthor → Bool
is_vouched a = a.login == [] || has_suffix (to_lower a.email) (a.login ++ noreply_domain)

vouched :
    (a : CoAuthor) (login : Text)
    → login ≡ login_from_noreply_email a.email
    → (login == [] || has_suffix (to_lower a.email) (login ++ noreply_domain)) ≡ true
vouched a [] e = unfold text_beq in refl
vouched a (c ∷ u) e =
    let (front, address) = login_from_noreply_email-IsNoreply a.email c u (sym e) in
    unfold text_beq in
    ap (λ s. has_suffix s ((c ∷ u) ++ noreply_domain)) address
    ∙ has_suffix-append front ((c ∷ u) ++ noreply_domain)

Distinct-all :
    (found : List CoAuthor)
    → Distinct [] found
    → Apart folded_email found
      × (all (λ (a : CoAuthor). a.email /= []) found ≡ true)
      × (all is_vouched found ≡ true)
Distinct-all found d = (
  d.apart,
  all_intro (λ (a : CoAuthor). a.email /= []) found (λ a m. full_email a.email (d.filled a m)),
  all_intro is_vouched found (λ a m. vouched a a.login (d.logins a m)),
)

-- However often a message names a co-author, and in whatever case, no two of the co-authors that are
-- parsed from it have the same address up to case, none has a blank one, and one that has a login has
-- it from an address that, in lower case, ends in the login and GitHub's noreply domain.
pub parse_co_authors_sound :
    (message : Text)
    → Apart folded_email (parse_co_authors message)
      × (all (λ (a : CoAuthor). a.email /= []) (parse_co_authors message) ≡ true)
      × (all is_vouched (parse_co_authors message) ≡ true)
unfolding parse_co_authors
parse_co_authors_sound message = Distinct-all _ (
    on_if (Distinct []) (contains (to_lower message) (text "co-authored-by"))
      (collect-Distinct [] (find_all 0 message)) (collect-Distinct [] []))
