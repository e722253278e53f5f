-- ===== src/Tests/CoAuthors.antt =====
-- The theorems on co-authors at concrete inputs, and runs of the parser.
use gh_audit.Prelude.{true, Apart, ◌/=◌, all, ◌≡◌, refl, [], ◌∷◌, text_beq, text_eq}
use gh_audit.Text.{Text, text, to_lower}
use gh_audit.Model.{CoAuthor}
use gh_audit.Model.CoAuthors.Distinct.{is_vouched, folded_email, parse_co_authors_sound}
use gh_audit.Model.CoAuthors.{parse_co_authors, login_from_noreply_email, co_author}

trailers :
    parse_co_authors (
      text
        "Fix\n\nCo-authored-by: Ann B <ann@x.io>\nCO-AUTHORED-BY: <12+Bob@Users.noreply.github.com>\nCo-authored-by: A <ANN@x.io>")
    ≡ co_author (text "Ann B") (text "ann@x.io")
      ∷ co_author [] (text "12+Bob@Users.noreply.github.com")
      ∷ []
unfolding parse_co_authors login_from_noreply_email text_beq gh_audit.Text.contains
    gh_audit.Text.to_lower gh_audit.Text.trim_space
trailers = refl

by_login : login_from_noreply_email (text "12+Bob@Users.noreply.github.com") ≡ text "bob"
unfolding login_from_noreply_email text_beq gh_audit.Text.span_digits gh_audit.Text.to_lower
by_login = refl

lookalike : login_from_noreply_email (text "bob@users.noreply.github.com.evil.io") ≡ []
unfolding login_from_noreply_email text_beq gh_audit.Text.span_digits gh_audit.Text.to_lower
lookalike = refl

-- A trailer whose address is not closed takes the next trailer into its address.
swallowed :
    parse_co_authors (text "Co-authored-by: A <a\nCo-authored-by: B <b@x.io>")
    ≡ co_author (text "A") (text "a\nCo-authored-by: B <b@x.io") ∷ []
unfolding parse_co_authors login_from_noreply_email text_beq gh_audit.Text.contains
    gh_audit.Text.to_lower gh_audit.Text.trim_space
swallowed = refl

abbrev repeated : Text
repeated =
    text
      "Co-authored-by: A <1+a@users.noreply.github.com>\nCo-authored-by: B <1+A@Users.noreply.github.com>"

parse_co_authors_sound_example :
    Apart folded_email (parse_co_authors repeated)
    × (all (λ (a : CoAuthor). a.email /= []) (parse_co_authors repeated) ≡ true)
    × (all is_vouched (parse_co_authors repeated) ≡ true)
parse_co_authors_sound_example = parse_co_authors_sound repeated
