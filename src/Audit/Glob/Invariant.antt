-- ===== src/Audit/Glob/Invariant.antt =====
-- The invariant of globMatch's scan, what it is to find out, and what is left of it.
use gh_audit.Prelude.{
  ℕ, ◌+◌, ◌*◌, ◌≤◌, ◌<◌, ◌≢◌, ◌↔◌, ◌⊎◌, Option, none, some, [], ◌∷◌, nat_eq, text_eq, length,
}
use gh_audit.Audit.Glob.{Scan}
use gh_audit.Audit.Glob.Matches.{Matches, IsSuffix, Somewhere}
use gh_audit.Text.{Text}

-- The text holds no `*` of its own, as no branch name does.
abbrev pub IsPlain : Text → Type 0
IsPlain [] = Unit
IsPlain (c ∷ s) = (c ≢ b'*') × IsPlain s

abbrev pub rest_of : Text → Text
rest_of [] = []
rest_of (c ∷ s) = s

-- Behind the last `*`, what the scan has passed was taken as early as could be: any later match of
-- the pattern from there goes on to a match of what is left.
abbrev pub Greedy : Text → Text → Text → Text → Type 0
Greedy p s after_star mark =
    (t : Text) → IsSuffix t (rest_of mark) → Matches after_star t → Somewhere p s

abbrev pub StarOk : ℕ → ℕ → Text → Text → Option (Text × Text) → Type 0
StarOk big_p big_s p s none = Unit
StarOk big_p big_s p s (some (after_star, mark)) =
    (length after_star ≤ big_p)
    × (length mark ≤ big_s)
    × IsPlain mark
    × IsSuffix s mark
    × Greedy p s after_star mark

pub record Good (big_p big_s : ℕ) (p s : Text) (star : Option (Text × Text)) : Type 0 where
  pub pat_le : length p ≤ big_p
  pub txt_le : length s ≤ big_s
  pub plain : IsPlain s
  pub star_ok : StarOk big_p big_s p s star

-- What the scan is to find out: whether the rest matches, or the text behind a later mark.
abbrev pub Answer : Text → Text → Option (Text × Text) → Type 0
Answer p s none = Matches p s
Answer p s (some (after_star, mark)) = Matches p s ⊎ Somewhere after_star (rest_of mark)

-- The steps left.
abbrev pub cost : ℕ → ℕ → Text → Text → Option (Text × Text) → ℕ
cost big_p big_s p s none = (big_s + 1) * (big_s + big_p + 2) + length s + length p
cost big_p big_s p s (some (after_star, mark)) =
    length mark * (big_s + big_p + 2) + length s + length p

-- One step: it keeps the invariant and the question, and costs.
pub record Kept (big_p big_s : ℕ) (p s : Text) (star : Option (Text × Text)) (u : Scan)
    : Type 0 where
  pub good : Good big_p big_s u.pat u.txt u.star
  pub cheaper : cost big_p big_s u.pat u.txt u.star < cost big_p big_s p s star
  pub same : Answer u.pat u.txt u.star ↔ Answer p s star
