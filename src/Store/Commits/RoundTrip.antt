-- ===== src/Store/Commits/RoundTrip.antt =====
-- A commit that is stored reads as it was written. How the database converts the numbers and times of
-- a row is a parameter.
use mathlib.Core.List.{append_assoc, append-nil}
use gh_audit.Prelude.{
  sym, subst, ◌∙◌, ap, ◌++◌, ℕ, ◌%◌, ◌^◌, ◌<◌, ◌≡◌, refl, ◌≢◌, inl, inr, false, Option, none, some,
  List, [], ◌∷◌, arith, if◌then◌else◌, Bool-cases, ◌==◌, nat_eq, text_beq, text_eq, any,
}
use gh_audit.Text.{Text, text, join, split_at}
use gh_audit.Model.{Time, Commit}
use gh_audit.Store.Rows.{CommitRow}
use gh_audit.Store.Commits.{commit_row, scan_commit}

-- No byte of a text is the separator.
abbrev pub IsFree : ℕ → Text → Type 0
IsFree sep s = (any (λ c. c == sep) s ≡ false) × (s ≢ [])

abbrev pub AllFree : ℕ → List Text → Type 0
AllFree sep [] = Unit {0}
AllFree sep (s ∷ ss) = IsFree sep s × AllFree sep ss

split_at-free : (sep : ℕ) (s : Text) → any (λ c. c == sep) s ≡ false → split_at sep s ≡ s ∷ []
unfolding split_at
split_at-free sep [] h = refl
split_at-free sep (c ∷ s) h = ground (arith, split_at-free sep s)

split_at-part :
    (sep : ℕ) (s rest : Text)
    → any (λ c. c == sep) s ≡ false
    → split_at sep (s ++ sep ∷ rest) ≡ s ∷ split_at sep rest
unfolding split_at
split_at-part sep [] rest h = ground arith
split_at-part sep (c ∷ s) rest h = ground (arith, split_at-part sep s rest)

-- Parts without the separator are what a split of their join gives.
split_at-join :
    (sep : ℕ) (s : Text) (ss : List Text)
    → AllFree sep (s ∷ ss)
    → split_at sep (join (sep ∷ []) (s ∷ ss)) ≡ s ∷ ss
unfolding join
split_at-join sep s [] h = split_at-free sep s h.0.0
split_at-join sep s (t ∷ ss) h =
    ap (split_at sep) (append_assoc s (sep ∷ []) (join (sep ∷ []) (t ∷ ss)))
    ∙ split_at-part sep s (join (sep ∷ []) (t ∷ ss)) h.0.0
    ∙ ap (λ parts. s ∷ parts) (split_at-join sep t ss h.1)

parents : List Text → List Text
parents shas = let joined = join (text ",") shas in if joined == [] then [] else split_at 44 joined

not_empty : (s t : Text) → s ≢ [] → text_beq (s ++ t) [] ≡ false
unfolding text_beq
not_empty [] t h = absurd (h refl)
not_empty (c ∷ s) t h = refl

join_not_empty :
    (s : Text) (ss : List Text) → s ≢ [] → text_beq (join (text ",") (s ∷ ss)) [] ≡ false
unfolding join
join_not_empty s [] h = subst (λ u. text_beq u [] ≡ false) (append-nil s) (not_empty s [] h)
join_not_empty s (t ∷ ss) h =
    subst (λ u. text_beq u [] ≡ false) (sym (append_assoc s (text ",") (join (text ",") (t ∷ ss))))
      (not_empty s (text "," ++ join (text ",") (t ∷ ss)) h)

parents_lem : (shas : List Text) → AllFree 44 shas → parents shas ≡ shas
unfolding parents
parents_lem [] h = unfold join text_beq in refl
parents_lem (s ∷ ss) h = rw (join_not_empty s ss h.0.1) (split_at-join 44 s ss h)

abbrev pub map_option : (ℕ → ℕ) → Option ℕ → Option ℕ
map_option f none = none
map_option f (some n) = some (f n)

-- What the database gives back for a number written to an INTEGER column, and for a time written to a
-- TIMESTAMP column.
pub record Columns : Type 0 where
  pub integer : ℕ → ℕ
  pub timestamp : Time → Time

-- As documented an INTEGER has thirty-two bits with a sign, and a TIMESTAMP counts microseconds, up to
-- years far beyond 9000.
pub record IsExact (db : Columns) : Type 0 where
  pub integer_exact : (n : ℕ) → n < 2 ^ 31 → db.integer n ≡ n
  pub timestamp_exact : (t : Time) → t % 1000 ≡ 0 → t < 2 ^ 68 → db.timestamp t ≡ t

-- A row as it comes back from the table.
abbrev pub read_back : Columns → CommitRow → CommitRow
read_back db r = record r {
  committed_at = db.timestamp r.committed_at;
  parent_count = db.integer r.parent_count;
  additions = db.integer r.additions;
  deletions = db.integer r.deletions;
  files_changed = map_option db.integer r.files_changed;
  detail_fetched_at = map_option db.timestamp r.detail_fetched_at;
}

-- The counts fit an INTEGER, and the date, of the years up to 9000, is one in whole microseconds.
pub record Fits (c : Commit) : Type 0 where
  pub parent_count : c.parent_count < 2 ^ 31
  pub additions : c.additions < 2 ^ 31
  pub deletions : c.deletions < 2 ^ 31
  pub files_changed : c.files_changed < 2 ^ 31
  pub microseconds : c.committed_at % 1000 ≡ 0
  pub dated : c.committed_at < 2 ^ 68

read_back_lem :
    (db : Columns) (now : Time) (c : Commit)
    → IsExact db
    → Fits c
    → scan_commit (read_back db (commit_row now c)) ≡ scan_commit (commit_row now c)
unfolding scan_commit commit_row
read_back_lem db now c x fit = ground (
  arith,
  x.integer_exact c.parent_count fit.parent_count,
  x.integer_exact c.additions fit.additions,
  x.integer_exact c.deletions fit.deletions,
  x.integer_exact c.files_changed fit.files_changed,
  x.timestamp_exact c.committed_at fit.microseconds fit.dated,
)

same_row :
    (now : Time) (c : Commit)
    → AllFree 44 c.parent_shas
    → scan_commit (commit_row now c) ≡ record c {
      co_authors = [];
      branch = [];
      files_changed = if c.stats_verified then c.files_changed else 0;
    }
unfolding scan_commit commit_row parents
same_row now c h = elim (Bool-cases c.stats_verified) [
  | inl e ↦ ground (arith, e, parents_lem c.parent_shas h)
  | inr e ↦ ground (arith, e, parents_lem c.parent_shas h)
]

-- A commit whose parents' names hold no comma and are not empty, whose counts fit an INTEGER and whose
-- date is in whole microseconds reads from its row, through the columns of the table, as it was, but
-- for its branch and its co-authors, which other tables hold, and for a number of files that no fetch
-- of the commit verified.
pub scan_commit-commit_row :
    (db : Columns)
    → IsExact db
    → (now : Time) (c : Commit) → AllFree 44 c.parent_shas
    → Fits c
    → scan_commit (read_back db (commit_row now c)) ≡ record c {
      co_authors = [];
      branch = [];
      files_changed = if c.stats_verified then c.files_changed else 0;
    }
scan_commit-commit_row db exact now c h fit = read_back_lem db now c exact fit ∙ same_row now c h
