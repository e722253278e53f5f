-- ===== src/Pipeline/Branch/Cursor.antt =====
-- What the cursor of a branch holds after a sync.
use gh_audit.Prelude.{
  ◌≤◌, ◌≡◌, refl, ap, ◌⊎◌, inl, inr, Bool, true, false, not, ◌&&◌, ◌||◌, Option, none, some, List,
  [], ◌∷◌, Memᴰ, arith, if◌then◌else◌, Bool-cases, ◌==◌, nat_eq, text_beq, text_beq_iff, text_eq,
  ◌/=◌,
}
use gh_audit.Text.{Text}
use gh_audit.Model.{Time, Commit, is_zero, after}
use gh_audit.Store.Rows.{SyncCursor, RepoInfo}
use gh_audit.Pipeline.Fetch.{SyncConfig, Fetched}
use gh_audit.Pipeline.Branch.{newest, or_cursor_date, cursor_sha, is_moved, next_cursor}

abbrev pub cursor_date : Option SyncCursor → Time
cursor_date none = 0
cursor_date (some c) = c.last_date

-- The cursor that is stored after the write, if there was one.
abbrev pub kept_cursor : Option SyncCursor → Option SyncCursor → Option SyncCursor
kept_cursor none old = old
kept_cursor (some next) old = some next

newest-le : (latest : Time) (cs : List Commit) → latest ≤ newest latest cs
unfolding newest
newest-le latest [] = omega arith
newest-le latest (c ∷ cs) =
    ground (arith, newest-le (if after c.committed_at latest then c.committed_at else latest) cs)

newest-Memᴰ :
    (latest : Time) (cs : List Commit) {c : Commit} → Memᴰ c cs → c.committed_at ≤ newest latest cs
unfolding newest
newest-Memᴰ latest [] m = elim m [ ]
newest-Memᴰ latest (d ∷ cs) {c} (Memᴰ.head e) =
    let same : c.committed_at ≡ d.committed_at = ap (λ (x : Commit). x.committed_at) e in
    ground
      (arith, same, newest-le (if after d.committed_at latest then d.committed_at else latest) cs)
newest-Memᴰ latest (d ∷ cs) (Memᴰ.tail m) =
    newest-Memᴰ (if after d.committed_at latest then d.committed_at else latest) cs m

newest_from :
    (latest : Time) (cs : List Commit)
    → (newest latest cs ≡ latest) ⊎ ((c : Commit) × Memᴰ c cs × (newest latest cs ≡ c.committed_at))
unfolding newest
newest_from latest [] = inl refl
newest_from latest (d ∷ cs) = elim (Bool-cases (after d.committed_at latest)) [
  | inl later ↦ rw later (elim (newest_from d.committed_at cs) [
    | inl e ↦ inr (d, Memᴰ.head refl, e)
    | inr (c, m, e) ↦ inr (c, Memᴰ.tail m, e)
  ])
  | inr kept ↦
      rw kept
        (elim (newest_from latest cs) [ inl e ↦ inl e | inr (c, m, e) ↦ inr (c, Memᴰ.tail m, e) ])
]

-- The later of two dates is one of them.
or_cursor_date_from :
    (old : Option SyncCursor) (cs : List Commit)
    → (or_cursor_date old (newest 0 cs) ≡ cursor_date old)
      ⊎ ((c : Commit) × Memᴰ c cs × (or_cursor_date old (newest 0 cs) ≡ c.committed_at))
or_cursor_date_from none cs = newest_from 0 cs
or_cursor_date_from (some k) cs = elim (newest_from 0 cs) [
  | inl e ↦ inl (ground (arith, e))
  | inr (c, m, e) ↦ elim (Bool-cases (after k.last_date (newest 0 cs))) [
    | inl old ↦ inl (ground (arith, old))
    | inr new ↦ inr (c, m, ground (arith, new, e))
  ]
]

-- What a cursor is to hold: no date before that of the old cursor or of a commit, and a date of one
-- of them; and the tip that was found, but for a run with an end date or a run that found none.
pub record Advances (config : SyncConfig) (old : Option SyncCursor) (fetched : Fetched)
    (new : Option SyncCursor) : Type 0 where
  pub not_back : cursor_date old ≤ cursor_date new
  pub covers : (c : Commit) → Memᴰ c fetched.commits → c.committed_at ≤ cursor_date new
  pub reached :
      (cursor_date new ≡ cursor_date old)
      ⊎ ((c : Commit) × Memᴰ c fetched.commits × (cursor_date new ≡ c.committed_at))
  pub tip : cursor_sha new ≡ (
      if not (is_zero config.until) || fetched.head_sha == []
      then cursor_sha old
      else fetched.head_sha)

-- Where nothing is written, the old cursor holds what would have been.
kept_lem :
    (b : Bool) (old : Option SyncCursor) (next : SyncCursor)
    → (b ≡ false → (cursor_date old ≡ next.last_date) × (cursor_sha old ≡ next.last_sha))
    → let new = kept_cursor (if b then some next else none) old in
      (cursor_date new ≡ next.last_date) × (cursor_sha new ≡ next.last_sha)
kept_lem true old next same = (refl, refl)
kept_lem false old next same = same refl

unmoved :
    (old : Option SyncCursor) (date : Time) (sha : Text)
    → cursor_date old ≤ date
    → (sha ≡ [] → cursor_sha old ≡ [])
    → ((sha /= [] || not (is_zero date)) && is_moved old date sha) ≡ false
    → (cursor_date old ≡ date) × (cursor_sha old ≡ sha)
unmoved none date sha le empty h = ground (arith, text_beq_iff sha [])
unmoved (some c) date sha le empty h = elim (Bool-cases (text_beq sha [])) [
  | inl e ↦
      ground
        (arith, text_beq_iff sha [], text_beq_iff sha c.last_sha, empty ((text_beq_iff sha []).0 e))
  | inr e ↦ ground (arith, e, text_beq_iff sha c.last_sha)
]

abbrev tip_of : SyncConfig → Option SyncCursor → Fetched → Text
tip_of config old fetched =
    if not (is_zero config.until) || fetched.head_sha == []
    then cursor_sha old
    else fetched.head_sha

tip_of_empty :
    (config : SyncConfig) (old : Option SyncCursor) (fetched : Fetched)
    → tip_of config old fetched ≡ []
    → cursor_sha old ≡ []
tip_of_empty config old fetched h = ground (arith, text_beq_iff fetched.head_sha [])

cursor_date-le : (old : Option SyncCursor) (t : Time) → cursor_date old ≤ or_cursor_date old t
cursor_date-le none t = omega arith
cursor_date-le (some c) t = ground arith

newest-or_cursor_date : (old : Option SyncCursor) (t : Time) → t ≤ or_cursor_date old t
newest-or_cursor_date none t = omega arith
newest-or_cursor_date (some c) t = ground arith

-- After a sync the date of a branch's cursor is its old one or that of a fetched commit, and is not
-- before the old one nor before that of any fetched commit; its tip is the fetched one, or the old
-- one where the run has an end date or found no tip.
pub next_cursor-Advances :
    (now : Time) (config : SyncConfig) (repo : RepoInfo) (branch : Text) (old : Option SyncCursor)
    (fetched : Fetched)
    → Advances config old fetched (kept_cursor (next_cursor now config repo branch old fetched) old)
unfolding next_cursor
next_cursor-Advances now config repo branch old fetched =
    let date = or_cursor_date old (newest 0 fetched.commits) in
    let sha = tip_of config old fetched in
    let (same_date, same_sha) =
      kept_lem ((sha /= [] || not (is_zero date)) && is_moved old date sha) old
        (record {
          org = repo.org;
          repo = repo.name;
          branch = branch;
          last_date = date;
          last_sha = sha;
          updated_at = now;
        })
        (unmoved old date sha (cursor_date-le old (newest 0 fetched.commits))
          (tip_of_empty config old fetched)) in
    record {
      not_back = rw same_date (cursor_date-le old (newest 0 fetched.commits));
      covers = λ c m. rw same_date (
          omega (
            arith,
            newest-Memᴰ 0 fetched.commits m,
            newest-or_cursor_date old (newest 0 fetched.commits),
          ));
      reached = rw same_date (or_cursor_date_from old fetched.commits);
      tip = same_sha;
    }
