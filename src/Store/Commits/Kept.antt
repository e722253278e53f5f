-- ===== src/Store/Commits/Kept.antt =====
-- What an ingestion of commits keeps of the rows that are stored.
use gh_audit.Store.Table.Merge.{
  last_at-map, row_at-bulk_insert_if_absent, row_at-bulk_upsert, last_at,
}
use gh_audit.Prelude.{
  subst, ◌∙◌, sym, ap, Option-cases, on_if, ◌≡◌, refl, ◌⊎◌, inl, inr, true, Option, none, some,
  List, [], ◌∷◌, map, Memᴰ, arith, Bool-cases, nat_eq, text_eq,
}
use gh_audit.Model.{Time, Commit}
use gh_audit.Store.Table.{row_at, or_row, columns_eq}
use gh_audit.Store.Rows.{NameKey, Store, CommitRow, commit_key}
use gh_audit.Audit.Finish.{is_some}
use gh_audit.Store.Commits.{
  insert_commits_if_absent, upsert_commits, preserve_commit_detail, commit_row, with_detail,
}

-- The columns that a fetch of one commit's detail fills.
pub record SameDetail (old new : CommitRow) : Type 0 where
  pub additions : new.additions ≡ old.additions
  pub deletions : new.deletions ≡ old.deletions
  pub files_changed : new.files_changed ≡ old.files_changed
  pub detail_fetched_at : new.detail_fetched_at ≡ old.detail_fetched_at

-- A verified commit of the batch gives the row.
pub record IsVerifiedRow (now : Time) (commits : List Commit) (new : CommitRow) : Type 0 where
  pub commit : Commit
  pub in_batch : Memᴰ commit commits
  pub verified : commit.stats_verified ≡ true
  pub row : new ≡ commit_row now commit

map-compose :
    {A B C : Type 0} (f : B → C) (g : A → B) (xs : List A)
    → map f (map g xs) ≡ map (λ x. f (g x)) xs
map-compose f g [] = refl
map-compose f g (x ∷ xs) = ap (λ ys. f (g x) ∷ ys) (map-compose f g xs)

commit_key-with_detail :
    (s : CommitRow) (o : Option CommitRow) → commit_key (with_detail s o) ≡ commit_key s
commit_key-with_detail s none = refl
commit_key-with_detail s (some c) = on_if (λ r. commit_key r ≡ commit_key s) _ refl refl

staged_detail :
    (now : Time) (commits : List Commit) (c : Commit) (old : CommitRow)
    → Memᴰ c commits
    → is_some old.detail_fetched_at ≡ true
    → let new = with_detail (commit_row now c) (some old) in
      SameDetail old new ⊎ IsVerifiedRow now commits new
unfolding commit_row
staged_detail now commits c old m h = elim (Bool-cases c.stats_verified) [
  | inl verified ↦
      inr (record { commit = c; in_batch = m; verified = verified; row = ground (arith, verified) })
  | inr fresh ↦ inl (record {
    additions = ground (arith, fresh, h);
    deletions = ground (arith, fresh, h);
    files_changed = ground (arith, fresh, h);
    detail_fetched_at = ground (arith, fresh, h);
  })
]

abbrev staged : Time → List CommitRow → Commit → CommitRow
staged now table c = preserve_commit_detail table (commit_row now c)

row_at-upsert_commits :
    (now : Time) (commits : List Commit) (s : Store) (k : NameKey)
    → row_at commit_key k (upsert_commits now commits s).commits
      ≡ or_row
          (last_at commit_key k (map (staged now s.commits) commits))
          (row_at commit_key k s.commits)
unfolding upsert_commits
row_at-upsert_commits now commits s k =
    row_at-bulk_upsert commit_key preserve_commit_detail k (map (commit_row now) commits) s.commits
    ∙ rw (map-compose (preserve_commit_detail s.commits) (commit_row now) commits) refl

staged_over :
    (now : Time) (table : List CommitRow) (c : Commit) (k : NameKey) (old new : CommitRow)
    → row_at commit_key k table ≡ some old
    → staged now table c ≡ new
    → commit_key new ≡ k
    → with_detail (commit_row now c) (some old) ≡ new
unfolding preserve_commit_detail
staged_over now table c k old new there e at =
    let here : commit_key (commit_row now c) ≡ k =
      sym (
        commit_key-with_detail (commit_row now c)
          (row_at commit_key (commit_key (commit_row now c)) table))
      ∙ ap commit_key e
      ∙ at in
    ap (with_detail (commit_row now c)) (sym (ap (λ j. row_at commit_key j table) here ∙ there)) ∙ e

-- Where a commit is stored with the detail that a fetch of it verified, an ingestion of any commits
-- leaves a row for it, with that detail, unless a verified commit of the batch gives the row.
pub upsert_commits-SameDetail :
    (now : Time) (commits : List Commit) (s : Store) (k : NameKey) (old : CommitRow)
    → row_at commit_key k s.commits ≡ some old
    → is_some old.detail_fetched_at ≡ true
    → (new : CommitRow) × (row_at commit_key k (upsert_commits now commits s).commits ≡ some new)
      × (SameDetail old new ⊎ IsVerifiedRow now commits new)
upsert_commits-SameDetail now commits s k old there detailed =
    elim (Option-cases (last_at commit_key k (map (staged now s.commits) commits))) [
      | inl e ↦ (
        old,
        row_at-upsert_commits now commits s k ∙ rw e there,
        inl (record {
          additions = refl;
          deletions = refl;
          files_changed = refl;
          detail_fetched_at = refl;
        }),
      )
      | inr (new, e) ↦
          let (c, m, made, at) = last_at-map commit_key (staged now s.commits) k commits e in
          (
            new,
            row_at-upsert_commits now commits s k ∙ rw e refl,
            subst (λ r. SameDetail old r ⊎ IsVerifiedRow now commits r)
                (staged_over now s.commits c k old new there made at)
                (staged_detail now commits c old m detailed),
          )
    ]

-- An insertion of absent commits leaves each row that is stored as it is, and gives each key that
-- is not stored the last of the new rows that have it.
row_at-insert_commits_if_absent :
    (now : Time) (commits : List Commit) (s : Store) (k : NameKey)
    → row_at commit_key k (insert_commits_if_absent now commits s).commits
      ≡ or_row (row_at commit_key k s.commits) (last_at commit_key k (map (commit_row now) commits))
unfolding insert_commits_if_absent
row_at-insert_commits_if_absent now commits s k =
    row_at-bulk_insert_if_absent commit_key k (map (commit_row now) commits) s.commits

pub commit_key-preserve_commit_detail :
    (table : List CommitRow) (r : CommitRow)
    → commit_key (preserve_commit_detail table r) ≡ commit_key r
unfolding preserve_commit_detail
commit_key-preserve_commit_detail table r =
    commit_key-with_detail r (row_at commit_key (commit_key r) table)
