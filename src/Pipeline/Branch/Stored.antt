-- ===== src/Pipeline/Branch/Stored.antt =====
-- What is fetched is stored.
use gh_audit.Store.Commits.Kept.{commit_key-preserve_commit_detail}
use gh_audit.Pipeline.Batch.Crash.{run_all}
use gh_audit.Pipeline.Batch.{Statement, perform}
use gh_audit.Prelude.{
  Bool, true, false, nat_beq, if◌then◌else◌, ◌≡◌, refl, sym, subst, Option, none, some, List, [],
  ◌∷◌, map, arith, nat_eq, text_eq, length, Memᴰ, ℕ, suc, zero, ap, ◌∙◌,
}
use gh_audit.Text.{Text}
use gh_audit.Model.{Commit, Time}
use gh_audit.Store.Table.{columns_eq}
use gh_audit.Store.Table.Present.{map-Memᴰ, bulk_upsert-adds_merged, IsThere}
use gh_audit.Store.Rows.{Store, RepoInfo, commit_key}
use gh_audit.Store.Commits.{
  commit_row, preserve_commit_detail, upsert_commits, upsert_co_authors, upsert_commit_branches,
}
use gh_audit.Pipeline.Sync.{◌>>◌, Sync, counted, pure, write}
use gh_audit.Pipeline.Sync.Kept.{then_run-some}
use gh_audit.Pipeline.Fetch.{SyncConfig, GithubSource}
use gh_audit.Pipeline.Branch.{Enricher, write_commits, shas_of}
use gh_audit.Audit.Types.{StatsFetcher}

upsert_co_authors-kept :
    (cs : List Commit) (s : Store) → (upsert_co_authors cs s).commits ≡ s.commits
unfolding upsert_co_authors
upsert_co_authors-kept cs s = refl

upsert_commit_branches-kept :
    (org repo : Text) (shas : List Text) (branch : Text) (s : Store)
    → (upsert_commit_branches org repo shas branch s).commits ≡ s.commits
unfolding upsert_commit_branches
upsert_commit_branches-kept org repo shas branch s = refl

fetched_row :
    (now : Time) (cs : List Commit) (c : Commit) (s : Store)
    → Memᴰ c cs
    → IsThere commit_key (commit_key (commit_row now c)) (upsert_commits now cs s).commits
unfolding upsert_commits
fetched_row now cs c s m =
    bulk_upsert-adds_merged commit_key preserve_commit_detail (map (commit_row now) cs) s.commits
      (commit_row now c) (commit_key-preserve_commit_detail s.commits (commit_row now c))
      (map-Memᴰ (commit_row now) m)

perform-some :
    (ws : List Statement) (reach : ℕ) (s t : Store) (left : ℕ)
    → perform reach ws s ≡ (t, some left)
    → t ≡ run_all ws s
unfolding perform run_all
perform-some [] reach s t left e = sym (ap (λ x. x.0) e)
perform-some (w ∷ ws) zero s t left e = absurd (cc (ap (λ x. x.1) e))
perform-some (w ∷ ws) (suc reach) s t left e = perform-some ws reach (w s) t left e

counted-some :
    (x : Store × Option ℕ) (t : Store) (out : ℕ × Unit {0})
    → counted x ≡ (t, some out)
    → x ≡ (t, some out.0)
counted-some (u, none) t out e = absurd (cc (ap (λ x. x.1) e))
counted-some (u, some n) t out e = ground arith

other_way :
    {A : Type 0} (b : Bool) (x y : Sync A) (reach : ℕ) (s : Store) (out : Store × Option (ℕ × A))
    → b ≡ false
    → (if b then x else y) reach s ≡ out
    → y reach s ≡ out
other_way true x y reach s out h e = absurd (cc h)
other_way false x y reach s out h e = e

some_length : {A : Type 0} (x : A) (xs : List A) → nat_beq (length (x ∷ xs)) 0 ≡ false
some_length x xs = ground arith

-- Where a write ends, all its statements took effect.
write-some :
    (ws : List Statement) (reach : ℕ) (s t : Store) (out : ℕ × Unit {0})
    → write ws reach s ≡ (t, some out)
    → t ≡ run_all ws s
write-some ws reach s t out e =
    perform-some ws reach s t out.0 (counted-some (perform reach ws s) t out e)

module _ (config : SyncConfig) (source : GithubSource) (now : Time) (repo : RepoInfo) where
  -- What is fetched has a row after the writes, where they end.
  pub write_commits-IsThere :
      (enricher : Enricher) (fetch_stats : StatsFetcher) (branch : Text) (cs : List Commit)
      (c : Commit) (reach : ℕ) (s t : Store) (out : ℕ × Unit {0})
      → write_commits config source enricher fetch_stats now repo branch cs reach s ≡ (t, some out)
      → Memᴰ c cs
      → IsThere commit_key (commit_key (commit_row now c)) t.commits
  unfolding write_commits
  write_commits-IsThere enricher fetch_stats branch [] c reach s t out e m = elim m [ ]
  write_commits-IsThere enricher fetch_stats branch (d ∷ cs) c reach s t out e m =
      let shas = shas_of (d ∷ cs) in
      let (s1, r1, done, wrote, e1) =
        then_run-some
          (write (upsert_commits now (d ∷ cs) ∷ upsert_co_authors (d ∷ cs) ∷ []) reach s)
          (λ done. write (upsert_commit_branches repo.org repo.name shas branch ∷ []))
          (other_way (nat_beq (length (d ∷ cs)) 0) (pure tt)
            (write (upsert_commits now (d ∷ cs) ∷ upsert_co_authors (d ∷ cs) ∷ [])
              >> write (upsert_commit_branches repo.org repo.name shas branch ∷ []))
            reach s (t, some out) (some_length d cs) e) in
      let first : s1 ≡ upsert_co_authors (d ∷ cs) (upsert_commits now (d ∷ cs) s) =
        unfold run_all in
        write-some (upsert_commits now (d ∷ cs) ∷ upsert_co_authors (d ∷ cs) ∷ []) reach s s1
          (r1, done) wrote in
      let second : t ≡ upsert_commit_branches repo.org repo.name shas branch s1 =
        unfold run_all in
        write-some (upsert_commit_branches repo.org repo.name shas branch ∷ []) r1 s1 t out e1 in
      let rows : t.commits ≡ (upsert_commits now (d ∷ cs) s).commits =
        ap (λ u. u.commits) second
        ∙ upsert_commit_branches-kept repo.org repo.name shas branch s1
        ∙ ap (λ u. u.commits) first
        ∙ upsert_co_authors-kept (d ∷ cs) (upsert_commits now (d ∷ cs) s) in
      subst (λ l. IsThere commit_key (commit_key (commit_row now c)) l) (sym rows)
        (fetched_row now (d ∷ cs) c s m)
