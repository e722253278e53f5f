-- ===== src/Pipeline/Branch/Drained.antt =====
-- A sync that ends leaves a verdict for every commit that was stored before, and for every one that
-- it fetched.
use gh_audit.Prelude.{
  Memᴰ, ℕ, zero, suc, ◌≡◌, sym, ap, subst, ◌⊎◌, inl, inr, Option, none, some, List, [], ◌∷◌, map,
  nat_eq, text_eq, length,
}
use gh_audit.Text.{Text}
use gh_audit.Model.{Time, AuditResult}
use gh_audit.Audit.Types.{StatsFetcher}
use gh_audit.Store.Table.{columns_eq, ◌&◌}
use gh_audit.Store.Table.Present.{IsThere}
use gh_audit.Store.Rows.{Store, RepoInfo, commit_key, audit_key}
use gh_audit.Store.Commits.{get_unaudited_commits}
use gh_audit.Store.Audits.{upsert_audit_results}
use gh_audit.Pipeline.Batch.{Statement, perform}
use gh_audit.Pipeline.Branch.Stored.{write_commits-IsThere}
use gh_audit.Pipeline.Branch.Growth.{
  Lasts, upsert_audit_results-Lasts, fetch-Lasts, write_commits-Lasts,
}
use gh_audit.Pipeline.Branch.Growth.Whole.{enrich_batches-Lasts}
use gh_audit.Pipeline.Fetch.{Fetched, fetch_branch_commits}
use gh_audit.Store.Audits.{get_sync_cursor, upsert_sync_cursor}
use gh_audit.Store.Commits.{commit_row}
use gh_audit.Store.Rows.{SyncCursor}
use gh_audit.Pipeline.Sync.{Sync, ◌>>=◌, ◌>>◌, pure, write}
use gh_audit.Pipeline.Sync.Kept.{then_run-some}
use gh_audit.Pipeline.Fetch.{SyncConfig, GithubSource}
use gh_audit.Pipeline.Branch.{
  arith, write_commits, sync_repo_branch, next_cursor, write_cursor, Enricher, rules_of,
  enrich_batches, enrich_in_parallel, batches_of, audit_commit, audit_backlog,
}
use gh_audit.Pipeline.Branch.Audited.{Listed, backlog-Listed, results-IsThere}

last_write :
    {A : Type 0} (w : Statement) (a : A) (reach : ℕ) (s t : Store) (out : ℕ × A)
    → (write (w ∷ []) >> pure a) reach s ≡ (t, some out)
    → t ≡ w s
unfolding perform
last_write w a zero s t out e = absurd (cc (ap (λ x. x.1) e))
last_write w a (suc reach) s t out e = sym (ap (λ x. x.0) e)

module _ (config : SyncConfig) (source : GithubSource) (enricher : Enricher)
    (fetch_stats : StatsFetcher) (now : Time) (repo : RepoInfo) where
  -- The audit of the backlog, where it ends, leaves a verdict for every stored commit.
  audit_backlog-IsThere :
      (audited_branches : List Text) (sha : Text) (reach : ℕ) (s t : Store)
      (out : ℕ × List AuditResult)
      → config.since ≡ 0
      → config.until ≡ 0
      → audit_backlog config source enricher fetch_stats now repo audited_branches reach s
        ≡ (t, some out)
      → IsThere commit_key (repo.org & repo.name & sha) s.commits
      → IsThere audit_key (repo.org & repo.name & sha) t.audit_results
  unfolding audit_backlog enrich_in_parallel
  audit_backlog-IsThere audited_branches sha reach s t out no_since no_until e there =
      let unaudited = get_unaudited_commits repo.org repo.name config.since config.until s in
      let batches = batches_of (length unaudited) unaudited in
      let rules = rules_of config fetch_stats audited_branches in
      let (s1, r1, es, enriched, e1) =
        then_run-some (enrich_batches config source enricher fetch_stats now repo batches reach s)
          (λ es.
            write (upsert_audit_results (map (audit_commit now rules es) unaudited) ∷ [])
            >> pure (map (audit_commit now rules es) unaudited))
          e in
      let written : t ≡ upsert_audit_results (map (audit_commit now rules es) unaudited) s1 =
        last_write _ _ r1 s1 t out e1 in
      let lasts : Lasts s s1 =
        subst (λ x. Lasts s x.0) enriched
          (enrich_batches-Lasts config source enricher fetch_stats now repo batches reach s) in
      let listed =
        subst
          (λ u.
            IsThere audit_key (repo.org & repo.name & sha) s.audit_results
            ⊎ Listed repo.org repo.name sha
                (get_unaudited_commits repo.org repo.name config.since u s))
          (sym no_until)
          (subst
            (λ f.
              IsThere audit_key (repo.org & repo.name & sha) s.audit_results
              ⊎ Listed repo.org repo.name sha (get_unaudited_commits repo.org repo.name f 0 s))
            (sym no_since) (backlog-Listed repo.org repo.name sha s there)) in
      subst (λ u. IsThere audit_key (repo.org & repo.name & sha) u.audit_results) (sym written)
        (elim listed [
          | inl before ↦
              (upsert_audit_results-Lasts (map (audit_commit now rules es) unaudited) s1).verdicts _
                (lasts.verdicts _ before)
          | inr l ↦ results-IsThere now rules es unaudited repo.org repo.name sha s1 l
        ])

  -- What a sync owes a verdict: a commit that was stored before it, or one that it fetches.
  pub record Owed (branch sha : Text) (reach : ℕ) (s : Store) : Type 0 where
    pub stored_or_fetched :
        IsThere commit_key (repo.org & repo.name & sha) s.commits
        ⊎ ((s1 : Store) × (r1 : ℕ) × (fetched : Fetched) × (fetch_branch_commits config source now
                repo branch
                (get_sync_cursor repo.org repo.name branch s)
                reach
                s
              ≡ (s1, some (r1, fetched)))
            × Listed repo.org repo.name sha fetched.commits)

  cursor_write :
      (cursor : Option SyncCursor) (a : List AuditResult) (reach : ℕ) (s t : Store)
      (out : ℕ × List AuditResult)
      → (write_cursor now cursor >> pure a) reach s ≡ (t, some out)
      → t.audit_results ≡ s.audit_results
  unfolding upsert_sync_cursor
  cursor_write none a reach s t out e = sym (ap (λ x. x.0.audit_results) e)
  cursor_write (some cursor) a reach s t out e =
      ap (λ u. u.audit_results) (last_write (upsert_sync_cursor now cursor) a reach s t out e)

  same_fetched :
      {x : Store × Option (ℕ × Fetched)} {s1 s2 : Store} {r1 r2 : ℕ} {f g : Fetched}
      → x ≡ (s1, some (r1, f))
      → x ≡ (s2, some (r2, g))
      → f ≡ g
  same_fetched e h = cc

  Owed-IsThere :
      (branch sha : Text) (reach : ℕ) (s s1 s2 : Store) (r1 r2 : ℕ) (done : Unit {0})
      (fetched : Fetched)
      → Owed branch sha reach s
      → fetch_branch_commits config source now repo branch
          (get_sync_cursor repo.org repo.name branch s)
          reach
          s
        ≡ (s1, some (r1, fetched))
      → write_commits config source enricher fetch_stats now repo branch fetched.commits r1 s1
        ≡ (s2, some (r2, done))
      → IsThere commit_key (repo.org & repo.name & sha) s2.commits
  unfolding commit_row
  Owed-IsThere branch sha reach s s1 s2 r1 r2 done fetched owed e0 e1 =
      elim owed.stored_or_fetched [
        | inl before ↦
            let fetch : Lasts s s1 =
              subst (λ x. Lasts s x.0) e0
                (fetch-Lasts config source now repo branch
                  (get_sync_cursor repo.org repo.name branch s) reach s) in
            let wrote : Lasts s1 s2 =
              subst (λ x. Lasts s1 x.0) e1
                (write_commits-Lasts config source now repo enricher fetch_stats branch
                  fetched.commits r1 s1) in
            wrote.commits _ (fetch.commits _ before)
        | inr (s1', r1', fetched', e0', l) ↦
            let same : fetched' ≡ fetched = same_fetched e0' e0 in
            let listed = subst (λ (f : Fetched). Memᴰ l.commit f.commits) same l.in_list in
            let key_is : commit_key (commit_row now l.commit) ≡ (repo.org & repo.name & sha) =
              ground (arith, l.org_is, l.repo_is, l.sha_is) in
            subst (λ k. IsThere commit_key k s2.commits) key_is
              (write_commits-IsThere config source now repo enricher fetch_stats branch
                fetched.commits l.commit r1 s1 s2 (r2, done) e1 listed)
      ]

  -- A sync without bounds of dates that ends without an error leaves a verdict for every commit that
  -- was stored before it, also by a run that failed, and for every commit that it fetched.
  pub sync_repo_branch-IsThere :
      (branch : Text) (audited_branches : List Text) (sha : Text) (reach : ℕ) (s t : Store)
      (out : ℕ × List AuditResult)
      → config.since ≡ 0
      → config.until ≡ 0
      → Owed branch sha reach s
      → sync_repo_branch config source enricher fetch_stats now repo branch audited_branches reach s
        ≡ (t, some out)
      → IsThere audit_key (repo.org & repo.name & sha) t.audit_results
  unfolding sync_repo_branch
  sync_repo_branch-IsThere branch audited_branches sha reach s t out no_since no_until owed e =
      let cursor = get_sync_cursor repo.org repo.name branch s in
      let backlog = audit_backlog config source enricher fetch_stats now repo audited_branches in
      let finish : Fetched → List AuditResult → Sync (List AuditResult) = λ fetched results.
        write_cursor now (next_cursor now config repo branch cursor fetched) >> pure results in
      let (s1, r1, fetched, e0, e1) =
        then_run-some (fetch_branch_commits config source now repo branch cursor reach s)
          (λ fetched.
            write_commits config source enricher fetch_stats now repo branch fetched.commits
            >> (backlog >>= finish fetched))
          e in
      let (s2, r2, done, e2, e3) =
        then_run-some
          (write_commits config source enricher fetch_stats now repo branch fetched.commits r1 s1)
          (λ done. backlog >>= finish fetched) e1 in
      let (s3, r3, results, e4, e5) = then_run-some (backlog r2 s2) (finish fetched) e3 in
      let audited =
        audit_backlog-IsThere audited_branches sha r2 s2 s3 (r3, results) no_since no_until e4
          (Owed-IsThere branch sha reach s s1 s2 r1 r2 done fetched owed e0 e2) in
      subst (λ rows. IsThere audit_key (repo.org & repo.name & sha) rows)
        (sym
          (cursor_write (next_cursor now config repo branch cursor fetched) results r3 s3 t out e5))
        audited
