-- ===== src/Pipeline/Batch/Landed.antt =====
-- What it is for all that a batch brings to have landed, and that each statement lands its part.
use gh_audit.Prelude.{
  select-Memᴰ, ◌≡◌, refl, ◌∙◌, subst, true, false, List, [], ◌∷◌, map, Memᴰ, arith, nat_beq, nat_eq,
  text_eq, length, select,
}
use mathlib.Core.List.{flat_map}
use gh_audit.Text.{Text}
use gh_audit.Model.{Time, EnrichmentResult, Review, CheckRun, Commit, PullRequest}
use gh_audit.Store.Table.{columns_eq, ◌&◌}
use gh_audit.Store.Table.Present.{IsThere, bulk_upsert-adds, bulk_insert_if_absent-adds, map-Memᴰ}
use gh_audit.Store.Rows.{Store, commit_key, link_key, review_key, check_run_key}
use gh_audit.Store.Commits.{commit_row, insert_commits_if_absent}
use gh_audit.Store.Prs.{
  CommitPrLink, link_row, is_submitted, upsert_reviews, upsert_check_runs, upsert_commit_pr_links,
}
use gh_audit.Pipeline.Batch.{
  BranchCommitLink, branch_commits_of, all_reviews, all_check_runs, all_branch_commits,
  all_branch_links, all_links, branch_link, pr_links,
}
use gh_audit.Pipeline.Batch.Gathered.{gather-Memᴰ, flat_map-Memᴰ, Memᴰ-left, Memᴰ-right}

-- The lists that the batch brings, all its commits' together.
abbrev pub brought_reviews : List EnrichmentResult → List Review
brought_reviews es = flat_map (λ (e : EnrichmentResult). e.reviews) es

abbrev pub brought_check_runs : List EnrichmentResult → List CheckRun
brought_check_runs es = flat_map (λ (e : EnrichmentResult). e.check_runs) es

abbrev pub brought_commits : List EnrichmentResult → List Commit
brought_commits es = flat_map (λ (e : EnrichmentResult). flat_map (branch_commits_of e) e.prs) es

-- What GitHub documents of its ids: a review's id and a check run's are each of one object, and the
-- commits are of the repository that was asked.
pub record IsConsistent (org repo : Text) (es : List EnrichmentResult) : Type 0 where
  pub reviews :
      (r q : Review)
      → Memᴰ r (brought_reviews es)
      → Memᴰ q (brought_reviews es)
      → q.review_id ≡ r.review_id
      → (review_key q ≡ review_key r) × (is_submitted q ≡ is_submitted r)
  pub check_runs :
      (c d : CheckRun)
      → Memᴰ c (brought_check_runs es)
      → Memᴰ d (brought_check_runs es)
      → d.check_run_id ≡ c.check_run_id
      → check_run_key d ≡ check_run_key c
  pub commits : (c : Commit) → Memᴰ c (brought_commits es) → (c.org ≡ org) × (c.repo ≡ repo)

-- All that the batch brings with its pull requests has a row: the reviews but the pending ones, the
-- check runs, the commits of the branches, and the links of the branches' commits and of the
-- enriched commits to the pull requests.
pub record Landed (org repo : Text) (es : List EnrichmentResult) (s : Store) : Type 0 where
  pub reviews :
      (e : EnrichmentResult) (r : Review)
      → Memᴰ e es
      → Memᴰ r e.reviews
      → is_submitted r ≡ true
      → IsThere review_key (review_key r) s.reviews
  pub check_runs :
      (e : EnrichmentResult) (c : CheckRun)
      → Memᴰ e es
      → Memᴰ c e.check_runs
      → IsThere check_run_key (check_run_key c) s.check_runs
  pub commits :
      (e : EnrichmentResult) (pr : PullRequest) (c : Commit)
      → Memᴰ e es
      → Memᴰ pr e.prs
      → Memᴰ c (branch_commits_of e pr)
      → IsThere commit_key (org & repo & c.sha) s.commits
  pub branch_links :
      (e : EnrichmentResult) (pr : PullRequest) (c : Commit)
      → Memᴰ e es
      → Memᴰ pr e.prs
      → Memᴰ c (branch_commits_of e pr)
      → IsThere link_key (org & repo & c.sha & pr.number) s.commit_prs
  pub links :
      (e : EnrichmentResult) (pr : PullRequest)
      → Memᴰ e es
      → Memᴰ pr e.prs
      → IsThere link_key (org & repo & e.commit.sha & pr.number) s.commit_prs

not_empty :
    {A B : Type 0} (f : A → B) {x : A} (xs : List A)
    → Memᴰ x xs
    → nat_beq (length (map f xs)) 0 ≡ false
not_empty f [] m = elim m [ ]
not_empty f (y ∷ xs) m = ground arith

-- A branch with a commit has its link.
some_branch :
    (e : EnrichmentResult) (pr : PullRequest) (c : Commit)
    → Memᴰ c (branch_commits_of e pr)
    → Memᴰ
        (record {
          pr_number = pr.number;
          shas = map (λ (c : Commit). c.sha) (branch_commits_of e pr);
          branch = pr.head_branch;
        })
        (branch_link e pr)
some_branch e pr c m =
    rw (not_empty (λ (c : Commit). c.sha) (branch_commits_of e pr) m) (Memᴰ.head refl)

abbrev links_of : BranchCommitLink → List CommitPrLink
links_of b = map (λ sha. record { sha = sha; pr_number = b.pr_number }) b.shas

abbrev own_links : EnrichmentResult → List CommitPrLink
own_links e = map (λ (p : PullRequest). record { sha = e.commit.sha; pr_number = p.number }) e.prs

module _ (org repo : Text) (es : List EnrichmentResult)
    (consistent : IsConsistent org repo es) where
  pub reviews_in :
      (e : EnrichmentResult) (r : Review) (s : Store)
      → Memᴰ e es
      → Memᴰ r e.reviews
      → is_submitted r ≡ true
      → IsThere review_key (review_key r) (upsert_reviews (all_reviews es) s).reviews
  unfolding upsert_reviews all_reviews
  reviews_in e r s m n submitted =
      let listed = flat_map-Memᴰ (λ (e : EnrichmentResult). e.reviews) es m n in
      let (q, gathered, from, same) =
        gather-Memᴰ (λ (r : Review). r.review_id) (brought_reviews es) listed in
      let (same_key, same_state) = consistent.reviews r q listed from same in
      subst (λ k. IsThere review_key k (upsert_reviews (all_reviews es) s).reviews) same_key
        (bulk_upsert-adds review_key (select is_submitted (all_reviews es)) s.reviews q
          (select-Memᴰ is_submitted (all_reviews es) gathered (same_state ∙ submitted)))

  pub check_runs_in :
      (e : EnrichmentResult) (c : CheckRun) (s : Store)
      → Memᴰ e es
      → Memᴰ c e.check_runs
      → IsThere check_run_key (check_run_key c) (upsert_check_runs (all_check_runs es) s).check_runs
  unfolding upsert_check_runs all_check_runs
  check_runs_in e c s m n =
      let listed = flat_map-Memᴰ (λ (e : EnrichmentResult). e.check_runs) es m n in
      let (d, gathered, from, same) =
        gather-Memᴰ (λ (c : CheckRun). c.check_run_id) (brought_check_runs es) listed in
      subst (λ k. IsThere check_run_key k (upsert_check_runs (all_check_runs es) s).check_runs)
        (consistent.check_runs c d listed from same)
        (bulk_upsert-adds check_run_key (all_check_runs es) s.check_runs d gathered)

  pub commits_in :
      (now : Time) (e : EnrichmentResult) (pr : PullRequest) (c : Commit) (s : Store)
      → Memᴰ e es
      → Memᴰ pr e.prs
      → Memᴰ c (branch_commits_of e pr)
      → IsThere commit_key
          (org & repo & c.sha)
          (insert_commits_if_absent now (all_branch_commits es) s).commits
  unfolding insert_commits_if_absent all_branch_commits commit_row
  commits_in now e pr c s m n o =
      let listed =
        flat_map-Memᴰ (λ (e : EnrichmentResult). flat_map (branch_commits_of e) e.prs) es m
          (flat_map-Memᴰ (branch_commits_of e) e.prs n o) in
      let (d, gathered, from, same) =
        gather-Memᴰ (λ (c : Commit). c.sha) (brought_commits es) listed in
      let (d_org, d_repo) = consistent.commits d from in
      let key_is : commit_key (commit_row now d) ≡ (org & repo & c.sha) =
        ground (arith, d_org, d_repo, same) in
      subst
        (λ k. IsThere commit_key k (insert_commits_if_absent now (all_branch_commits es) s).commits)
        key_is
        (bulk_insert_if_absent-adds commit_key (map (commit_row now) (all_branch_commits es))
          s.commits (commit_row now d) (map-Memᴰ (commit_row now) gathered))

  pub branch_links_in :
      (e : EnrichmentResult) (pr : PullRequest) (c : Commit) (s : Store)
      → Memᴰ e es
      → Memᴰ pr e.prs
      → Memᴰ c (branch_commits_of e pr)
      → IsThere link_key
          (org & repo & c.sha & pr.number)
          (upsert_commit_pr_links org repo (pr_links es) s).commit_prs
  unfolding upsert_commit_pr_links pr_links all_branch_links
  branch_links_in e pr c s m n o =
      let sha = map-Memᴰ (λ (c : Commit). c.sha) o in
      let branch : Memᴰ
          (record {
            pr_number = pr.number;
            shas = map (λ (c : Commit). c.sha) (branch_commits_of e pr);
            branch = pr.head_branch;
          })
          (branch_link e pr) =
        some_branch e pr c o in
      let listed =
        flat_map-Memᴰ (λ (e : EnrichmentResult). flat_map (branch_link e) e.prs) es m
          (flat_map-Memᴰ (branch_link e) e.prs n branch) in
      let linked : Memᴰ (record { sha = c.sha; pr_number = pr.number }) (pr_links es) =
        Memᴰ-left _ (all_links es) (
          flat_map-Memᴰ links_of (all_branch_links es) listed
            (map-Memᴰ (λ sha. record { sha = sha; pr_number = pr.number }) sha)) in
      bulk_upsert-adds link_key (map (link_row org repo) (pr_links es)) s.commit_prs
        (record { org = org; repo = repo; sha = c.sha; pr_number = pr.number })
        (map-Memᴰ (link_row org repo) linked)

  pub links_in :
      (e : EnrichmentResult) (pr : PullRequest) (s : Store)
      → Memᴰ e es
      → Memᴰ pr e.prs
      → IsThere link_key
          (org & repo & e.commit.sha & pr.number)
          (upsert_commit_pr_links org repo (pr_links es) s).commit_prs
  unfolding upsert_commit_pr_links pr_links all_links
  links_in e pr s m n =
      let linked : Memᴰ (record { sha = e.commit.sha; pr_number = pr.number }) (pr_links es) =
        Memᴰ-right _ (all_links es) (
          flat_map-Memᴰ own_links es m (
            map-Memᴰ (λ (p : PullRequest). record { sha = e.commit.sha; pr_number = p.number })
              n)) in
      bulk_upsert-adds link_key (map (link_row org repo) (pr_links es)) s.commit_prs
        (record { org = org; repo = repo; sha = e.commit.sha; pr_number = pr.number })
        (map-Memᴰ (link_row org repo) linked)
