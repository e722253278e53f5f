-- ===== src/Pipeline/Branch/Audited.antt =====
-- A sync that ends leaves a verdict for what was stored before it.
use gh_audit.Prelude.{
  select-Memᴰ, on_if, ◌≡◌, refl, ap, subst, ◌⊎◌, inl, inr, true, ◌&&◌, ◌||◌, List, map, Memᴰ, arith,
  ltb, Bool-cases, ◌==◌, nat_eq, text_beq, text_beq_iff, text_eq, any,
}
use gh_audit.Text.{Text}
use gh_audit.Model.{Time, Commit, AuditResult, EnrichmentResult}
use gh_audit.Audit.Pr.{Rules}
use gh_audit.Audit.Evaluate.Names.{Names, evaluate_commit-Names}
use gh_audit.Store.Table.{columns_eq, ◌&◌}
use gh_audit.Store.Table.Present.{IsThere, bulk_upsert-adds, map-Memᴰ}
use gh_audit.Store.Table.Order.{order_by-Memᴰ, row_of, any-IsThere}
use gh_audit.Store.Rows.{Store, NameKey, commit_key, audit_key}
use gh_audit.Store.Commits.{
  scan_commit, load_co_authors_for_commits, get_unaudited_commits, of_repo, is_unaudited, is_within,
  by_date,
}
use gh_audit.Store.Audits.{audit_row, upsert_audit_results}
use gh_audit.Pipeline.Branch.{enriched_commit, enrichment_of, zero_enrichment, audit_commit}

-- A commit of a list under a key.
pub record Listed (org repo sha : Text) (cs : List Commit) : Type 0 where
  pub commit : Commit
  pub in_list : Memᴰ commit cs
  pub org_is : commit.org ≡ org
  pub repo_is : commit.repo ≡ repo
  pub sha_is : commit.sha ≡ sha

same_text : (a : Text) → text_beq a a ≡ true
same_text a = (text_beq_iff a a).1 refl

enriched_commit-Names :
    (c : Commit) (e : EnrichmentResult) (r : AuditResult)
    → Names (enriched_commit c e) r
    → Names c r
enriched_commit-Names c e r =
    on_if (λ d. Names d r → Names c r) (ltb 0 e.commit.additions || ltb 0 e.commit.deletions)
      (λ n. record { org = n.org; repo = n.repo; sha = n.sha }) (λ n. n)

audit_commit-Names :
    (now : Time) (rules : Rules) (es : List EnrichmentResult) (c : Commit)
    → Names c (audit_commit now rules es c)
unfolding audit_commit
audit_commit-Names now rules es c =
    let e = enrichment_of zero_enrichment c.sha es in
    let n = enriched_commit-Names c e _ (evaluate_commit-Names (enriched_commit c e) e rules) in
    record { org = n.org; repo = n.repo; sha = n.sha }

-- Without bounds of dates, a stored commit has a verdict or is in the backlog.
pub backlog-Listed :
    (org repo sha : Text) (s : Store)
    → IsThere commit_key (org & repo & sha) s.commits
    → IsThere audit_key (org & repo & sha) s.audit_results
      ⊎ Listed org repo sha (get_unaudited_commits org repo 0 0 s)
unfolding get_unaudited_commits load_co_authors_for_commits scan_commit
backlog-Listed org repo sha s there =
    let (r, m, at) = row_of commit_key (org & repo & sha) s.commits there in
    let org_is : r.org ≡ org = ap (λ (k : NameKey). k.first) at in
    let repo_is : r.repo ≡ repo = ap (λ (k : NameKey). k.others.first) at in
    let sha_is : r.sha ≡ sha = ap (λ (k : NameKey). k.others.others) at in
    elim (Bool-cases (any (λ a. audit_key a == commit_key r) s.audit_results)) [
      | inl audited ↦ inl (
          subst (λ k. IsThere audit_key k s.audit_results) at
            (any-IsThere audit_key (commit_key r) s.audit_results audited))
      | inr fresh ↦ inr (record {
        commit = _;
        in_list = map-Memᴰ _ (
            map-Memᴰ scan_commit (
              order_by-Memᴰ by_date _ (
                select-Memᴰ (λ c. of_repo org repo c && is_unaudited s c && is_within 0 0 c)
                  s.commits m
                  (ground (arith, fresh, org_is, repo_is, same_text org, same_text repo)))));
        org_is = org_is;
        repo_is = repo_is;
        sha_is = sha_is;
      })
    ]

-- The verdicts on a list give each of its commits a row.
pub results-IsThere :
    (now : Time) (rules : Rules) (es : List EnrichmentResult) (cs : List Commit)
    (org repo sha : Text) (s : Store)
    → Listed org repo sha cs
    → IsThere audit_key
        (org & repo & sha)
        (upsert_audit_results (map (audit_commit now rules es) cs) s).audit_results
unfolding upsert_audit_results
results-IsThere now rules es cs org repo sha s l =
    let c = l.commit in
    let n = audit_commit-Names now rules es c in
    let key_is : audit_key (audit_row (audit_commit now rules es c)) ≡ (org & repo & sha) =
      ground (arith, n.org, n.repo, n.sha, l.org_is, l.repo_is, l.sha_is) in
    subst
      (λ k.
        IsThere audit_key k
          (upsert_audit_results (map (audit_commit now rules es) cs) s).audit_results)
      key_is
      (bulk_upsert-adds audit_key (map audit_row (map (audit_commit now rules es) cs))
        s.audit_results (audit_row (audit_commit now rules es c))
        (map-Memᴰ audit_row (map-Memᴰ (audit_commit now rules es) l.in_list)))
