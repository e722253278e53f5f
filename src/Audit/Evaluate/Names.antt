-- ===== src/Audit/Evaluate/Names.antt =====
-- A verdict names the commit that it is about.
use gh_audit.Prelude.{on_option, on_if, ◌≡◌, refl, Bool, not, nat_eq, text_eq}
use gh_audit.Text.{Text}
use gh_audit.Model.{Commit, AuditResult, EnrichmentResult}
use gh_audit.Audit.Finish.{finalize_compliant_pr, finalize_revert_waiver, finalize_non_compliant}
use gh_audit.Audit.Pr.{Rules, PrVerdict, no_verdict}
use gh_audit.Audit.Exempt.{exempt_status}
use gh_audit.Audit.Evaluate.{
  resolve_stats, Tournament, passed, best_of, init_audit_result, apply_exempt_author_rule,
  apply_empty_commit_fallback, evaluate_revert_compliance, evaluate_without_pr, evaluate_best,
  evaluate_with_prs, evaluate_commit, pr_loop,
}

pub record Names (c : Commit) (r : AuditResult) : Type 0 where
  pub org : r.org ≡ c.org
  pub repo : r.repo ≡ c.repo
  pub sha : r.sha ≡ c.sha

module _ (c : Commit) (e : EnrichmentResult) (rules : Rules) where
  exempt-Names : (r : AuditResult) → Names c r → Names c (apply_exempt_author_rule r c e rules).0
  unfolding apply_exempt_author_rule
  exempt-Names r n =
      on_if (λ (x : AuditResult × Bool). Names c x.0)
        (not (exempt_status c rules.exempt_authors rules.require_signing).0) n
        (on_if (λ (x : AuditResult × Bool). Names c x.0) _
          (record { org = n.org; repo = n.repo; sha = n.sha })
          (record { org = n.org; repo = n.repo; sha = n.sha }))

  fallback-Names :
      (r : AuditResult) → Names c r → Names c (apply_empty_commit_fallback r c rules.fetch_stats).0
  unfolding apply_empty_commit_fallback
  fallback-Names r n =
      on_if (λ (x : AuditResult × Commit × Bool). Names c x.0) _ n
        (on_option (λ (x : AuditResult × Commit × Bool). Names c x.0)
          (resolve_stats c rules.fetch_stats) n
          (λ s.
            on_if (λ (x : AuditResult × Commit × Bool). Names c x.0) _ n
              (record { org = n.org; repo = n.repo; sha = n.sha })))

  revert_waiver-Names :
      (r : AuditResult) (c' : Commit) (v : PrVerdict) (reason : Text)
      → Names c r
      → Names c (finalize_revert_waiver r c' e v reason)
  unfolding finalize_revert_waiver
  revert_waiver-Names r c' v reason n = record { org = n.org; repo = n.repo; sha = n.sha }

  without_pr-Names : (r : AuditResult) → Names c r → Names c (evaluate_without_pr r c e rules)
  unfolding evaluate_without_pr
  without_pr-Names r n =
      let f = fallback-Names r n in
      on_if (Names c) _ f (
        on_option (Names c) (evaluate_revert_compliance e)
          (record { org = f.org; repo = f.repo; sha = f.sha })
          (λ reason. revert_waiver-Names _ _ no_verdict reason f))

  non_compliant-Names :
      (r : AuditResult) (c' : Commit) (v : PrVerdict)
      → Names c r
      → Names c (finalize_non_compliant r c' e v)
  unfolding finalize_non_compliant
  non_compliant-Names r c' v n = record { org = n.org; repo = n.repo; sha = n.sha }

  best-Names : (r : AuditResult) (v : PrVerdict) → Names c r → Names c (evaluate_best r c e rules v)
  unfolding evaluate_best
  best-Names r v n =
      let f = fallback-Names r n in
      on_if (Names c) _ f (
        on_option (Names c) (evaluate_revert_compliance e) (non_compliant-Names _ _ v f)
          (λ reason. revert_waiver-Names _ _ v reason f))

  won-Names :
      (r : AuditResult) (t : Tournament)
      → Names c r
      → Names c (elim t [
        | passed v ↦ finalize_compliant_pr r c e v
        | best_of v ↦ evaluate_best r c e rules v
      ])
  unfolding finalize_compliant_pr
  won-Names r (passed v) n = record { org = n.org; repo = n.repo; sha = n.sha }
  won-Names r (best_of v) n = best-Names r v n

  with_prs-Names : (r : AuditResult) → Names c r → Names c (evaluate_with_prs r c e rules)
  unfolding evaluate_with_prs
  with_prs-Names r n = won-Names r (pr_loop c e rules no_verdict e.prs) n

  -- The verdict on a commit is kept under the commit's own organisation, repository and name.
  pub evaluate_commit-Names : Names c (evaluate_commit c e rules)
  unfolding evaluate_commit init_audit_result
  evaluate_commit-Names =
      let n =
        exempt-Names (init_audit_result c e) (record { org = refl; repo = refl; sha = refl }) in
      on_if (Names c) _ n (
        on_if (Names c) _ (without_pr-Names _ (record { org = n.org; repo = n.repo; sha = n.sha }))
          (with_prs-Names _ (record { org = n.org; repo = n.repo; sha = n.sha })))
