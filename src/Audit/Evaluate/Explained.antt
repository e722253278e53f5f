-- ===== src/Audit/Evaluate/Explained.antt =====
-- Every verdict of EvaluateCommit says why.
use gh_audit.Prelude.{
  true, false, ◌≡◌, refl, ◌≢◌, inl, inr, List, [], ◌∷◌, Memᴰ, length, arith, Bool-cases,
}
use gh_audit.Model.{Commit, PullRequest, EnrichmentResult, AuditResult}
use gh_audit.Audit.Pr.{PrVerdict, Rules, no_verdict, better_verdict}
use gh_audit.Audit.Pr.Reasons.{evaluate_pr-reasons}
use gh_audit.Audit.Evaluate.{
  Tournament, passed, best_of, pr_loop, apply_exempt_author_rule, evaluate_without_pr,
  evaluate_best, evaluate_with_prs, evaluate_commit, init_audit_result,
}
use gh_audit.Audit.Finish.{finalize_non_compliant}
use gh_audit.Audit.Evaluate.Loop.{verdict, best_step, pr_loop-source, pr_loop-best}

module _ (commit : Commit) (enrichment : EnrichmentResult) (rules : Rules) where
  waived_reasons :
      (r : AuditResult)
      → (apply_exempt_author_rule r commit enrichment rules).1 ≡ true
      → (apply_exempt_author_rule r commit enrichment rules).0.reasons ≢ []
  unfolding apply_exempt_author_rule
  waived_reasons r h e = ground arith

  without_pr_reasons :
      (r : AuditResult) → (evaluate_without_pr r commit enrichment rules).reasons ≢ []
  unfolding evaluate_without_pr
  without_pr_reasons r e = ground arith

  best_reasons :
      (r : AuditResult) (best : PrVerdict)
      → best.reasons ≢ []
      → (evaluate_best r commit enrichment rules best).reasons ≢ []
  unfolding evaluate_best finalize_non_compliant
  best_reasons r best h e = ground arith

  -- The best of a loop over at least one pull request is the verdict on one that does not pass.
  best_source :
      (pr : PullRequest) (prs : List PullRequest) {b : PrVerdict}
      → pr_loop commit enrichment rules no_verdict (pr ∷ prs) ≡ best_of b
      → (q : PullRequest) × Memᴰ q (pr ∷ prs) × (b ≡ verdict commit enrichment rules q)
  best_source pr prs h =
      elim (pr_loop-source commit enrichment rules _ prs
        (best_step commit enrichment rules no_verdict pr prs h).1) [
          | inl e ↦ (pr, Memᴰ.head refl, unfold better_verdict in e)
          | inr found ↦ (found.0, Memᴰ.tail found.1, found.2)
        ]

  loop_reasons :
      (prs : List PullRequest) {b : PrVerdict}
      → length prs ≢ 0
      → pr_loop commit enrichment rules no_verdict prs ≡ best_of b
      → b.reasons ≢ []
  loop_reasons [] n h e = n refl
  loop_reasons (pr ∷ prs) n h e =
      let (q, m, same) = best_source pr prs h in
      ground (
        arith,
        evaluate_pr-reasons commit enrichment q rules,
        pr_loop-best commit enrichment rules no_verdict (pr ∷ prs) h q m,
      )

  with_prs_reasons :
      (r : AuditResult)
      → length enrichment.prs ≢ 0
      → (evaluate_with_prs r commit enrichment rules).reasons ≢ []
  unfolding evaluate_with_prs
  with_prs_reasons r n = ended (pr_loop commit enrichment rules no_verdict enrichment.prs) refl
    where
      ended :
          (t : Tournament)
          → pr_loop commit enrichment rules no_verdict enrichment.prs ≡ t
          → (evaluate_with_prs r commit enrichment rules).reasons ≢ []
      ended (passed v) e h = ground arith
      ended (best_of b) e h = ground (arith, best_reasons r b (loop_reasons enrichment.prs n e))

  -- Every result of EvaluateCommit, compliant or not, carries at least one reason.
  reasons-evaluate_commit : (evaluate_commit commit enrichment rules).reasons ≢ []
  unfolding evaluate_commit
  reasons-evaluate_commit h =
      elim (Bool-cases (apply_exempt_author_rule start commit enrichment rules).1) [
        | inl waived ↦ ground (arith, waived_reasons start waived)
        | inr audited ↦ ground (
          arith,
          without_pr_reasons (record judged { has_pr = false }),
          with_prs_reasons (record judged { has_pr = true; pr_count = length enrichment.prs }),
        )
      ]
    where
      start : AuditResult
      start = init_audit_result commit enrichment

      judged : AuditResult
      judged = (apply_exempt_author_rule start commit enrichment rules).0
