-- ===== src/Audit/Evaluate/Verdict.antt =====
-- When EvaluateCommit calls a commit compliant.
use gh_audit.Prelude.{
  true, false, ◌≡◌, refl, ◌⊎◌, inl, inr, ◌↔◌, some, List, [], ◌∷◌, length, arith, Bool-cases,
  Option-cases, ◌==◌, nat_eq,
}
use gh_audit.Model.{Commit, PullRequest, EnrichmentResult, AuditResult}
use gh_audit.Audit.Types.{Stats}
use gh_audit.Audit.Exempt.{exempt_status, has_non_exempt_pr_contributors}
use gh_audit.Audit.Pr.{PrVerdict, Rules, no_verdict}
use gh_audit.Audit.Evaluate.{
  Tournament, passed, best_of, pr_loop, resolve_stats, init_audit_result, apply_exempt_author_rule,
  apply_empty_commit_fallback, evaluate_revert_compliance, evaluate_without_pr, evaluate_best,
  evaluate_with_prs, evaluate_commit,
}
use gh_audit.Audit.Finish.{finalize_compliant_pr, finalize_revert_waiver, finalize_non_compliant}
use gh_audit.Audit.Evaluate.Loop.{Passing, pr_loop-passed, pr_loop-best}

module _ (commit : Commit) (enrichment : EnrichmentResult) (rules : Rules) where
  -- Rule 1 waives the commit.
  abbrev pub Exempted : Type 0
  Exempted =
      ((exempt_status commit rules.exempt_authors rules.require_signing).0 ≡ true)
      × (has_non_exempt_pr_contributors commit.org commit.repo enrichment.pr_branch_commits
            rules.exempt_authors rules.fetch_stats rules.require_signing
          ≡ false)

  -- Rule 2 waives the commit: no line stored, and no line or file by the statistics it resolves to.
  abbrev pub Emptied : Type 0
  Emptied =
      (commit.additions ≡ 0)
      × (commit.deletions ≡ 0)
      × (s : Stats) × (resolve_stats commit rules.fetch_stats ≡ some s)
      × (s.additions ≡ 0)
      × (s.deletions ≡ 0)
      × (s.files_changed ≡ 0)

  -- Rule 8 waives the commit.
  abbrev pub Reverting : Type 0
  Reverting = enrichment.is_clean_revert ≡ true

  abbrev pub Justified : Type 0
  Justified = Exempted ⊎ (Passing commit enrichment rules enrichment.prs ⊎ (Emptied ⊎ Reverting))

  waived_iff :
      (r : AuditResult) → ((apply_exempt_author_rule r commit enrichment rules).1 ≡ true) ↔ Exempted
  unfolding apply_exempt_author_rule
  waived_iff r = ground arith

  waived_compliant :
      (r : AuditResult)
      → (apply_exempt_author_rule r commit enrichment rules).1 ≡ true
      → (apply_exempt_author_rule r commit enrichment rules).0.is_compliant ≡ true
  unfolding apply_exempt_author_rule
  waived_compliant r h = ground arith

  fired_iff :
      (r : AuditResult)
      → ((apply_empty_commit_fallback r commit rules.fetch_stats).2 ≡ true) ↔ Emptied
  unfolding apply_empty_commit_fallback
  fired_iff r = (there, λ e. ground arith)
    where
      there : (apply_empty_commit_fallback r commit rules.fetch_stats).2 ≡ true → Emptied
      there h = elim (Option-cases (resolve_stats commit rules.fetch_stats)) [
        | inl e ↦ absurd (ground arith)
        | inr found ↦ (
          ground arith,
          ground arith,
          found.0,
          found.1,
          ground (arith, found.1),
          ground (arith, found.1),
          ground (arith, found.1),
        )
      ]

  fired_compliant :
      (r : AuditResult)
      → (apply_empty_commit_fallback r commit rules.fetch_stats).2 ≡ true
      → (apply_empty_commit_fallback r commit rules.fetch_stats).0.is_compliant ≡ true
  unfolding apply_empty_commit_fallback
  fired_compliant r h = ground arith

  best_iff :
      (r : AuditResult) (best : PrVerdict)
      → ((evaluate_best r commit enrichment rules best).is_compliant ≡ true) ↔ (Emptied ⊎ Reverting)
  unfolding evaluate_best evaluate_revert_compliance finalize_revert_waiver finalize_non_compliant
  best_iff r best = ground (arith, fired_iff r, fired_compliant r)

  without_pr_iff :
      (r : AuditResult)
      → ((evaluate_without_pr r commit enrichment rules).is_compliant ≡ true)
        ↔ (Emptied ⊎ Reverting)
  unfolding evaluate_without_pr evaluate_revert_compliance finalize_revert_waiver
  without_pr_iff r = ground (arith, fired_iff r, fired_compliant r)

  with_prs_iff :
      (r : AuditResult)
      → ((evaluate_with_prs r commit enrichment rules).is_compliant ≡ true)
        ↔ (Passing commit enrichment rules enrichment.prs ⊎ (Emptied ⊎ Reverting))
  unfolding evaluate_with_prs finalize_compliant_pr
  with_prs_iff r = ended (pr_loop commit enrichment rules no_verdict enrichment.prs) refl
    where
      ended :
          (t : Tournament)
          → pr_loop commit enrichment rules no_verdict enrichment.prs ≡ t
          → ((evaluate_with_prs r commit enrichment rules).is_compliant ≡ true)
            ↔ (Passing commit enrichment rules enrichment.prs ⊎ (Emptied ⊎ Reverting))
      ended (passed v) e = (
        λ _.
            let found = pr_loop-passed commit enrichment rules no_verdict enrichment.prs e in
            inl (found.0, found.1, found.3),
        λ _. ground arith,
      )
      ended (best_of b) e = (
        λ h. inr ((best_iff r b).0 (ground arith)),
        λ j. elim j [
          | inl p ↦ absurd (
              ground (
                arith,
                p.2,
                pr_loop-best commit enrichment rules no_verdict enrichment.prs e p.0 p.1,
              ))
          | inr w ↦ ground (arith, (best_iff r b).1 w)
        ],
      )

  not-Passing-nil :
      (prs : List PullRequest) → length prs ≡ 0 → ¬ Passing commit enrichment rules prs
  not-Passing-nil [] e p = elim p.1 [ ]
  not-Passing-nil (pr ∷ prs) e p = absurd (omega arith)

  -- EvaluateCommit calls a commit compliant exactly when it is waived as exempt, or one of its pull
  -- requests passes, or its diff is empty, or it is a verified clean revert.
  pub compliant_iff : ((evaluate_commit commit enrichment rules).is_compliant ≡ true) ↔ Justified
  unfolding evaluate_commit
  compliant_iff = elim (Bool-cases (apply_exempt_author_rule start commit enrichment rules).1) [
    | inl waived ↦
        (λ _. inl ((waived_iff start).0 waived), λ _. ground (arith, waived_compliant start))
    | inr audited ↦ elim (Bool-cases (length enrichment.prs == 0)) [
      | inl direct ↦ (
        λ h. inr (inr ((without_pr_iff (record judged { has_pr = false })).0 (ground arith))),
        λ j. elim j [
          | inl x ↦ absurd (ground (arith, (waived_iff start).1 x))
          | inr rest ↦ elim rest [
            | inl p ↦ absurd (not-Passing-nil enrichment.prs (ground arith) p)
            | inr w ↦ ground (arith, (without_pr_iff (record judged { has_pr = false })).1 w)
          ]
        ],
      )
      | inr linked ↦ (
        λ h. inr (
            (with_prs_iff (record judged { has_pr = true; pr_count = length enrichment.prs })).0
              (ground arith)),
        λ j. elim j [
          | inl x ↦ absurd (ground (arith, (waived_iff start).1 x))
          | inr w ↦ ground (
            arith,
            (with_prs_iff (record judged { has_pr = true; pr_count = length enrichment.prs })).1 w,
          )
        ],
      )
    ]
  ]
    where
      start : AuditResult
      start = init_audit_result commit enrichment

      judged : AuditResult
      judged = (apply_exempt_author_rule start commit enrichment rules).0
