-- ===== src/Audit/Pr/Reasons.antt =====
-- The reasons that evaluatePR gives, and what they say of its flags.
use gh_audit.Prelude.{ℕ, Bool, true, ◌≡◌, ◌↔◌, ◌++◌, List, [], ◌∷◌, arith, ◌&&◌, not}
use gh_audit.Text.{Text}
use gh_audit.Model.{Commit, PullRequest, EnrichmentResult}
use gh_audit.Audit.Pr.{pr_approval, Approval, Rules, when, approval_reasons, evaluate_pr}

approval_reasons_iff : (n : ℕ) (a : Approval) → (approval_reasons n a ≡ []) ↔ (a.on_final ≡ true)
unfolding approval_reasons
approval_reasons_iff n a = ground arith

joined_iff :
    (xs : List Text) (ok delivers on_final : Bool) (x y : Text)
    → (xs ≡ []) ↔ (on_final ≡ true)
    → (xs ++ when (not ok) x ++ when (on_final && not delivers) y ≡ [])
      ↔ ((on_final && ok && delivers) ≡ true)
joined_iff [] ok delivers on_final x y h = ground (arith, h)
joined_iff (r ∷ rs) ok delivers on_final x y h = ground (arith, h)

-- A pull request is given no reason exactly when it has an independent approval, its checks are
-- satisfied and it merged into an audited branch.
pub evaluate_pr-reasons :
    (commit : Commit) (enrichment : EnrichmentResult) (pr : PullRequest) (rules : Rules)
    → let v = evaluate_pr commit enrichment pr rules in
      (v.reasons ≡ []) ↔ ((v.approval_on_final && v.owner_approval_ok && v.delivers) ≡ true)
unfolding evaluate_pr
evaluate_pr-reasons commit enrichment pr rules =
    joined_iff _ _ _ _ _ _ (approval_reasons_iff pr.number (pr_approval commit enrichment pr rules))
