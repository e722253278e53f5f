-- ===== src/Audit/Pr.antt =====
-- evaluatePR of audit.go: how one pull request scores against rules 4 to 7.
pub mod Reasons
pub mod Independent
use gh_audit.Prelude.{
  ℕ, Bool, true, false, not, ◌&&◌, ◌||◌, Option, none, some, List, [], ◌∷◌, ◌++◌, ltb, ◌==◌, ◌/=◌,
  nat_eq, text_eq, if◌then◌else◌, any, length,
}
use gh_audit.Text.{Text, text, quote}
use gh_audit.Text.Decimal.{itoa}
use gh_audit.Model.{
  Commit, PullRequest, Review, BranchCommits, EnrichmentResult, ExemptAuthor, trusted_id,
}
use gh_audit.Audit.Types.{RequiredCheck, StatsFetcher}
use gh_audit.Audit.Contributors.{filter_non_empty_contributors, is_self_approval}
use gh_audit.Audit.Reviews.{ReviewMap, values, approved, latest_review_states_on_final}
use gh_audit.Audit.Checks.{evaluate_required_checks}
use gh_audit.Audit.Glob.{glob_match}
use gh_audit.Audit.Refresh.{is_approval_refreshable}

-- prVerdict; a nil `pr` is `none`.
pub record PrVerdict : Type 0 where
  pub pr : Option PullRequest
  pub reasons : List Text
  pub approvers : List Text
  pub pr_branch_commits : List Commit
  pub latest_on_final : ReviewMap
  pub approval_on_final : Bool
  pub delivers : Bool
  pub self_approved : Bool
  pub stale_approval : Bool
  pub post_merge_concern : Bool
  pub owner_approval : Text
  pub owner_approval_ok : Bool

-- prVerdict{}
abbrev pub no_verdict : PrVerdict
no_verdict = record {
  pr = none;
  reasons = [];
  approvers = [];
  pr_branch_commits = [];
  latest_on_final = [];
  approval_on_final = false;
  delivers = false;
  self_approved = false;
  stale_approval = false;
  post_merge_concern = false;
  owner_approval = [];
  owner_approval_ok = false;
}

-- prDelivers
unfoldable pub pr_delivers : PullRequest → List Text → Bool
pr_delivers pr audited_branches =
    if length audited_branches == 0
    then true
    else if pr.base_branch == []
    then true
    else any (λ pattern. glob_match pattern pr.base_branch) audited_branches

-- The parameters of evaluatePR, but for the pull request.
pub record Rules : Type 0 where
  pub required_checks : List RequiredCheck
  pub fetch_stats : StatsFetcher
  pub exempt_authors : List ExemptAuthor
  pub audited_branches : List Text
  pub require_signing : Bool

-- `m[number]` on a map of slices: nil where there is no entry.
unfoldable pub branch_commits : ℕ → BranchCommits → List Commit
branch_commits number [] = []
branch_commits number ((n, commits) ∷ m) = if n == number then commits else branch_commits number m

-- What the first two phases write: approvalOnFinal, selfApproved, staleApproval and approvers.
pub record Approval : Type 0 where
  pub on_final : Bool
  pub self : Bool
  pub stale : Bool
  pub approvers : List Text

abbrev pub no_approval : Approval
no_approval = record { on_final = false; self = false; stale = false; approvers = [] }

abbrev pub counts : Review → Bool
counts review = review.state == approved && trusted_id review.reviewer_id

abbrev pub approve : Review → Approval → Approval
approve review a = record a {
  on_final = true;
  approvers = a.approvers ++ review.reviewer_login ∷ [];
}

-- Phase 1, over the latest review of each reviewer; `is_self` is isSelfApproval.
unfoldable pub fresh_loop : (Review → Bool) → Approval → List Review → Approval
fresh_loop is_self a [] = a
fresh_loop is_self a (review ∷ reviews) =
    fresh_loop is_self
      (if not (counts review)
        then a
        else if is_self review
        then record a { self = true }
        else approve review a)
      reviews

abbrev pub off_head : PullRequest → Review → Bool
off_head pr review = review.pr_number /= pr.number || review.commit_id == pr.head_sha

-- Phase 2, over all reviews: it ends at the first approval of an older commit that is not refreshed.
unfoldable pub stale_loop :
    PullRequest → (Review → Bool) → (Review → Bool) → Approval → List Review → Approval
stale_loop pr is_self refreshable a [] = a
stale_loop pr is_self refreshable a (review ∷ reviews) =
    elim (off_head pr review || not (counts review) || is_self review) [
      | true ↦ stale_loop pr is_self refreshable a reviews
      | false ↦ elim (refreshable review) [
        | true ↦ stale_loop pr is_self refreshable (approve review a) reviews
        | false ↦ record a { stale = true }
      ]
    ]

abbrev numbered : Text → ℕ → Text
numbered reason number = reason ++ text " (PR #" ++ itoa number ++ text ")"

abbrev when : Bool → Text → List Text
when b reason = if b then reason ∷ [] else []

-- Phase 3
unfoldable pub approval_reasons : ℕ → Approval → List Text
approval_reasons number a =
    if a.on_final
    then []
    else (when a.self (numbered (text "self-approved (reviewer is code author)") number)
        ++ when a.stale (
            text "approval is stale "
            ++ 226 ∷ 128 ∷ 148 ∷ numbered (text " not on final commit") number)
        ++ when (not a.self && not a.stale) (numbered (text "no approval on final commit") number))

unfoldable pub landing_reason : PullRequest → Text
landing_reason pr =
    text "approval is on PR #"
    ++ itoa pr.number
    ++ text ", which merged into "
    ++ quote pr.base_branch
    ++ text ", not an audited branch"

abbrev pub check_ok : Text → Bool
check_ok owner_approval = owner_approval == [] || owner_approval == text "success"

-- The first two phases together.
unfoldable pub approval_of :
    PullRequest → (Review → Bool) → (Review → Bool) → ReviewMap → List Review → Approval
unfolding fresh_loop stale_loop
approval_of pr is_self refreshable latest reviews =
    let a = fresh_loop is_self no_approval (values latest) in
    if not a.on_final then stale_loop pr is_self refreshable a reviews else a

-- v.prBranchCommits
unfoldable pub contributors_of :
    Commit → EnrichmentResult → PullRequest → StatsFetcher → List Commit
unfolding branch_commits
contributors_of commit enrichment pr fetch_stats =
    filter_non_empty_contributors commit.org commit.repo
      (branch_commits pr.number enrichment.pr_branch_commits) fetch_stats

-- The approval that evaluatePR ends its first two phases with.
unfoldable pub pr_approval : Commit → EnrichmentResult → PullRequest → Rules → Approval
unfolding contributors_of
pr_approval commit enrichment pr rules =
    approval_of pr
      (λ review.
        is_self_approval review commit pr (contributors_of commit enrichment pr rules.fetch_stats))
      (λ review.
        is_approval_refreshable review (branch_commits pr.number enrichment.pr_branch_commits)
          pr.head_sha pr.merge_commit_sha rules.exempt_authors rules.require_signing)
      (latest_review_states_on_final enrichment.reviews pr).0 enrichment.reviews

-- evaluatePR
unfoldable pub evaluate_pr : Commit → EnrichmentResult → PullRequest → Rules → PrVerdict
unfolding pr_delivers
evaluate_pr commit enrichment pr rules =
    let delivers = pr_delivers pr rules.audited_branches in
    let (latest, concern) = latest_review_states_on_final enrichment.reviews pr in
    let a = pr_approval commit enrichment pr rules in
    let owner = evaluate_required_checks enrichment.check_runs pr.head_sha rules.required_checks in
    record {
      pr = some pr;
      reasons =
          approval_reasons pr.number a
          ++ when (not (check_ok owner))
              (numbered (text "Owner Approval check missing/failed") pr.number)
          ++ when (a.on_final && not delivers) (landing_reason pr);
      approvers = a.approvers;
      pr_branch_commits = contributors_of commit enrichment pr rules.fetch_stats;
      latest_on_final = latest;
      approval_on_final = a.on_final;
      delivers = delivers;
      self_approved = a.self;
      stale_approval = a.stale;
      post_merge_concern = concern;
      owner_approval = owner;
      owner_approval_ok = check_ok owner;
    }

-- betterVerdict
unfoldable pub better_verdict : PrVerdict → PrVerdict → Bool
better_verdict candidate best = elim best.pr [
  | none ↦ true
  | some best_pr ↦
      if length candidate.reasons /= length best.reasons
      then ltb (length candidate.reasons) (length best.reasons)
      else elim candidate.pr [
        | none ↦ false
        | some candidate_pr ↦ ltb best_pr.number candidate_pr.number
      ]
]
