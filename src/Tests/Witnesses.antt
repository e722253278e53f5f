-- ===== src/Tests/Witnesses.antt =====
-- The theorems applied where their hypotheses hold.
use gh_audit.Audit.Evaluate.Verdict.{compliant_iff, Justified}
use gh_audit.Audit.Refresh.Complete.{post_approval_by_graph_iff}
use gh_audit.Audit.Contributors.Kept.{offline, own_code_rejected}
use gh_audit.Audit.Exempt.Contributions.{contributors_exempt, IsEmpty}
use gh_audit.Audit.Glob.Correct.{glob_match-literal_star, glob_match_iff}
use gh_audit.Audit.Exempt.Identity.{exempt_status_policy, OnList, Attested}
use gh_audit.Audit.Glob.Matches.{Matches}
use gh_audit.Text.Decimal.{itoa}
use gh_audit.Tests.Samples.{
  logins, other_pr, some_rules, first_commit, build_check, bot, bare_enrichment, some_enrichment,
  older_review, some_commit, bot_commit, build_run, head_review, some_pr,
}
use gh_audit.Audit.Contributors.{filter_non_empty_contributors, is_self_approval}
use gh_audit.Audit.Checks.Satisfied.{checks_ok-Satisfied, Satisfied}
use gh_audit.Text.{equal_fold, text, Text}
use gh_audit.Audit.Glob.{glob_match, scan_loop, scan_fuel}
use gh_audit.Audit.Reviews.Ballot.{latest_review-is_approval, last_vote, is_approval, ballot}
use gh_audit.Audit.Checks.{evaluate_required_checks}
use gh_audit.Audit.Pr.Independent.{approval-Standing, Standing}
use gh_audit.Github.Merge.{classify_merge}
use gh_audit.Audit.Pr.{
  no_verdict, approval_reasons, approval_of, better_verdict, pr_approval, check_ok, evaluate_pr,
}
use gh_audit.Audit.Refresh.{post_approval_by_graph, is_approval_refreshable}
use gh_audit.Audit.Evaluate.Best.{pr_loop-Leads, Leads}
use gh_audit.Audit.Reviews.{
  record_review, commented, values, review_loop, reviewer_key, supersedes, get_review,
  latest_review_states_on_final,
}
use gh_audit.Audit.Refresh.Ancestry.{FirstParents, refreshable_sound, OnlyExemptSince}
use gh_audit.Model.{trusted_id, Review, EnrichmentResult, CheckRun}
use gh_audit.Audit.Evaluate.{
  best_of, pr_loop, evaluate_commit, init_audit_result, apply_exempt_author_rule,
}
use gh_audit.Audit.Exempt.{
  contributes, exempt_status, has_non_exempt_pr_contributors, is_exempt_commit,
}
use gh_audit.Prelude.{
  ◌≡◌, refl, ◌↔◌, ◌⊎◌, true, false, none, some, List, [], ◌∷◌, Memᴰ, arith, nat_eq, text_beq,
  text_eq,
}

compliant_iff_example :
    ((evaluate_commit some_commit some_enrichment some_rules).is_compliant ≡ true)
    ↔ Justified some_commit some_enrichment some_rules
compliant_iff_example = compliant_iff some_commit some_enrichment some_rules

approved_pr : (evaluate_pr some_commit some_enrichment some_pr some_rules).approval_on_final ≡ true
unfolding evaluate_pr pr_approval approval_of latest_review_states_on_final record_review supersedes
    trusted_id text_beq get_review gh_audit.Audit.Reviews.put_review is_self_approval
    gh_audit.Audit.Types.same_user classify_merge filter_non_empty_contributors itoa
    gh_audit.Audit.Contributors.has_non_empty_contribution
approved_pr = refl

approval-Standing_example : Standing some_commit some_enrichment some_pr some_rules
approval-Standing_example =
    approval-Standing some_commit some_enrichment some_pr some_rules approved_pr

bare_best :
    pr_loop some_commit bare_enrichment some_rules no_verdict (some_pr ∷ other_pr ∷ [])
    ≡ best_of (evaluate_pr some_commit bare_enrichment other_pr some_rules)
unfolding pr_loop better_verdict evaluate_pr pr_approval approval_of latest_review_states_on_final
    approval_reasons text_beq evaluate_required_checks gh_audit.Audit.Checks.check_loop
    gh_audit.Audit.Checks.check_step gh_audit.Audit.Checks.latest_run equal_fold itoa
    filter_non_empty_contributors gh_audit.Audit.Contributors.has_non_empty_contribution
bare_best = refl

pr_loop-Leads_example :
    Leads
      (evaluate_pr some_commit bare_enrichment other_pr some_rules)
      (evaluate_pr some_commit bare_enrichment some_pr some_rules)
pr_loop-Leads_example =
    pr_loop-Leads some_commit bare_enrichment some_rules (some_pr ∷ other_pr ∷ []) bare_best some_pr
      (Memᴰ.head refl)

abbrev bob_key : Text
bob_key = reviewer_key head_review

abbrev comment_later : Review
comment_later = record head_review { state = commented; submitted_at = 95; review_id = 2 }

-- The approval of the head, and a comment on it after that.
abbrev approved_then_commented : List Review
approved_then_commented = older_review ∷ head_review ∷ comment_later ∷ []

latest_review-is_approval_example :
    is_approval
      (get_review bob_key (latest_review_states_on_final approved_then_commented some_pr).0)
    ≡ is_approval (last_vote none (ballot some_pr bob_key approved_then_commented))
unfolding ballot text_beq trusted_id reviewer_key itoa gh_audit.Audit.Reviews.Fold.as_of_merge
latest_review-is_approval_example =
    latest_review-is_approval some_pr bob_key approved_then_commented (omega arith)

head_kept : Memᴰ head_review (values (latest_review_states_on_final (head_review ∷ []) some_pr).0)
unfolding latest_review_states_on_final text_beq trusted_id record_review get_review
    gh_audit.Audit.Reviews.put_review
head_kept = Memᴰ.head refl

own_code_rejected_example :
    is_self_approval
      (record head_review { reviewer_id = 11 })
      some_commit
      some_pr
      (filter_non_empty_contributors
        (text "acme")
        (text "web")
        (first_commit ∷ bot_commit ∷ [])
        none)
    ≡ true
own_code_rejected_example =
    own_code_rejected some_commit some_pr (first_commit ∷ bot_commit ∷ []) none
      (record head_review { reviewer_id = 11 }) first_commit logins (unfold trusted_id in refl)
      (Memᴰ.head refl) refl (offline refl)

exempt_status_policy_example :
    (((exempt_status bot_commit (bot ∷ []) true).0 ≡ true) ↔ Attested bot_commit (bot ∷ []))
    × ((exempt_status bot_commit (bot ∷ []) true).1 ≡ false)
    × (((exempt_status bot_commit (bot ∷ []) false).0 ≡ true)
        ↔ (Attested bot_commit (bot ∷ []) ⊎ OnList 99 (bot ∷ [])))
    × (((exempt_status bot_commit (bot ∷ []) false).1 ≡ true)
        ↔ (OnList 99 (bot ∷ []) × ¬ Attested bot_commit (bot ∷ [])))
exempt_status_policy_example = exempt_status_policy bot_commit (bot ∷ [])

-- The squash of a branch on which only the bot has worked.
abbrev bot_enrichment : EnrichmentResult
bot_enrichment = record some_enrichment { pr_branch_commits = (7, bot_commit ∷ []) ∷ [] }

all_bots :
    (apply_exempt_author_rule
      (init_audit_result bot_commit bot_enrichment)
      bot_commit
      bot_enrichment
      some_rules).1
    ≡ true
unfolding apply_exempt_author_rule has_non_exempt_pr_contributors contributes is_exempt_commit
    exempt_status gh_audit.Audit.Exempt.verified_exempt_signer gh_audit.Audit.Exempt.id_exempt
    equal_fold text_beq
all_bots = refl

contributors_exempt_example :
    (is_exempt_commit bot_commit (bot ∷ []) false ≡ true)
    ⊎ IsEmpty (text "acme") (text "web") none bot_commit
contributors_exempt_example =
    contributors_exempt (init_audit_result bot_commit bot_enrichment) bot_commit bot_enrichment
      some_rules all_bots 7 (bot_commit ∷ []) bot_commit (Memᴰ.head refl) (Memᴰ.head refl)

-- A run that failed before, and one of the commit below the head.
abbrev build_runs : List CheckRun
build_runs =
    record build_run { check_run_id = 9; conclusion = text "failure"; completed_at = 60 }
    ∷ build_run
    ∷ record build_run { commit_sha = text "a1"; conclusion = text "failure"; completed_at = 99 }
    ∷ []

build_ok : check_ok (evaluate_required_checks build_runs (text "a2") (build_check ∷ [])) ≡ true
unfolding evaluate_required_checks text_beq gh_audit.Audit.Checks.check_loop
    gh_audit.Audit.Checks.check_step gh_audit.Audit.Checks.latest_run
    gh_audit.Audit.Checks.newer_run equal_fold
build_ok = refl

checks_ok-Satisfied_example : Satisfied build_runs (text "a2") build_check
checks_ok-Satisfied_example =
    checks_ok-Satisfied build_runs (text "a2") (build_check ∷ []) build_ok build_check
      (Memᴰ.head refl)

glob_match_iff_example :
    (scan_loop
        (scan_fuel (text "rel*") (text "release"))
        (record { pat = text "rel*"; txt = text "release"; star = none })
      ≡ some (glob_match (text "rel*") (text "release")))
    × ((glob_match (text "rel*") (text "release") ≡ true) ↔ Matches (text "rel*") (text "release"))
glob_match_iff_example = glob_match_iff (text "rel*") (text "release") (omega arith)

glob_match-literal_star_example :
    (glob_match (text "*") (text "*x") ≡ false) × Matches (text "*") (text "*x")
glob_match-literal_star_example = glob_match-literal_star b'x' []

only_bot_since :
    is_approval_refreshable older_review
      (first_commit ∷ bot_commit ∷ [])
      (text "a2")
      (text "c0")
      (bot ∷ [])
      false
    ≡ true
unfolding is_approval_refreshable post_approval_by_graph text_beq gh_audit.Audit.Refresh.walk
    is_exempt_commit gh_audit.Audit.Exempt.verified_exempt_signer gh_audit.Audit.Exempt.id_exempt
    equal_fold
only_bot_since = refl

refreshable_sound_example :
    OnlyExemptSince older_review
      (first_commit ∷ bot_commit ∷ [])
      (text "a2")
      (text "c0")
      (bot ∷ [])
      false
refreshable_sound_example =
    refreshable_sound older_review (first_commit ∷ bot_commit ∷ []) (text "a2") (text "c0")
      (bot ∷ []) false only_bot_since

post_approval_by_graph_iff_example :
    (post_approval_by_graph (text "a1") (text "a2") (first_commit ∷ bot_commit ∷ [])
      ≡ some (bot_commit ∷ []))
    ↔ FirstParents (first_commit ∷ bot_commit ∷ []) (text "a2") (text "a1") (bot_commit ∷ [])
post_approval_by_graph_iff_example =
    post_approval_by_graph_iff (text "a1") (text "a2") (first_commit ∷ bot_commit ∷ [])
      (bot_commit ∷ []) (λ e. cc) (λ e. cc) refl
