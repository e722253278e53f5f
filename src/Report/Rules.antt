-- ===== src/Report/Rules.antt =====
-- internal/report/rules.go: the cells of the decision matrix and the action that a row calls for.
pub mod Actions
use gh_audit.Prelude.{
  ℕ, ◌+◌, ◌-◌, ◌/◌, Bool, true, false, not, ◌&&◌, ◌||◌, List, [], ◌∷◌, ◌++◌, arith, ltb, leb,
  if◌then◌else◌, ◌==◌, nat_eq, text_eq, ◌/=◌, length, take,
}
use gh_audit.Text.{Text, text, equal_fold, contains, join, trim_space}
use gh_audit.Text.Decimal.{itoa}
use gh_audit.Model.{trusted_id}
use gh_audit.Report.{DetailRow}

-- RuleOutcome; the empty string of a zero value does not occur in what is derived.
pub data RuleOutcome : Type 0 where
  pass fail skip na missing waived waived_weak : RuleOutcome

abbrev pub is_fail : RuleOutcome → Bool
is_fail fail = true
is_fail _ = false

abbrev pub is_missing : RuleOutcome → Bool
is_missing missing = true
is_missing _ = false

abbrev pub is_waived : RuleOutcome → Bool
is_waived waived = true
is_waived _ = false

pub data Severity : Type 0 where
  high medium low none_at_all : Severity

-- severityRank
unfoldable pub severity_rank : Severity → ℕ
severity_rank high = 3
severity_rank medium = 2
severity_rank low = 1
severity_rank none_at_all = 0

abbrev pub forgeable_exempt_tag : Text
forgeable_exempt_tag = text "trust:forgeable-exemption"

pub record RuleOutcomes : Type 0 where
  pub r1_exempt : RuleOutcome
  pub r2_empty : RuleOutcome
  pub r3_has_pr : RuleOutcome
  pub r4_final_approval : RuleOutcome
  pub r4b_stale : RuleOutcome
  pub r4c_post_merge_concern : RuleOutcome
  pub r5_self_approval : RuleOutcome
  pub r6_owner_check : RuleOutcome
  pub r7_verdict : RuleOutcome
  pub r8_revert_waiver : RuleOutcome

-- The first cell of DeriveRuleOutcomes.
unfoldable pub exempt_outcome : DetailRow → RuleOutcome
exempt_outcome d =
    if d.is_exempt_author && d.is_compliant && d.reasons == text "exempt: configured author"
    then (if contains d.annotations forgeable_exempt_tag then waived_weak else waived)
    else skip

unfoldable pub pr_outcome : DetailRow → RuleOutcome
pr_outcome d =
    if d.has_pr
    then pass
    else if is_waived (exempt_outcome d) || d.is_empty_commit
    then na
    else fail

-- The cells 4, 4b and 4c, and 5: of a commit with no pull request none applies.
abbrev pub with_pr : DetailRow → RuleOutcome → RuleOutcome
with_pr d o = if d.has_pr then o else na

abbrev pub fails_if : Bool → RuleOutcome
fails_if b = if b then fail else pass

unfoldable pub self_outcome : DetailRow → RuleOutcome
self_outcome d = if d.is_self_approved then fail else if d.has_final_approval then pass else na

unfoldable pub owner_outcome : Text → RuleOutcome
owner_outcome check =
    if check == text "success"
    then pass
    else if check == text "failure"
    then fail
    else if check == text "missing"
    then missing
    else na

-- DeriveRuleOutcomes
unfoldable pub derive_rule_outcomes : DetailRow → RuleOutcomes
derive_rule_outcomes d = record {
  r1_exempt = exempt_outcome d;
  r2_empty = if d.is_empty_commit then waived else skip;
  r3_has_pr = pr_outcome d;
  r4_final_approval = with_pr d (fails_if (not d.has_final_approval));
  r4b_stale = with_pr d (fails_if d.has_stale_approval);
  r4c_post_merge_concern = with_pr d (fails_if d.has_post_merge_concern);
  r5_self_approval = with_pr d (self_outcome d);
  r6_owner_check = owner_outcome d.owner_approval_check;
  r7_verdict = fails_if (not d.is_compliant);
  r8_revert_waiver = if d.is_clean_revert then waived else na;
}

-- RequiresAction
unfoldable pub requires_action : RuleOutcomes → Bool
requires_action o = is_fail o.r7_verdict

-- isSelfMerged
unfoldable pub is_self_merged : DetailRow → Bool
is_self_merged d =
    if trusted_id d.author_id && trusted_id d.merged_by_id
    then d.author_id == d.merged_by_id
    else if d.author_login == [] || equal_fold d.author_login (text "ghost")
    then false
    else d.author_login == d.merged_by_login

-- truncSHA8
unfoldable pub trunc_sha8 : Text → Text
trunc_sha8 sha = if leb (length sha) 8 then sha else take 8 sha

abbrev part : Bool → Text → List Text
part b signal = if b then signal ∷ [] else []

-- " · ", in UTF-8.
abbrev pub separator : Text
separator = 32 ∷ 194 ∷ 183 ∷ 32 ∷ []

-- SynthesizeContext
unfoldable pub synthesize_context : DetailRow → Text
synthesize_context d = join separator (
    part (is_self_merged d) (text "self-merged")
    ++ part (d.merge_strategy /= [] && d.merge_strategy /= text "unknown") d.merge_strategy
    ++ part
        (d.revert_verification /= []
          && d.revert_verification /= text "none"
          && not d.is_clean_revert)
        (text "revert: "
          ++ d.revert_verification
          ++ (if d.reverted_sha /= []
              then text " (target " ++ trunc_sha8 d.reverted_sha ++ text ")"
              else []))
    ++ part d.has_stale_approval (text "stale")
    ++ part d.has_post_merge_concern (text "post-merge concern")
    ++ part (ltb 1 d.pr_count) (itoa d.pr_count ++ text " PRs")
    ++ part d.is_bot (text "bot"))

-- The three results of SynthesizeAction.
pub record Action : Type 0 where
  pub severity : Severity
  pub rule : Text
  pub prescribed : Text

abbrev pub pr_tag : DetailRow → Text
pr_tag d = if ltb 0 d.pr_number then text " (PR #" ++ itoa d.pr_number ++ text ")" else []

abbrev pub fallback_reason : Text → Text
fallback_reason reason = if reason == [] then text "Investigate non-compliant commit" else reason

-- SynthesizeAction
unfoldable pub synthesize_action : DetailRow → RuleOutcomes → Action
unfolding requires_action
synthesize_action d o =
    if not (requires_action o)
    then record { severity = none_at_all; rule = []; prescribed = [] }
    else if is_fail o.r3_has_pr
    then record {
      severity = high;
      rule = text "R3 HasPR";
      prescribed = text "Open a retroactive PR or document justification";
    }
    else if is_fail o.r5_self_approval
    then record {
      severity = high;
      rule = text "R5 SelfApproval";
      prescribed = text "Find a non-self approver" ++ pr_tag d;
    }
    else if is_fail o.r6_owner_check || is_missing o.r6_owner_check
    then record {
      severity = high;
      rule = text "R6 OwnerCheck";
      prescribed = text "Re-run / request Owner Approval" ++ pr_tag d;
    }
    else if is_fail o.r4b_stale
    then record {
      severity = medium;
      rule = text "R4b Stale";
      prescribed = text "Verify force-push was legitimate; re-approve if so" ++ pr_tag d;
    }
    else if is_fail o.r4_final_approval
    then record {
      severity = medium;
      rule = text "R4 FinalApproval";
      prescribed = text "Chase missing approval on final commit" ++ pr_tag d;
    }
    else if is_fail o.r4c_post_merge_concern
    then record {
      severity = low;
      rule = text "R4c PostMergeConcern";
      prescribed = text "Investigate post-merge reviewer concern" ++ pr_tag d;
    }
    else record {
      severity = medium;
      rule = text "R7 Verdict";
      prescribed = fallback_reason (trim_space d.reasons);
    }
