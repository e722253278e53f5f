-- ===== src/Report/Rules/Actions.antt =====
-- Which rows call for an action, and how urgent it is.
use gh_audit.Prelude.{
  ◌≡◌, refl, ◌≢◌, ◌↔◌, ◌⊎◌, inl, inr, Bool, true, false, not, ◌||◌, arith, if◌then◌else◌,
  Bool-cases, nat_eq, text_beq_iff, text_eq,
}
use gh_audit.Text.{text, contains}
use gh_audit.Report.{DetailRow}
use gh_audit.Report.Rules.{
  medium, Action, with_pr, is_missing, is_fail, RuleOutcomes, fail, na, waived, waived_weak,
  Severity, high, low, none_at_all, exempt_outcome, pr_outcome, self_outcome, owner_outcome,
  derive_rule_outcomes, requires_action, synthesize_action, forgeable_exempt_tag,
}

-- The action for a row, by its own cells.
abbrev pub urgency : DetailRow → Severity
urgency d = (synthesize_action d (derive_rule_outcomes d)).severity

-- A row calls for an action exactly when its commit is not compliant.
urgency-none_iff : (d : DetailRow) → (urgency d ≡ none_at_all) ↔ (d.is_compliant ≡ true)
unfolding synthesize_action derive_rule_outcomes
urgency-none_iff d = ground arith

-- The owner check of a row has failed or is missing.
abbrev pub Unchecked : DetailRow → Type 0
Unchecked d = (d.owner_approval_check ≡ text "failure") ⊎ (d.owner_approval_check ≡ text "missing")

if_severity :
    (b : Bool) (x y : Action)
    → (if b then x else y).severity ≡ (if b then x.severity else y.severity)
if_severity true x y = refl
if_severity false x y = refl

severity_lem :
    (d : DetailRow) (o : RuleOutcomes)
    → (synthesize_action d o).severity ≡ (
        if not (requires_action o)
        then none_at_all
        else if is_fail o.r3_has_pr
        then high
        else if is_fail o.r5_self_approval
        then high
        else if is_fail o.r6_owner_check || is_missing o.r6_owner_check
        then high
        else if is_fail o.r4b_stale
        then medium
        else if is_fail o.r4_final_approval
        then medium
        else if is_fail o.r4c_post_merge_concern
        then low
        else medium)
unfolding synthesize_action
severity_lem d o = simp if_severity

low_tail :
    (stale final concern : Bool)
    → (if stale then medium else if final then medium else if concern then low else medium) ≢ high
low_tail stale final concern h = ground arith

first_iff :
    (needed pr self owner : Bool) (tail : Severity)
    → tail ≢ high
    → ((if not needed
          then none_at_all
          else if pr
          then high
          else if self
          then high
          else if owner
          then high
          else tail)
        ≡ high)
      ↔ ((needed ≡ true) × ((pr ≡ true) ⊎ ((self ≡ true) ⊎ (owner ≡ true))))
first_iff needed pr self owner tail h = ground arith

high_iff :
    (d : DetailRow) (o : RuleOutcomes)
    → ((synthesize_action d o).severity ≡ high) ↔ (
        (requires_action o ≡ true)
        × ((is_fail o.r3_has_pr ≡ true)
            ⊎ ((is_fail o.r5_self_approval ≡ true)
                ⊎ ((is_fail o.r6_owner_check || is_missing o.r6_owner_check) ≡ true))))
high_iff d o = rw (severity_lem d o) (
    first_iff _ _ _ _ _ (
      low_tail (is_fail o.r4b_stale) (is_fail o.r4_final_approval)
        (is_fail o.r4c_post_merge_concern)))

pr_fails_iff :
    (d : DetailRow)
    → d.is_compliant ≡ false
    → (is_fail (pr_outcome d) ≡ true) ↔ ((d.has_pr ≡ false) × (d.is_empty_commit ≡ false))
unfolding pr_outcome exempt_outcome
pr_fails_iff d bad = ground arith

self_fails_iff :
    (d : DetailRow)
    → (is_fail (with_pr d (self_outcome d)) ≡ true)
      ↔ ((d.has_pr ≡ true) × (d.is_self_approved ≡ true))
unfolding self_outcome
self_fails_iff d = ground arith

Unchecked-iff :
    (d : DetailRow)
    → ((is_fail (owner_outcome d.owner_approval_check)
          || is_missing (owner_outcome d.owner_approval_check))
        ≡ true)
      ↔ Unchecked d
unfolding owner_outcome
Unchecked-iff d = ground (
  arith,
  text_beq_iff d.owner_approval_check (text "success"),
  text_beq_iff d.owner_approval_check (text "failure"),
  text_beq_iff d.owner_approval_check (text "missing"),
)

-- The action is urgent exactly when the commit is not compliant and came without a pull request
-- though it is not empty, or was approved by its author, or its owner check failed or is missing.
urgency-high_iff :
    (d : DetailRow)
    → (urgency d ≡ high) ↔ (
        (d.is_compliant ≡ false)
        × (((d.has_pr ≡ false) × (d.is_empty_commit ≡ false))
            ⊎ (((d.has_pr ≡ true) × (d.is_self_approved ≡ true)) ⊎ Unchecked d)))
unfolding derive_rule_outcomes requires_action
urgency-high_iff d =
    let step = high_iff d (derive_rule_outcomes d) in
    elim (Bool-cases d.is_compliant) [
      | inl good ↦ (λ h. absurd (ground (arith, step)), λ h. absurd (ground arith))
      | inr bad ↦ ground (arith, step, pr_fails_iff d bad, self_fails_iff d, Unchecked-iff d)
    ]

-- The stored verdict is the exemption of rule 1.
abbrev pub Exempted : DetailRow → Type 0
Exempted d =
    (d.is_exempt_author ≡ true)
    × (d.is_compliant ≡ true)
    × (d.reasons ≡ text "exempt: configured author")

-- A commit that rule 1 waived, that is not empty and has no pull request, is shown as failing rule
-- 3 when its exemption is a weak one, and as not subject to the rule when it is not.
pub exempted-has_pr :
    (d : DetailRow)
    → Exempted d
    → d.has_pr ≡ false
    → d.is_empty_commit ≡ false
    → ((derive_rule_outcomes d).r1_exempt
        ≡ (if contains d.annotations forgeable_exempt_tag then waived_weak else waived))
      × ((derive_rule_outcomes d).r3_has_pr
          ≡ (if contains d.annotations forgeable_exempt_tag then fail else na))
unfolding derive_rule_outcomes pr_outcome exempt_outcome
exempted-has_pr d (a, b, c) e f =
    let same = (text_beq_iff d.reasons (text "exempt: configured author")).1 c in
    ground (arith, same)
