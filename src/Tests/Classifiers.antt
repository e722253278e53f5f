-- ===== src/Tests/Classifiers.antt =====
-- The theorems on messages, diffs and report rows applied where their hypotheses hold.
use gh_audit.Github.Merge.{parse_pr_reference}
use gh_audit.Github.Merge.Reference.{token, message_of, parse_pr_reference_lem}
use gh_audit.Text.Decimal.{itoa}
use gh_audit.Report.Rules.{
  derive_rule_outcomes, forgeable_exempt_tag, fail, na, waived, waived_weak,
}
use gh_audit.Report.Rules.Actions.{exempted-has_pr}
use gh_audit.Github.Diff.{multiset_equal}
use gh_audit.Github.Diff.Inverse.{is_clean_revert_diff-Undone, Undone}
use gh_audit.Github.Diff.Patches.{last_patch}
use gh_audit.Github.Diff.{is_clean_revert_diff}
use gh_audit.Tests.Samples.{undoing, adding, weak_row}
use gh_audit.Text.{equal_fold, has_prefix, contains, text, Text}
use gh_audit.Github.Revert.Parse.{parse_revert-auto}
use gh_audit.Github.Revert.{
  reverts_a_revert, auto_revert, manual_revert, parse_revert, parse_revert_branch_name,
}
use gh_audit.History.{classify_head_move, head_rewritten}
use gh_audit.History.Kept.{Documented, all_safe, last_head, all_safe-Ancestor}
use gh_audit.Prelude.{
  ℕ, ltb, if◌then◌else◌, length, ◌≡◌, refl, ◌⊎◌, true, none, some, [], ◌∷◌, ◌++◌, arith, nat_eq,
  text_beq, text_eq, ◌<◌, inl, inr, ap,
}

abbrev some_sha : Text
some_sha = text "0123456789abcdef0123456789abcdef01234567"

parse_revert-auto_example :
    parse_revert (text "Automatic revert of " ++ (some_sha ++ (text ".." ++ (some_sha ++ []))))
    ≡ (auto_revert, some_sha)
parse_revert-auto_example = parse_revert-auto some_sha some_sha [] (refl, refl) (refl, refl)

abbrev undo : Text
undo = text "Revert \"x\"\nThis reverts commit 0123456789abcdef0123456789abcdef01234567."

undo_parsed : parse_revert undo ≡ (manual_revert, some_sha)
unfolding parse_revert reverts_a_revert has_prefix gh_audit.Github.Revert.auto_revert_sha
    gh_audit.Text.strip_prefix gh_audit.Github.Revert.trailer_sha gh_audit.Text.leftmost
    gh_audit.Github.Revert.hex_run
undo_parsed = refl

exempted-has_pr_example :
    ((derive_rule_outcomes weak_row).r1_exempt
      ≡ (if contains weak_row.annotations forgeable_exempt_tag then waived_weak else waived))
    × ((derive_rule_outcomes weak_row).r3_has_pr
        ≡ (if contains weak_row.annotations forgeable_exempt_tag then fail else na))
exempted-has_pr_example = exempted-has_pr weak_row (refl, refl, refl) refl refl

undone : is_clean_revert_diff (undoing ∷ []) (adding ∷ []) ≡ true
unfolding is_clean_revert_diff gh_audit.Github.Diff.get_patch text_beq has_prefix
undone = refl

is_clean_revert_diff-Undone_example :
    Undone
      (last_patch (text "page.txt") none (undoing ∷ []))
      (last_patch (text "page.txt") none (adding ∷ []))
is_clean_revert_diff-Undone_example =
    is_clean_revert_diff-Undone (undoing ∷ []) (adding ∷ []) undone (text "page.txt")

parse_pr_reference_example :
    parse_pr_reference (message_of (text "Revert Foo (#100) " ++ token 101) none) ≡ some 101
parse_pr_reference_example =
    parse_pr_reference_lem (text "Revert Foo (#100) ") none 101 (omega arith) (omega arith)
      (unfold itoa in refl)

-- A history in one line, whose commits are named by as many bytes as they have ancestors; the
-- comparison of two commits of one depth that differ is not answered.
abbrev Below : Text → Text → Type 0
Below b h = (b ≡ h) ⊎ (length b < length h)

abbrev compare_depth : Text → Text → Text
compare_depth b h =
    if ltb (length b) (length h)
    then text "ahead"
    else if ltb (length h) (length b)
    then text "behind"
    else []

Below-trans : (a b c : Text) → Below a b → Below b c → Below a c
Below-trans a b c (inl e) k = rw e k
Below-trans a b c (inr h) (inl e) = inr (rw (← e) h)
Below-trans a b c (inr h) (inr k) = inr (omega arith)

depth-Documented : Documented Below compare_depth
depth-Documented = record {
  self = λ h. inl refl;
  trans = Below-trans;
  identical = λ b h e. absurd (ground (arith, e));
  ahead = λ b h e. inr (ground (arith, e));
  behind = λ b h e. not_below b h (ground (arith, e));
  diverged = λ b h e. absurd (ground (arith, e));
}
  where
    not_below : (b h : Text) → length h < length b → ¬ Below b h
    not_below b h deeper (inl e) =
        let same : length b ≡ length h = ap (length {A = ℕ}) e in omega arith
    not_below b h deeper (inr k) = omega arith

two_moves : all_safe compare_depth (text "a") (text "ab" ∷ text "abc" ∷ []) ≡ true
unfolding all_safe classify_head_move text_beq
two_moves = refl

all_safe-Ancestor_example : Below (text "a") (last_head (text "a") (text "ab" ∷ text "abc" ∷ []))
all_safe-Ancestor_example =
    all_safe-Ancestor depth-Documented (text "a") (text "ab" ∷ text "abc" ∷ []) two_moves

reset_move :
    classify_head_move (text "abc") (text "a") (compare_depth (text "abc") (text "a"))
    ≡ head_rewritten
unfolding classify_head_move text_beq
reset_move = refl
