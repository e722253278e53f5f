-- ===== src/Audit/Checks.antt =====
-- Rule 6 of audit.go: the required status checks.
pub mod Latest
pub mod Satisfied
use gh_audit.Prelude.{
  Bool, true, false, not, ◌&&◌, ◌||◌, Option, none, some, List, [], ◌∷◌, ltb, ◌==◌, nat_eq, text_eq,
  if◌then◌else◌,
}
use gh_audit.Text.{Text, text, equal_fold}
use gh_audit.Model.{CheckRun, after}
use gh_audit.Audit.Types.{RequiredCheck}

abbrev pub is_run_of : Text → RequiredCheck → CheckRun → Bool
is_run_of head_sha rc cr = cr.commit_sha == head_sha && equal_fold cr.check_name rc.name

-- Whether a run replaces the latest so far: later, or as late and with a greater id.
unfoldable pub newer_run : CheckRun → CheckRun → Bool
newer_run cr latest =
    after cr.completed_at latest.completed_at
    || cr.completed_at == latest.completed_at && ltb latest.check_run_id cr.check_run_id

abbrev pub pick_run : CheckRun → Option CheckRun → Option CheckRun
pick_run cr none = some cr
pick_run cr (some latest) = if newer_run cr latest then some cr else some latest

-- The inner loop; `none` is a nil `latest`.
unfoldable pub latest_run : Text → RequiredCheck → Option CheckRun → List CheckRun → Option CheckRun
latest_run head_sha rc latest [] = latest
latest_run head_sha rc latest (cr ∷ runs) =
    latest_run head_sha rc (if is_run_of head_sha rc cr then pick_run cr latest else latest) runs

-- (allPassed, anyFailed) after one required check.
unfoldable pub check_step : RequiredCheck → Option CheckRun → Bool × Bool → Bool × Bool
check_step rc none (all_passed, any_failed) = (false, any_failed)
check_step rc (some latest) (all_passed, any_failed) =
    if latest.conclusion == []
    then (false, any_failed)
    else if not (equal_fold latest.conclusion rc.conclusion)
    then (false, true)
    else (all_passed, any_failed)

unfoldable pub check_loop : List CheckRun → Text → Bool × Bool → List RequiredCheck → Bool × Bool
check_loop runs head_sha s [] = s
check_loop runs head_sha s (rc ∷ rcs) =
    check_loop runs head_sha (check_step rc (latest_run head_sha rc none runs) s) rcs

-- evaluateRequiredChecks
unfoldable pub evaluate_required_checks : List CheckRun → Text → List RequiredCheck → Text
evaluate_required_checks runs head_sha [] = []
evaluate_required_checks runs head_sha (rc ∷ rcs) =
    let (all_passed, any_failed) = check_loop runs head_sha (true, false) (rc ∷ rcs) in
    if all_passed then text "success" else if any_failed then text "failure" else text "missing"
