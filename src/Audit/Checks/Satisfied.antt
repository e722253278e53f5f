-- ===== src/Audit/Checks/Satisfied.antt =====
-- When the required checks are satisfied.
use gh_audit.Audit.Checks.{check_loop, latest_run, check_step, evaluate_required_checks}
use gh_audit.Audit.Pr.{check_ok}
use gh_audit.Audit.Checks.Latest.{
  latest_run-none, latest_run-IsLatest, IsLatest, IsRunOf, is_run_of_iff,
}
use gh_audit.Text.{text, Text, equal_fold}
use gh_audit.Audit.Types.{RequiredCheck}
use gh_audit.Model.{CheckRun}
use gh_audit.Prelude.{
  ◌≡◌, refl, ◌≢◌, ◌↔◌, Bool-cases, inl, inr, Bool, true, false, ◌&&◌, Option, none, some, List, [],
  ◌∷◌, Memᴰ, arith, if◌then◌else◌, Option-cases, nat_eq, text_beq, text_beq_iff, text_eq, ◌/=◌, all,
  all_elim, all_intro,
}

-- The run has concluded, as the check requires.
abbrev pub Concluded : RequiredCheck → CheckRun → Type 0
Concluded rc cr = (cr.conclusion ≢ []) × (equal_fold cr.conclusion rc.conclusion ≡ true)

abbrev concludes : RequiredCheck → CheckRun → Bool
concludes rc cr = cr.conclusion /= [] && equal_fold cr.conclusion rc.conclusion

concludes_iff : (rc : RequiredCheck) (cr : CheckRun) → (concludes rc cr ≡ true) ↔ Concluded rc cr
concludes_iff rc cr = (
  λ h. (λ e. ground (arith, text_beq_iff cr.conclusion []), ground arith),
  λ h. elim (Bool-cases (text_beq cr.conclusion [])) [
    | inl e ↦ absurd (h.0 ((text_beq_iff cr.conclusion []).0 e))
    | inr e ↦ ground (arith, e, h.1)
  ],
)

abbrev met : RequiredCheck → Option CheckRun → Bool
met rc none = false
met rc (some cr) = concludes rc cr

check_ok-text :
    (passed failed' : Bool)
    → check_ok
        (if passed then text "success" else if failed' then text "failure" else text "missing")
      ≡ passed
unfolding text_beq
check_ok-text true f = refl
check_ok-text false true = refl
check_ok-text false false = refl

module _ (runs : List CheckRun) (head_sha : Text) where
  check_step-met :
      (rc : RequiredCheck) (o : Option CheckRun) (s : Bool × Bool)
      → (check_step rc o s).0 ≡ s.0 && met rc o
  unfolding check_step
  check_step-met rc none s = ground arith
  check_step-met rc (some cr) s = ground arith

  check_loop-all :
      (s : Bool × Bool) (rcs : List RequiredCheck)
      → (check_loop runs head_sha s rcs).0
        ≡ s.0 && all (λ rc. met rc (latest_run head_sha rc none runs)) rcs
  unfolding check_loop
  check_loop-all s [] = ground arith
  check_loop-all s (rc ∷ rcs) = ground (
    arith,
    check_loop-all (check_step rc (latest_run head_sha rc none runs) s) rcs,
    check_step-met rc (latest_run head_sha rc none runs) s,
  )

  -- The check has a latest run, which has concluded as required.
  abbrev pub Satisfied : RequiredCheck → Type 0
  Satisfied rc = (cr : CheckRun) × IsLatest head_sha rc runs cr × Concluded rc cr

  -- The check has a run, and every latest one, should two share their time and id, has concluded as
  -- required.
  abbrev AllSatisfied : RequiredCheck → Type 0
  AllSatisfied rc =
      ((cr : CheckRun) × Memᴰ cr runs × IsRunOf head_sha rc cr)
      × ((cr : CheckRun) → IsLatest head_sha rc runs cr → Concluded rc cr)

  met-Satisfied :
      (rc : RequiredCheck) → met rc (latest_run head_sha rc none runs) ≡ true → Satisfied rc
  met-Satisfied rc h = elim (Option-cases (latest_run head_sha rc none runs)) [
    | inl e ↦ absurd (ground arith)
    | inr found ↦
        let good : concludes rc found.0 ≡ true = rw found.1 at h in
        (
          found.0,
          latest_run-IsLatest head_sha rc runs found.0 found.1,
          (concludes_iff rc found.0).0 good,
        )
  ]

  AllSatisfied-met :
      (rc : RequiredCheck) → AllSatisfied rc → met rc (latest_run head_sha rc none runs) ≡ true
  AllSatisfied-met rc h = elim (Option-cases (latest_run head_sha rc none runs)) [
    | inl e ↦
        let on = (is_run_of_iff head_sha rc h.0.0).1 h.0.2 in
        absurd (ground (arith, on, latest_run-none head_sha rc runs none h.0.0 e h.0.1))
    | inr found ↦
        let good = h.1 found.0 (latest_run-IsLatest head_sha rc runs found.0 found.1) in
        rw found.1 ((concludes_iff rc found.0).1 good)
  ]

  verdict_of_loop :
      (rcs : List RequiredCheck)
      → (check_ok (evaluate_required_checks runs head_sha rcs) ≡ true)
        ↔ (all (λ rc. met rc (latest_run head_sha rc none runs)) rcs ≡ true)
  unfolding evaluate_required_checks
  verdict_of_loop [] = (λ _. refl, λ _. unfold text_beq in refl)
  verdict_of_loop (rc ∷ rcs) =
      rw (check_ok-text, check_loop-all (true, false) (rc ∷ rcs)) (λ h. h, λ h. h)

  -- The checks pass only where each required check has a latest run on the head that has concluded
  -- as required. The latest is the one that completed last, and of two that completed together the
  -- one of the greater id; a run that is not yet completed counts as the oldest.
  pub checks_ok-Satisfied :
      (rcs : List RequiredCheck)
      → check_ok (evaluate_required_checks runs head_sha rcs) ≡ true
      → (rc : RequiredCheck) → Memᴰ rc rcs
      → Satisfied rc
  checks_ok-Satisfied rcs h rc m =
      met-Satisfied rc (
        all_elim (λ rc'. met rc' (latest_run head_sha rc' none runs)) ((verdict_of_loop rcs).0 h) m)

  -- They do pass where each required check has a run on the head, and every latest run of it has
  -- concluded as required.
  checks_ok_of_all :
      (rcs : List RequiredCheck)
      → ((rc : RequiredCheck) → Memᴰ rc rcs → AllSatisfied rc)
      → check_ok (evaluate_required_checks runs head_sha rcs) ≡ true
  checks_ok_of_all rcs h = (verdict_of_loop rcs).1 (
      all_intro (λ rc'. met rc' (latest_run head_sha rc' none runs)) rcs
        (λ rc m. AllSatisfied-met rc (h rc m)))
