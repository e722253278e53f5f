-- ===== src/Github/TokenPool/Pick/Attempts.antt =====
-- What tryPick answers, in the terms of its own tests.
use gh_audit.Prelude.{
  ℕ, ◌≤◌, ◌<◌, ◌≡◌, inl, inr, true, false, none, some, List, Memᴰ, arith, Bool-cases, Option-cases,
  nat_eq, text_eq,
}
use gh_audit.Text.{Text}
use gh_audit.Github.TokenPool.{nth, ManagedToken, TokenPool}
use gh_audit.Github.TokenPool.Pick.{
  Choice, no_choice, serves, outscores, pick_loop, Attempt, no_tokens, wait_until, chosen,
  attempt_of, try_pick,
}
use gh_audit.Github.TokenPool.Pick.Scan.{is_ready, blocked_until, Scanned, scanned}

module _ (now : ℕ) (org repo : Text) (tokens : List ManagedToken) where
  -- The answers by the tests of the loop: an error where no token passes the first two; a wait where
  -- each that does is blocked, up to the first instant that the loop reads off one; and otherwise a
  -- token that is ready, and that no other that is ready outscores.
  pub data Attempted : Attempt → Type 0 where
    unserved :
        ((u : ManagedToken) → Memᴰ u tokens → serves org repo u ≡ false) → Attempted no_tokens
    blocked :
        (e : ℕ) (t : ManagedToken)
        → Memᴰ t tokens
        → serves org repo t ≡ true
        → blocked_until now org repo t ≡ e
        → now < e
        → ((u : ManagedToken)
            → Memᴰ u tokens
            → serves org repo u ≡ true
            → (is_ready now org repo u ≡ false) × (e ≤ blocked_until now org repo u))
        → Attempted (wait_until (some e))
    ready :
        (i : ℕ) (t : ManagedToken)
        → nth i tokens ≡ some t
        → is_ready now org repo t ≡ true
        → ((u : ManagedToken)
            → Memᴰ u tokens
            → is_ready now org repo u ≡ true
            → outscores u t ≡ false)
        → Attempted (chosen i)

  attempt-Attempted : (c : Choice) → Scanned now org repo tokens c → Attempted (attempt_of c)
  attempt-Attempted c v = elim (Bool-cases c.found) [
    | inr none_found ↦ rw none_found (unserved (v.unserved none_found))
    | inl found ↦ elim (Option-cases c.best) [
      | inr ((i, t), best) ↦
          rw (found, best) (ready i t (v.chosen i t best).0 (v.chosen i t best).1 (v.most i t best))
      | inl none_best ↦ rw (found, none_best) (waits found none_best)
    ]
  ]
    where
      waits : c.found ≡ true → c.best ≡ none → Attempted (wait_until c.earliest)
      waits found none_best =
          let (s, ms, serving) = v.served found in
          let (e, at, _) = v.least s ms (ground (arith, v.none_ready none_best s ms, serving)) in
          let (t, mt, block, same) = v.reached e at in
          rw at (
            blocked e t mt (ground (arith, block)) same (ground (arith, block, same))
              (λ u m serves_u.
                let idle = v.none_ready none_best u m in
                let (f, at', le) = v.least u m (ground (arith, idle, serves_u)) in
                let one : e ≡ f = cc in (idle, omega (arith, one, le))))

-- The loop's invariant at its end; a wait is always for an instant to come.
pub try_pick-Attempted :
    (now : ℕ) (org repo : Text) (p : TokenPool)
    → Attempted now org repo p.tokens (try_pick now org repo p)
unfolding try_pick
try_pick-Attempted now org repo p =
    attempt-Attempted now org repo p.tokens (pick_loop now org repo 0 no_choice p.tokens)
      (scanned now org repo p.tokens)
