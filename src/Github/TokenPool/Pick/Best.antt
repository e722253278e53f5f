-- ===== src/Github/TokenPool/Pick/Best.antt =====
-- What tryPick answers, by what makes a token ready.
use gh_audit.Prelude.{
  ℕ, ◌+◌, ◌≤◌, ◌<◌, ◌≡◌, ◌↔◌, ◌⊎◌, true, false, some, List, Memᴰ, arith, nat_eq, text_eq,
}
use gh_audit.Text.{Text}
use gh_audit.Github.TokenPool.{nth, ManagedToken, TokenPool, scope_matches}
use gh_audit.Github.TokenPool.Pick.{
  Attempt, no_tokens, wait_until, chosen, try_pick, outscores, serves,
}
use gh_audit.Github.TokenPool.Pick.Scan.{is_ready, blocked_until}
use gh_audit.Github.TokenPool.Pick.Attempts
use gh_audit.Github.TokenPool.Pick.Attempts.{Attempted, try_pick-Attempted}

-- What ends at an instant: a spent budget, or a cooldown.
abbrev pub EndsAt : ℕ → ManagedToken → Type 0
EndsAt at t = ((t.rate_remaining < 100) × (t.rate_reset_at ≡ at)) ⊎ (t.abuse_cooldown_until ≡ at)

module _ (org repo : Text) where
  -- The token is in use, and the repository is in its scope.
  abbrev pub Serves : ManagedToken → Type 0
  Serves t = (t.disabled ≡ false) × (scope_matches t.scopes org repo ≡ true)

  -- It can take a request for the repository at an instant: a hundred requests or more are left of
  -- its budget or the budget is reset by then, and its cooldown is over.
  abbrev pub Ready : ℕ → ManagedToken → Type 0
  Ready at t =
      Serves t × ((100 ≤ t.rate_remaining) ⊎ (t.rate_reset_at ≤ at)) × (t.abuse_cooldown_until ≤ at)

  serves_iff : (t : ManagedToken) → (serves org repo t ≡ true) ↔ Serves t
  serves_iff t = ground arith

  pub is_ready_iff : (now : ℕ) (t : ManagedToken) → (is_ready now org repo t ≡ true) ↔ Ready now t
  is_ready_iff now t = ground arith

  -- A token that is blocked stays so until the instant that tryPick reads off it.
  blocked_lem :
      (now later : ℕ) (t : ManagedToken)
      → is_ready now org repo t ≡ false
      → later < blocked_until now org repo t
      → now ≤ later
      → ¬ Ready later t
  blocked_lem now later t idle before since r = ground arith

  EndsAt-blocked_until :
      (now e : ℕ) (t : ManagedToken) → blocked_until now org repo t ≡ e → EndsAt e t
  EndsAt-blocked_until now e t h = ground arith

-- The remaining budget less the requests in flight is for the first at most what it is for the second.
abbrev pub ScoresAtMost : ManagedToken → ManagedToken → Type 0
ScoresAtMost u t =
    u.rate_remaining + u.returned + t.picked ≤ t.rate_remaining + t.returned + u.picked

ScoresAtMost-outscores : (u t : ManagedToken) → outscores u t ≡ false → ScoresAtMost u t
ScoresAtMost-outscores u t h = ground arith

module _ (now : ℕ) (org repo : Text) (tokens : List ManagedToken) where
  -- The answers that are right: an error where no token serves the repository; a wait until an
  -- instant to come, at which what blocks a token that serves it ends, where none is ready before;
  -- and otherwise a token that is ready, and of those the one with most budget left.
  pub data Right : Attempt → Type 0 where
    unserved : ((u : ManagedToken) → Memᴰ u tokens → ¬ Serves org repo u) → Right no_tokens
    blocked :
        (e : ℕ) (t : ManagedToken)
        → Memᴰ t tokens
        → Serves org repo t
        → EndsAt e t
        → now < e
        → ((later : ℕ) (u : ManagedToken)
            → Memᴰ u tokens
            → now ≤ later
            → later < e
            → ¬ Ready org repo later u)
        → Right (wait_until (some e))
    ready :
        (i : ℕ) (t : ManagedToken)
        → nth i tokens ≡ some t
        → Ready org repo now t
        → ((u : ManagedToken) → Memᴰ u tokens → Ready org repo now u → ScoresAtMost u t)
        → Right (chosen i)

  Right-Attempted : {a : Attempt} → Attempted now org repo tokens a → Right a
  Right-Attempted (Attempts.unserved none_of) = unserved (λ u m s. ground (arith, none_of u m, s))
  Right-Attempted (Attempts.blocked e t m serving same ahead others) =
      blocked e t m ((serves_iff org repo t).0 serving) (EndsAt-blocked_until org repo now e t same)
        ahead before
    where
      before :
          (later : ℕ) (u : ManagedToken)
          → Memᴰ u tokens
          → now ≤ later
          → later < e
          → ¬ Ready org repo later u
      before later u mu since le r =
          let (idle, least) = others u mu ((serves_iff org repo u).1 r.0) in
          blocked_lem org repo now later u idle (omega (arith, least, le)) since r
  Right-Attempted (Attempts.ready i t at now_ready most) =
      ready i t at ((is_ready_iff org repo now t).0 now_ready)
        (λ u m r. ScoresAtMost-outscores u t (most u m ((is_ready_iff org repo now u).1 r)))

-- tryPick fails exactly where no token serves the repository; else it chooses a ready token than which
-- no ready one scores more, by its remaining budget less its requests in flight; else it waits until
-- an instant to come, at which the spent budget of a token that serves the repository is reset or its
-- cooldown ends, and before which no token is ready.
pub try_pick-Right :
    (now : ℕ) (org repo : Text) (p : TokenPool)
    → Right now org repo p.tokens (try_pick now org repo p)
try_pick-Right now org repo p =
    Right-Attempted now org repo p.tokens (try_pick-Attempted now org repo p)
