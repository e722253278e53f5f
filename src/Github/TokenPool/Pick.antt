-- ===== src/Github/TokenPool/Pick.antt =====
-- The choice of a token: tryPick and Pick of tokenpool.go.
pub mod Positions
pub mod Scores
pub mod Scan
pub mod Attempts
pub mod Best
pub mod Waits
use gh_audit.Prelude.{
  ℕ, zero, suc, ◌+◌, ◌-◌, ◌*◌, Bool, true, false, not, ◌&&◌, Option, none, some, List, [], ◌∷◌,
  arith, ltb, if◌then◌else◌, ◌==◌, nat_eq, text_eq, length,
}
use gh_audit.Text.{Text}
use gh_audit.Github.TokenPool.{ManagedToken, TokenPool, scope_matches, exhausted, cooling, on_token}

-- The variables of the loop; `best` is the chosen token and its position, `earliest` is none at the
-- zero time.
pub record Choice : Type 0 where
  pub best : Option (ℕ × ManagedToken)
  pub earliest : Option ℕ
  pub found : Bool

abbrev pub no_choice : Choice
no_choice = record { best = none; earliest = none; found = false }

-- Whether a token is in the pool for a repository.
abbrev pub serves : Text → Text → ManagedToken → Bool
serves org repo t = not t.disabled && scope_matches t.scopes org repo

-- Whether the score of the first, rateRemaining - inFlight, is greater than that of the second.
abbrev pub outscores : ManagedToken → ManagedToken → Bool
outscores t best =
    ltb (best.rate_remaining + best.returned + t.picked)
      (t.rate_remaining + t.returned + best.picked)

abbrev pub earlier : ℕ → Option ℕ → Option ℕ
earlier at none = some at
earlier at (some earliest) = if ltb at earliest then some at else some earliest

abbrev pub better : ℕ → ManagedToken → Option (ℕ × ManagedToken) → Option (ℕ × ManagedToken)
better i t none = some (i, t)
better i t (some (j, best)) = if outscores t best then some (i, t) else some (j, best)

-- One round of the loop, at the token `t` of position `i`.
unfoldable pub pick_step : ℕ → Text → Text → ℕ → ManagedToken → Choice → Choice
pick_step now org repo i t c =
    if not (serves org repo t)
    then c
    else if exhausted now t
    then record c { found = true; earliest = earlier t.rate_reset_at c.earliest }
    else if cooling now t
    then record c { found = true; earliest = earlier t.abuse_cooldown_until c.earliest }
    else record c { found = true; best = better i t c.best }

unfoldable pub pick_loop : ℕ → Text → Text → ℕ → Choice → List ManagedToken → Choice
pick_loop now org repo i c [] = c
pick_loop now org repo i c (t ∷ ts) =
    pick_loop now org repo (suc i) (pick_step now org repo i t c) ts

-- The results of tryPick: an error, no token before an instant, or the token of a position.
pub data Attempt : Type 0 where
  no_tokens : Attempt
  wait_until : Option ℕ → Attempt
  chosen : ℕ → Attempt

abbrev pub attempt_of : Choice → Attempt
attempt_of c =
    if not c.found
    then no_tokens
    else elim c.best [ none ↦ wait_until c.earliest | some (i, t) ↦ chosen i ]

-- tryPick; it reserves the request, as `reserve` does, on the token that it chooses.
unfoldable pub try_pick : ℕ → Text → Text → TokenPool → Attempt
unfolding pick_loop
try_pick now org repo p = attempt_of (pick_loop now org repo 0 no_choice p.tokens)

abbrev pub reserve : ManagedToken → ManagedToken
reserve t = record t { picked = t.picked + 1 }

-- What a call does to the world outside, and the world to it: `send` is a token's transport, which
-- answers the n-th request of a run; `sleep` waits, and gives the instant of waking or none where
-- the context is cancelled; `cancelled` is ctx.Err() at an instant.
pub record Clock : Type 0 where
  pub sleep : ℕ → ℕ → Option ℕ
  pub cancelled : ℕ → Bool

-- What Pick gives: a token, or one of its two errors. `out_of_rounds` is that the fuel has run out.
pub data Picked : Type 0 where
  token_at : ℕ → Picked
  none_serves : Picked
  pick_cancelled : Picked
  out_of_rounds : Picked

abbrev pub delay : ℕ → Option ℕ → ℕ
delay now none = 0
delay now (some at) = at - now

-- Pick, on a pool that nothing else changes; with the instant at which it returns.
unfoldable pub pick_rounds : Clock → Text → Text → TokenPool → ℕ → ℕ → Picked × ℕ
pick_rounds clock org repo p zero now = (out_of_rounds, now)
pick_rounds clock org repo p (suc rounds) now = elim (try_pick now org repo p) [
  | no_tokens ↦ (none_serves, now)
  | chosen i ↦ (token_at i, now)
  | wait_until at ↦ elim (delay now at == 0) [
    | true ↦ elim (clock.cancelled now) [
      | true ↦ (pick_cancelled, now)
      | false ↦ pick_rounds clock org repo p rounds now
    ]
    | false ↦ elim (clock.sleep now (delay now at)) [
      | none ↦ (pick_cancelled, now)
      | some woken ↦ pick_rounds clock org repo p rounds woken
    ]
  ]
]

-- A round for each instant that a token can wait for, and one to choose.
abbrev pub pick_fuel : TokenPool → ℕ
pick_fuel p = suc (2 * length p.tokens)

-- tryPick's `best.inFlight.Add(1)`.
abbrev pub reserved : Picked → TokenPool → TokenPool
reserved (token_at i) p = on_token i reserve p
reserved none_serves p = p
reserved pick_cancelled p = p
reserved out_of_rounds p = p

-- Pick: its result, the instant of its return and the pool with the request reserved.
unfoldable pub pick : Clock → Text → Text → TokenPool → ℕ → Picked × ℕ × TokenPool
pick clock org repo p now =
    let (r, later) = pick_rounds clock org repo p (pick_fuel p) now in (r, later, reserved r p)
