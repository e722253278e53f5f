-- ===== src/Tests/Tokens.antt =====
-- The theorems on the pool of tokens at concrete inputs.
use gh_audit.Text.Decimal.{atoi_from, atoi}
use gh_audit.Prelude.{
  ℕ, ◌+◌, ◌≤◌, ◌<◌, ◌≡◌, refl, ◌≢◌, ◌⊎◌, inl, true, false, none, some, [], ◌∷◌, arith,
  if◌then◌else◌, ◌==◌, nat_eq, text_beq, text_eq, all,
}
use gh_audit.Text.{
  trim_left, has_prefix, trim, split_at, equal_fold, to_lower, contains, Text, text,
}
use gh_audit.Github.TokenPool.{
  nth, scope_matches, update_at, ManagedToken, TokenPool, pat, app, new_token,
}
use gh_audit.Github.TokenPool.Pick.{pick_step, pick_rounds, Clock, pick, chosen, try_pick}
use gh_audit.Github.TokenPool.Pick.Best.{Right, Ready, try_pick-Right}
use gh_audit.Github.TokenPool.Pick.Waits.{Ends, pick-Ends}
use gh_audit.Github.TokenPool.Limits.{
  cooldown_for, update_rate_limit_headers, parse_digits, parse_count, Headers, mark_token,
  mark_secondary_rate_limit,
}
use gh_audit.Github.TokenPool.Limits.Order.{
  is_complete, after_responses, budget, after_responses-Permᴰ,
}
use gh_audit.Github.TokenPool.Limits.Cooldown.{mark_token-Bounds, try_pick-mark}
use gh_audit.Github.TokenPool.RoundTrip.{
  with_slot, throttled, sleep_for, server_retry, send_again, refresh_failed, mark_secondary,
  is_installation_token_refresh_failure, do_round_trip, classify_with, classify_final, Outside,
  reply, World, responded,
}
use gh_audit.Github.TokenPool.RoundTrip.Reassign.{reassign, parse_org_repo_from_path, round_trip}
use gh_audit.Github.TokenPool.RoundTrip.Balance.{round_trip-Net}
use gh_audit.Github.TokenPool.RoundTrip.Totals.{Net, one_of}
use mathlib.Core.List.{Permᴰ}
use gh_audit.Github.TokenPool.Limits.{in_window}
use gh_audit.Github.TokenPool.Limits.{parse_retry_after}
use gh_audit.Github.TokenPool.Limits.{update_rate_limit}
use gh_audit.Github.TokenPool.Pick.{pick_loop}
use gh_audit.Github.TokenPool.RoundTrip.{classify_403}

abbrev org : Text
org = text "acme"

abbrev repo : Text
repo = text "api"

abbrev path : Text
path = text "/repos/acme/api/commits"

-- The token that was picked for the request.
abbrev first : ManagedToken
first = record (new_token pat (text "first") []) { picked = 1 }

abbrev second : ManagedToken
second = new_token app (text "second") (record { org = text "ACME"; repos = [] } ∷ [])

abbrev pool : TokenPool
pool = record {
  tokens = first ∷ second ∷ [];
  cap = 1;
  held = 0;
  secondary_rate_limit_events = 0;
  primary_rate_limit_events = 0;
  token_reassigns = 0;
}

abbrev steady : Clock
steady = record { sleep = λ now d. some (now + d); cancelled = λ now. false }

abbrev early : Headers
early = record {
  remaining = text "4000";
  limit = text "5000";
  reset = text "900";
  retry_after = [];
}

abbrev late : Headers
late = record { remaining = text "3999"; limit = text "5000"; reset = text "900"; retry_after = [] }

-- The first token trips the abuse detector, and the second serves the request.
abbrev outside : Outside
outside = record {
  send = λ i n.
      if i == 0
      then reply (record { status = 403; headers = early; body = some (text "Abuse detected") })
      else reply (record { status = 200; headers = late; body = some (text "[]") });
  clock = steady;
  http_date = λ v. none;
}

abbrev start : World
start = record { pool = pool; now = 100; calls = 0 }

served :
    (round_trip outside path 0 start).0
    ≡ responded (record { status = 200; headers = late; body = some (text "[]") })
unfolding round_trip contains to_lower text_beq pick pick_rounds try_pick update_at
    mark_secondary_rate_limit pick_step scope_matches equal_fold parse_org_repo_from_path split_at
    trim mark_token update_rate_limit_headers atoi cooldown_for in_window parse_count parse_digits
    parse_retry_after update_rate_limit pick_loop classify_403 classify_final classify_with
    do_round_trip is_installation_token_refresh_failure mark_secondary reassign refresh_failed
    send_again server_retry sleep_for throttled with_slot nth atoi_from has_prefix trim_left
served = refl

moved_once : (round_trip outside path 0 start).1.pool.token_reassigns ≡ 1
unfolding round_trip contains to_lower text_beq pick pick_rounds try_pick update_at
    mark_secondary_rate_limit pick_step scope_matches equal_fold parse_org_repo_from_path split_at
    trim mark_token update_rate_limit_headers atoi cooldown_for in_window parse_count parse_digits
    parse_retry_after update_rate_limit pick_loop classify_403 classify_final classify_with
    do_round_trip is_installation_token_refresh_failure mark_secondary reassign refresh_failed
    send_again server_retry sleep_for throttled with_slot nth atoi_from has_prefix trim_left
moved_once = refl

try_pick-Right_example : Right 100 org repo (first ∷ second ∷ []) (try_pick 100 org repo pool)
try_pick-Right_example = try_pick-Right 100 org repo pool

pick-Ends_example :
    Ends steady org repo pool ((pick steady org repo pool 100).0, (pick steady org repo pool 100).1)
pick-Ends_example = pick-Ends steady org repo pool 100 (λ now d later e. ground (arith, e))

complete : all is_complete (early ∷ late ∷ []) ≡ true
unfolding parse_count parse_digits atoi atoi_from text_beq
complete = refl

after_responses-Permᴰ_example :
    budget (after_responses (early ∷ late ∷ []) first)
    ≡ budget (after_responses (late ∷ early ∷ []) first)
after_responses-Permᴰ_example = after_responses-Permᴰ first (Permᴰ.swap refl refl) complete

mark_token-Bounds_example :
    let u = mark_token 100 60 first in
    (100 < u.abuse_cooldown_until)
    × (0 ≤ u.abuse_cooldown_until)
    × ((u.abuse_cooldown_until ≤ 0)
        ⊎ ((u.abuse_cooldown_until ≤ 1000) ⊎ (u.abuse_cooldown_until ≤ 160)))
mark_token-Bounds_example = mark_token-Bounds 100 60 first

first_there : nth 0 (first ∷ second ∷ []) ≡ some first
unfolding nth
first_there = refl

-- Fifty seconds after the mark the request goes to the second token, which is ready.
try_pick-mark_example :
    let answer = try_pick 150 org repo (mark_secondary_rate_limit 100 60 0 pool) in
    (answer ≢ chosen 0)
    × (((k : ℕ) × (answer ≡ chosen k))
        ⊎ ((j : ℕ) (u : ManagedToken)
            → nth j (first ∷ second ∷ []) ≡ some u
            → j ≢ 0
            → ¬ Ready org repo 150 u))
try_pick-mark_example =
    try_pick-mark 100 60 150 0 org repo pool first first_there (inl (omega arith))
      (inl (omega arith))

round_trip-Net_example : Net (one_of 0) pool (round_trip outside path 0 start).1.pool
round_trip-Net_example = round_trip-Net outside path 0 start (omega arith)
