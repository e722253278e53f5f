-- ===== src/Github/TokenPool/Limits.antt =====
-- What a response says about a token's budget: updateRateLimitHeaders, markSecondaryRateLimit and
-- parseRetryAfter of tokenpool.go.
pub mod Order
pub mod Cooldown
use gh_audit.Prelude.{
  ℕ, ◌+◌, ◌-◌, ◌^◌, not, ◌&&◌, ◌||◌, Option, none, some, [], ◌∷◌, arith, ltb, leb, if◌then◌else◌,
  ◌==◌, nat_eq, text_eq, all,
}
use gh_audit.Text.{Text}
use gh_audit.Text.Decimal.{atoi, is_digit}
use gh_audit.Github.TokenPool.{ManagedToken, TokenPool, on_token}

-- The headers of a response that are read; the empty text where one is missing.
pub record Headers : Type 0 where
  pub remaining : Text
  pub limit : Text
  pub reset : Text
  pub retry_after : Text

-- strconv.ParseInt of a count, which GitHub sends without a minus sign.
unfoldable pub parse_digits : Text → Option ℕ
parse_digits v =
    if v == [] || not (all is_digit v) || ltb (2 ^ 63 - 1) (atoi v) then none else some (atoi v)

unfoldable pub parse_count : Text → Option ℕ
unfolding parse_digits
parse_count [] = none
parse_count (c ∷ v) = if c == b'+' then parse_digits v else parse_digits (c ∷ v)

abbrev pub or_else : Option ℕ → ℕ → ℕ
or_else none n = n
or_else (some m) n = m

abbrev pub at_most : Option ℕ → ℕ → ℕ
at_most none n = n
at_most (some m) n = if ltb m n then m else n

-- The `switch` on the reset: a new window, the same window, and a window that is past.
unfoldable pub in_window : Option ℕ → ℕ → ManagedToken → ManagedToken
in_window remaining reset t =
    if ltb t.rate_reset_at reset
    then record t { rate_reset_at = reset; rate_remaining = or_else remaining t.rate_remaining }
    else if reset == t.rate_reset_at
    then record t { rate_remaining = at_most remaining t.rate_remaining }
    else t

-- updateRateLimitHeaders on the numbers that parse.
unfoldable pub update_rate_limit : Option ℕ → Option ℕ → Option ℕ → ManagedToken → ManagedToken
unfolding in_window
update_rate_limit remaining limit none t = record t {
  rate_limit = or_else limit t.rate_limit;
  rate_remaining = or_else remaining t.rate_remaining;
}
update_rate_limit remaining limit (some reset) t =
    in_window remaining reset (record t { rate_limit = or_else limit t.rate_limit })

-- updateRateLimitHeaders
unfoldable pub update_rate_limit_headers : Headers → ManagedToken → ManagedToken
unfolding parse_count update_rate_limit
update_rate_limit_headers h =
    update_rate_limit (parse_count h.remaining) (parse_count h.limit) (parse_count h.reset)

-- The three constants, in seconds.
abbrev pub abuse_cooldown_base : ℕ
abuse_cooldown_base = 90

abbrev pub abuse_cooldown_escalated : ℕ
abuse_cooldown_escalated = 900

abbrev pub abuse_repeat_window : ℕ
abuse_repeat_window = 180

-- parseRetryAfter; `http_date` is http.ParseTime, in seconds since 1970.
unfoldable pub parse_retry_after : (Text → Option ℕ) → ℕ → Text → ℕ
unfolding parse_count
parse_retry_after http_date now val = if val == [] then 60 else elim (parse_count val) [
  | some secs ↦ secs
  | none ↦ elim (http_date val) [ some at ↦ at - now | none ↦ 60 ]
]

-- The cooldown that markSecondaryRateLimit chooses.
unfoldable pub cooldown_for : ℕ → ℕ → ℕ → ℕ
cooldown_for now prev retry_after =
    let cooldown =
      if ltb 0 prev && leb prev now && ltb (now - prev) abuse_repeat_window
      then abuse_cooldown_escalated
      else abuse_cooldown_base in
    if ltb cooldown retry_after then retry_after else cooldown

-- The clamp to the token's primary reset, if that is still to come.
abbrev pub clamp : ℕ → ℕ → ℕ → ℕ
clamp now reset_at until = if ltb now reset_at && ltb reset_at until then reset_at else until

-- The loop of compare-and-swaps: it moves the instant forward only.
abbrev pub raise_cooldown : ℕ → ManagedToken → ManagedToken
raise_cooldown until t = record t {
  abuse_cooldown_until = if leb until t.abuse_cooldown_until then t.abuse_cooldown_until else until;
}

-- markSecondaryRateLimit on the token.
unfoldable pub mark_token : ℕ → ℕ → ManagedToken → ManagedToken
unfolding cooldown_for
mark_token now retry_after t =
    raise_cooldown
      (clamp now t.rate_reset_at (now + cooldown_for now t.abuse_cooldown_until retry_after)) t

-- markSecondaryRateLimit on the pool, for the token of a position.
unfoldable pub mark_secondary_rate_limit : ℕ → ℕ → ℕ → TokenPool → TokenPool
mark_secondary_rate_limit now retry_after i p =
    on_token i (mark_token now retry_after)
      (record p { secondary_rate_limit_events = p.secondary_rate_limit_events + 1 })
