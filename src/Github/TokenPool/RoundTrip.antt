-- ===== src/Github/TokenPool/RoundTrip.antt =====
-- doRoundTrip of tokenpool.go: one request on one token, with its retries.
pub mod Flights
pub mod Reassign
pub mod Totals
pub mod Balance
use gh_audit.Prelude.{
  ℕ, zero, suc, ◌+◌, ◌-◌, ◌*◌, ◌/◌, Bool, true, false, not, ◌&&◌, ◌||◌, Option, none, some, [],
  arith, ltb, ◌==◌, nat_eq, text_eq,
}
use gh_audit.Text.{Text, text, to_lower, contains}
use gh_audit.Github.TokenPool.{nth, ManagedToken, TokenPool, rate_limit_threshold, on_token}
use gh_audit.Github.TokenPool.Pick.{Clock}
use gh_audit.Github.TokenPool.Limits.{
  Headers, update_rate_limit_headers, parse_retry_after, mark_secondary_rate_limit, raise_cooldown,
}

-- `body` is none where it cannot be read.
pub record Response : Type 0 where
  pub status : ℕ
  pub headers : Headers
  pub body : Option Text

pub data Reply : Type 0 where
  reply : Response → Reply
  transport_error : Text → Reply

-- The world outside: the n-th request of a run, which the transport of a position sends; the clock,
-- and http.ParseTime.
pub record Outside : Type 0 where
  pub send : ℕ → ℕ → Reply
  pub clock : Clock
  pub http_date : Text → Option ℕ

-- What a run changes: the pool, the instant and the requests sent so far.
pub record World : Type 0 where
  pub pool : TokenPool
  pub now : ℕ
  pub calls : ℕ

-- The errors that RoundTrip tells apart.
pub data TripError : Type 0 where
  secondary_rate_limit : ℕ → Text → TripError
  primary_rate_limit : Text → ℕ → Text → TripError
  other_error : Text → TripError

pub data Trip : Type 0 where
  responded : Response → Trip
  refused : TripError → Trip

-- isInstallationTokenRefreshFailure
unfoldable pub is_installation_token_refresh_failure : Text → Bool
is_installation_token_refresh_failure msg =
    contains msg (text "could not refresh installation")
    || contains msg (text "/app/installations/") && contains msg (text "access_tokens")

abbrev pub of_pool : (TokenPool → TokenPool) → World → World
of_pool f w = record w { pool = f w.pool }

-- `t.base.RoundTrip(req)` on the token of a position.
abbrev pub sent : World → World
sent w = record w { calls = w.calls + 1 }

abbrev pub read_headers : ℕ → Response → World → World
read_headers i r = of_pool (on_token i (update_rate_limit_headers r.headers))

abbrev pub is_abuse : Text → Bool
is_abuse body = contains body (text "abuse") || contains body (text "secondary rate limit")

abbrev pub count_primary : TokenPool → TokenPool
count_primary p = record p { primary_rate_limit_events = p.primary_rate_limit_events + 1 }

abbrev pub body_or_empty : Option Text → Text
body_or_empty none = []
body_or_empty (some body) = body

abbrev pub is_server_error : ℕ → Bool
is_server_error status = status == 500 || status == 502 || status == 503 || status == 504

abbrev pub count_secondary : TokenPool → TokenPool
count_secondary p = record p { secondary_rate_limit_events = p.secondary_rate_limit_events + 1 }

abbrev pub settle : ManagedToken → ManagedToken
settle t = record t { returned = t.returned + 1 }

abbrev pub hold : TokenPool → TokenPool
hold p = record p { held = p.held + 1 }

module _ (o : Outside) (i : ℕ) where
  -- markSecondaryRateLimit, with its error.
  unfoldable pub mark_secondary : Text → Text → World → Trip × World
  mark_secondary retry_after body w =
      let secs = parse_retry_after o.http_date w.now retry_after in
      (refused (secondary_rate_limit secs body), of_pool (mark_secondary_rate_limit w.now secs i) w)

  -- sleepFor; a wait that is cancelled is an error.
  unfoldable pub sleep_for : ℕ → World → (World → Trip × World) → Trip × World
  sleep_for d w rest = elim (o.clock.sleep w.now d) [
    | none ↦ (refused (other_error (text "context cancelled")), w)
    | some woken ↦ rest (record w { now = woken })
  ]

  abbrev pub has_budget : World → Bool
  has_budget w = elim (nth i w.pool.tokens) [
    | none ↦ false
    | some t ↦ ltb rate_limit_threshold t.rate_remaining
  ]

  -- The error of a token whose hourly quota is spent.
  abbrev pub spent_error : Text → World → TripError
  spent_error body w = elim (nth i w.pool.tokens) [
    | none ↦ primary_rate_limit [] 0 body
    | some t ↦ primary_rate_limit t.id t.rate_reset_at body
  ]

  -- classify403, with what it does where it cannot tell.
  unfoldable pub classify_with : Response → (World → Trip × World) → World → Trip × World
  unfolding mark_secondary
  classify_with r otherwise w = elim r.body [
    | none ↦ (refused (other_error (text "reading 403 response body")), w)
    | some body ↦
        let lowered = to_lower body in
        elim (is_abuse lowered
          || contains lowered (text "resource not accessible by integration") && has_budget w) [
            | true ↦ mark_secondary r.headers.retry_after body w
            | false ↦ elim (contains lowered (text "api rate limit exceeded")) [
              | true ↦ (refused (spent_error body w), of_pool count_primary w)
              | false ↦ otherwise w
            ]
          ]
  ]

  -- classify403 with `allowRetry` false.
  unfoldable pub classify_final : Response → World → Trip × World
  unfolding classify_with
  classify_final r = classify_with r (λ w. (responded r, w))

  -- The one retry of a 403 or a plain 429, and what becomes of its response.
  unfoldable pub send_again : World → Trip × World
  unfolding classify_final
  send_again w = elim (o.send i w.calls) [
    | transport_error e ↦ (refused (other_error e), sent w)
    | reply r ↦ elim (r.status == 403) [
      | true ↦ classify_final r (read_headers i r (sent w))
      | false ↦ elim (r.status == 429) [
        | true ↦
            mark_secondary r.headers.retry_after (body_or_empty r.body) (read_headers i r (sent w))
        | false ↦ (responded r, read_headers i r (sent w))
      ]
    ]
  ]

  -- classify403 with `allowRetry` true.
  unfoldable pub classify_403 : Response → World → Trip × World
  unfolding sleep_for send_again
  classify_403 r = classify_with r (λ w. sleep_for 2 w send_again)

  -- The case 429.
  unfoldable pub throttled : Response → World → Trip × World
  unfolding mark_secondary sleep_for send_again
  throttled r w = elim r.body [
    | none ↦ (refused (other_error (text "reading 429 response body")), w)
    | some body ↦ elim (is_abuse (to_lower body)) [
      | true ↦ mark_secondary r.headers.retry_after body w
      | false ↦ sleep_for (parse_retry_after o.http_date w.now r.headers.retry_after) w send_again
    ]
  ]

  -- The loop of the cases 500, 502, 503 and 504, with `left` attempts of three.
  unfoldable pub server_retry : ℕ → World → Trip × World
  server_retry zero w = (refused (other_error (text "server error after 3 retries")), w)
  server_retry (suc left) w = elim (o.clock.sleep w.now ((3 - left) * 2)) [
    | none ↦ (refused (other_error (text "context cancelled")), w)
    | some woken ↦ elim (o.send i w.calls) [
      | transport_error e ↦ elim (left == 0) [
        | true ↦ (refused (other_error e), sent (record w { now = woken }))
        | false ↦ server_retry left (sent (record w { now = woken }))
      ]
      | reply r ↦ elim (ltb r.status 500) [
        | true ↦ (responded r, sent (record w { now = woken }))
        | false ↦ server_retry left (sent (record w { now = woken }))
      ]
    ]
  ]

  -- A token that cannot be minted cools down for ten minutes.
  unfoldable pub refresh_failed : Text → World → Trip × World
  refresh_failed msg w = (
    refused (secondary_rate_limit 600 msg),
    of_pool (λ p. on_token i (raise_cooldown (w.now + 600)) (count_secondary p)) w,
  )

  -- doRoundTrip between the acquisition of its slot and the release.
  unfoldable pub with_slot : World → Trip × World
  unfolding refresh_failed classify_403 throttled server_retry
  with_slot w = elim (o.send i w.calls) [
    | transport_error e ↦ elim (is_installation_token_refresh_failure e) [
      | true ↦ refresh_failed e (sent w)
      | false ↦ (refused (other_error e), sent w)
    ]
    | reply r ↦ elim (r.status == 403) [
      | true ↦ classify_403 r (read_headers i r (sent w))
      | false ↦ elim (r.status == 429) [
        | true ↦ throttled r (read_headers i r (sent w))
        | false ↦ elim (is_server_error r.status) [
          | true ↦ server_retry 3 (read_headers i r (sent w))
          | false ↦ (responded r, read_headers i r (sent w))
        ]
      ]
    ]
  ]

  abbrev pub finish : Trip × World → Trip × World
  finish (t, w) = (t, of_pool (on_token i settle) w)

  -- releaseInFlight, which takes nothing from an empty channel.
  abbrev pub release : Trip × World → Trip × World
  release (t, w) = (t, of_pool (λ p. record p { held = p.held - 1 }) w)

  -- doRoundTrip; where every slot is taken it waits for one, and with nobody to free it ends with
  -- its context.
  unfoldable pub do_round_trip : World → Trip × World
  unfolding with_slot
  do_round_trip w = elim (w.pool.cap == 0) [
    | true ↦ finish (with_slot w)
    | false ↦ elim (ltb w.pool.held w.pool.cap) [
      | true ↦ finish (release (with_slot (of_pool hold w)))
      | false ↦ finish (refused (other_error (text "context cancelled")), w)
    ]
  ]
