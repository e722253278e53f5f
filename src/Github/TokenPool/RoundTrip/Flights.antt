-- ===== src/Github/TokenPool/RoundTrip/Flights.antt =====
-- Every request that is picked is settled: what a round trip does to the counts in flight.
use gh_audit.Prelude.{
  on_bool, on_option, Bool, ℕ, zero, suc, ◌+◌, ◌-◌, ◌*◌, ◌≡◌, refl, ap, ◌∙◌, ◌&&◌, ◌||◌, List, [],
  ◌∷◌, map, arith, ltb, ◌==◌, nat_eq, text_eq,
}
use gh_audit.Text.{Text, text, to_lower, contains}
use gh_audit.Github.TokenPool.{ManagedToken, TokenPool, TokenKind, OrgScope, update_at, on_token}
use gh_audit.Github.TokenPool.Limits.{
  Headers, in_window, update_rate_limit, update_rate_limit_headers, mark_token, raise_cooldown,
  mark_secondary_rate_limit, parse_retry_after,
}
use gh_audit.Github.TokenPool.RoundTrip.{
  other_error, Response, Reply, reply, transport_error, Outside, World, Trip, responded, refused,
  of_pool, sent, read_headers, is_abuse, has_budget, mark_secondary, sleep_for, classify_with,
  classify_final, send_again, classify_403, throttled, server_retry, refresh_failed, with_slot,
  count_primary, is_server_error, is_installation_token_refresh_failure, spent_error, body_or_empty,
}

-- What was added to inFlight of a token and what was taken off, and what a request never changes.
abbrev pub flight : ManagedToken → ℕ × ℕ × Text × TokenKind × List OrgScope × Bool
flight t = (t.picked, t.returned, t.id, t.kind, t.scopes, t.disabled)

abbrev pub flights : List ManagedToken → List (ℕ × ℕ × Text × TokenKind × List OrgScope × Bool)
flights = map flight

-- No request starts or ends, no slot is taken or freed, and the tokens are the same.
abbrev pub Quiet : TokenPool → TokenPool → Type 0
Quiet p q = (flights q.tokens ≡ flights p.tokens) × (q.held ≡ p.held) × (q.cap ≡ p.cap)

update_at-flights :
    (i : ℕ) (f : ManagedToken → ManagedToken) (ts : List ManagedToken)
    → ((t : ManagedToken) → flight (f t) ≡ flight t)
    → flights (update_at i f ts) ≡ flights ts
unfolding update_at
update_at-flights i f [] keeps = refl
update_at-flights zero f (t ∷ ts) keeps = ap (λ x. x ∷ flights ts) (keeps t)
update_at-flights (suc i) f (t ∷ ts) keeps = ap (λ x. flight t ∷ x) (update_at-flights i f ts keeps)

headers-Quiet :
    (h : Headers) (i : ℕ) (p : TokenPool) → Quiet p (on_token i (update_rate_limit_headers h) p)
headers-Quiet h i p = (update_at-flights i (update_rate_limit_headers h) p.tokens keeps, refl, refl)
  where
    keeps : (t : ManagedToken) → flight (update_rate_limit_headers h t) ≡ flight t
    keeps t = unfold update_rate_limit_headers update_rate_limit in_window in ground arith

mark-Quiet : (now secs i : ℕ) (p : TokenPool) → Quiet p (mark_secondary_rate_limit now secs i p)
unfolding mark_secondary_rate_limit
mark-Quiet now secs i p = (
  update_at-flights i (mark_token now secs) p.tokens (λ t. unfold mark_token in refl),
  refl,
  refl,
)

-- A step of one request is quiet.
pub record Since (w : World) (x : Trip × World) : Type 0 where
  pub quiet : Quiet w.pool x.1.pool

abbrev pub IsQuiet : (World → Trip × World) → Type 0
IsQuiet f = (w : World) → Since w (f w)

nothing : (w : World) (t : Trip) → Since w (t, w)
nothing w t = record { quiet = (refl, refl, refl) }

still : (w : World) (t : Trip) (v : World) → Quiet w.pool v.pool → Since w (t, v)
still w t v q = record { quiet = q }

-- A quiet change of the world, and then a quiet step.
before : (w v : World) (x : Trip × World) → Quiet w.pool v.pool → Since v x → Since w x
before w v x (a, b, c) s = record { quiet = (s.quiet.0 ∙ a, s.quiet.1 ∙ b, s.quiet.2 ∙ c) }

-- A property of both replies is one of the choice between them.
on_reply :
    {B : Type 0} (P : B → Type 0) (r : Reply) {x : Text → B} {y : Response → B}
    → ((e : Text) → P (x e))
    → ((r : Response) → P (y r))
    → P (elim r [ transport_error e ↦ x e | reply r ↦ y r ])
on_reply P (transport_error e) px py = px e
on_reply P (reply r) px py = py r

module _ (o : Outside) (i : ℕ) where
  mark_secondary-Quiet : (retry_after body : Text) → IsQuiet (mark_secondary o i retry_after body)
  unfolding mark_secondary
  mark_secondary-Quiet retry_after body w = record {
    quiet = mark-Quiet w.now (parse_retry_after o.http_date w.now retry_after) i w.pool;
  }

  sleep_for-Quiet :
      (d : ℕ) (rest : World → Trip × World)
      → IsQuiet rest
      → (w : World) → Since w (sleep_for o i d w rest)
  unfolding sleep_for
  sleep_for-Quiet d rest q w = on_option (Since w) (o.clock.sleep w.now d) (nothing w _) (λ woken.
      before w (record w { now = woken }) _ (refl, refl, refl) (q (record w { now = woken })))

  classify_with-Quiet :
      (r : Response) (otherwise : World → Trip × World)
      → IsQuiet otherwise
      → IsQuiet (classify_with o i r otherwise)
  unfolding classify_with
  classify_with-Quiet r otherwise q w =
      on_option (Since w) r.body
        (nothing w (refused (other_error (text "reading 403 response body"))))
        (λ body.
          on_bool (Since w)
            (is_abuse (to_lower body)
              || contains (to_lower body) (text "resource not accessible by integration")
                && has_budget o i w)
            (mark_secondary-Quiet r.headers.retry_after body w)
            (on_bool (Since w) (contains (to_lower body) (text "api rate limit exceeded"))
              (still w (refused (spent_error o i body w)) (of_pool (count_primary) w)
                (refl, refl, refl))
              (q w)))

  classify_final-Quiet : (r : Response) → IsQuiet (classify_final o i r)
  unfolding classify_final
  classify_final-Quiet r =
      classify_with-Quiet r (λ w. (responded r, w)) (λ w. nothing w (responded r))

  -- What follows the headers of a response.
  after_headers :
      (r : Response) (f : World → Trip × World)
      → IsQuiet f
      → (w : World) → Since w (f (read_headers i r (sent w)))
  after_headers r f q w =
      before w (read_headers i r (sent w)) (f (read_headers i r (sent w)))
        (headers-Quiet r.headers i w.pool) (q (read_headers i r (sent w)))

  pass_on : (r : Response) (w : World) → Since w (responded r, read_headers i r (sent w))
  pass_on r = after_headers r (λ v. (responded r, v)) (λ v. nothing v (responded r))

  failed_send : (e : Text) (w : World) → Since w (refused (other_error e), sent w)
  failed_send e w = still w (refused (other_error e)) (sent w) (refl, refl, refl)

  send_again-Quiet : IsQuiet (send_again o i)
  unfolding send_again
  send_again-Quiet w =
      on_reply (Since w) (o.send i w.calls) (λ e. failed_send e w)
        (λ r.
          on_bool (Since w) (r.status == 403)
            (after_headers r (classify_final o i r) (classify_final-Quiet r) w)
            (on_bool (Since w) (r.status == 429)
              (after_headers r (mark_secondary o i r.headers.retry_after (body_or_empty r.body))
                (mark_secondary-Quiet r.headers.retry_after (body_or_empty r.body)) w)
              (pass_on r w)))

  classify_403-Quiet : (r : Response) → IsQuiet (classify_403 o i r)
  unfolding classify_403
  classify_403-Quiet r =
      classify_with-Quiet r (λ w. sleep_for o i 2 w (send_again o i))
        (sleep_for-Quiet 2 (send_again o i) send_again-Quiet)

  throttled-Quiet : (r : Response) → IsQuiet (throttled o i r)
  unfolding throttled
  throttled-Quiet r w =
      on_option (Since w) r.body
        (nothing w (refused (other_error (text "reading 429 response body"))))
        (λ body.
          on_bool (Since w) (is_abuse (to_lower body))
            (mark_secondary-Quiet r.headers.retry_after body w)
            (sleep_for-Quiet (parse_retry_after o.http_date w.now r.headers.retry_after)
              (send_again o i) send_again-Quiet w))

  server_retry-Quiet : (left : ℕ) → IsQuiet (server_retry o i left)
  unfolding server_retry
  server_retry-Quiet zero w =
      nothing w (refused (other_error (text "server error after 3 retries")))
  server_retry-Quiet (suc left) w =
      on_option (Since w) (o.clock.sleep w.now ((3 - left) * 2))
        (nothing w (refused (other_error (text "context cancelled"))))
        (λ woken.
          let v : World = sent (record w { now = woken }) in
          let again : Since w (server_retry o i left v) =
            before w v (server_retry o i left v) (refl, refl, refl) (server_retry-Quiet left v) in
          on_reply (Since w) (o.send i w.calls)
            (λ e.
              on_bool (Since w) (left == 0) (still w (refused (other_error e)) v (refl, refl, refl))
                again)
            (λ r.
              on_bool (Since w) (ltb r.status 500) (still w (responded r) v (refl, refl, refl))
                again))

  refresh_failed-Quiet : (msg : Text) → IsQuiet (refresh_failed o i msg)
  unfolding refresh_failed
  refresh_failed-Quiet msg w = record {
    quiet =
        (update_at-flights i (raise_cooldown (w.now + 600)) w.pool.tokens (λ t. refl), refl, refl);
  }

  pub with_slot-Quiet : IsQuiet (with_slot o i)
  unfolding with_slot
  with_slot-Quiet w =
      on_reply (Since w) (o.send i w.calls)
        (λ e.
          on_bool (Since w) (is_installation_token_refresh_failure e)
            (before w (sent w) (refresh_failed o i e (sent w)) (refl, refl, refl)
              (refresh_failed-Quiet e (sent w)))
            (failed_send e w))
        (λ r.
          on_bool (Since w) (r.status == 403)
            (after_headers r (classify_403 o i r) (classify_403-Quiet r) w)
            (on_bool (Since w) (r.status == 429)
              (after_headers r (throttled o i r) (throttled-Quiet r) w)
              (on_bool (Since w) (is_server_error r.status)
                (after_headers r (server_retry o i 3) (server_retry-Quiet 3) w) (pass_on r w))))
