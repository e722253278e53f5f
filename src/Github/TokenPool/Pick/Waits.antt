-- ===== src/Github/TokenPool/Pick/Waits.antt =====
-- Pick ends: every wait leaves an instant behind that a token was waiting for.
use gh_audit.Prelude.{
  ℕ, zero, suc, ◌+◌, ◌-◌, ◌*◌, ◌≤◌, ◌<◌, ◌≡◌, inl, inr, true, false, none, some, List, [], ◌∷◌,
  Memᴰ, arith, ltb, if◌then◌else◌, Option-cases, ◌==◌, nat_eq, text_eq, length,
}
use gh_audit.Text.{Text}
use gh_audit.Github.TokenPool.{nth, ManagedToken, TokenPool}
use gh_audit.Github.TokenPool.Pick.{
  serves, Attempt, no_tokens, wait_until, chosen, try_pick, Clock, Picked, token_at, none_serves,
  pick_cancelled, delay, pick_rounds, pick_fuel, pick,
}
use gh_audit.Github.TokenPool.Pick.Scan.{is_ready, blocked_until}
use gh_audit.Github.TokenPool.Pick.Attempts.{
  Attempted, unserved, blocked, ready, try_pick-Attempted,
}

-- The instants of a token that are still to come.
abbrev pub to_come : ℕ → ManagedToken → ℕ
to_come now t =
    (if ltb now t.rate_reset_at then 1 else 0) + (if ltb now t.abuse_cooldown_until then 1 else 0)

unfoldable pub all_to_come : ℕ → List ManagedToken → ℕ
all_to_come now [] = 0
all_to_come now (t ∷ ts) = to_come now t + all_to_come now ts

all_to_come-le : (now : ℕ) (ts : List ManagedToken) → all_to_come now ts ≤ 2 * length ts
unfolding all_to_come
all_to_come-le now [] = omega arith
all_to_come-le now (t ∷ ts) = ground (arith, all_to_come-le now ts)

all_to_come_mono :
    (now later : ℕ) (ts : List ManagedToken)
    → now ≤ later
    → all_to_come later ts ≤ all_to_come now ts
unfolding all_to_come
all_to_come_mono now later [] h = omega arith
all_to_come_mono now later (t ∷ ts) h = ground (arith, all_to_come_mono now later ts h)

-- At the instant that a token waited for there is one less.
all_to_come-lt :
    (now later : ℕ) (org repo : Text) (t : ManagedToken) (ts : List ManagedToken)
    → Memᴰ t ts
    → now < blocked_until now org repo t
    → blocked_until now org repo t ≤ later
    → all_to_come later ts < all_to_come now ts
unfolding all_to_come
all_to_come-lt now later org repo t [] m h k = elim m [ ]
all_to_come-lt now later org repo t (u ∷ ts) (Memᴰ.head e) h k =
    let rest = all_to_come_mono now later ts (omega (arith, h, k)) in
    let here : to_come later t < to_come now t = ground (arith, h, k) in
    rw (← e) (omega (arith, here, rest))
all_to_come-lt now later org repo t (u ∷ ts) (Memᴰ.tail m) h k =
    let rest = all_to_come-lt now later org repo t ts m h k in ground (arith, rest, h, k)

-- Sleeping lasts as long as asked, as sleepCtx documents.
abbrev pub IsLasting : Clock → Type 0
IsLasting clock = (now d later : ℕ) → clock.sleep now d ≡ some later → now + d ≤ later

module _ (clock : Clock) (org repo : Text) (p : TokenPool) where
  -- The ways in which Pick ends: with a token that is ready at the instant of the return, without
  -- one where no token serves the repository, or because the context was cancelled.
  pub data Ends : Picked × ℕ → Type 0 where
    with_token :
        (i later : ℕ) (t : ManagedToken)
        → nth i p.tokens ≡ some t
        → is_ready later org repo t ≡ true
        → Ends (token_at i, later)
    refused :
        (later : ℕ)
        → ((u : ManagedToken) → Memᴰ u p.tokens → serves org repo u ≡ false)
        → Ends (none_serves, later)
    stopped : (later d : ℕ) → clock.sleep later d ≡ none → Ends (pick_cancelled, later)

  pick_rounds-Ends :
      (lasting : IsLasting clock) (rounds now : ℕ)
      → all_to_come now p.tokens < rounds
      → Ends (pick_rounds clock org repo p rounds now)
  unfolding pick_rounds
  pick_rounds-Ends lasting zero now h = absurd (omega arith)
  pick_rounds-Ends lasting (suc rounds) now h =
      answered (try_pick now org repo p) (try_pick-Attempted now org repo p)
        (λ later k. pick_rounds-Ends lasting rounds later k)
    where
      Rest : Attempt → Type 0
      Rest a = Ends (elim a [
        | no_tokens ↦ (none_serves, now)
        | chosen i ↦ (token_at i, now)
        | wait_until at ↦ elim (delay now at == 0) [
          | true ↦ elim (clock.cancelled now) [
            | true ↦ (pick_cancelled, now)
            | false ↦ pick_rounds clock org repo p rounds now
          ]
          | false ↦ elim (clock.sleep now (delay now at)) [
            | none ↦ (pick_cancelled, now)
            | some woken ↦ pick_rounds clock org repo p rounds woken
          ]
        ]
      ])

      answered :
          (a : Attempt)
          → Attempted now org repo p.tokens a
          → ((later : ℕ)
              → all_to_come later p.tokens < rounds
              → Ends (pick_rounds clock org repo p rounds later))
          → Rest a
      answered no_tokens (unserved none_of) more = refused now none_of
      answered (chosen i) (ready j t at now_ready most) more = with_token i now t at now_ready
      answered (wait_until at) (blocked e t m serving same ahead others) more =
          let positive : (e - now == 0) ≡ false = ground (arith, ahead) in
          elim (Option-cases (clock.sleep now (e - now))) [
            | inl gone ↦ rw (positive, gone) (stopped now (e - now) gone)
            | inr (woken, slept) ↦
                let late = lasting now (e - now) woken slept in
                let fewer =
                  all_to_come-lt now woken org repo t p.tokens m (omega (arith, same, ahead))
                    (omega (arith, same, ahead, late)) in
                rw (positive, slept) (more woken (omega (arith, fewer, h)))
          ]

  -- Pick ends, where sleeping lasts as long as asked and nothing else changes the pool: its rounds
  -- are enough, and it returns a token that is ready, or none where none serves the repository, or
  -- was cancelled while it slept.
  pub pick-Ends :
      (now : ℕ)
      → IsLasting clock
      → Ends ((pick clock org repo p now).0, (pick clock org repo p now).1)
  unfolding pick
  pick-Ends now lasting =
      pick_rounds-Ends lasting (pick_fuel p) now (omega (arith, all_to_come-le now p.tokens))
