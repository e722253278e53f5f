-- ===== src/Github/TokenPool/Limits/Cooldown.antt =====
-- A token that the abuse detector has tripped on is left alone.
use gh_audit.Prelude.{
  ℕ, zero, suc, ◌+◌, ◌≤◌, ◌<◌, ◌≡◌, refl, ap, ◌∙◌, subst, ◌≢◌, ◌⊎◌, inl, inr, some, List, [], ◌∷◌,
  Memᴰ, arith, nat_eq, text_eq,
}
use gh_audit.Text.{Text}
use gh_audit.Github.TokenPool.{nth, ManagedToken, TokenPool, update_at}
use gh_audit.Github.TokenPool.Pick.{Attempt, try_pick, chosen}
use gh_audit.Github.TokenPool.Pick.Best.{Right, unserved, blocked, ready, Ready, try_pick-Right}
use gh_audit.Github.TokenPool.Limits.{cooldown_for, mark_token, mark_secondary_rate_limit}

-- The mark takes a token out until an instant to come, never earlier than before, and, unless it was
-- out for longer already, for no longer than fifteen minutes or what GitHub asked for.
pub mark_token-Bounds :
    (now retry_after : ℕ) (t : ManagedToken)
    → let u = mark_token now retry_after t in
      (now < u.abuse_cooldown_until)
      × (t.abuse_cooldown_until ≤ u.abuse_cooldown_until)
      × ((u.abuse_cooldown_until ≤ t.abuse_cooldown_until)
          ⊎ ((u.abuse_cooldown_until ≤ now + 900) ⊎ (u.abuse_cooldown_until ≤ now + retry_after)))
unfolding mark_token cooldown_for
mark_token-Bounds now retry_after t = ground arith

-- An instant that the cooldown of a mark at `now` reaches: ninety seconds, or what GitHub asked for, or
-- fifteen minutes where the last cooldown, up to `prev`, ended less than three minutes ago.
abbrev pub IsDuring : ℕ → ℕ → ℕ → ℕ → Type 0
IsDuring now retry_after prev later =
    (later < now + 90)
    ⊎ ((later < now + retry_after)
        ⊎ ((0 < prev) × (prev ≤ now) × (now < prev + 180) × (later < now + 900)))

mark_token-lt :
    (now retry_after later : ℕ) (t : ManagedToken)
    → IsDuring now retry_after t.abuse_cooldown_until later
    → (t.rate_reset_at ≤ now) ⊎ (later < t.rate_reset_at)
    → later < (mark_token now retry_after t).abuse_cooldown_until
unfolding mark_token cooldown_for
mark_token-lt now retry_after later t h k = ground arith

nth-update_at :
    (i : ℕ) (f : ManagedToken → ManagedToken) (ts : List ManagedToken) (t : ManagedToken)
    → nth i ts ≡ some t
    → nth i (update_at i f ts) ≡ some (f t)
unfolding nth update_at
nth-update_at i f [] t h = absurd (ground arith)
nth-update_at zero f (u ∷ ts) t h = let same : u ≡ t = cc in ap (λ x. some (f x)) same
nth-update_at (suc i) f (u ∷ ts) t h = nth-update_at i f ts t h

nth-update_at_other :
    (i j : ℕ) (f : ManagedToken → ManagedToken) (ts : List ManagedToken)
    → j ≢ i
    → nth j (update_at i f ts) ≡ nth j ts
unfolding nth update_at
nth-update_at_other i j f [] n = refl
nth-update_at_other zero zero f (u ∷ ts) n = absurd (n refl)
nth-update_at_other zero (suc j) f (u ∷ ts) n = refl
nth-update_at_other (suc i) zero f (u ∷ ts) n = refl
nth-update_at_other (suc i) (suc j) f (u ∷ ts) n = nth-update_at_other i j f ts (λ e. n (ap suc e))

nth-Memᴰ : (i : ℕ) (ts : List ManagedToken) (t : ManagedToken) → nth i ts ≡ some t → Memᴰ t ts
unfolding nth
nth-Memᴰ i [] t h = absurd (ground arith)
nth-Memᴰ zero (u ∷ ts) t h = Memᴰ.head (cc)
nth-Memᴰ (suc i) (u ∷ ts) t h = Memᴰ.tail (nth-Memᴰ i ts t h)

-- tryPick chooses a token where one is ready.
some_or_none :
    (now : ℕ) (org repo : Text) (ts : List ManagedToken) {a : Attempt}
    → Right now org repo ts a
    → ((k : ℕ) × (a ≡ chosen k)) ⊎ ((u : ManagedToken) → Memᴰ u ts → ¬ Ready org repo now u)
some_or_none now org repo ts (unserved none_of) = inr (λ u m r. none_of u m r.0)
some_or_none now org repo ts (blocked e t m serving ends ahead before) =
    inr (λ u m. before now u m (omega arith) ahead)
some_or_none now org repo ts (ready i t at now_ready most) = inl (i, refl)

not_chosen :
    (later i : ℕ) (org repo : Text) (p : TokenPool) (u : ManagedToken)
    → nth i p.tokens ≡ some u
    → later < u.abuse_cooldown_until
    → try_pick later org repo p ≢ chosen i
not_chosen later i org repo p u at cool h =
    elim (subst (Right later org repo p.tokens) h (try_pick-Right later org repo p)) [
      | ready j t there now_ready most ↦
          let same : u ≡ t = cc in
          let cool' = subst (λ (x : ManagedToken). later < x.abuse_cooldown_until) same cool in
          omega (arith, cool', now_ready.2)
    ]

-- For ninety seconds after a token is marked for a secondary rate limit, or for as long as GitHub asked
-- for, or for fifteen minutes where its last cooldown ended less than three minutes before the mark,
-- but not beyond the reset of its budget where that is to come, tryPick does not choose it: it chooses
-- another, unless none of the others is ready.
pub try_pick-mark :
    (now retry_after later i : ℕ) (org repo : Text) (p : TokenPool) (t : ManagedToken)
    → nth i p.tokens ≡ some t
    → IsDuring now retry_after t.abuse_cooldown_until later
    → (t.rate_reset_at ≤ now) ⊎ (later < t.rate_reset_at)
    → let answer = try_pick later org repo (mark_secondary_rate_limit now retry_after i p) in
      (answer ≢ chosen i)
      × (((k : ℕ) × (answer ≡ chosen k))
          ⊎ ((j : ℕ) (u : ManagedToken)
              → nth j p.tokens ≡ some u
              → j ≢ i
              → ¬ Ready org repo later u))
unfolding mark_secondary_rate_limit
try_pick-mark now retry_after later i org repo p t at during reset = (
  not_chosen later i org repo marked (mark_token now retry_after t)
      (nth-update_at i (mark_token now retry_after) p.tokens t at)
      (mark_token-lt now retry_after later t during reset),
  elim (some_or_none later org repo marked.tokens (try_pick-Right later org repo marked)) [
    | inl found ↦ inl found
    | inr idle ↦ inr (λ j u there other. idle u (
        nth-Memᴰ j marked.tokens u
          (nth-update_at_other i j (mark_token now retry_after) p.tokens other ∙ there)))
  ],
)
  where
    marked : TokenPool
    marked = mark_secondary_rate_limit now retry_after i p
