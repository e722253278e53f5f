-- ===== src/Github/TokenPool/Limits/Order.antt =====
-- The order in which the responses to a token's requests come back does not count.
use gh_audit.Prelude.{
  &&-true, ℕ, ◌≡◌, refl, sym, ap, ◌∙◌, subst, inl, inr, Bool, true, false, none, some, List, [],
  ◌∷◌, arith, ltb, if◌then◌else◌, Option-cases, ◌==◌, nat_eq, text_eq, all,
}
use mathlib.Core.List.{Permᴰ}
use gh_audit.Github.TokenPool.{ManagedToken}
use gh_audit.Github.TokenPool.Limits.{
  Headers, parse_count, in_window, update_rate_limit, update_rate_limit_headers,
}

-- The token after a list of responses.
unfoldable pub after_responses : List Headers → ManagedToken → ManagedToken
after_responses [] t = t
after_responses (h ∷ hs) t = after_responses hs (update_rate_limit_headers h t)

-- What Pick reads of it: the budget left and the instant at which it refills.
abbrev pub budget : ManagedToken → ℕ × ℕ
budget t = (t.rate_remaining, t.rate_reset_at)

-- The response says how much is left, and in which window.
abbrev pub is_complete : Headers → Bool
is_complete h = elim (parse_count h.remaining) [
  | none ↦ false
  | some _ ↦ elim (parse_count h.reset) [ none ↦ false | some _ ↦ true ]
]

-- updateRateLimitHeaders on the budget alone.
unfoldable pub spend : ℕ → ℕ → ℕ × ℕ → ℕ × ℕ
spend remaining reset (left, reset_at) =
    if ltb reset_at reset
    then (remaining, reset)
    else if reset == reset_at
    then (if ltb remaining left then remaining else left, reset_at)
    else (left, reset_at)

spend_comm : (m n r s : ℕ) (b : ℕ × ℕ) → spend m r (spend n s b) ≡ spend n s (spend m r b)
unfolding spend
spend_comm m n r s b = ground arith

budget-update :
    (h : Headers) (m r : ℕ)
    → parse_count h.remaining ≡ some m
    → parse_count h.reset ≡ some r
    → (t : ManagedToken) → budget (update_rate_limit_headers h t) ≡ spend m r (budget t)
unfolding update_rate_limit_headers update_rate_limit in_window spend
budget-update h m r a b t = ground (arith, a, b)

complete_parts :
    (h : Headers)
    → is_complete h ≡ true
    → (m : ℕ) × (r : ℕ) × (parse_count h.remaining ≡ some m) × (parse_count h.reset ≡ some r)
complete_parts h c = elim (Option-cases (parse_count h.remaining)) [
  | inl e ↦ absurd (ground (arith, c, e))
  | inr (m, a) ↦ elim (Option-cases (parse_count h.reset)) [
    | inl e ↦ absurd (ground (arith, c, a, e))
    | inr (r, b) ↦ (m, r, a, b)
  ]
]

-- Two complete responses to tokens of one budget leave one budget.
update_congruent :
    (h : Headers) (t u : ManagedToken)
    → is_complete h ≡ true
    → budget t ≡ budget u
    → budget (update_rate_limit_headers h t) ≡ budget (update_rate_limit_headers h u)
update_congruent h t u c e =
    let (m, r, a, b) = complete_parts h c in
    budget-update h m r a b t ∙ ap (spend m r) e ∙ sym (budget-update h m r a b u)

update_comm :
    (g h : Headers) (t : ManagedToken)
    → is_complete g ≡ true
    → is_complete h ≡ true
    → budget (update_rate_limit_headers h (update_rate_limit_headers g t))
      ≡ budget (update_rate_limit_headers g (update_rate_limit_headers h t))
update_comm g h t cg ch =
    let (m, r, a, b) = complete_parts g cg in
    let (n, s, a', b') = complete_parts h ch in
    budget-update h n s a' b' (update_rate_limit_headers g t)
    ∙ ap (spend n s) (budget-update g m r a b t)
    ∙ spend_comm n m s r (budget t)
    ∙ ap (spend m r) (sym (budget-update h n s a' b' t))
    ∙ sym (budget-update g m r a b (update_rate_limit_headers h t))

after_congruent :
    (hs : List Headers) (t u : ManagedToken)
    → all is_complete hs ≡ true
    → budget t ≡ budget u
    → budget (after_responses hs t) ≡ budget (after_responses hs u)
unfolding after_responses
after_congruent [] t u c e = e
after_congruent (h ∷ hs) t u c e =
    let (one, rest) = &&-true (is_complete h) (all is_complete hs) c in
    after_congruent hs _ _ rest (update_congruent h t u one e)

all-cons :
    (h : Headers) (hs : List Headers)
    → is_complete h ≡ true
    → all is_complete hs ≡ true
    → all is_complete (h ∷ hs) ≡ true
all-cons h hs a b = rw (a, b) refl

all-Permᴰ :
    {gs hs : List Headers} → Permᴰ gs hs → all is_complete gs ≡ true → all is_complete hs ≡ true
all-Permᴰ Permᴰ.nil c = c
all-Permᴰ (Permᴰ.cons {a = g} {b = h} {l₁ = gs} {l₂ = hs} e p) c =
    let (one, rest) = &&-true (is_complete g) (all is_complete gs) c in
    all-cons h hs (subst (λ x. is_complete x ≡ true) e one) (all-Permᴰ p rest)
all-Permᴰ (Permᴰ.swap {a = a} {b = b} {a' = a'} {b' = b'} {l = l} e f) c =
    let (one, more) = &&-true (is_complete a) (all is_complete (b ∷ l)) c in
    let (two, rest) = &&-true (is_complete b) (all is_complete l) more in
    all-cons a' (b' ∷ l) (subst (λ x. is_complete x ≡ true) f two)
      (all-cons b' l (subst (λ x. is_complete x ≡ true) e one) rest)
all-Permᴰ (Permᴰ.trans p q) c = all-Permᴰ q (all-Permᴰ p c)

-- Responses that carry both headers leave one budget, in whatever order they are handled.
pub after_responses-Permᴰ :
    {gs hs : List Headers} (t : ManagedToken)
    → Permᴰ gs hs
    → all is_complete gs ≡ true
    → budget (after_responses gs t) ≡ budget (after_responses hs t)
unfolding after_responses
after_responses-Permᴰ t Permᴰ.nil c = refl
after_responses-Permᴰ t (Permᴰ.cons {a = g} {b = h} {l₁ = gs} {l₂ = hs} e p) c =
    let (one, rest) = &&-true (is_complete g) (all is_complete gs) c in
    after_responses-Permᴰ (update_rate_limit_headers g t) p rest
    ∙ ap (λ x. budget (after_responses hs (update_rate_limit_headers x t))) e
after_responses-Permᴰ t (Permᴰ.swap {a = a} {b = b} {a' = a'} {b' = b'} {l = l} e f) c =
    let (one, more) = &&-true (is_complete a) (all is_complete (b ∷ l)) c in
    let (two, rest) = &&-true (is_complete b) (all is_complete l) more in
    after_congruent l _ _ rest (update_comm a b t one two)
    ∙ ap
        (λ x.
          budget (after_responses l (update_rate_limit_headers x (update_rate_limit_headers b t))))
        e
    ∙ ap
        (λ x.
          budget (after_responses l (update_rate_limit_headers b' (update_rate_limit_headers x t))))
        f
after_responses-Permᴰ t (Permᴰ.trans p q) c =
    after_responses-Permᴰ t p c ∙ after_responses-Permᴰ t q (all-Permᴰ p c)
