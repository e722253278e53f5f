-- ===== src/Github/TokenPool/Pick/Scores.antt =====
-- What the comparison of scores in tryPick chooses.
use gh_audit.Prelude.{
  subst, ◌≢◌, ℕ, ◌≡◌, refl, ◌⊎◌, inl, inr, Bool, true, false, Option, none, some, arith,
  if◌then◌else◌, nat_eq, text_eq,
}
use gh_audit.Github.TokenPool.{ManagedToken}
use gh_audit.Github.TokenPool.Pick.{better, outscores}

-- What `better` chooses: the token in hand, which outscores the best so far, or that best.
pub better_cases :
    (n : ℕ) (t : ManagedToken) (o : Option (ℕ × ManagedToken)) (i : ℕ) (b : ManagedToken)
    → better n t o ≡ some (i, b)
    → ((i ≡ n) × (b ≡ t) × ((j : ℕ) (d : ManagedToken) → o ≡ some (j, d) → outscores t d ≡ true))
      ⊎ ((o ≡ some (i, b)) × (outscores t b ≡ false))
better_cases n t none i b h = inl (cc, cc, λ j d e. absurd cc)
better_cases n t (some (j, d)) i b h = by_score (outscores t d) refl h
  where
    by_score :
        (w : Bool)
        → outscores t d ≡ w
        → (if◌then◌else◌ {A = Option (ℕ × ManagedToken)} w (some (n, t)) (some (j, d)))
          ≡ some (i, b)
        → ((i ≡ n)
            × (b ≡ t)
            × ((j' : ℕ) (d' : ManagedToken)
                → ◌≡◌ {A = Option (ℕ × ManagedToken)} (some (j, d)) (some (j', d'))
                → outscores t d' ≡ true))
          ⊎ ((◌≡◌ {A = Option (ℕ × ManagedToken)} (some (j, d)) (some (i, b)))
              × (outscores t b ≡ false))
    by_score true e h =
        inl (cc, cc, λ j' d' q. let same : d ≡ d' = cc in subst (λ x. outscores t x ≡ true) same e)
    by_score false e h = inr (h, let same : d ≡ b = cc in subst (λ x. outscores t x ≡ false) same e)

pub better-some : (n : ℕ) (t : ManagedToken) (o : Option (ℕ × ManagedToken)) → better n t o ≢ none
better-some n t none h = ground arith
better-some n t (some (j, d)) h = ground arith
