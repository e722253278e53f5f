-- ===== src/Audit/Glob/Matches.antt =====
-- Branch globs as a relation, and the two facts about `*` that a scan without a stack needs.
use gh_audit.Text.{Text}
use gh_audit.Prelude.{ℕ, ◌≤◌, ◌≡◌, ◌≢◌, ◌⊎◌, [], ◌∷◌, arith, nat_eq, text_eq, length}

-- `*` stands for any bytes, `?` for one, and any other byte for itself.
pub data Matches : Text → Text → Type 0 where
  done : Matches [] []
  byte :
      (q c : ℕ) (p s : Text)
      → q ≢ b'*'
      → (q ≡ b'?') ⊎ (q ≡ c)
      → Matches p s
      → Matches (q ∷ p) (c ∷ s)
  skip : (q : ℕ) (p s : Text) → q ≡ b'*' → Matches p s → Matches (q ∷ p) s
  take_one : (q c : ℕ) (p s : Text) → q ≡ b'*' → Matches (q ∷ p) s → Matches (q ∷ p) (c ∷ s)

pub data IsSuffix : Text → Text → Type 0 where
  here : (s : Text) → IsSuffix s s
  there : (t : Text) (c : ℕ) (s : Text) → IsSuffix t s → IsSuffix t (c ∷ s)

-- A match of some rest of the text.
abbrev pub Somewhere : Text → Text → Type 0
Somewhere p s = (t : Text) × IsSuffix t s × Matches p t

pub length-IsSuffix : {t s : Text} → IsSuffix t s → length t ≤ length s
length-IsSuffix (here s) = omega arith
length-IsSuffix (there t c s h) = omega (arith, length-IsSuffix h)

pub Somewhere-cons : (p : Text) (c : ℕ) (s : Text) → Somewhere p s → Somewhere p (c ∷ s)
Somewhere-cons p c s (t, h, m) = (t, there t c s h, m)

-- A `*` in front is a match of some rest.
pub star-Somewhere : {q : ℕ} {p s : Text} → q ≡ b'*' → Matches (q ∷ p) s → Somewhere p s
star-Somewhere e (byte q c p s n h m) = absurd (n e)
star-Somewhere e (skip q p s f m) = (s, here s, m)
star-Somewhere e (take_one q c p s f m) = Somewhere-cons p c s (star-Somewhere e m)

pub Somewhere-star : (q : ℕ) (p s : Text) → q ≡ b'*' → Somewhere p s → Matches (q ∷ p) s
Somewhere-star q p s e (t, h, m) = absorb h m
  where
    absorb : {t' s' : Text} → IsSuffix t' s' → Matches p t' → Matches (q ∷ p) s'
    absorb (here s') m' = skip q p s' e m'
    absorb (there t' c s' h') m' = take_one q c p s' e (absorb h' m')

pub IsSuffix-trans : {r s t : Text} → IsSuffix r s → IsSuffix s t → IsSuffix r t
IsSuffix-trans h (here t) = h
IsSuffix-trans h (there s c t k) = there _ c t (IsSuffix-trans h k)
