-- ===== src/Github/TokenPool/RoundTrip/Totals.antt =====
-- The requests in flight of each token: what one step on one token does to them.
use gh_audit.Prelude.{
  ℕ, zero, suc, ◌+◌, ◌≡◌, refl, sym, ap, ◌∙◌, Bool, ◌&&◌, List, [], ◌∷◌, map, arith, ltb,
  if◌then◌else◌, ◌==◌, nat_eq, text_eq, length,
}
use gh_audit.Text.{Text}
use gh_audit.Github.TokenPool.{ManagedToken, TokenPool, TokenKind, OrgScope, update_at, on_token}
use gh_audit.Github.TokenPool.Pick.{reserve}
use gh_audit.Github.TokenPool.RoundTrip.{settle}
use gh_audit.Github.TokenPool.RoundTrip.Flights.{flights, Quiet}

-- The requests for which the token of a position was picked, and those that it gave back.
abbrev pub picked_at : ℕ → List ManagedToken → ℕ
picked_at j [] = 0
picked_at zero (t ∷ ts) = t.picked
picked_at (suc j) (t ∷ ts) = picked_at j ts

abbrev pub returned_at : ℕ → List ManagedToken → ℕ
returned_at j [] = 0
returned_at zero (t ∷ ts) = t.returned
returned_at (suc j) (t ∷ ts) = returned_at j ts

-- What tells the tokens of a pool apart, and what each may be used for.
abbrev pub identities : List ManagedToken → List (Text × TokenKind × List OrgScope × Bool)
identities = map (λ (t : ManagedToken). (t.id, t.kind, t.scopes, t.disabled))

-- Between two pools each token gave back so many requests more than it was picked for; the slots and
-- the tokens are the same.
pub record Net (due : ℕ → ℕ) (p q : TokenPool) : Type 0 where
  pub settled :
      (j : ℕ)
      → picked_at j q.tokens + returned_at j p.tokens + due j
        ≡ picked_at j p.tokens + returned_at j q.tokens
  pub held : q.held ≡ p.held
  pub cap : q.cap ≡ p.cap
  pub tokens : identities q.tokens ≡ identities p.tokens

length-identities : (ts : List ManagedToken) → length (identities ts) ≡ length ts
length-identities [] = refl
length-identities (t ∷ ts) = ap suc (length-identities ts)

pub Net-length : {due : ℕ → ℕ} {p q : TokenPool} → Net due p q → length q.tokens ≡ length p.tokens
Net-length {p} {q} n =
    sym (length-identities q.tokens) ∙ ap length n.tokens ∙ length-identities p.tokens

pub Net-trans : {m n : ℕ → ℕ} {p q r : TokenPool} → Net m p q → Net n q r → Net (λ j. m j + n j) p r
Net-trans a b = record {
  settled = λ j. omega (arith, a.settled j, b.settled j);
  held = b.held ∙ a.held;
  cap = b.cap ∙ a.cap;
  tokens = b.tokens ∙ a.tokens;
}

pub same_count : {m n : ℕ → ℕ} {p q : TokenPool} → ((j : ℕ) → m j ≡ n j) → Net m p q → Net n p q
same_count e a = record {
  settled = λ j. omega (arith, e j, a.settled j);
  held = a.held;
  cap = a.cap;
  tokens = a.tokens;
}

abbrev pub none_due : ℕ → ℕ
none_due j = 0

-- One request is due of the token of a position, if there is one.
abbrev pub hit : ℕ → ℕ → ℕ → ℕ
hit i size j = if ltb i size && j == i then 1 else 0

-- One request is due of the token of a position.
abbrev pub one_of : ℕ → ℕ → ℕ
one_of i j = if j == i then 1 else 0

same_flights :
    (ts us : List ManagedToken)
    → flights us ≡ flights ts
    → ((j : ℕ) → (picked_at j us ≡ picked_at j ts) × (returned_at j us ≡ returned_at j ts))
      × (identities us ≡ identities ts)
same_flights [] [] e = (λ j. (refl, refl), refl)
same_flights [] (u ∷ us) e = absurd (cc)
same_flights (t ∷ ts) [] e = absurd (cc)
same_flights (t ∷ ts) (u ∷ us) e =
    let rest = same_flights ts us (cc) in
    let picked : u.picked ≡ t.picked = cc in
    let returned : u.returned ≡ t.returned = cc in
    (each picked returned rest.0, ground (arith, rest.1, e))
  where
    each :
        u.picked ≡ t.picked
        → u.returned ≡ t.returned
        → ((j : ℕ) → (picked_at j us ≡ picked_at j ts) × (returned_at j us ≡ returned_at j ts))
        → (j : ℕ)
        → (picked_at j (u ∷ us) ≡ picked_at j (t ∷ ts))
          × (returned_at j (u ∷ us) ≡ returned_at j (t ∷ ts))
    each p r rest zero = (p, r)
    each p r rest (suc j) = rest j

pub Quiet-Net : (p q : TokenPool) → Quiet p q → Net none_due p q
Quiet-Net p q (same, held, cap) =
    let (counts, tokens) = same_flights p.tokens q.tokens same in
    record {
      settled = λ j. omega (arith, (counts j).0, (counts j).1);
      held = held;
      cap = cap;
      tokens = tokens;
    }

settle-total :
    (i : ℕ) (ts : List ManagedToken) (j : ℕ)
    → (picked_at j (update_at i settle ts) ≡ picked_at j ts)
      × (returned_at j (update_at i settle ts) ≡ returned_at j ts + hit i (length ts) j)
unfolding update_at
settle-total i [] j = ground arith
settle-total zero (t ∷ ts) zero = ground arith
settle-total zero (t ∷ ts) (suc j) = ground arith
settle-total (suc i) (t ∷ ts) zero = ground arith
settle-total (suc i) (t ∷ ts) (suc j) = ground (arith, settle-total i ts j)

pub reserve-total :
    (i : ℕ) (ts : List ManagedToken) (j : ℕ)
    → (picked_at j (update_at i reserve ts) ≡ picked_at j ts + hit i (length ts) j)
      × (returned_at j (update_at i reserve ts) ≡ returned_at j ts)
unfolding update_at
reserve-total i [] j = ground arith
reserve-total zero (t ∷ ts) zero = ground arith
reserve-total zero (t ∷ ts) (suc j) = ground arith
reserve-total (suc i) (t ∷ ts) zero = ground arith
reserve-total (suc i) (t ∷ ts) (suc j) = ground (arith, reserve-total i ts j)

settle-identities :
    (i : ℕ) (ts : List ManagedToken) → identities (update_at i settle ts) ≡ identities ts
unfolding update_at
settle-identities i [] = refl
settle-identities zero (t ∷ ts) = refl
settle-identities (suc i) (t ∷ ts) =
    ap (λ x. (t.id, t.kind, t.scopes, t.disabled) ∷ x) (settle-identities i ts)

pub reserve-identities :
    (i : ℕ) (ts : List ManagedToken) → identities (update_at i reserve ts) ≡ identities ts
unfolding update_at
reserve-identities i [] = refl
reserve-identities zero (t ∷ ts) = refl
reserve-identities (suc i) (t ∷ ts) =
    ap (λ x. (t.id, t.kind, t.scopes, t.disabled) ∷ x) (reserve-identities i ts)

pub settle-Net : (i : ℕ) (p : TokenPool) → Net (hit i (length p.tokens)) p (on_token i settle p)
settle-Net i p = record {
  settled = λ j. omega (arith, (settle-total i p.tokens j).0, (settle-total i p.tokens j).1);
  held = refl;
  cap = refl;
  tokens = settle-identities i p.tokens;
}

pub reserved-length : (i : ℕ) (ts : List ManagedToken) → length (update_at i reserve ts) ≡ length ts
reserved-length i ts =
    sym (length-identities (update_at i reserve ts))
    ∙ ap length (reserve-identities i ts)
    ∙ length-identities ts
