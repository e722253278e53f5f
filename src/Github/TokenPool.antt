-- ===== src/Github/TokenPool.antt =====
-- internal/github/tokenpool.go: the pool of API tokens and their budgets. An instant is a count of
-- seconds since 1970, as the pool stores it. A pointer to a token is its position in the pool, which
-- only grows. `inFlight` of a token, an int64, is `picked` minus `returned`: what was added to it and
-- what was taken off.
pub mod Pick
pub mod Limits
pub mod RoundTrip
use gh_audit.Prelude.{
  ℕ, zero, suc, ◌+◌, Bool, true, false, not, ◌&&◌, ◌||◌, Option, none, some, List, [], ◌∷◌, ◌++◌,
  arith, ltb, if◌then◌else◌, ◌==◌, nat_eq, text_eq, length, any,
}
use gh_audit.Text.{Text, equal_fold}

-- rateLimitThreshold
abbrev pub rate_limit_threshold : ℕ
rate_limit_threshold = 100

pub data TokenKind : Type 0 where
  pat app : TokenKind

pub record OrgScope : Type 0 where
  pub org : Text
  pub repos : List Text

-- ManagedToken; its transport is the `send` of Outside.
pub record ManagedToken : Type 0 where
  pub id : Text
  pub kind : TokenKind
  pub rate_remaining : ℕ
  pub rate_limit : ℕ
  pub rate_reset_at : ℕ
  pub abuse_cooldown_until : ℕ
  pub picked : ℕ
  pub returned : ℕ
  pub scopes : List OrgScope
  pub disabled : Bool

-- TokenPool; `cap` is the size of the semaphore, 0 where it is nil, and `held` its slots in use.
pub record TokenPool : Type 0 where
  pub tokens : List ManagedToken
  pub cap : ℕ
  pub held : ℕ
  pub secondary_rate_limit_events : ℕ
  pub primary_rate_limit_events : ℕ
  pub token_reassigns : ℕ

-- NewTokenPoolWithCap
abbrev pub new_token_pool_with_cap : ℕ → TokenPool
new_token_pool_with_cap cap = record {
  tokens = [];
  cap = cap;
  held = 0;
  secondary_rate_limit_events = 0;
  primary_rate_limit_events = 0;
  token_reassigns = 0;
}

-- defaultGlobalInFlightCap
abbrev pub default_global_in_flight_cap : ℕ
default_global_in_flight_cap = 300

-- NewTokenPool
abbrev pub new_token_pool : TokenPool
new_token_pool = new_token_pool_with_cap default_global_in_flight_cap

-- Len
abbrev pub len : TokenPool → ℕ
len p = length p.tokens

-- HasToken
unfoldable pub has_token : TokenPool → Text → Bool
has_token p id = any (λ (t : ManagedToken). t.id == id) p.tokens

-- The token as AddPATToken and AddAppToken register it.
abbrev pub new_token : TokenKind → Text → List OrgScope → ManagedToken
new_token kind id scopes = record {
  id = id;
  kind = kind;
  rate_remaining = 5000;
  rate_limit = 5000;
  rate_reset_at = 0;
  abuse_cooldown_until = 0;
  picked = 0;
  returned = 0;
  scopes = scopes;
  disabled = false;
}

-- AddPATToken
unfoldable pub add_pat_token : Text → List OrgScope → TokenPool → TokenPool
add_pat_token id scopes p = record p { tokens = p.tokens ++ new_token pat id scopes ∷ [] }

-- AddAppToken; `transport_made` says whether ghinstallation.New succeeds.
unfoldable pub add_app_token : Bool → Text → List OrgScope → TokenPool → Option TokenPool
add_app_token transport_made id scopes p =
    if transport_made
    then some (record p { tokens = p.tokens ++ new_token app id scopes ∷ [] })
    else none

-- scopeMatches
unfoldable pub scope_matches : List OrgScope → Text → Text → Bool
scope_matches scopes org repo =
    length scopes == 0
    || any
        (λ (s : OrgScope).
          equal_fold s.org org && (length s.repos == 0 || any (λ r. equal_fold r repo) s.repos))
        scopes

-- A read through a pointer to the token at a position.
unfoldable pub nth : ℕ → List ManagedToken → Option ManagedToken
nth i [] = none
nth zero (t ∷ ts) = some t
nth (suc i) (t ∷ ts) = nth i ts

-- A write through a pointer to the token at a position.
unfoldable pub update_at : ℕ → (ManagedToken → ManagedToken) → List ManagedToken → List ManagedToken
update_at i f [] = []
update_at zero f (t ∷ ts) = f t ∷ ts
update_at (suc i) f (t ∷ ts) = t ∷ update_at i f ts

abbrev pub on_token : ℕ → (ManagedToken → ManagedToken) → TokenPool → TokenPool
on_token i f p = record p { tokens = update_at i f p.tokens }

unfoldable pub disable_first : Text → List ManagedToken → List ManagedToken
disable_first id [] = []
disable_first id (t ∷ ts) =
    let rest = disable_first id ts in
    if t.id == id then record t { disabled = true } ∷ ts else t ∷ rest

-- MarkDisabled
unfoldable pub mark_disabled : Text → TokenPool → TokenPool
unfolding disable_first
mark_disabled id p = record p { tokens = disable_first id p.tokens }

-- A token whose budget is spent until an instant to come.
abbrev pub exhausted : ℕ → ManagedToken → Bool
exhausted now t = ltb t.rate_remaining rate_limit_threshold && ltb now t.rate_reset_at

-- A token that the abuse detector has tripped on.
abbrev pub cooling : ℕ → ManagedToken → Bool
cooling now t = ltb now t.abuse_cooldown_until

pub record PoolSnapshot : Type 0 where
  pub total : ℕ
  pub available : ℕ
  pub remaining : ℕ
  pub capacity : ℕ
  pub secondary_rate_limit_events : ℕ
  pub primary_rate_limit_events : ℕ
  pub token_reassigns : ℕ
  pub in_flight : ℕ

abbrev pub count_token : ℕ → ManagedToken → PoolSnapshot → PoolSnapshot
count_token now t s = if t.disabled then s else record s {
  remaining = s.remaining + t.rate_remaining;
  capacity = s.capacity + t.rate_limit;
  available = if not (exhausted now t) && not (cooling now t) then s.available + 1 else s.available;
}

unfoldable pub count_tokens : ℕ → PoolSnapshot → List ManagedToken → PoolSnapshot
count_tokens now s [] = s
count_tokens now s (t ∷ ts) = count_tokens now (count_token now t s) ts

-- Snapshot
unfoldable pub snapshot : ℕ → TokenPool → PoolSnapshot
unfolding count_tokens
snapshot now p =
    count_tokens now
      (record {
        total = length p.tokens;
        available = 0;
        remaining = 0;
        capacity = 0;
        secondary_rate_limit_events = p.secondary_rate_limit_events;
        primary_rate_limit_events = p.primary_rate_limit_events;
        token_reassigns = p.token_reassigns;
        in_flight = p.held;
      })
      p.tokens
