-- ===== src/Config.antt =====
-- internal/config/config.go: the configuration and its defaults. An integer of SyncConfig may be
-- negative; ids are natural numbers. A duration is a count of nanoseconds.
pub mod Validation
pub mod Loading
pub mod Fingerprint
use gh_audit.Prelude.{
  negsuc, pos, ℤ, ℕ, ◌-◌, ◌*◌, ◌/◌, ◌^◌, Bool, not, ◌&&◌, Option, none, some, List, [], ◌∷◌, map,
  arith, if◌then◌else◌, ◌==◌, nat_eq, text_eq, ◌/=◌,
}
use gh_audit.Text.{Text, text, has_prefix, strip_prefix}
use gh_audit.Model.{ExemptAuthor}

pub record OrgConfig : Type 0 where
  pub name : Text
  pub repos : List Text
  pub exclude_repos : List Text
  pub branches : List Text

pub record OrgScope : Type 0 where
  pub org : Text
  pub repos : List Text

pub record TokenConfig : Type 0 where
  pub kind : Text
  pub env : Text
  pub app_id : ℕ
  pub installation_id : ℕ
  pub private_key_path : Text
  pub private_key_env : Text
  pub scopes : List OrgScope

pub record CheckConfig : Type 0 where
  pub name : Text
  pub conclusion : Text

pub record AuditRulesConfig : Type 0 where
  pub required_checks : List CheckConfig
  pub audit_branches : List Text
  pub review_scope : Text
  pub signing_policy : Text

-- SigningRequired
abbrev pub signing_required : AuditRulesConfig → Bool
signing_required a = a.signing_policy == text "required"

pub record SyncConfig : Type 0 where
  pub concurrency : ℤ
  pub enrich_concurrency : ℤ
  pub initial_lookback_days : ℤ
  pub org_repos_cache_freshness : ℤ

pub record ExemptionsConfig : Type 0 where
  pub authors : List ExemptAuthor

pub record Config : Type 0 where
  pub database : Text
  pub orgs : List OrgConfig
  pub tokens : List TokenConfig
  pub audit_rules : AuditRulesConfig
  pub sync : SyncConfig
  pub exemptions : ExemptionsConfig

-- The zero value `Config{}`.
abbrev pub zero_config : Config
zero_config = record {
  database = [];
  orgs = [];
  tokens = [];
  audit_rules = record {
    required_checks = [];
    audit_branches = [];
    review_scope = [];
    signing_policy = [];
  };
  sync = record {
    concurrency = pos 0;
    enrich_concurrency = pos 0;
    initial_lookback_days = pos 0;
    org_repos_cache_freshness = pos 0;
  };
  exemptions = record { authors = [] };
}

-- os.UserHomeDir, none where it fails, and filepath.Join.
pub record Home : Type 0 where
  pub dir : Option Text
  pub join_path : List Text → Text

abbrev pub or_here : Option Text → Text
or_here none = text "."
or_here (some dir) = dir

-- DefaultDBPath
unfoldable pub default_db_path : Home → Text
default_db_path h =
    h.join_path
      (or_here h.dir ∷ text ".local" ∷ text "share" ∷ text "gh-audit" ∷ text "audit.db" ∷ [])

-- DefaultConfigPath
unfoldable pub default_config_path : Home → Text
default_config_path h =
    h.join_path (or_here h.dir ∷ text ".config" ∷ text "gh-audit" ∷ text "config.yaml" ∷ [])

-- strings.TrimPrefix(p, "~")
abbrev pub after_tilde : Text → Text
after_tilde p = elim (strip_prefix (text "~") p) [ none ↦ p | some rest ↦ rest ]

-- expandHome
unfoldable pub expand_home : Home → Text → Text
expand_home h p =
    if p /= text "~" && not (has_prefix p (text "~/"))
    then p
    else elim h.dir [ none ↦ p | some dir ↦ h.join_path (dir ∷ after_tilde p ∷ []) ]

abbrev pub or_text : Text → Text → Text
or_text [] t = t
or_text (c ∷ s) t = c ∷ s

-- A number that is not positive falls back to its default.
abbrev pub or_default : ℕ → ℤ → ℤ
or_default k (pos n) = if n == 0 then pos k else pos n
or_default k (negsuc n) = pos k

-- A freshness that is not zero stands, also a negative one.
abbrev pub or_day : ℤ → ℤ
or_day (pos n) = if n == 0 then pos (24 * 3600 * 10 ^ 9) else pos n
or_day (negsuc n) = negsuc n

abbrev pub or_main : List Text → List Text
or_main [] = text "master" ∷ text "main" ∷ []
or_main (b ∷ bs) = b ∷ bs

abbrev pub default_conclusion : CheckConfig → CheckConfig
default_conclusion rc = record rc { conclusion = or_text rc.conclusion (text "success") }

abbrev pub default_sync : SyncConfig → SyncConfig
default_sync s = record {
  concurrency = or_default 32 s.concurrency;
  enrich_concurrency = or_default 16 s.enrich_concurrency;
  initial_lookback_days = or_default 90 s.initial_lookback_days;
  org_repos_cache_freshness = or_day s.org_repos_cache_freshness;
}

abbrev pub default_rules : AuditRulesConfig → AuditRulesConfig
default_rules a = record a {
  audit_branches = or_main a.audit_branches;
  required_checks = map default_conclusion a.required_checks;
}

abbrev pub expand_key : Home → TokenConfig → TokenConfig
expand_key h t = record t { private_key_path = expand_home h t.private_key_path }

-- applyDefaults
unfoldable pub apply_defaults : Home → Config → Config
unfolding expand_home default_db_path
apply_defaults h c = record c {
  database = or_text (expand_home h c.database) (default_db_path h);
  tokens = map (expand_key h) c.tokens;
  sync = default_sync c.sync;
  audit_rules = default_rules c.audit_rules;
}

-- Default
abbrev pub default : Home → Config
default h = apply_defaults h zero_config
