-- ===== src/Config/Loading.antt =====
-- What the audit may rely on in a configuration that Load returns.
use gh_audit.Prelude.{
  negsuc, pos, ℤ, ℕ, zero, suc, ◌≡◌, refl, sym, ap, subst, ◌≢◌, true, false, Option, none, some,
  List, [], ◌∷◌, map, Memᴰ, arith, nat_eq, text_eq,
}
use gh_audit.Text.{Text, text}
use gh_audit.Model.{Commit, ExemptAuthor, trusted_id}
use gh_audit.Audit.Exempt.{exempt_status}
use gh_audit.Audit.Exempt.Identity.{Attested, by_committer, verified_iff}
use gh_audit.Config.{
  or_text, default_conclusion, or_main, or_day, or_default, ℤ, pos, Config, CheckConfig, Home,
  apply_defaults, signing_required,
}
use gh_audit.Config.Validation.{
  Files, Loaded, loaded, load, validate, invalid, unreadable, unparsable, ConfigError,
}
use gh_audit.Config.Validation.Valid.{IsValid, validate_iff}

-- The settings that the program computes with are set.
pub record IsFilled (c : Config) : Type 0 where
  pub workers : (n : ℕ) × (c.sync.concurrency ≡ pos (suc n))
  pub enrichers : (n : ℕ) × (c.sync.enrich_concurrency ≡ pos (suc n))
  pub lookback : (n : ℕ) × (c.sync.initial_lookback_days ≡ pos (suc n))
  pub freshness : c.sync.org_repos_cache_freshness ≢ pos 0
  pub branches : c.audit_rules.audit_branches ≢ []
  pub conclusions : (rc : CheckConfig) → Memᴰ rc c.audit_rules.required_checks → rc.conclusion ≢ []

or_default_lem : (k : ℕ) (z : ℤ) → (n : ℕ) × (or_default (suc k) z ≡ pos (suc n))
or_default_lem k (pos zero) = (k, refl)
or_default_lem k (pos (suc n)) = (n, ground arith)
or_default_lem k (negsuc n) = (k, refl)

or_day_lem : (z : ℤ) → or_day z ≢ pos 0
or_day_lem (pos zero) h = absurd (ground arith)
or_day_lem (pos (suc n)) h = absurd (ground arith)
or_day_lem (negsuc n) h = cc

or_main_lem : (bs : List Text) → or_main bs ≢ []
or_main_lem [] h = cc
or_main_lem (b ∷ bs) h = cc

set_conclusion : (rc : CheckConfig) → (default_conclusion rc).conclusion ≢ []
set_conclusion rc = or_text-success rc.conclusion
  where
    or_text-success : (s : Text) → or_text s (text "success") ≢ []
    or_text-success [] h = cc
    or_text-success (b ∷ s) h = cc

set_conclusions :
    (rcs : List CheckConfig) (rc : CheckConfig)
    → Memᴰ rc (map default_conclusion rcs)
    → rc.conclusion ≢ []
set_conclusions [] rc m = elim m [ ]
set_conclusions (x ∷ rcs) rc (Memᴰ.head e) =
    subst (λ y. y.conclusion ≢ []) (sym e) (set_conclusion x)
set_conclusions (x ∷ rcs) rc (Memᴰ.tail m) = set_conclusions rcs rc m

apply_defaults-IsFilled : (h : Home) (c : Config) → IsFilled (apply_defaults h c)
unfolding apply_defaults
apply_defaults-IsFilled h c = record {
  workers = or_default_lem 31 c.sync.concurrency;
  enrichers = or_default_lem 15 c.sync.enrich_concurrency;
  lookback = or_default_lem 89 c.sync.initial_lookback_days;
  freshness = or_day_lem c.sync.org_repos_cache_freshness;
  branches = or_main_lem c.audit_rules.audit_branches;
  conclusions = set_conclusions c.audit_rules.required_checks;
}

abbrev pub content_or : Config → Loaded → Config
content_or c (loaded d) = d
content_or c unreadable = c
content_or c unparsable = c
content_or c (invalid e) = c

loaded_from :
    (files : Files) (h : Home) (path : Text) (c : Config)
    → load files h path ≡ loaded c
    → (raw : Config) × (c ≡ apply_defaults h raw) × (validate c ≡ none)
unfolding load
loaded_from files h path c e = of_file (files.read_file path) e
  where
    of_config :
        (raw : Config)
        → (v : Option ConfigError) → validate (apply_defaults h raw) ≡ v
        → elim v [ none ↦ loaded (apply_defaults h raw) | some f ↦ invalid f ] ≡ loaded c
        → (raw : Config) × (c ≡ apply_defaults h raw) × (validate c ≡ none)
    of_config raw none p e =
        let same : apply_defaults h raw ≡ c = ap (content_or c) e in
        (raw, sym same, subst (λ x. validate x ≡ none) same p)
    of_config raw (some f) p e = absurd cc

    of_parsed :
        (parsed : Option Config)
        → elim parsed [
          | none ↦ unparsable
          | some cfg ↦ elim (validate (apply_defaults h cfg)) [
            | none ↦ loaded (apply_defaults h cfg)
            | some e ↦ invalid e
          ]
        ]
          ≡ loaded c
        → (raw : Config) × (c ≡ apply_defaults h raw) × (validate c ≡ none)
    of_parsed none e = absurd cc
    of_parsed (some raw) e = of_config raw (validate (apply_defaults h raw)) refl e

    of_file :
        (bytes : Option Text)
        → elim bytes [
          | none ↦ unreadable
          | some bs ↦ elim (files.unmarshal bs) [
            | none ↦ unparsable
            | some cfg ↦ elim (validate (apply_defaults h cfg)) [
              | none ↦ loaded (apply_defaults h cfg)
              | some e ↦ invalid e
            ]
          ]
        ]
          ≡ loaded c
        → (raw : Config) × (c ≡ apply_defaults h raw) × (validate c ≡ none)
    of_file none e = absurd cc
    of_file (some bs) e = of_parsed (files.unmarshal bs) e

-- A configuration that Load returns is valid and has every setting set.
load-IsReady :
    (files : Files) (h : Home) (path : Text) (c : Config)
    → load files h path ≡ loaded c
    → IsValid c × IsFilled c
load-IsReady files h path c e =
    let (raw, same, valid) = loaded_from files h path c e in
    ((validate_iff c).0 valid, subst IsFilled (sym same) (apply_defaults-IsFilled h raw))

-- Every account on the exemption list of such a configuration is exempted by its verified
-- signature, under either signing policy.
pub loaded-exempts :
    (files : Files) (h : Home) (path : Text) (c : Config) (e : ExemptAuthor) (commit : Commit)
    → load files h path ≡ loaded c
    → Memᴰ e c.exemptions.authors
    → commit.is_verified ≡ true
    → commit.committer_id ≡ e.id
    → exempt_status commit c.exemptions.authors (signing_required c.audit_rules) ≡ (true, false)
loaded-exempts files h path c e commit ready listed verified signer =
    let (filled, numbered, single) =
      (load-IsReady files h path c ready).0.exempt_accounts e listed in
    let one : Attested commit c.exemptions.authors = by_committer verified (record {
      trusted = unfold trusted_id in ground (arith, numbered, single, signer);
      entry = e;
      listed = listed;
      same = sym signer;
    }) in
    unfold exempt_status in ground (arith, (verified_iff commit c.exemptions.authors).1 one)
