-- ===== src/Config/Validation/Valid.antt =====
-- What a configuration must be to pass validate, said without the order of the checks.
use gh_audit.Prelude.{
  Apart, ℕ, ◌≡◌, refl, ◌≢◌, ◌↔◌, ◌⊎◌, inl, inr, Bool, true, false, none, some, List, [], ◌∷◌, Memᴰ,
  arith, if◌then◌else◌, Bool-cases, ◌==◌, nat_eq, text_beq, text_beq_iff, text_eq, length,
}
use gh_audit.Text.{Text, text, trim_space}
use gh_audit.Model.{ExemptAuthor, ghost_user_id}
use gh_audit.Config.{Config, OrgConfig, TokenConfig, CheckConfig}
use gh_audit.Config.Validation.{
  no_token, no_org, ConfigError, check_org, check_token, check_kind, check_exempt, check_check,
  check_review_scope, check_signing_policy, org_key, token_key, validate, each, each_new,
}
use gh_audit.Config.Validation.Loops.{then_check_iff, each_iff, each_new_iff}

-- A credential that can be built: a personal access token with its variable, or an app with its two
-- ids and a private key.
pub data IsCredential (t : TokenConfig) : Type 0 where
  of_user : t.kind ≡ text "pat" → t.env ≢ [] → IsCredential t
  of_app :
      t.kind ≡ text "app"
      → t.app_id ≢ 0
      → t.installation_id ≢ 0
      → (t.private_key_path ≢ []) ⊎ (t.private_key_env ≢ [])
      → IsCredential t

abbrev pub IsUsable : TokenConfig → Type 0
IsUsable t = IsCredential t × (t.scopes ≢ [])

-- An entry that can match: by the id of one account.
abbrev pub IsAccount : ExemptAuthor → Type 0
IsAccount e = (e.verified_emails ≡ []) × (e.id ≢ 0) × (e.id ≢ ghost_user_id)

abbrev pub IsNamed : Text → Type 0
IsNamed name = trim_space name ≢ []

pub record IsValid (c : Config) : Type 0 where
  pub some_org : c.orgs ≢ []
  pub review_scope :
      (c.audit_rules.review_scope ≡ [])
      ⊎ ((c.audit_rules.review_scope ≡ text "landing")
          ⊎ (c.audit_rules.review_scope ≡ text "content"))
  pub signing_policy :
      (c.audit_rules.signing_policy ≡ [])
      ⊎ ((c.audit_rules.signing_policy ≡ text "optional")
          ⊎ (c.audit_rules.signing_policy ≡ text "required"))
  pub orgs_named : (o : OrgConfig) → Memᴰ o c.orgs → IsNamed o.name
  pub orgs_differ : Apart org_key c.orgs
  pub some_token : c.tokens ≢ []
  pub tokens_usable : (t : TokenConfig) → Memᴰ t c.tokens → IsUsable t
  pub tokens_differ : Apart token_key c.tokens
  pub exempt_accounts : (e : ExemptAuthor) → Memᴰ e c.exemptions.authors → IsAccount e
  pub checks_named : (rc : CheckConfig) → Memᴰ rc c.audit_rules.required_checks → IsNamed rc.name

empty_iff {ℓ} : {A : Type ℓ} (xs : List A) → ((length xs == 0) ≡ true) ↔ (xs ≡ [])
empty_iff [] = (λ h. refl, λ h. refl)
empty_iff (x ∷ xs) = (λ h. absurd (ground arith), λ h. cc)

check_org_iff :
    (i : ℕ) (b : Bool) (o : OrgConfig) → (check_org i b o ≡ none) ↔ (IsNamed o.name × (b ≡ false))
check_org_iff i b o = ground (arith, text_beq_iff (trim_space o.name) [])

check_check_iff : (i : ℕ) (rc : CheckConfig) → (check_check i rc ≡ none) ↔ IsNamed rc.name
check_check_iff i rc = ground (arith, text_beq_iff (trim_space rc.name) [])

check_exempt_iff : (i : ℕ) (e : ExemptAuthor) → (check_exempt i e ≡ none) ↔ IsAccount e
check_exempt_iff i e = ground (arith, empty_iff e.verified_emails)

module _ (i : ℕ) (t : TokenConfig) where
  check_kind-IsCredential : check_kind i t ≡ none → IsCredential t
  check_kind-IsCredential h = elim (Bool-cases (t.kind == text "pat")) [
    | inl e ↦
        of_user ((text_beq_iff t.kind (text "pat")).0 e) (ground (arith, h, text_beq_iff t.env []))
    | inr e ↦
        of_app (ground (arith, h, text_beq_iff t.kind (text "app"))) (ground (arith, h))
          (ground (arith, h))
          (ground (arith, h, text_beq_iff t.private_key_path [], text_beq_iff t.private_key_env []))
  ]

  check_kind_of : IsCredential t → check_kind i t ≡ none
  unfolding text_beq
  check_kind_of (of_user k e) = rw k (ground (arith, e, text_beq_iff t.env []))
  check_kind_of (of_app k a n p) = rw k (
      ground
        (arith, a, n, p, text_beq_iff t.private_key_path [], text_beq_iff t.private_key_env []))

  usable : check_token i false t ≡ none → IsUsable t × (false ≡ false)
  usable h =
      let (kind, scopes) = (then_check_iff _ _).0 h in
      ((check_kind-IsCredential kind, ground (arith, scopes, empty_iff t.scopes)), refl)

  checked : IsUsable t → check_token i false t ≡ none
  checked (c, s) =
      (then_check_iff (check_kind i t) _).1 (check_kind_of c, ground (arith, s, empty_iff t.scopes))

check_token_iff :
    (i : ℕ) (b : Bool) (t : TokenConfig) → (check_token i b t ≡ none) ↔ (IsUsable t × (b ≡ false))
check_token_iff i true t = (λ h. cc, λ h. cc)
check_token_iff i false t = (usable i t, λ h. checked i t h.0)

review_scope_iff :
    (s : Text)
    → (check_review_scope s ≡ none) ↔ ((s ≡ []) ⊎ ((s ≡ text "landing") ⊎ (s ≡ text "content")))
review_scope_iff s =
    ground
      (arith, text_beq_iff s [], text_beq_iff s (text "landing"), text_beq_iff s (text "content"))

signing_policy_iff :
    (s : Text)
    → (check_signing_policy s ≡ none) ↔ ((s ≡ []) ⊎ ((s ≡ text "optional") ⊎ (s ≡ text "required")))
signing_policy_iff s =
    ground
      (arith, text_beq_iff s [], text_beq_iff s (text "optional"), text_beq_iff s (text "required"))

some_iff {ℓ} :
    {A : Type ℓ} (e : ConfigError) (xs : List A)
    → ((if length xs == 0 then some e else none) ≡ none) ↔ (xs ≢ [])
some_iff e [] = (λ h. absurd cc, λ h. absurd (h refl))
some_iff e (x ∷ xs) = (λ h k. cc, λ h. ground arith)

module _ (c : Config) where
  orgs_loop :
      (each_new org_key check_org 0 [] c.orgs ≡ none)
      ↔ (((o : OrgConfig) → Memᴰ o c.orgs → IsNamed o.name) × Apart org_key c.orgs)
  orgs_loop =
      let (there, back) =
        each_new_iff (λ o. IsNamed o.name) org_key check_org check_org_iff 0 [] c.orgs in
      (λ h. (λ o m. ((there h).0 o m).0, (there h).1), λ h. back (λ o m. (h.0 o m, refl), h.1))

  tokens_loop :
      (each_new token_key check_token 0 [] c.tokens ≡ none)
      ↔ (((t : TokenConfig) → Memᴰ t c.tokens → IsUsable t) × Apart token_key c.tokens)
  tokens_loop =
      let (there, back) =
        each_new_iff IsUsable token_key check_token check_token_iff 0 [] c.tokens in
      (λ h. (λ t m. ((there h).0 t m).0, (there h).1), λ h. back (λ t m. (h.0 t m, refl), h.1))

  exempt_loop :
      (each check_exempt 0 c.exemptions.authors ≡ none)
      ↔ ((e : ExemptAuthor) → Memᴰ e c.exemptions.authors → IsAccount e)
  exempt_loop = each_iff IsAccount check_exempt check_exempt_iff 0 c.exemptions.authors

  checks_loop :
      (each check_check 0 c.audit_rules.required_checks ≡ none)
      ↔ ((rc : CheckConfig) → Memᴰ rc c.audit_rules.required_checks → IsNamed rc.name)
  checks_loop =
      each_iff (λ rc. IsNamed rc.name) check_check check_check_iff 0 c.audit_rules.required_checks

  passes : validate c ≡ none → IsValid c
  unfolding validate
  passes h =
      let (some_org, h1) = (then_check_iff _ _).0 h in
      let (scope, h2) = (then_check_iff _ _).0 h1 in
      let (policy, h3) = (then_check_iff _ _).0 h2 in
      let (orgs, h4) = (then_check_iff _ _).0 h3 in
      let (some_token, h5) = (then_check_iff _ _).0 h4 in
      let (tokens, h6) = (then_check_iff _ _).0 h5 in
      let (exempt, checks) = (then_check_iff _ _).0 h6 in
      let (orgs_good, orgs_differ) = orgs_loop.0 orgs in
      let (tokens_good, tokens_differ) = tokens_loop.0 tokens in
      record {
        some_org = (some_iff no_org c.orgs).0 some_org;
        review_scope = (review_scope_iff c.audit_rules.review_scope).0 scope;
        signing_policy = (signing_policy_iff c.audit_rules.signing_policy).0 policy;
        orgs_named = orgs_good;
        orgs_differ = orgs_differ;
        some_token = (some_iff no_token c.tokens).0 some_token;
        tokens_usable = tokens_good;
        tokens_differ = tokens_differ;
        exempt_accounts = exempt_loop.0 exempt;
        checks_named = checks_loop.0 checks;
      }

  accepted : IsValid c → validate c ≡ none
  unfolding validate
  accepted v = (then_check_iff (if length c.orgs == 0 then some no_org else none) _).1 (
    (some_iff no_org c.orgs).1 v.some_org,
    (then_check_iff (check_review_scope c.audit_rules.review_scope) _).1 (
      (review_scope_iff c.audit_rules.review_scope).1 v.review_scope,
      (then_check_iff (check_signing_policy c.audit_rules.signing_policy) _).1 (
        (signing_policy_iff c.audit_rules.signing_policy).1 v.signing_policy,
        (then_check_iff (each_new org_key check_org 0 [] c.orgs) _).1 (
          orgs_loop.1 (v.orgs_named, v.orgs_differ),
          (then_check_iff (if length c.tokens == 0 then some no_token else none) _).1 (
            (some_iff no_token c.tokens).1 v.some_token,
            (then_check_iff (each_new token_key check_token 0 [] c.tokens) _).1 (
              tokens_loop.1 (v.tokens_usable, v.tokens_differ),
              (then_check_iff (each check_exempt 0 c.exemptions.authors) _).1
                  (exempt_loop.1 v.exempt_accounts, checks_loop.1 v.checks_named),
            ),
          ),
        ),
      ),
    ),
  )

-- Validation passes exactly the valid configurations.
pub validate_iff : (c : Config) → (validate c ≡ none) ↔ IsValid c
validate_iff c = (passes c, accepted c)
