-- ===== src/Config/Validation.antt =====
-- validate of config.go, and Load, which calls it.
pub mod Loops
pub mod Valid
use gh_audit.Prelude.{
  ℕ, suc, ◌+◌, Bool, ◌&&◌, ◌||◌, Option, none, some, List, [], ◌∷◌, ◌++◌, arith, ltb, if◌then◌else◌,
  ◌==◌, nat_eq, text_eq, length, any,
}
use gh_audit.Text.{Text, text, to_lower, trim_space}
use gh_audit.Text.Decimal.{itoa}
use gh_audit.Model.{ExemptAuthor, ghost_user_id}
use gh_audit.Config.{Config, OrgConfig, TokenConfig, CheckConfig, Home, apply_defaults}

-- The errors, each with the values that its text shows.
pub data ConfigError : Type 0 where
  no_org no_token : ConfigError
  bad_review_scope bad_signing_policy duplicate_org duplicate_token : Text → ConfigError
  unnamed_org no_env no_app_id no_installation_id no_private_key no_scope unnamed_check :
      ℕ → ConfigError
  bad_kind verified_emails_set no_exempt_id ghost_exempt : ℕ → Text → ConfigError

-- The error that is returned first.
abbrev pub then_check : Option ConfigError → Option ConfigError → Option ConfigError
then_check none later = later
then_check (some e) later = some e

-- A loop over a list with its indices that returns the first error.
unfoldable pub each {ℓ} :
    {A : Type ℓ} → (ℕ → A → Option ConfigError) → ℕ → List A → Option ConfigError
each check i [] = none
each check i (x ∷ xs) = then_check (check i x) (each check (suc i) xs)

-- Such a loop with the set of the keys that it has seen.
unfoldable pub each_new {ℓ} :
    {A : Type ℓ}
    → (A → Text)
    → (ℕ → Bool → A → Option ConfigError)
    → ℕ
    → List Text
    → List A
    → Option ConfigError
each_new key check i seen [] = none
each_new key check i seen (x ∷ xs) =
    then_check (check i (any (λ k. k == key x) seen) x)
      (each_new key check (suc i) (key x ∷ seen) xs)

abbrev pub org_key : OrgConfig → Text
org_key o = to_lower o.name

-- The body of the loop over the orgs, where `seen` is `seenOrgs[key]`.
abbrev pub check_org : ℕ → Bool → OrgConfig → Option ConfigError
check_org i seen o =
    if trim_space o.name == []
    then some (unnamed_org i)
    else if seen
    then some (duplicate_org o.name)
    else none

-- The key under which the pool holds a token.
abbrev pub token_key : TokenConfig → Text
token_key t =
    if t.env == []
    then text "app:" ++ itoa t.app_id ++ text ":" ++ itoa t.installation_id
    else t.env

abbrev pub check_kind : ℕ → TokenConfig → Option ConfigError
check_kind i t =
    if t.kind == text "pat"
    then if t.env == [] then some (no_env i) else none
    else if t.kind == text "app"
    then if t.app_id == 0
      then some (no_app_id i)
      else if t.installation_id == 0
      then some (no_installation_id i)
      else if t.private_key_path == [] && t.private_key_env == []
      then some (no_private_key i)
      else none
    else some (bad_kind i t.kind)

-- The body of the loop over the tokens.
abbrev pub check_token : ℕ → Bool → TokenConfig → Option ConfigError
check_token i seen t =
    if seen
    then some (duplicate_token (token_key t))
    else then_check (check_kind i t) (if length t.scopes == 0 then some (no_scope i) else none)

abbrev pub check_exempt : ℕ → ExemptAuthor → Option ConfigError
check_exempt i e =
    if ltb 0 (length e.verified_emails)
    then some (verified_emails_set i e.login)
    else if e.id == 0
    then some (no_exempt_id i e.login)
    else if e.id == ghost_user_id
    then some (ghost_exempt i e.login)
    else none

abbrev pub check_check : ℕ → CheckConfig → Option ConfigError
check_check i rc = if trim_space rc.name == [] then some (unnamed_check i) else none

abbrev pub check_review_scope : Text → Option ConfigError
check_review_scope s =
    if s == [] || s == text "landing" || s == text "content"
    then none
    else some (bad_review_scope s)

abbrev pub check_signing_policy : Text → Option ConfigError
check_signing_policy s =
    if s == [] || s == text "optional" || s == text "required"
    then none
    else some (bad_signing_policy s)

-- validate; none is nil.
unfoldable pub validate : Config → Option ConfigError
unfolding each each_new
validate c = then_check (if length c.orgs == 0 then some no_org else none) (
    then_check (check_review_scope c.audit_rules.review_scope) (
      then_check (check_signing_policy c.audit_rules.signing_policy) (
        then_check (each_new org_key check_org 0 [] c.orgs) (
          then_check (if length c.tokens == 0 then some no_token else none) (
            then_check (each_new token_key check_token 0 [] c.tokens) (
              then_check (each check_exempt 0 c.exemptions.authors)
                (each check_check 0 c.audit_rules.required_checks)))))))

-- os.ReadFile and yaml.Unmarshal, none where they fail.
pub record Files : Type 0 where
  pub read_file : Text → Option Text
  pub unmarshal : Text → Option Config

pub data Loaded : Type 0 where
  loaded : Config → Loaded
  unreadable unparsable : Loaded
  invalid : ConfigError → Loaded

-- Load
unfoldable pub load : Files → Home → Text → Loaded
load files h path = elim (files.read_file path) [
  | none ↦ unreadable
  | some bytes ↦ elim (files.unmarshal bytes) [
    | none ↦ unparsable
    | some cfg ↦
        let c = apply_defaults h cfg in elim (validate c) [ none ↦ loaded c | some e ↦ invalid e ]
  ]
]
