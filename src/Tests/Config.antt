-- ===== src/Tests/Config.antt =====
-- The theorems on the configuration at concrete inputs.
use gh_audit.Prelude.{
  ◌≡◌, refl, ◌↔◌, true, false, none, some, [], ◌∷◌, Memᴰ, nat_eq, text_beq, text_eq,
}
use gh_audit.Text.{Text, text, join}
use gh_audit.Model.{Commit, ExemptAuthor}
use gh_audit.Audit.Exempt.{exempt_status}
use gh_audit.Config.{Config, Home, OrgConfig, TokenConfig, CheckConfig, zero_config, apply_defaults}
use gh_audit.Config.Validation.{Files, loaded, load, validate, duplicate_org}
use gh_audit.Config.Validation.Valid.{IsValid, validate_iff}
use gh_audit.Config.Loading.{loaded-exempts}
use gh_audit.Config.Fingerprint.{canonical}
use gh_audit.Config.Fingerprint.Canonical.{SameRules, canonical_iff}
use gh_audit.Tests.Samples.{some_commit}

abbrev acme : OrgConfig
acme = record { name = text "Acme"; repos = []; exclude_repos = []; branches = [] }

abbrev our_app : TokenConfig
our_app = record {
  kind = text "app";
  env = [];
  app_id = 12;
  installation_id = 34;
  private_key_path = text "~/key.pem";
  private_key_env = [];
  scopes = record { org = text "Acme"; repos = [] } ∷ [];
}

abbrev robot : ExemptAuthor
robot = record {
  login = text "robot";
  id = 7;
  kind = text "bot";
  name = [];
  comment = [];
  verified_emails = [];
}

abbrev build : CheckConfig
build = record { name = text "build"; conclusion = [] }

abbrev written : Config
written = record zero_config {
  orgs = acme ∷ [];
  tokens = our_app ∷ [];
  audit_rules = record zero_config.audit_rules {
    required_checks = build ∷ [];
    audit_branches = text "main" ∷ text "dev" ∷ [];
  };
  exemptions = record { authors = robot ∷ [] };
}

-- The same rules, in another order and with the defaults spelt out.
abbrev rewritten : Config
rewritten = record written {
  audit_rules = record {
    required_checks = record { name = text "build"; conclusion = text "success" } ∷ [];
    audit_branches = text "dev" ∷ text "main" ∷ [];
    review_scope = text "landing";
    signing_policy = text "optional";
  };
  exemptions = record { authors = record robot { login = text "renamed" } ∷ [] };
}

abbrev home : Home
home = record { dir = some (text "/home/ada"); join_path = join (text "/") }

abbrev files : Files
files = record { read_file = λ path. some []; unmarshal = λ bytes. some written }

abbrev path : Text
path = text "config.yaml"

abbrev ready : Config
ready = apply_defaults home written

is_loaded : load files home path ≡ loaded ready
unfolding load validate apply_defaults text_beq gh_audit.Text.trim_space gh_audit.Text.has_prefix
    join
is_loaded = refl

twice :
    validate (record ready { orgs = acme ∷ record acme { name = text "ACME" } ∷ [] })
    ≡ some (duplicate_org (text "ACME"))
unfolding validate text_beq apply_defaults gh_audit.Text.trim_space gh_audit.Text.to_lower
twice = refl

validate_iff_example : (validate ready ≡ none) ↔ IsValid ready
validate_iff_example = validate_iff ready

abbrev by_robot : Commit
by_robot = record some_commit { is_verified = true; committer_id = 7 }

loaded-exempts_example : exempt_status by_robot (robot ∷ []) false ≡ (true, false)
unfolding apply_defaults text_beq
loaded-exempts_example =
    loaded-exempts files home path ready robot by_robot is_loaded (Memᴰ.head refl) refl refl

canonical_iff_example : (canonical written ≡ canonical rewritten) ↔ SameRules written rewritten
canonical_iff_example = canonical_iff written rewritten

one_form : canonical written ≡ canonical rewritten
unfolding canonical gh_audit.Github.Diff.text_leb
one_form = refl
