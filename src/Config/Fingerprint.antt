-- ===== src/Config/Fingerprint.antt =====
-- internal/config/fingerprint.go: the canonical form of the settings that decide verdicts, and its
-- digest.
pub mod Canonical
use gh_audit.Prelude.{
  sort, TotalOrder, ℕ, ◌/◌, ◌≡◌, Bool, true, false, List, map, arith, leb, if◌then◌else◌, nat_eq,
  text_beq_iff, text_eq, ◌/=◌,
}
use gh_audit.Text.{Text, text}
use gh_audit.Model.{ExemptAuthor}
use gh_audit.Github.Diff.{text_leb}
use gh_audit.Github.Diff.Order.{text_leb_total, text_leb_antisym, text_leb_trans}
use gh_audit.Config.{Config, CheckConfig, or_text}

-- checkFP
pub record CheckFp : Type 0 where
  pub name : Text
  pub conclusion : Text

-- canonical; an exemptFP is its one field, the id.
pub record CanonicalRules : Type 0 where
  pub signing_policy : Text
  pub review_scope : Text
  pub audit_branches : List Text
  pub required_checks : List CheckFp
  pub exempt_ids : List ℕ

-- sort.Strings
abbrev pub text_order : TotalOrder Text
text_order = record {
  leq = text_leb;
  total = text_leb_total;
  antisym = text_leb_antisym;
  leq_trans = text_leb_trans;
}

pub leb_total : (x y : ℕ) → leb x y ≡ false → leb y x ≡ true
leb_total x y h = ground arith

pub leb_antisym : (x y : ℕ) → leb x y ≡ true → leb y x ≡ true → x ≡ y
leb_antisym x y h k = ground arith

pub leb_trans : (x y z : ℕ) → leb x y ≡ true → leb y z ≡ true → leb x z ≡ true
leb_trans x y z h k = ground arith

abbrev pub id_order : TotalOrder ℕ
id_order = record { leq = leb; total = leb_total; antisym = leb_antisym; leq_trans = leb_trans }

-- The order of the checks, by name and then by conclusion.
abbrev pub check_leb : CheckFp → CheckFp → Bool
check_leb a b =
    if a.name /= b.name then text_leb a.name b.name else text_leb a.conclusion b.conclusion

pub check_leb_total : (x y : CheckFp) → check_leb x y ≡ false → check_leb y x ≡ true
check_leb_total x y h = ground (
  arith,
  h,
  text_beq_iff x.name y.name,
  text_beq_iff y.name x.name,
  text_leb_total x.name y.name,
  text_leb_total x.conclusion y.conclusion,
)

pub check_leb_antisym : (x y : CheckFp) → check_leb x y ≡ true → check_leb y x ≡ true → x ≡ y
check_leb_antisym x y h k =
    let names : x.name ≡ y.name = ground (
      arith,
      h,
      k,
      text_beq_iff x.name y.name,
      text_beq_iff y.name x.name,
      text_leb_antisym x.name y.name,
    ) in
    let conclusions : x.conclusion ≡ y.conclusion = ground (
      arith,
      h,
      k,
      names,
      text_beq_iff x.name y.name,
      text_beq_iff y.name x.name,
      text_leb_antisym x.conclusion y.conclusion,
    ) in
    cc

pub check_leb_trans :
    (x y z : CheckFp) → check_leb x y ≡ true → check_leb y z ≡ true → check_leb x z ≡ true
check_leb_trans x y z h k = ground (
  arith,
  h,
  k,
  text_beq_iff x.name y.name,
  text_beq_iff y.name z.name,
  text_beq_iff x.name z.name,
  text_leb_trans x.name y.name z.name,
  text_leb_trans x.conclusion y.conclusion z.conclusion,
  text_leb_antisym x.name y.name,
)

abbrev pub check_order : TotalOrder CheckFp
check_order = record {
  leq = check_leb;
  total = check_leb_total;
  antisym = check_leb_antisym;
  leq_trans = check_leb_trans;
}

abbrev pub check_fp : CheckConfig → CheckFp
check_fp rc = record { name = rc.name; conclusion = or_text rc.conclusion (text "success") }

abbrev pub exempt_id : ExemptAuthor → ℕ
exempt_id e = e.id

unfoldable pub canonical : Config → CanonicalRules
unfolding sort
canonical c = record {
  signing_policy = or_text c.audit_rules.signing_policy (text "optional");
  review_scope = or_text c.audit_rules.review_scope (text "landing");
  audit_branches = sort text_order c.audit_rules.audit_branches;
  required_checks = sort check_order (map check_fp c.audit_rules.required_checks);
  exempt_ids = sort id_order (map exempt_id c.exemptions.authors);
}

-- AuditFingerprint; `marshal` is json.Marshal, and `sha256_hex` the digest in hexadecimal.
unfoldable pub audit_fingerprint : (CanonicalRules → Text) → (Text → Text) → Config → Text
unfolding canonical
audit_fingerprint marshal sha256_hex c = sha256_hex (marshal (canonical c))
