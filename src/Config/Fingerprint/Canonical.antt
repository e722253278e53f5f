-- ===== src/Config/Fingerprint/Canonical.antt =====
-- The canonical form holds the rules and nothing else.
use gh_audit.Model.{ExemptAuthor}
use gh_audit.Prelude.{
  List, [], ◌∷◌, text_beq, ◌==◌, if◌then◌else◌, sort_congr, sort_iff, ◌≡◌, refl, ap, ◌↔◌, map,
  nat_eq, text_eq,
}
use mathlib.Core.List.Permᴰ
use mathlib.Core.List.{Permᴰ}
use gh_audit.Text.{Text, text}
use gh_audit.Config.{CheckConfig, Config, or_text}
use gh_audit.Config.Fingerprint.{
  CheckFp, canonical, check_fp, exempt_id, text_order, check_order, id_order,
}

-- What a required check demands: the conclusion, which is success where none is given, of its name.
abbrev pub demanded : CheckConfig → Text × Text
demanded rc = (rc.name, if rc.conclusion == [] then text "success" else rc.conclusion)

-- Two configurations with the same rules, each list in any order; names of accounts do not matter.
pub record SameRules (c d : Config) : Type 0 where
  pub signing :
      or_text c.audit_rules.signing_policy (text "optional")
      ≡ or_text d.audit_rules.signing_policy (text "optional")
  pub scope :
      or_text c.audit_rules.review_scope (text "landing")
      ≡ or_text d.audit_rules.review_scope (text "landing")
  pub branches : Permᴰ c.audit_rules.audit_branches d.audit_rules.audit_branches
  pub checks :
      Permᴰ
        (map demanded c.audit_rules.required_checks)
        (map demanded d.audit_rules.required_checks)
  pub accounts :
      Permᴰ
        (map (λ (e : ExemptAuthor). e.id) c.exemptions.authors)
        (map (λ (e : ExemptAuthor). e.id) d.exemptions.authors)

to_fp : Text × Text → CheckFp
to_fp x = record { name = x.0; conclusion = x.1 }

of_fp : CheckFp → Text × Text
of_fp x = (x.name, x.conclusion)

conclusion_of : (t : Text) → or_text t (text "success") ≡ (if t == [] then text "success" else t)
conclusion_of [] = unfold text_beq in refl
conclusion_of (c ∷ t) = unfold text_beq in refl

map-to_fp : (rcs : List CheckConfig) → map to_fp (map demanded rcs) ≡ map check_fp rcs
unfolding to_fp
map-to_fp [] = refl
map-to_fp (rc ∷ rcs) = rw (conclusion_of rc.conclusion, map-to_fp rcs) refl

map-of_fp : (rcs : List CheckConfig) → map of_fp (map check_fp rcs) ≡ map demanded rcs
unfolding of_fp
map-of_fp [] = refl
map-of_fp (rc ∷ rcs) = rw (conclusion_of rc.conclusion, map-of_fp rcs) refl

demands_iff :
    (xs ys : List CheckConfig)
    → Permᴰ (map check_fp xs) (map check_fp ys) ↔ Permᴰ (map demanded xs) (map demanded ys)
demands_iff xs ys = (
  (λ p. rw (← map-of_fp xs, ← map-of_fp ys) (Permᴰ.map of_fp p)),
  (λ p. rw (← map-to_fp xs, ← map-to_fp ys) (Permᴰ.map to_fp p)),
)

-- Two configurations have one canonical form, which the fingerprint digests, exactly when their
-- rules are the same: no order or default spelling shows in it, and no difference in the rules is
-- lost.
pub canonical_iff : (c d : Config) → (canonical c ≡ canonical d) ↔ SameRules c d
unfolding canonical
canonical_iff c d = (there, back)
  where
    there : canonical c ≡ canonical d → SameRules c d
    there e = record {
      signing = ap (λ r. r.signing_policy) e;
      scope = ap (λ r. r.review_scope) e;
      branches =
          (sort_iff text_order c.audit_rules.audit_branches d.audit_rules.audit_branches).0
            (ap (λ r. r.audit_branches) e);
      checks = (demands_iff c.audit_rules.required_checks d.audit_rules.required_checks).0 (
          (sort_iff check_order (map check_fp c.audit_rules.required_checks)
              (map check_fp d.audit_rules.required_checks)).0
            (ap (λ r. r.required_checks) e));
      accounts =
          (sort_iff id_order (map exempt_id c.exemptions.authors)
              (map exempt_id d.exemptions.authors)).0
            (ap (λ r. r.exempt_ids) e);
    }

    back : SameRules c d → canonical c ≡ canonical d
    back s =
        rw
          (
            s.signing,
            s.scope,
            sort_congr text_order s.branches,
            sort_congr check_order (
                (demands_iff c.audit_rules.required_checks d.audit_rules.required_checks).1
                  s.checks),
            sort_congr id_order s.accounts,
          )
          refl
