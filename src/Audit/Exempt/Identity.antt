-- ===== src/Audit/Exempt/Identity.antt =====
-- Who is exempt under rule 1, and what the signing policy changes.
use gh_audit.Text.{text, equal_fold}
use gh_audit.Audit.Exempt.{verified_exempt_signer, id_exempt, exempt_status}
use gh_audit.Model.{trusted_id, Commit, ExemptAuthor}
use gh_audit.Prelude.{
  ℕ, ◌≡◌, ◌↔◌, ◌⊎◌, inl, inr, Bool, true, false, ◌&&◌, List, Memᴰ, arith, Bool-cases, ◌==◌, nat_eq,
  text_eq, ◌/=◌, any_elim, any_intro,
}

-- An account on the list of exempt authors; no account is 0 or the ghost's.
pub record OnList (id : ℕ) (exempt_authors : List ExemptAuthor) : Type 0 where
  pub trusted : trusted_id id ≡ true
  pub entry : ExemptAuthor
  pub listed : Memᴰ entry exempt_authors
  pub same : entry.id ≡ id

id_exempt_iff : (id : ℕ) (es : List ExemptAuthor) → (id_exempt id es ≡ true) ↔ OnList id es
id_exempt_iff id es = (there, back)
  where
    hits : ExemptAuthor → Bool
    hits e = e.id /= 0 && e.id == id

    there : id_exempt id es ≡ true → OnList id es
    there h =
        unfold id_exempt in
        (let hit = any_elim hits es (ground arith) in
          record {
            trusted = ground arith;
            entry = hit.0;
            listed = hit.1;
            same = ground (arith, hit.2);
          })

    back : OnList id es → id_exempt id es ≡ true
    back o =
        unfold id_exempt in
        ground (
          arith,
          o.trusted,
          any_intro hits o.listed (unfold trusted_id in ground (arith, o.trusted, o.same)),
        )

-- A verified signature vouches for an exempt account: the committer's own, or GitHub's web-flow,
-- which vouches for the author.
pub data Attested (commit : Commit) (exempt_authors : List ExemptAuthor) : Type 0 where
  by_committer :
      commit.is_verified ≡ true
      → OnList commit.committer_id exempt_authors
      → Attested commit exempt_authors
  by_web_flow :
      commit.is_verified ≡ true
      → equal_fold commit.committer_login (text "web-flow") ≡ true
      → OnList commit.author_id exempt_authors
      → Attested commit exempt_authors

pub verified_iff :
    (c : Commit) (es : List ExemptAuthor) → (verified_exempt_signer c es ≡ true) ↔ Attested c es
verified_iff c es = (there, back)
  where
    there : verified_exempt_signer c es ≡ true → Attested c es
    there h =
        unfold verified_exempt_signer in
        elim (Bool-cases (id_exempt c.committer_id es)) [
          | inl e ↦ by_committer (ground arith) ((id_exempt_iff c.committer_id es).0 e)
          | inr e ↦
              by_web_flow (ground arith) (ground arith)
                ((id_exempt_iff c.author_id es).0 (ground arith))
        ]

    back : Attested c es → verified_exempt_signer c es ≡ true
    back (by_committer v o) =
        unfold verified_exempt_signer in ground (arith, (id_exempt_iff c.committer_id es).1 o)
    back (by_web_flow v w o) =
        unfold verified_exempt_signer in ground (arith, (id_exempt_iff c.author_id es).1 o)

-- Where signing is required a commit is exempt exactly when it is attested, and never by the
-- forgeable author id; where it is not, an author id on the list is enough, and the exemption is
-- marked forgeable exactly when nothing attests it.
pub exempt_status_policy :
    (c : Commit) (es : List ExemptAuthor)
    → (((exempt_status c es true).0 ≡ true) ↔ Attested c es)
      × ((exempt_status c es true).1 ≡ false)
      × (((exempt_status c es false).0 ≡ true) ↔ (Attested c es ⊎ OnList c.author_id es))
      × (((exempt_status c es false).1 ≡ true) ↔ (OnList c.author_id es × ¬ Attested c es))
unfolding exempt_status
exempt_status_policy c es = (
  (λ h. signed.0 (ground arith), λ a. ground (arith, signed.1 a)),
  ground arith,
  (
    λ h. elim (Bool-cases (verified_exempt_signer c es)) [
      | inl e ↦ inl (signed.0 e)
      | inr e ↦ inr (claimed.0 (ground arith))
    ],
    λ j. elim j [ inl a ↦ ground (arith, signed.1 a) | inr o ↦ ground (arith, claimed.1 o) ],
  ),
  (
    λ h. (claimed.0 (ground arith), λ a. ground (arith, signed.1 a)),
    λ p. elim (Bool-cases (verified_exempt_signer c es)) [
      | inl e ↦ absurd (p.1 (signed.0 e))
      | inr e ↦ ground (arith, claimed.1 p.0)
    ],
  ),
)
  where
    signed : (verified_exempt_signer c es ≡ true) ↔ Attested c es
    signed = verified_iff c es

    claimed : (id_exempt c.author_id es ≡ true) ↔ OnList c.author_id es
    claimed = id_exempt_iff c.author_id es
