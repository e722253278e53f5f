-- ===== src/Audit/Exempt.antt =====
-- Rule 1 of audit.go: who is exempt, and what a squash may carry.
pub mod Identity
pub mod Contributions
use gh_audit.Prelude.{
  ℕ, Bool, true, false, not, ◌&&◌, none, some, List, ◌==◌, ◌/=◌, nat_eq, if◌then◌else◌, any,
  Outcome, ok, failed,
}
use gh_audit.Text.{Text, text, equal_fold}
use gh_audit.Model.{Commit, BranchCommits, ExemptAuthor, trusted_id}
use gh_audit.Audit.Types.{StatsFetcher, Stats, StatsTrigger, exemption, has_content}

-- idExempt
unfoldable pub id_exempt : ℕ → List ExemptAuthor → Bool
unfolding trusted_id
id_exempt id exempt_authors =
    if not (trusted_id id) then false else any (λ e. e.id /= 0 && e.id == id) exempt_authors

-- verifiedExemptSigner
unfoldable pub verified_exempt_signer : Commit → List ExemptAuthor → Bool
verified_exempt_signer commit exempt_authors =
    if not commit.is_verified
    then false
    else if id_exempt commit.committer_id exempt_authors
    then true
    else equal_fold commit.committer_login (text "web-flow")
      && id_exempt commit.author_id exempt_authors

-- exemptStatus: (exempt, forgeable)
unfoldable pub exempt_status : Commit → List ExemptAuthor → Bool → Bool × Bool
exempt_status commit exempt_authors require_signing =
    if verified_exempt_signer commit exempt_authors
    then (true, false)
    else if not require_signing && id_exempt commit.author_id exempt_authors
    then (true, true)
    else (false, false)

-- isExemptCommit
unfoldable pub is_exempt_commit : Commit → List ExemptAuthor → Bool → Bool
unfolding exempt_status
is_exempt_commit commit exempt_authors require_signing =
    (exempt_status commit exempt_authors require_signing).0

-- What a fetch says of a commit: content, or an emptiness that cannot be verified.
abbrev pub fetched_content : Outcome Stats → Bool
fetched_content failed = true
fetched_content (ok s) = has_content s.additions s.deletions s.files_changed

abbrev pub fetch_content : StatsFetcher → StatsTrigger → Text → Text → Text → Bool
fetch_content none trigger org repo sha = true
fetch_content (some fetch) trigger org repo sha = fetched_content (fetch trigger org repo sha)

-- The body of the loops of hasNonExemptPRContributors: true is its `return true`.
unfoldable pub contributes : Text → Text → List ExemptAuthor → StatsFetcher → Bool → Commit → Bool
contributes org repo exempt_authors fetch_stats require_signing c =
    if is_exempt_commit c exempt_authors require_signing
    then false
    else if c.additions == 0 && c.deletions == 0 && not c.stats_verified
    then fetch_content fetch_stats exemption org repo c.sha
    else has_content c.additions c.deletions c.files_changed

-- hasNonExemptPRContributors
unfoldable pub has_non_exempt_pr_contributors :
    Text → Text → BranchCommits → List ExemptAuthor → StatsFetcher → Bool → Bool
has_non_exempt_pr_contributors org repo branches exempt_authors fetch_stats require_signing =
    any
      (λ (entry : ℕ × List Commit).
        any (contributes org repo exempt_authors fetch_stats require_signing) entry.1)
      branches
