-- ===== src/Github/TokenPool/RoundTrip/Reassign.antt =====
-- RoundTrip of tokenpool.go: one request and its moves to other tokens.
use gh_audit.Prelude.{
  ℕ, zero, suc, ◌+◌, Bool, true, false, List, [], ◌∷◌, if◌then◌else◌, ◌==◌, nat_eq, text_eq,
}
use gh_audit.Text.{Text, text, trim, split_at}
use gh_audit.Github.TokenPool.{TokenPool}
use gh_audit.Github.TokenPool.Pick.{token_at, none_serves, pick_cancelled, out_of_rounds, pick}
use gh_audit.Github.TokenPool.RoundTrip.{
  Outside, World, TripError, Trip, responded, refused, secondary_rate_limit, primary_rate_limit,
  other_error, do_round_trip,
}

-- parseOrgRepoFromPath
unfoldable pub parse_org_repo_from_path : Text → Text × Text
parse_org_repo_from_path path = of_parts (split_at b'/' (trim b'/' path))
  where
    of_parts : List Text → Text × Text
    of_parts (kind ∷ org ∷ repo ∷ parts) =
        if kind == text "repos"
        then (org, repo)
        else if kind == text "orgs"
        then (org, [])
        else ([], [])
    of_parts (kind ∷ org ∷ []) = if kind == text "orgs" then (org, []) else ([], [])
    of_parts (kind ∷ []) = ([], [])
    of_parts [] = ([], [])

-- maxRateLimitReassigns
abbrev pub max_rate_limit_reassigns : ℕ
max_rate_limit_reassigns = 30

abbrev pub is_rate_limit : TripError → Bool
is_rate_limit (secondary_rate_limit secs msg) = true
is_rate_limit (primary_rate_limit id at msg) = true
is_rate_limit (other_error msg) = false

abbrev pub count_reassign : TokenPool → TokenPool
count_reassign p = record p { token_reassigns = p.token_reassigns + 1 }

abbrev pub repick_failed : TripError
repick_failed = other_error (text "re-pick failed")

-- The loop of RoundTrip, with `left` moves to another token.
unfoldable pub reassign : Outside → Text → Text → ℕ → World → Trip × World
unfolding do_round_trip
reassign o org repo zero w =
    (refused (other_error (text "rate limit exhausted across 30 token reassigns")), w)
reassign o org repo (suc left) w =
    let (r, later, p) = pick o.clock org repo w.pool w.now in
    elim r [
      | token_at j ↦
          let (t, w') = do_round_trip o j (record w { pool = count_reassign p; now = later }) in
          elim t [
            | responded resp ↦ (responded resp, w')
            | refused e ↦ elim (is_rate_limit e) [
              | true ↦ reassign o org repo left w'
              | false ↦ (refused e, w')
            ]
          ]
      | none_serves ↦ (refused repick_failed, record w { now = later })
      | pick_cancelled ↦ (refused repick_failed, record w { now = later })
      | out_of_rounds ↦ (refused repick_failed, record w { now = later })
    ]

-- RoundTrip of the transport that holds the token of a position.
unfoldable pub round_trip : Outside → Text → ℕ → World → Trip × World
unfolding do_round_trip reassign
round_trip o path i w =
    let (t, w') = do_round_trip o i w in
    elim t [
      | responded resp ↦ (responded resp, w')
      | refused e ↦ elim (is_rate_limit e) [
        | true ↦
            let (org, repo) = parse_org_repo_from_path path in
            reassign o org repo max_rate_limit_reassigns w'
        | false ↦ (refused e, w')
      ]
    ]
