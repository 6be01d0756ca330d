-- ===== src/Matching/Matches.antt =====
-- `MatchService` of app/services/match_service.py.
use matchmaking_backend.Prelude.{ℕ, ◌&&◌, not, Option, none, some, List, [], ◌==◌, first, update}
use matchmaking_backend.Errors.{Error, Code}
use matchmaking_backend.Enums.{MatchStatus}
use matchmaking_backend.Models.{Json, User, Match}
use matchmaking_backend.World.{
  Exec, pure, or_raise, raise_if, gets, modify, get_user, audit, ◌>>=◌, ◌>>◌,
}
use matchmaking_backend.Matching.Queries.{get_active_between, other_user_id}

-- The assignments of a status and of `unmatched_at` to the row of one match.
abbrev pub end_match : ℕ → MatchStatus → ℕ → List Match → List Match
end_match id status now =
    update (λ m. m.id == id) (λ m. record m { status = status; unmatched_at = some now })

unfoldable pub get_for_user : User → ℕ → Exec Match
get_for_user user match_id = do
  found ← gets (λ w. first (λ m. m.id == match_id) w.matches)
  m ← or_raise found (Error.not_found Code.match_not_found)
  raise_if (not (m.user1_id == user.id) && not (m.user2_id == user.id))
      (Error.forbidden Code.forbidden_code)
  pure m

unfoldable pub other_user : Match → ℕ → Exec User
other_user m me = do
  found ← gets (get_user (other_user_id m me))
  or_raise found (Error.not_found Code.user_not_found)

unfoldable pub unmatch : User → ℕ → ℕ → Exec (Unit {0})
unmatch user match_id now = do
  m ← get_for_user user match_id
  modify (λ w. record w { matches = end_match m.id MatchStatus.unmatched now w.matches })
  audit "match.unmatch" (some user.id) "match" (Json.uuid m.id) [] now

-- `if match: match.status = BLOCKED; match.unmatched_at = now`.
abbrev pub end_found : Option Match → ℕ → List Match → List Match
end_found none now ms = ms
end_found (some m) now ms = end_match m.id MatchStatus.blocked now ms

unfoldable pub block_and_unmatch : ℕ → ℕ → ℕ → Exec (Unit {0})
block_and_unmatch blocker blocked_user now =
    modify λ w. record w {
      matches = end_found (get_active_between blocker blocked_user w) now w.matches;
    }
