-- ===== src/Matching/Ending.antt =====
-- How a match ends: what `end_match` leaves of the match table.
use matchmaking_backend.Prelude.{
  ℕ, ◌≡◌, refl, if◌then◌else◌, ◌==◌, ==_refl, Option, none, some, List, [], ◌∷◌, arith, exists,
  first,
}
use matchmaking_backend.Enums.{MatchStatus}
use matchmaking_backend.Models.{Swipe, Match}
use matchmaking_backend.World.{World}
use matchmaking_backend.Matching.Queries.{
  is_pair, normalize, when_active, get_between, get_active_between,
}
use matchmaking_backend.Matching.Matches.{end_match, end_found}
use matchmaking_backend.Matching.Swipes.Consistent.{Consistent}

abbrev ended : ℕ → MatchStatus → ℕ → Match → Match
ended id status now m =
    if m.id == id then record m { status = status; unmatched_at = some now } else m

abbrev ended_found : ℕ → MatchStatus → ℕ → Option Match → Option Match
ended_found id status now none = none
ended_found id status now (some m) = some (ended id status now m)

module _ (id : ℕ) (status : MatchStatus) (now : ℕ) where
  -- Ending a match moves no match to another pair.
  pub first-end_match :
      (p : ℕ × ℕ) (ms : List Match)
      → first (is_pair p) (end_match id status now ms)
        ≡ ended_found id status now (first (is_pair p) ms)
  first-end_match p [] = refl
  first-end_match p (m ∷ ms) = ground (arith, first-end_match p ms)

  exists-end_match :
      (p : ℕ × ℕ) (ms : List Match)
      → exists (is_pair p) (end_match id status now ms) ≡ exists (is_pair p) ms
  exists-end_match p [] = refl
  exists-end_match p (m ∷ ms) = ground (arith, exists-end_match p ms)

  pub Consistent-end_match :
      (swipes : List Swipe) (ms : List Match)
      → Consistent swipes ms
      → Consistent swipes (end_match id status now ms)
  Consistent-end_match swipes [] h = tt
  Consistent-end_match swipes (m ∷ ms) h =
      ground
        (arith, Consistent-end_match swipes ms h.4, exists-end_match (m.user1_id, m.user2_id) ms)

-- After the active match of a pair is ended as BLOCKED, the pair has no active match.
module _ (a b now : ℕ) (w : World) where
  unblocked_pair :
      (o : Option Match)
      → get_between a b w ≡ o
      → when_active (first (is_pair (normalize a b)) (end_found (when_active o) now w.matches))
        ≡ none
  unblocked_pair none e = ground arith
  unblocked_pair (some m) e =
      ground (
        arith,
        first-end_match m.id MatchStatus.blocked now (normalize a b) w.matches,
        ==_refl m.id,
      )

  pub end_found-none :
      when_active
        (first (is_pair (normalize a b)) (end_found (get_active_between a b w) now w.matches))
      ≡ none
  end_found-none = unblocked_pair (get_between a b w) refl

-- The order in which the two are named does not matter.
pub normalize_comm : (a b : ℕ) → normalize a b ≡ normalize b a
normalize_comm a b = ground arith
