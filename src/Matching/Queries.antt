-- ===== src/Matching/Queries.antt =====
-- The repositories of app/repositories/swipe_repo.py, match_repo.py and moderation_repo.py (blocks).
use matchmaking_backend.Prelude.{
  ℕ, Bool, ◌&&◌, ◌||◌, Option, none, some, List, if◌then◌else◌, ◌==◌, ltb, leb, first, exists,
  select, add, map,
}
use matchmaking_backend.Errors.{Error, Fault}
use matchmaking_backend.Enums.{SwipeAction, MatchStatus, is_like, is_active_match, action_index}
use matchmaking_backend.Models.{Swipe, Match, Block}
use matchmaking_backend.World.{World, Exec, pure, raise_if, gets, modify, gen_uuid, ◌>>=◌, ◌>>◌}

-- `SwipeRepository.liked_by`: the clause of the query.
abbrev pub is_like_of : ℕ → ℕ → Swipe → Bool
is_like_of a b s = s.from_user_id == a && s.to_user_id == b && is_like s.action

abbrev pub liked_by : ℕ → ℕ → World → Option Swipe
liked_by user_id candidate_id w = first (is_like_of user_id candidate_id) w.swipes

-- `SwipeRepository.mutual_like_exists`.
abbrev pub mutual_like_exists : ℕ → ℕ → World → Bool
mutual_like_exists a b w = exists (is_like_of a b) w.swipes

-- `SwipeRepository.swiped_user_ids`.
abbrev pub swiped_user_ids : ℕ → World → List ℕ
swiped_user_ids user_id w =
    map (λ s. s.to_user_id) (select (λ s. s.from_user_id == user_id) w.swipes)

-- The constraint `uq_swipe_active_unique` of app/db/models/swipe.py.
abbrev pub is_same_swipe : ℕ → ℕ → SwipeAction → Swipe → Bool
is_same_swipe a b action s =
    s.from_user_id == a && s.to_user_id == b && action_index s.action == action_index action

abbrev pub new_swipe : ℕ → ℕ → ℕ → SwipeAction → ℕ → Swipe
new_swipe id a b action now = record {
  id = id;
  from_user_id = a;
  to_user_id = b;
  action = action;
  created_at = now;
}

unfoldable pub create_swipe : ℕ → ℕ → SwipeAction → ℕ → Exec Swipe
create_swipe a b action now = do
  id ← gen_uuid
  taken ← gets (λ w. exists (is_same_swipe a b action) w.swipes)
  raise_if taken (Error.fault Fault.uq_swipe)
  let s = new_swipe id a b action now
  modify (λ w. record w { swipes = add s w.swipes })
  pure s

-- `MatchRepository.normalize`: `(min(a, b), max(a, b))`.
abbrev pub normalize : ℕ → ℕ → ℕ × ℕ
normalize a b = if ltb b a then (b, a) else (a, b)

abbrev pub is_pair : ℕ × ℕ → Match → Bool
is_pair (u1, u2) m = m.user1_id == u1 && m.user2_id == u2

-- `MatchRepository.get_between`.
abbrev pub get_between : ℕ → ℕ → World → Option Match
get_between a b w = first (is_pair (normalize a b)) w.matches

abbrev pub when_active : Option Match → Option Match
when_active none = none
when_active (some m) = if is_active_match m.status then some m else none

-- `MatchRepository.get_active_between`.
abbrev pub get_active_between : ℕ → ℕ → World → Option Match
get_active_between a b w = when_active (get_between a b w)

abbrev pub is_active_match_of : ℕ → Match → Bool
is_active_match_of user_id m =
    (m.user1_id == user_id || m.user2_id == user_id) && is_active_match m.status

-- `MatchRepository.active_match_ids_for`.
abbrev pub active_match_ids_for : ℕ → World → List ℕ
active_match_ids_for user_id w = map (λ m. m.id) (select (is_active_match_of user_id) w.matches)

-- `MatchRepository.other_user_id`.
abbrev pub other_user_id : Match → ℕ → ℕ
other_user_id m me = if m.user1_id == me then m.user2_id else m.user1_id

abbrev pub new_match : ℕ → ℕ × ℕ → ℕ → Match
new_match id (u1, u2) now = record {
  id = id;
  user1_id = u1;
  user2_id = u2;
  status = MatchStatus.active;
  matched_at = now;
  unmatched_at = none;
}

-- `MatchRepository.create_between`, with the constraints `ck_match_normalized_order` and
-- `uq_match_pair` of app/db/models/match.py.
unfoldable pub create_between : ℕ → ℕ → ℕ → Exec Match
create_between a b now = do
  id ← gen_uuid
  raise_if (leb (normalize a b).1 (normalize a b).0) (Error.fault Fault.ck_match_order)
  taken ← gets (λ w. exists (is_pair (normalize a b)) w.matches)
  raise_if taken (Error.fault Fault.uq_match)
  let m = new_match id (normalize a b) now
  modify (λ w. record w { matches = add m w.matches })
  pure m

abbrev pub is_block_of : ℕ → ℕ → Block → Bool
is_block_of blocker blocked_user b = b.blocker_id == blocker && b.blocked_id == blocked_user

-- `BlockRepository.get_pair`.
abbrev pub get_block : ℕ → ℕ → World → Option Block
get_block blocker blocked_user w = first (is_block_of blocker blocked_user) w.blocks

-- `BlockRepository.blocked_ids`.
abbrev pub blocked_ids : ℕ → World → List ℕ
blocked_ids user_id w = map (λ b. b.blocked_id) (select (λ b. b.blocker_id == user_id) w.blocks)

-- `BlockRepository.who_blocked_me`.
abbrev pub who_blocked_me : ℕ → World → List ℕ
who_blocked_me user_id w = map (λ b. b.blocker_id) (select (λ b. b.blocked_id == user_id) w.blocks)
