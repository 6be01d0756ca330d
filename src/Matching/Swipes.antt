-- ===== src/Matching/Swipes.antt =====
-- `SwipeService` of app/services/swipe_service.py.
pub mod Consistent
pub mod Outcome
use matchmaking_backend.Prelude.{
  ℕ, Bool, true, false, ◌&&◌, ◌||◌, Option, none, some, String, if◌then◌else◌, ◌==◌, is_some, not,
}
use matchmaking_backend.Errors.{Error, Code}
use matchmaking_backend.Enums.{
  SwipeAction, NotificationType, is_like, is_deleted_status, is_banned_status, is_active_status,
}
use matchmaking_backend.Models.{User, Match}
use matchmaking_backend.World.{
  World, Exec, pure, or_raise, raise_if, gets, get_user, notify, ◌>>=◌, ◌>>◌,
}
use matchmaking_backend.Matching.Queries.{
  create_swipe, create_between, mutual_like_exists, liked_by, get_active_between, get_block,
}

-- The dictionary that `swipe` returns.
pub record SwipeResult : Type 0 where
  pub id : ℕ
  pub from_user_id : ℕ
  pub to_user_id : ℕ
  pub action : SwipeAction
  pub created_at : ℕ
  pub match_created : Bool
  pub match_id : Option ℕ

-- `_assert_can_interact`.
unfoldable pub assert_can_interact : User → User → Exec (Unit {0})
assert_can_interact from_user target = do
  raise_if (from_user.id == target.id) (Error.forbidden Code.self_swipe)
  raise_if (is_some target.deleted_at || is_deleted_status target.account_status)
      (Error.not_found Code.user_not_found)
  raise_if (target.is_banned || is_banned_status target.account_status)
      (Error.forbidden Code.user_banned)
  raise_if (not (is_active_status target.account_status)) (Error.forbidden Code.user_unavailable)
  blocked ← gets (λ w. is_some (get_block from_user.id target.id w))
  raise_if blocked (Error.forbidden Code.blocked)
  reverse ← gets (λ w. is_some (get_block target.id from_user.id w))
  raise_if reverse (Error.forbidden Code.blocked)

-- The duplicate protection of a LIKE or SUPER_LIKE.
unfoldable pub assert_not_liked : ℕ → ℕ → SwipeAction → Exec (Unit {0})
assert_not_liked from_id to_id action = do
  existing ← gets (λ w. is_some (liked_by from_id to_id w))
  raise_if (is_like action && existing) (Error.conflict Code.duplicate_swipe)

-- What follows a like that is returned: a match, and a notification to each of the two.
unfoldable pub make_match : ℕ → ℕ → ℕ → Exec (Option ℕ)
make_match from_id to_id now = do
  existing ← gets (λ w. is_some (get_active_between from_id to_id w))
  raise_if existing (Error.conflict Code.already_matched)
  m ← create_between from_id to_id now
  notify to_id NotificationType.new_match "New match" "You have a new match!" now
  notify from_id NotificationType.new_match "New match" "You have a new match!" now
  pure (some m.id)

-- What follows a like that is not returned yet.
abbrev notify_like : ℕ → ℕ → Exec (Option ℕ)
notify_like to_id now = do
  notify to_id NotificationType.new_like "New like" "Someone liked your profile" now
  pure none

-- The last part of `swipe`, after the swipe is stored.
unfoldable pub after_swipe : ℕ → ℕ → SwipeAction → ℕ → Exec (Option ℕ)
after_swipe from_id to_id action now = do
  liked_back ← gets (mutual_like_exists to_id from_id)
  if is_like action
      then (if liked_back then make_match from_id to_id now else notify_like to_id now)
      else pure none

-- The part of `swipe` behind its checks, which writes.
unfoldable pub store_swipe : ℕ → ℕ → SwipeAction → ℕ → Exec SwipeResult
store_swipe from_id to_id action now = do
  s ← create_swipe from_id to_id action now
  match_id ← after_swipe from_id to_id action now
  pure (record {
    id = s.id;
    from_user_id = from_id;
    to_user_id = to_id;
    action = action;
    created_at = s.created_at;
    match_created = is_some match_id;
    match_id = match_id;
  })

unfoldable pub swipe : User → ℕ → SwipeAction → ℕ → Exec SwipeResult
swipe from_user target_user_id action now = do
  found ← gets (get_user target_user_id)
  target ← or_raise found (Error.not_found Code.user_not_found)
  assert_can_interact from_user target
  assert_not_liked from_user.id target_user_id action
  store_swipe from_user.id target_user_id action now
