-- ===== src/Tests/Matching.antt =====
-- Swipes, matches, blocks, shares, messages and roles at concrete tables.
use matchmaking_backend.Prelude.{
  String, List, insert_sorted, ascends, contains, false, arith, ℕ, ◌≡◌, ◌≤◌, refl, true, none, some,
  [], ◌∷◌, is_some, ◌-◌, sorted_set,
}
use matchmaking_backend.Errors.{is_ok}
use matchmaking_backend.Enums.{
  SwipeAction, MatchStatus, UserRole, SharePermission, MessageType, role_index,
}
use matchmaking_backend.Models.{
  User, Swipe, Match, Message, Conversation, ConversationParticipant, ProfileShare, Block,
}
use matchmaking_backend.World.{World}
use matchmaking_backend.Access.Permissions.{all_permissions, permissions_for_role_default}
use matchmaking_backend.Access.Roles.{
  or_default, permissions_for_role, set_permissions_for_role, add_rows,
}
use matchmaking_backend.Access.Permissions.{all_permissions}
use matchmaking_backend.Access.Roles.Grants.{
  asked, set_permissions_reads, set_permissions_of_others,
}
use matchmaking_backend.Access.Roles.SuperAdmin.{IsFull, set_permissions-IsFull}
use matchmaking_backend.Matching.Requests.{Request, run, run-IsConsistent}
use matchmaking_backend.Matching.Swipes.{swipe}
use matchmaking_backend.Matching.Swipes.Consistent.{IsConsistent}
use matchmaking_backend.Matching.Swipes.Outcome.{Answers, swipe-Answers}
use matchmaking_backend.Matching.Blocks.{block, store_block, create_block}
use matchmaking_backend.Matching.Blocks.Effect.{IsCut, block-IsCut}
use matchmaking_backend.Matching.Matches.{block_and_unmatch}
use matchmaking_backend.Matching.Queries.{get_active_between, get_block}
use matchmaking_backend.Matching.Shares.{
  ℤ, revoke_share, create_share, insert_share, has_active_share,
}
use matchmaking_backend.Matching.Sharing.{create_share-has_active_share, create_share_again}
use matchmaking_backend.Matching.Messages.{
  mark_read, mark_unread, unread_count, start_conversation, create_conversation, send,
  assert_participant,
}
use matchmaking_backend.Matching.Messaging.{
  mark_read-unread_count, start_conversation_allowed, send_ignores_matches,
}
use matchmaking_backend.Tests.Fixtures.{empty_world, user_of}

abbrev ann : User
ann = user_of 1 UserRole.user

abbrev bob : User
bob = user_of 2 UserRole.user

abbrev like_of : ℕ → ℕ → Swipe
like_of a b = record {
  id = a;
  from_user_id = a;
  to_user_id = b;
  action = SwipeAction.like;
  created_at = 0;
}

-- Bob likes Ann.
abbrev liked_world : World
liked_world = record empty_world { users = ann ∷ bob ∷ []; swipes = like_of 2 1 ∷ [] }

run-IsConsistent_example :
    IsConsistent (run liked_world ((5, Request.create_swipe ann 2 SwipeAction.like) ∷ []))
run-IsConsistent_example =
    run-IsConsistent liked_world ((5, Request.create_swipe ann 2 SwipeAction.like) ∷ []) tt

swipe-Answers_example :
    Answers 1 2 SwipeAction.like 5 liked_world (swipe ann 2 SwipeAction.like 5 liked_world)
swipe-Answers_example = swipe-Answers ann 2 SwipeAction.like 5 liked_world tt

abbrev ann_and_bob : Match
ann_and_bob = record {
  id = 9;
  user1_id = 1;
  user2_id = 2;
  status = MatchStatus.active;
  matched_at = 0;
  unmatched_at = none;
}

-- Ann and Bob have a match.
abbrev matched_world : World
matched_world = record liked_world {
  swipes = like_of 1 2 ∷ like_of 2 1 ∷ [];
  matches = ann_and_bob ∷ [];
}

block-IsCut_example : IsCut 1 2 (block ann 2 5 matched_world).1
unfolding block store_block create_block block_and_unmatch
block-IsCut_example =
    block-IsCut ann 2 5 matched_world
      {k = record { id = 1000; blocker_id = 1; blocked_id = 2; created_at = 5 }} refl

abbrev first_share : ProfileShare
first_share = record {
  id = 1000;
  owner_user_id = 1;
  shared_with_user_id = 2;
  permission = SharePermission.view;
  expires_at = some 86405;
  revoked_at = none;
  created_at = 5;
}

create_share-has_active_share_example :
    has_active_share 1 2 90000
      (create_share ann 2 SharePermission.view (some (ℤ.pos 1)) 5 liked_world).1
    ≡ false
unfolding create_share insert_share
create_share-has_active_share_example =
    create_share-has_active_share ann 2 SharePermission.view (some (ℤ.pos 1)) 5 90000 liked_world
      {s = first_share} (omega arith) (omega arith) refl

create_share_again_example :
    is_ok
      (create_share ann 2 SharePermission.view none 7
        (revoke_share ann 1000 6
          (create_share ann 2 SharePermission.view (some (ℤ.pos 1)) 5 liked_world).1).1).0
    ≡ false
unfolding create_share insert_share
create_share_again_example =
    create_share_again ann ann 2 1000 SharePermission.view SharePermission.view (some (ℤ.pos 1))
      none 5 6 7 liked_world {s = first_share} refl

abbrev chat : Conversation
chat = record { id = 4; last_message_at = none; created_at = 0 }

abbrev part_of : ℕ → ConversationParticipant
part_of u = record { id = u; conversation_id = 4; user_id = u; joined_at = 0 }

abbrev hello : Message
hello = record {
  id = 6;
  conversation_id = 4;
  sender_id = 2;
  message_type = MessageType.text;
  body = some "hello";
  media_url = none;
  delivered_at = none;
  read_at = none;
  created_at = 0;
  deleted_at = none;
}

abbrev chat_world : World
chat_world = record matched_world {
  conversations = chat ∷ [];
  participants = part_of 1 ∷ part_of 2 ∷ [];
  messages = hello ∷ [];
}

mark_read-unread_count_example : unread_count 4 1 (mark_read ann 4 5 chat_world).1 ≤ 1 - 500
unfolding mark_read assert_participant mark_unread
mark_read-unread_count_example = mark_read-unread_count ann 4 5 chat_world refl

start_conversation_allowed_example :
    (is_some (get_active_between 1 2 matched_world) ≡ true)
    × (get_block 1 2 matched_world ≡ none)
    × (get_block 2 1 matched_world ≡ none)
unfolding start_conversation create_conversation
start_conversation_allowed_example =
    start_conversation_allowed ann 2 5 matched_world {id = 1000} refl

abbrev bob_blocks_ann : Block
bob_blocks_ann = record { id = 8; blocker_id = 2; blocked_id = 1; created_at = 0 }

send_ignores_matches_example :
    (send ann 4 MessageType.text
      (some "hi")
      none
      5
      (record chat_world { matches = []; blocks = bob_blocks_ann ∷ [] })).0
    ≡ (send ann 4 MessageType.text (some "hi") none 5 chat_world).0
send_ignores_matches_example =
    send_ignores_matches ann 4 MessageType.text (some "hi") none 5 chat_world []
      (bob_blocks_ann ∷ [])

abbrev root : User
root = user_of 3 UserRole.super_admin

set_permissions-IsFull_example :
    IsFull (set_permissions_for_role root UserRole.super_admin [] 5 empty_world).1
unfolding permissions_for_role all_permissions permissions_for_role_default
set_permissions-IsFull_example =
    set_permissions-IsFull root [] 5 empty_world refl UserRole.super_admin

abbrev asked_for : List String
asked_for = "users.read" ∷ "photos.moderate" ∷ "users.read" ∷ []

abbrev answered : List String
answered = "photos.moderate" ∷ "users.read" ∷ []

set_permissions_reads_example :
    (ascends answered ≡ true)
    × (contains "users.read" answered ≡ contains "users.read" (asked UserRole.moderator asked_for))
    × (permissions_for_role UserRole.moderator
          (set_permissions_for_role root UserRole.moderator asked_for 5 empty_world).1
        ≡ or_default UserRole.moderator answered)
unfolding set_permissions_for_role add_rows sorted_set insert_sorted all_permissions
set_permissions_reads_example =
    set_permissions_reads root UserRole.moderator asked_for 5 "users.read" empty_world
      {given = answered} refl

set_permissions_of_others_example :
    permissions_for_role UserRole.support
      (set_permissions_for_role root UserRole.moderator [] 5 empty_world).1
    ≡ permissions_for_role UserRole.support empty_world
unfolding role_index
set_permissions_of_others_example =
    set_permissions_of_others root UserRole.moderator UserRole.support [] 5 empty_world refl
