-- ===== src/Models/Social.antt =====
-- Rows of app/db/models/swipe.py, match.py, moderation.py (blocks), share.py, message.py and
-- notification.py.
use matchmaking_backend.Prelude.{ℕ, Bool, Option, String}
use matchmaking_backend.Models.Accounts.{JsonDict}
use matchmaking_backend.Enums.{
  SwipeAction, MatchStatus, SharePermission, MessageType, NotificationType,
}

pub record Swipe : Type 0 where
  pub id : ℕ
  pub from_user_id : ℕ
  pub to_user_id : ℕ
  pub action : SwipeAction
  pub created_at : ℕ

pub record Match : Type 0 where
  pub id : ℕ
  pub user1_id : ℕ
  pub user2_id : ℕ
  pub status : MatchStatus
  pub matched_at : ℕ
  pub unmatched_at : Option ℕ

pub record Block : Type 0 where
  pub id : ℕ
  pub blocker_id : ℕ
  pub blocked_id : ℕ
  pub created_at : ℕ

pub record ProfileShare : Type 0 where
  pub id : ℕ
  pub owner_user_id : ℕ
  pub shared_with_user_id : ℕ
  pub permission : SharePermission
  pub expires_at : Option ℕ
  pub revoked_at : Option ℕ
  pub created_at : ℕ

pub record Conversation : Type 0 where
  pub id : ℕ
  pub last_message_at : Option ℕ
  pub created_at : ℕ

pub record ConversationParticipant : Type 0 where
  pub id : ℕ
  pub conversation_id : ℕ
  pub user_id : ℕ
  pub joined_at : ℕ

pub record Message : Type 0 where
  pub id : ℕ
  pub conversation_id : ℕ
  pub sender_id : ℕ
  pub message_type : MessageType
  pub body : Option String
  pub media_url : Option String
  pub delivered_at : Option ℕ
  pub read_at : Option ℕ
  pub created_at : ℕ
  pub deleted_at : Option ℕ

pub record Notification : Type 0 where
  pub id : ℕ
  pub user_id : ℕ
  pub type : NotificationType
  pub title : Option String
  pub body : Option String
  pub data_ : JsonDict
  pub is_read : Bool
  pub read_at : Option ℕ
  pub created_at : ℕ
