-- ===== src/Matching/Messages.antt =====
-- `MessageRepository` (app/repositories/message_repo.py) and `MessageService`
-- (app/services/message_service.py). The list of conversations, which reads profiles, is left out.
use matchmaking_backend.Prelude.{
  ℕ, zero, suc, if◌then◌else◌, Bool, not, ◌&&◌, ◌||◌, Option, none, some, List, [], ◌∷◌, ◌==◌,
  is_none, is_some, first, exists, update, add, String, count_where,
}
use matchmaking_backend.Errors.{Error, Code}
use matchmaking_backend.Enums.{MessageType, NotificationType}
use matchmaking_backend.Models.{User, Conversation, ConversationParticipant, Message}
use matchmaking_backend.World.{
  World, Exec, pure, or_raise, raise_if, gets, modify, gen_uuid, get_user, notify, ◌>>=◌, ◌>>◌,
}
use matchmaking_backend.Matching.Queries.{get_active_between, get_block}

abbrev pub get_conversation : ℕ → World → Option Conversation
get_conversation id w = first (λ c. c.id == id) w.conversations

abbrev pub is_participant : ℕ → ℕ → World → Bool
is_participant conversation_id user_id w =
    exists (λ p. p.conversation_id == conversation_id && p.user_id == user_id) w.participants

-- `get_conversation_with_participant`: the join of the two tables.
abbrev pub get_conversation_with_participant : ℕ → ℕ → World → Option Conversation
get_conversation_with_participant conversation_id user_id w =
    first (λ c. c.id == conversation_id && is_participant c.id user_id w) w.conversations

-- `get_direct_conversation`: a conversation in which `b` takes part and `a` does.
abbrev pub shared_participation : ℕ → ℕ → World → Option ConversationParticipant
shared_participation a b w =
    first (λ p. p.user_id == b && is_participant p.conversation_id a w) w.participants

abbrev conversation_of : Option ConversationParticipant → World → Option Conversation
conversation_of none w = none
conversation_of (some p) w = get_conversation p.conversation_id w

abbrev pub get_direct_conversation : ℕ → ℕ → World → Option Conversation
get_direct_conversation a b w = conversation_of (shared_participation a b w) w

abbrev pub add_participant : ℕ → ℕ → ℕ → Exec (Unit {0})
add_participant conversation_id user_id now = do
  id ← gen_uuid
  modify λ w. record w {
    participants =
        add
          (record {
            id = id;
            conversation_id = conversation_id;
            user_id = user_id;
            joined_at = now;
          })
          w.participants;
  }

unfoldable pub create_conversation : ℕ → ℕ → ℕ → Exec Conversation
create_conversation a b now = do
  id ← gen_uuid
  let c : Conversation = record { id = id; last_message_at = none; created_at = now }
  modify (λ w. record w { conversations = add c w.conversations })
  add_participant id a now
  add_participant id b now
  pure c

-- The clauses of `unread_count` and of `mark_conversation_read`.
abbrev pub is_unread : ℕ → ℕ → Message → Bool
is_unread conversation_id user_id m =
    m.conversation_id == conversation_id && not (m.sender_id == user_id) && is_none m.read_at

abbrev pub unread_count : ℕ → ℕ → World → ℕ
unread_count conversation_id user_id w =
    count_where (λ m. is_unread conversation_id user_id m && is_none m.deleted_at) w.messages

-- `_assert_participant`.
unfoldable pub assert_participant : ℕ → ℕ → Exec Conversation
assert_participant conversation_id user_id = do
  found ← gets (get_conversation_with_participant conversation_id user_id)
  or_raise found (Error.not_found Code.conversation_not_found)

-- `_other_participant`.
unfoldable pub other_participant : ℕ → ℕ → Exec ConversationParticipant
other_participant conversation_id me = do
  found ← gets (λ w.
      first (λ p. p.conversation_id == conversation_id && not (p.user_id == me)) w.participants)
  or_raise found (Error.forbidden Code.forbidden_code)

-- The conversation that is there already, or a new one.
abbrev or_create : Option Conversation → ℕ → ℕ → ℕ → Exec Conversation
or_create (some c) a b now = pure c
or_create none a b now = create_conversation a b now

unfoldable pub start_conversation : User → ℕ → ℕ → Exec ℕ
start_conversation user target_user_id now = do
  target ← gets (get_user target_user_id)
  raise_if (is_none target) (Error.not_found Code.user_not_found)
  m ← gets (get_active_between user.id target_user_id)
  raise_if (is_none m) (Error.forbidden Code.not_matched)
  blocked ← gets (λ w.
      is_some (get_block user.id target_user_id w) || is_some (get_block target_user_id user.id w))
  raise_if blocked (Error.forbidden Code.blocked)
  existing ← gets (get_direct_conversation user.id target_user_id)
  c ← or_create existing user.id target_user_id now
  pure c.id

-- `data.get("body") or "New message"`.
abbrev preview : Option String → String
preview none = "New message"
preview (some String.[]) = "New message"
preview (some text) = text

abbrev pub new_message : ℕ → ℕ → ℕ → MessageType → Option String → Option String → ℕ → Message
new_message id conversation_id sender_id message_type body media_url now = record {
  id = id;
  conversation_id = conversation_id;
  sender_id = sender_id;
  message_type = message_type;
  body = body;
  media_url = media_url;
  delivered_at = none;
  read_at = none;
  created_at = now;
  deleted_at = none;
}

unfoldable pub send : User → ℕ → MessageType → Option String → Option String → ℕ → Exec Message
send user conversation_id message_type body media_url now = do
  assert_participant conversation_id user.id
  id ← gen_uuid
  let message = new_message id conversation_id user.id message_type body media_url now
  modify (λ w. record w { messages = add message w.messages })
  modify (λ w. record w {
    conversations =
        update (λ c. c.id == conversation_id) (λ c. record c { last_message_at = some now })
          w.conversations;
  })
  other ← other_participant conversation_id user.id
  notify other.user_id NotificationType.new_message "New message" (preview body) now
  pure message

-- `mark_conversation_read`: the first `limit` unread messages of the others are marked.
unfoldable pub mark_unread : ℕ → ℕ → ℕ → ℕ → List Message → List Message
mark_unread zero conversation_id user_id now ms = ms
mark_unread (suc limit) conversation_id user_id now [] = []
mark_unread (suc limit) conversation_id user_id now (m ∷ ms) =
    let seen = mark_unread limit conversation_id user_id now ms in
    let skipped = mark_unread (suc limit) conversation_id user_id now ms in
    if is_unread conversation_id user_id m
    then record m { read_at = some now } ∷ seen
    else m ∷ skipped

unfoldable pub mark_read : User → ℕ → ℕ → Exec (Unit {0})
mark_read user conversation_id now = do
  assert_participant conversation_id user.id
  modify (λ w. record w { messages = mark_unread 500 conversation_id user.id now w.messages })
